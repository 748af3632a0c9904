-- ===== src/Model/Uses.antt =====
-- Which parts of the model use a feature: `HasUCExtras` (internal/model/model.go), `FirstMultiIndexed`
-- and `NativeWarnings` (internal/model/validate.go), `For` (internal/model/native_model.go).
use meme.Base.{
  Bool, false, not, ◌&&◌, ◌||◌, Option, none, some, List, [], ◌∷◌, ◌++◌, if◌then◌else◌, ltb, length,
  Text, codes, str_eq,
}
use meme.Model.Types.{IndexedParam, Value, Native, Operation, Model}
use meme.Model.Run.{Job}
use meme.Model.Checks.{Problem, report, given}
use meme.Model.Validate.Each.{each, each_entry}
use meme.Model.Validate.Slots.{override_place, tech_values, override_values}

-- The warning that the target's own blocks are used
abbrev locked_warning : Text → List Problem → List Problem
locked_warning target [] = []
locked_warning target (mark ∷ marks) =
    (
      target,
      codes
          "payload uses native.%s overrides — the emitted model is specific to %q and not portable to other targets",
    )
    ∷ []

module _ {F : Type 0} where
  -- `HasUCExtras`
  unfoldable pub has_uc_extras : Option (Operation F) → Bool
  has_uc_extras none = false
  has_uc_extras (some op) =
      given op.ramp_start_up
      || (given op.ramp_shut_down
          || (given op.standby_cost || (given op.initial_uptime || given op.initial_downtime)))

  many_entries : Option (IndexedParam F) → Bool
  many_entries none = false
  many_entries (some ip) = ltb 1 (length ip.values)

  -- `v.IsIndexed() && len(v.Indexed.Data) > 1`
  unfoldable pub multi_indexed : Option (Value F) → Bool
  unfolding many_entries
  multi_indexed none = false
  multi_indexed (some v) = many_entries v.indexed

  -- A loop over values that looks for one with several entries
  unfoldable pub multi_problems : Text → List (Option (Value F)) → List Problem
  unfolding multi_indexed
  multi_problems place = each λ v. report place (
      (
        multi_indexed v,
        codes "is a multi-valued indexed parameter, which target %q cannot represent",
      )
      ∷ [])

  -- `FirstMultiIndexed` returns at the first of these.
  unfoldable pub multi_indexed_problems : Model F → List Problem
  unfolding multi_problems
  multi_indexed_problems m =
      each_entry
        (λ id t.
          multi_problems (codes "tech " ++ id) (tech_values t)
          ++ each_entry (λ nid ov. multi_problems (override_place id nid) (override_values ov))
              t.node_overrides)
        m.technologies

  native_block : Text → Native F → Text
  native_block target n =
      if str_eq target (codes "pypsa")
      then n.pypsa
      else if str_eq target (codes "calliope")
      then n.calliope
      else if str_eq target (codes "calliope-0.6")
      then n.calliope06
      else if str_eq target (codes "adopt-net0")
      then n.adopt
      else []

  -- `For`; no block is empty
  unfoldable pub native_for : Text → Option (Native F) → Text
  unfolding native_block
  native_for target none = []
  native_for target (some n) = native_block target n

  abbrev has_block : Text → Option (Native F) → Bool
  has_block target n = ltb 0 (length (native_for target n))

  -- The loop of `check` over the other targets
  unfoldable pub ignored_blocks : Text → Text → Option (Native F) → List Text → List Problem
  unfolding native_for
  ignored_blocks target what n [] = []
  ignored_blocks target what n (other ∷ others) =
      report what (
        (
          not (str_eq other target) && has_block other n,
          codes "native.%s block is ignored when emitting for %q",
        )
        ∷ [])
      ++ ignored_blocks target what n others

  -- `check`: the warnings about one block, and behind them a mark if the target's own block is used.
  abbrev native_of :
      {V : Type 0}
      → (V → Option (Native F))
      → (Text → Option (Native F) → List Problem)
      → Text
      → Text
      → V
      → List Problem
  native_of native check kind id v = check (kind ++ id) (native v)

  -- All blocks of the job, in the order of the code, each put to a check
  unfoldable pub each_native : (Text → Option (Native F) → List Problem) → Job F → List Problem
  each_native check j =
      check (codes "model") j.model.native
      ++ (check (codes "experiment") j.experiment.native
          ++ (each_entry (native_of (λ t. t.native) check (codes "tech ")) j.model.technologies
              ++ (each_entry (native_of (λ l. l.native) check (codes "transmission "))
                    j.model.transmission
                  ++ (each_entry (native_of (λ tr. tr.native) check (codes "trade ")) j.model.trade
                      ++ (each_entry (native_of (λ n. n.native) check (codes "node ")) j.model.nodes
                          ++ each_entry (native_of (λ c. c.native) check (codes "carrier "))
                              j.model.carriers)))))

  -- A mark of each block of the target itself, which sets `locked`
  unfoldable pub own_block : Text → Text → Option (Native F) → List Problem
  unfolding native_for
  own_block target what n = report what ((has_block target n, codes "locked") ∷ [])

  -- `NativeWarnings`
  unfoldable pub native_warnings : Text → Job F → List Text → List Problem
  unfolding ignored_blocks each_native own_block
  native_warnings target j targets =
      each_native (λ what n. ignored_blocks target what n targets) j
      ++ locked_warning target (each_native (own_block target) j)
