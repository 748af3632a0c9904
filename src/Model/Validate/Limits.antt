-- ===== src/Model/Validate/Limits.antt =====
-- The checks of constraints, trade and emission limits in Model.Validate.
pub mod Names
use meme.Base.{
  ℕ, suc, Bool, true, false, not, ◌&&◌, ◌||◌, Option, none, some, List, [], ◌∷◌, ◌++◌,
  if◌then◌else◌, Float64, Text, codes, str_eq, itoa, Map, has_key,
}
use meme.Model.Types.{Value, Term, Constraint, TradeSide, Trade, EmissionLimit, Model}
use meme.Model.Values.{reduce}
use meme.Model.Enums.{valid_sense, valid_variable}
use meme.Model.Checks.{Problem, report, given, negative}
use meme.Model.Validate.Each.{each, each_entry, seen_in}
use meme.Model.Validate.Times.{has_series}
use meme.Model.Validate.Slots.{carrier_problems}
use meme.Model.Validate.Techs.{no_element}

-- `checkName`: a name that is not empty and was seen is a problem; otherwise it is seen from now on.
unfoldable pub check_name : List Text → Text → List (Bool × Text)
check_name seen name =
    (not (str_eq name []) && seen_in name seen, codes "name %q is already used by %s") ∷ []

unfoldable pub see_name : List Text → Text → List Text
see_name seen name = if str_eq name [] then seen else name ∷ seen

-- `constraints[%d]`
abbrev pub indexed : Text → ℕ → Text
indexed name i = name ++ codes "[" ++ itoa i ++ codes "]"

-- A loop that asks for the ids of a list
unfoldable pub missing_problems : {V : Type 0} → Text → Text → Map V → List Text → List Problem
missing_problems place message entries =
    each λ id. report place ((not (has_key id entries), message) ∷ [])

module _ {F : Type 0} where
  -- The checks of one term
  unfoldable pub term_problems : Text → Model F → Term F → List Problem
  unfolding missing_problems
  term_problems place m term =
      report place ((not (valid_variable term.variable), codes "variable %q is invalid") ∷ [])
      ++ (missing_problems place (codes "tech %q not defined") m.technologies term.techs
          ++ (missing_problems place (codes "carrier %q not defined") m.carriers term.carriers
              ++ missing_problems place (codes "node %q not defined") m.nodes term.nodes))

  -- The checks of one constraint behind its name
  unfoldable pub constraint_problems : Text → Model F → Constraint F → List Problem
  unfolding term_problems
  constraint_problems place m c =
      report place (
        (not (valid_sense c.sense), codes "sense %q must be one of <=, >=, ==")
        ∷ (no_element c.terms, codes "has no terms")
        ∷ [])
      ++ each (term_problems place m) c.terms

  -- The loop over the constraints; `seen` are the names before, and `i` the index.
  unfoldable pub each_constraint : Model F → List Text → ℕ → List (Constraint F) → List Problem
  unfolding check_name see_name constraint_problems
  each_constraint m seen i [] = []
  each_constraint m seen i (c ∷ cs) =
      let place = indexed (codes "constraints") i in
      report place (check_name seen c.name)
      ++ (constraint_problems place m c ++ each_constraint m (see_name seen c.name) (suc i) cs)

  -- `seenNames` behind the constraints
  unfoldable pub constraint_names : List Text → List (Constraint F) → List Text
  unfolding see_name
  constraint_names seen [] = seen
  constraint_names seen (c ∷ cs) = constraint_names (see_name seen c.name) cs

  -- The loop over the emission limits
  unfoldable pub each_limit : List Text → ℕ → List (EmissionLimit F) → List Problem
  unfolding check_name see_name
  each_limit seen i [] = []
  each_limit seen i (el ∷ els) =
      let place = indexed (codes "emission_limits") i in
      report place (check_name seen el.name)
      ++ (report place
            ((not (valid_sense el.sense), codes "sense %q must be one of <=, >=, ==") ∷ [])
          ++ each_limit (see_name seen el.name) (suc i) els)

module _ (fl : Float64) where
  open fl use {F}

  -- The checks of one side of a trade
  unfoldable pub side_checks : Model F → Option (TradeSide F) → List (Bool × Text)
  side_checks m none = []
  side_checks m (some side) =
      (not (has_series m.timeseries side.price), codes "%s price series %q not defined")
      ∷ (not (has_series m.timeseries side.limit), codes "%s limit series %q not defined")
      ∷ (negative fl (reduce side.limit), codes "%s limit must not be negative")
      ∷ []

  -- The checks of one trade
  unfoldable pub trade_problems : Model F → Text → Trade F → List Problem
  unfolding side_checks
  trade_problems m id tr =
      let place = codes "trade " ++ id in
      report place (
        (not (has_key tr.node m.nodes), codes "node %q not defined")
        ∷ (not (has_key tr.carrier m.carriers), codes "carrier %q not defined")
        ∷ (
          not (given tr.import_side) && not (given tr.export_side),
          codes "neither import nor export is defined",
        )
        ∷ [])
      ++ (report place (side_checks m tr.import_side)
          ++ report place (side_checks m tr.export_side))
