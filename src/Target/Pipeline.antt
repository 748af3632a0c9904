-- ===== src/Target/Pipeline.antt =====
-- `ValidateFor` of internal/target/validate.go: the checks of a job for one target, in their order, with
-- the job as the interning of its series leaves it. A target's `ValidateJob` is a parameter.
pub mod Accepted
pub mod Again
use meme.Base.{Option, none, some, List, [], ◌∷◌, ◌++◌, map, Float64, Text}
use meme.Model.Dates.{Dates}
use meme.Model.Run.{Job}
use meme.Model.Run.Modes.{option_warnings}
use meme.Model.Run.Validate.{validate_experiment}
use meme.Model.Checks.{Problem}
use meme.Model.Intern.{intern_inline_series}
use meme.Model.Validate.{validate_model}
use meme.Model.Uses.{native_warnings}
use meme.Emit.Series.{series_length_mismatches}
use meme.Target.Registry.{Target, Registry, for_target, names}
use meme.Target.Gates.{Verdict, accepted, rejected}
use meme.Target.Gates.Warnings.{validate_generic}

-- A warning, by the check that it comes from
pub data Warning : Type 0 where
  short_series : Text → Warning
  ignored_option : Text → Text → Warning
  of_gates : Problem → Warning
  of_hook : Text → Warning
  of_native : Problem → Warning

-- Why a job is rejected
pub data Rejection : Type 0 where
  unknown_target : Text → Rejection
  reserved_series : Text → Rejection
  bad_model : List Problem → Rejection
  bad_experiment : List Problem → Rejection
  unsupported : Problem → Rejection
  hook_failed : Text → Rejection

-- `strconv.Quote` of a series' id, and a target's `ValidateJob`, with its warnings and its error
pub record Hooks (F : Type 0) : Type 0 where
  pub quote : Text → Text
  pub validate_job : Text → Job F → List Text × Option Text

-- The job, its warnings and the error
abbrev pub Checked : Type 0 → Type 0
Checked F = Job F × List Warning × Option Rejection

module _ (fl : Float64) (dates : Dates) where
  open fl use {F}

  module _ (hooks : Hooks F) (r : Registry) where
    open hooks use {quote, validate_job}

    -- What `ValidateFor` gives after the target's own hook
    after_hook : Text → Job F → List Warning → List Text × Option Text → Checked F
    after_hook name j ws (hook, some e) = (j, ws ++ map of_hook hook, some (hook_failed e))
    after_hook name j ws (hook, none) =
        (j, (ws ++ map of_hook hook) ++ map of_native (native_warnings name j (names r)), none)

    after_gates : Text → Job F → List Warning → Verdict → Checked F
    unfolding after_hook
    after_gates name j ws (rejected p) = (j, ws, some (unsupported p))
    after_gates name j ws (accepted gates) =
        after_hook name j (ws ++ map of_gates gates) (validate_job name j)

    early_warnings : Job F → List Warning
    early_warnings j =
        map short_series (series_length_mismatches quote j.model)
        ++ map (λ (what, why). ignored_option what why) (option_warnings j.experiment)

    after_experiment : Target → Job F → List Problem → Checked F
    unfolding after_gates early_warnings
    after_experiment t j (p ∷ ps) = (j, [], some (bad_experiment (p ∷ ps)))
    after_experiment t j [] =
        after_gates t.name j (early_warnings j) (validate_generic fl t.capabilities t.name j)

    after_model : Target → Job F → List Problem → Checked F
    unfolding after_experiment
    after_model t j (p ∷ ps) = (j, [], some (bad_model (p ∷ ps)))
    after_model t j [] = after_experiment t j (validate_experiment fl j.experiment)

    pub after_intern : Target → Job F → Option Text → Checked F
    unfolding after_model
    after_intern t j (some id) = (j, [], some (reserved_series id))
    after_intern t j none = after_model t j (validate_model fl dates j.model)

    for_known : Text → Job F → Option Target → Checked F
    unfolding after_intern
    for_known name j none = (j, [], some (unknown_target name))
    for_known name j (some t) =
        let interned = intern_inline_series j.model in
        after_intern t (record j { model = interned.0 }) interned.1

    -- `ValidateFor`
    unfoldable pub validate_for : Job F → Text → Checked F
    unfolding for_known
    validate_for j name = for_known name j (for_target r name)
