-- ===== src/Target/Pipeline/Accepted.antt =====
-- What `ValidateFor` promises of a job that it accepts.
use meme.Base.{◌≡◌, refl, Option, none, some, List, [], ◌∷◌, ◌++◌, map, Float64, Text}
use meme.Model.Dates.{Dates}
use meme.Model.Run.{Job}
use meme.Model.Run.Validate.{validate_experiment}
use meme.Model.Checks.{Problem}
use meme.Model.Intern.Interned.{Interned}
use meme.Model.Validate.{validate_model}
use meme.Target.Registry.{Target, Registry}
use meme.Target.Gates.{Verdict, accepted, rejected}
use meme.Target.Gates.Warnings.{validate_generic}
use meme.Target.Gates.Honored.{IsHonored, validate_generic-IsHonored}
use meme.Target.Pipeline.{
  Warning, Hooks, Checked, of_gates, after_hook, after_gates, after_experiment, after_model,
  after_intern,
}

abbrev Accepts : {F : Type 0} → Checked F → Type 0
Accepts c = c.2 ≡ none

module _ (fl : Float64) (dates : Dates) where
  open fl use {F}

  -- A job that the target can run: interned where the walk goes, valid, and with nothing that the gates
  -- ask for and the target does not claim
  pub record IsAccepted (t : Target) (j : Job F) : Type 0 where
    pub interned : Interned j.model
    pub model_valid : validate_model fl dates j.model ≡ []
    pub experiment_valid : validate_experiment fl j.experiment ≡ []
    pub honored : IsHonored t.capabilities j

  module _ (hooks : Hooks F) (r : Registry) where
    gates_job :
        (name : Text) (j : Job F) (ws : List Warning) (v : Verdict)
        → (after_gates fl dates hooks r name j ws v).0 ≡ j
    unfolding after_gates after_hook
    gates_job name j ws (rejected p) = refl
    gates_job name j ws (accepted gates) = hook_job (hooks.validate_job name j)
      where
        hook_job :
            (o : List Text × Option Text)
            → (after_hook fl dates hooks r name j (ws ++ map of_gates gates) o).0 ≡ j
        hook_job (hook, none) = refl
        hook_job (hook, some e) = refl

    gates_accepted :
        (name : Text) (j : Job F) (ws : List Warning) (v : Verdict)
        → (after_gates fl dates hooks r name j ws v).2 ≡ none
        → (gates : List Problem) × (v ≡ accepted gates)
    unfolding after_gates
    gates_accepted name j ws (rejected p) h = cc
    gates_accepted name j ws (accepted gates) h = (gates, refl)

    -- The job behind the checks is the interned one, whatever they say.
    pub intern_job :
        (t : Target) (j : Job F) (e : Option Text) → (after_intern fl dates hooks r t j e).0 ≡ j
    unfolding after_intern after_model after_experiment
    intern_job t j (some id) = refl
    intern_job t j none = model_job (validate_model fl dates j.model)
      where
        experiment_job : (ps : List Problem) → (after_experiment fl dates hooks r t j ps).0 ≡ j
        experiment_job (p ∷ ps) = refl
        experiment_job [] = gates_job t.name j _ (validate_generic fl t.capabilities t.name j)

        model_job : (ps : List Problem) → (after_model fl dates hooks r t j ps).0 ≡ j
        model_job (p ∷ ps) = refl
        model_job [] = experiment_job (validate_experiment fl j.experiment)

    pub intern-IsAccepted :
        (t : Target) (j : Job F) (e : Option Text)
        → Interned j.model
        → (after_intern fl dates hooks r t j e).2 ≡ none
        → (e ≡ none) × IsAccepted t j
    unfolding after_intern after_model after_experiment
    intern-IsAccepted t j (some id) i h = cc
    intern-IsAccepted t j none i h = (refl, model_accepted (validate_model fl dates j.model) refl h)
      where
        experiment_accepted :
            (ps : List Problem)
            → validate_model fl dates j.model ≡ []
            → validate_experiment fl j.experiment ≡ ps
            → (after_experiment fl dates hooks r t j ps).2 ≡ none
            → IsAccepted t j
        experiment_accepted (p ∷ ps) m e h = cc
        experiment_accepted [] m e h =
            let (gates, g) =
              gates_accepted t.name j _ (validate_generic fl t.capabilities t.name j) h in
            record {
              interned = i;
              model_valid = m;
              experiment_valid = e;
              honored = validate_generic-IsHonored t.capabilities fl t.name j gates g;
            }

        model_accepted :
            (ps : List Problem)
            → validate_model fl dates j.model ≡ ps
            → (after_model fl dates hooks r t j ps).2 ≡ none
            → IsAccepted t j
        model_accepted (p ∷ ps) m h = cc
        model_accepted [] m h = experiment_accepted (validate_experiment fl j.experiment) m refl h
