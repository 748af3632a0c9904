-- ===== src/Target/Pypsa/Checks/Accepted.antt =====
-- The jobs that `ValidateJob` of internal/target/pypsa/pypsa.go accepts.
use meme.Base.{◌≡◌, refl, false, some, List, [], ◌∷◌, In, Float64, Text, lookup}
use meme.Model.Types.{Storage, CostClass, Technology, Transmission}
use meme.Model.Run.{Job}
use meme.Model.Run.Modes.{effective_mode}
use meme.Model.Overrides.{tech_at}
use meme.Model.Checks.{Problem}
use meme.Model.Validate.Each.{each_entry, append-nil_left, append-nil_right, each_entry-nil_iff}
use meme.Emit.Capex.{Powers}
use meme.Target.Gates.{accepted}
use meme.Target.Gates.Warnings.{first_or}
use meme.Target.Pypsa.Checks.Fields.{
  field_problems, systemwide_problems, storage_problems, arc_field_problems,
}
use meme.Target.Pypsa.Checks.Runs.{prices_purchase, purchase_problems, subset_problems}
use meme.Target.Pypsa.Checks.{
  run_problems, component_problems, job_problems, job_warnings, validate_job,
}
use meme.Target.Pypsa.Checks.Runnable.{IsRunnable, run-IsRunnable}
use meme.Target.Pypsa.Checks.Encodable.{
  IsEncodableTech, IsEncodableStorage, IsEncodableArc, tech-IsEncodableTech, arc-IsEncodableArc,
  storage-IsEncodableStorage, no_purchase,
}

module _ (fl : Float64) where
  open fl use {F}

  -- What the whole job is
  pub record IsEncodable (j : Job F) : Type 0 where
    pub runnable : IsRunnable fl j
    pub techs :
        (id : Text) (t : Technology F)
        → lookup id j.model.technologies ≡ some t
        → IsEncodableTech (effective_mode j.experiment) t
    pub storages :
        (id : Text) (t : Technology F) (s : Storage F)
        → lookup id j.model.technologies ≡ some t
        → t.storage ≡ some s
        → IsEncodableStorage (effective_mode j.experiment) t s
    pub arcs :
        (id : Text) (l : Transmission F)
        → lookup id j.model.transmission ≡ some l
        → IsEncodableArc l
    pub unpurchased :
        (id : Text) (t : Technology F) (n class : Text) (c : CostClass F)
        → lookup id j.model.technologies ≡ some t
        → In n t.node
        → lookup class (tech_at t n).costs ≡ some c
        → prices_purchase c ≡ false

  job-IsEncodable : (j : Job F) → job_problems fl j ≡ [] → IsEncodable j
  unfolding job_problems component_problems run_problems
  job-IsEncodable j h =
      let mode = effective_mode j.experiment in
      let run : run_problems fl j ≡ [] = append-nil_left _ _ h in
      let h1 = append-nil_right (run_problems fl j) _ h in
      let h2 = append-nil_right (each_entry field_problems j.model.technologies) _ h1 in
      let h3 = append-nil_right (each_entry (systemwide_problems mode) j.model.technologies) _ h2 in
      let h4 = append-nil_right (each_entry (storage_problems mode) j.model.technologies) _ h3 in
      let fields =
        (each_entry-nil_iff field_problems j.model.technologies).0 (append-nil_left _ _ h1) in
      let bounds =
        (each_entry-nil_iff (systemwide_problems mode) j.model.technologies).0
          (append-nil_left _ _ h2) in
      let storages =
        (each_entry-nil_iff (storage_problems mode) j.model.technologies).0
          (append-nil_left _ _ h3) in
      let arcs = (each_entry-nil_iff arc_field_problems j.model.transmission).0 h4 in
      let purchases =
        (each_entry-nil_iff purchase_problems j.model.technologies).0
          (append-nil_left _ _ (append-nil_right (subset_problems j.model) _ run)) in
      record {
        runnable = run-IsRunnable fl j run;
        techs = λ id t e. tech-IsEncodableTech mode id t (fields id t e) (bounds id t e);
        storages = λ id t s e. storage-IsEncodableStorage mode id t s (storages id t e);
        arcs = λ id l e. arc-IsEncodableArc id l (arcs id l e);
        unpurchased = λ id t n class c e. no_purchase id t n class c (purchases id t e);
      }

  -- What the PyPSA target accepts. Of the run: time.subset is empty; in mode operate no technology's or
  -- arc's base capacity is expandable, and there are no constraints and no emission limits; in mode
  -- stochastic there are scenarios, each with a name, a weight that is not negative and a translation,
  -- and no constraints; in mode power_flow the network can be solved (IsSolvable), and in another mode
  -- under linear_power_flow it is lawful (IsLawful); copperplate is set with neither of them; enabled
  -- unmet demand has a price, and emissions are not counted positive_only; a constraint that is no
  -- GlobalConstraint has no emissions term; a quadratic cost beside integer variables (both of the base
  -- fields) has the solver gurobi; with investment periods the mode is plan, a base capacity that exists
  -- and may grow retires continuously, and no Store and no arc is expandable. Of the components: the
  -- base fields of each technology, its storage and each arc that `ValidateJob` checks are such that a
  -- component can have them (an override may still set them, it is not checked); and no cost class has a
  -- purchase cost at any node of its technology, overrides included.
  pub validate_job-IsEncodable :
      (ps : Powers fl) (j : Job F) (warnings : List Problem)
      → validate_job fl ps j ≡ accepted warnings
      → IsEncodable j
  unfolding validate_job first_or
  validate_job-IsEncodable ps j warnings h = job-IsEncodable j (no_problem (job_problems fl j) h)
    where
      no_problem :
          (qs : List Problem) → first_or fl qs (job_warnings fl ps j) ≡ accepted warnings → qs ≡ []
      no_problem [] e = refl
      no_problem (q ∷ qs) e = cc
