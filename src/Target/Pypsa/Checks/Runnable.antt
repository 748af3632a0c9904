-- ===== src/Target/Pypsa/Checks/Runnable.antt =====
-- What `ValidateJob` of internal/target/pypsa/pypsa.go makes sure of in a run.
use meme.Base.{
  ◌≡◌, refl, true, false, ◌&&◌, ◌||◌, arith, Option, none, some, some_injective, List, [], In,
  Float64, Text, codes, str_eq, is_some, lookup,
}
use meme.Model.Types.{Capacity, Technology, Transmission, Term, Constraint, Model}
use meme.Model.Run.{AllowUnmetDemand, Scenario, Job}
use meme.Model.Run.Modes.{plan_mode, power_flow_mode, effective_network, effective_mode}
use meme.Model.Enums.{linear_power_flow}
use meme.Model.Periods.{investment_periods}
use meme.Model.Checks.{report, given}
use meme.Target.Pypsa.Planning.{decommission_mode}
use meme.Model.Validate.Each.{
  each, each_entry, append-nil_left, append-nil_right, passed, report-nil_iff, each-nil_at,
  each_entry-nil_iff, true_of_not,
}
use meme.Target.Gates.{mode_place}
use meme.Target.Gates.Uses.{expandable_cap}
use meme.Target.Pypsa.Scenarios.{Attempt, failed, translated, ScenarioSet, scenario_sets}
use meme.Target.Pypsa.Flow.{power_flow_problems}
use meme.Target.Pypsa.Flow.Solvable.{IsSolvable, power_flow_problems-IsSolvable}
use meme.Target.Pypsa.Checks.Fields.{
  is_store, energy_expandable, tech_place, arc_place, operate, stochastic,
}
use meme.Target.Pypsa.Checks.Runs.{
  solver_name, gurobi, has_quad, has_int, purchase_problems, unpriced, fixed_tech, fixed_arc,
  accounting_problems, subset_problems, operate_problems, solver_problems, switch_problems,
}
use meme.Target.Pypsa.Checks.Modes.{
  stochastic_checks, scenarios_given, emission_terms, grown, period_tech_problems,
  period_arc_problem, period_mode, untranslated, scenario_problems, stochastic_problems,
  problems_in, mode_problems, scope_problems, planning_problems,
}
use meme.Target.Pypsa.Checks.{run_problems}
use meme.Target.Pypsa.Checks.Encodable.{second_holds, second_fails}
use meme.Model.Validate.Techs.{no_element}
use meme.Target.Pypsa.Buses.{global_type}
use meme.Target.Pypsa.Network.Lawful.{IsLawful, linear_problems-IsLawful}

module _ (fl : Float64) where
  open fl use {F, zero, lt}

  -- Existing capacity that may grow is a part of its own.
  abbrev pub HasOwnPart : Option (Capacity F) → Type 0
  HasOwnPart o =
      (c : Capacity F)
      → o ≡ some c
      → c.expandable ≡ true
      → lt zero c.existing ≡ true
      → str_eq (decommission_mode (some c)) (codes "continuous") ≡ true

  grown-HasOwnPart : (o : Option (Capacity F)) → grown fl o ≡ false → HasOwnPart o
  unfolding grown
  grown-HasOwnPart none h c e x p = cc
  grown-HasOwnPart (some d) h c e x p =
      let same : d ≡ c = some_injective e in let own = rw same at h in ground (arith, own, x, p)

  enabled_given :
      (ud : AllowUnmetDemand F)
      → unpriced (some ud) ≡ false
      → ud.enabled ≡ true
      → given ud.penalty_price ≡ true
  unfolding unpriced
  enabled_given ud h e = ground (arith, h, e)

  -- What the run may be
  pub record IsRunnable (j : Job F) : Type 0 where
    pub fixed :
        effective_mode j.experiment ≡ operate
        → ((id : Text) (t : Technology F)
            → lookup id j.model.technologies ≡ some t
            → expandable_cap t.capacity ≡ false)
          × ((id : Text) (l : Transmission F)
              → lookup id j.model.transmission ≡ some l
              → expandable_cap l.capacity ≡ false)
    pub unlimited :
        effective_mode j.experiment ≡ operate
        → (no_element j.model.constraints ≡ true) × (no_element j.model.emission_limits ≡ true)
    pub named :
        effective_mode j.experiment ≡ stochastic
        → (no_element j.experiment.scenarios ≡ false)
          × (no_element j.model.constraints ≡ true)
          × ((s : Scenario F)
              → In s j.experiment.scenarios
              → (str_eq s.name [] ≡ false) × (lt s.weight zero ≡ false))
    pub translates :
        effective_mode j.experiment ≡ stochastic
        → (s : Scenario F) → In s j.experiment.scenarios
        → (sets : List (ScenarioSet F)) × (scenario_sets j.model s ≡ translated sets)
    pub solvable :
        effective_mode j.experiment ≡ power_flow_mode
        → (carrier : Text) × (slack : Text) × (node : Text) × IsSolvable fl j carrier slack node
    pub free_of_network :
        j.experiment.copperplate ≡ true
        → (str_eq (effective_mode j.experiment) power_flow_mode ≡ false)
          × (str_eq (effective_network j.experiment) linear_power_flow ≡ false)
    pub whole : no_element j.model.time.subset ≡ true
    pub priced :
        (ud : AllowUnmetDemand F)
        → j.experiment.allow_unmet_demand ≡ some ud
        → ud.enabled ≡ true
        → given ud.penalty_price ≡ true
    pub accounting : str_eq j.experiment.emission_accounting (codes "positive_only") ≡ false
    pub scoped :
        (c : Constraint F) (t : Term F)
        → In c j.model.constraints
        → is_some (global_type fl c) ≡ false
        → In t c.terms
        → str_eq t.variable (codes "emissions") ≡ false
    pub law :
        str_eq (effective_mode j.experiment) power_flow_mode ≡ false
        → str_eq (effective_network j.experiment) linear_power_flow ≡ true
        → (carrier : Text) × IsLawful fl j carrier
    pub mixed :
        (has_quad j.model && has_int j.model) ≡ true
        → str_eq (solver_name j.experiment.solver.name) gurobi ≡ true
    pub planned :
        is_some (investment_periods fl j.model) ≡ true
        → str_eq (effective_mode j.experiment) plan_mode ≡ true
    pub staged :
        is_some (investment_periods fl j.model) ≡ true
        → (id : Text) (t : Technology F) → lookup id j.model.technologies ≡ some t
        → HasOwnPart t.capacity
          × ((is_store t.storage && (expandable_cap t.capacity || energy_expandable t.storage))
              ≡ false)
    pub staged_arcs :
        is_some (investment_periods fl j.model) ≡ true
        → (id : Text) (l : Transmission F) → lookup id j.model.transmission ≡ some l
        → expandable_cap l.capacity ≡ false

  fixed_of :
      (m : Model F)
      → operate_problems m ≡ []
      → ((id : Text) (t : Technology F)
          → lookup id m.technologies ≡ some t
          → expandable_cap t.capacity ≡ false)
        × ((id : Text) (l : Transmission F)
            → lookup id m.transmission ≡ some l
            → expandable_cap l.capacity ≡ false)
  unfolding operate_problems
  fixed_of m h =
      let techs = (each_entry-nil_iff fixed_tech m.technologies).0 (append-nil_left _ _ h) in
      let rest = append-nil_right (each_entry fixed_tech m.technologies) _ h in
      let arcs = (each_entry-nil_iff fixed_arc m.transmission).0 (append-nil_left _ _ rest) in
      (
        λ id t e. passed (tech_place id) _ _ [] (techs id t e),
        λ id l e. passed (arc_place id) _ _ [] (arcs id l e),
      )

  unlimited_of :
      (m : Model F)
      → operate_problems m ≡ []
      → (no_element m.constraints ≡ true) × (no_element m.emission_limits ≡ true)
  unfolding operate_problems
  unlimited_of m h =
      let rest = append-nil_right (each_entry fixed_tech m.technologies) _ h in
      let limits =
        passed mode_place _ _ [] (append-nil_right (each_entry fixed_arc m.transmission) _ rest) in
      (ground (arith, limits), ground (arith, limits))

  scenarios_of :
      (j : Job F)
      → stochastic_problems fl j ≡ []
      → (no_element j.experiment.scenarios ≡ false)
        × (no_element j.model.constraints ≡ true)
        × ((s : Scenario F)
            → In s j.experiment.scenarios
            → (str_eq s.name [] ≡ false) × (lt s.weight zero ≡ false))
  unfolding stochastic_problems scenario_problems
  scenarios_of j h =
      let e = j.experiment in
      let rest = append-nil_right (report mode_place (scenarios_given fl e)) _ h in
      let last = append-nil_right (each (scenario_problems fl j.model) e.scenarios) _ rest in
      (
        passed mode_place _ _ [] (append-nil_left (report mode_place (scenarios_given fl e)) _ h),
        true_of_not _ (passed mode_place _ _ [] last),
        λ s i.
            let one : scenario_problems fl j.model s ≡ [] =
              each-nil_at (scenario_problems fl j.model) e.scenarios s (append-nil_left _ _ rest)
                i in
            let (a, (b, _)) =
              (report-nil_iff s.name (stochastic_checks fl s)).0 (append-nil_left _ _ one) in
            (a, b),
      )

  scoped_at :
      (c : Constraint F) (t : Term F)
      → scope_problems fl c ≡ []
      → is_some (global_type fl c) ≡ false
      → In t c.terms
      → str_eq t.variable (codes "emissions") ≡ false
  unfolding scope_problems emission_terms
  scoped_at c t h g i = passed c.name _ _ [] (each-nil_at _ c.terms t (rw g at h) i)

  staged_of :
      (j : Job F)
      → planning_problems fl j ≡ []
      → is_some (investment_periods fl j.model) ≡ true
      → (str_eq (effective_mode j.experiment) plan_mode ≡ true)
        × ((id : Text) (t : Technology F)
            → lookup id j.model.technologies ≡ some t
            → HasOwnPart t.capacity
              × ((is_store t.storage && (expandable_cap t.capacity || energy_expandable t.storage))
                  ≡ false))
        × ((id : Text) (l : Transmission F)
            → lookup id j.model.transmission ≡ some l
            → expandable_cap l.capacity ≡ false)
  unfolding planning_problems period_tech_problems
  staged_of j h p =
      let open_checks = rw p at h in
      let rest = append-nil_right (period_mode fl j.experiment) _ open_checks in
      let techs =
        (each_entry-nil_iff (period_tech_problems fl) j.model.technologies).0
          (append-nil_left _ _ rest) in
      let last =
        append-nil_right (each_entry (period_tech_problems fl) j.model.technologies) _ rest in
      let arcs = (each_entry-nil_iff (period_arc_problem fl) j.model.transmission).0 last in
      (
        true_of_not _ (
            passed mode_place _ _ [] (append-nil_left (period_mode fl j.experiment) _ open_checks)),
        λ id t e.
            let (a, (b, _)) = (report-nil_iff (tech_place id) _).0 (techs id t e) in
            (grown-HasOwnPart t.capacity a, b),
        λ id l e. passed (arc_place id) _ _ [] (arcs id l e),
      )

  translated_of :
      (name : Text) (a : Attempt (List (ScenarioSet F)))
      → untranslated fl name a ≡ []
      → (sets : List (ScenarioSet F)) × (a ≡ translated sets)
  unfolding untranslated
  translated_of name (failed why) h = cc
  translated_of name (translated sets) h = (sets, refl)

  translates_of :
      (j : Job F) (s : Scenario F)
      → stochastic_problems fl j ≡ []
      → In s j.experiment.scenarios
      → (sets : List (ScenarioSet F)) × (scenario_sets j.model s ≡ translated sets)
  unfolding stochastic_problems scenario_problems
  translates_of j s h i =
      let each_one = append-nil_left _ _ (append-nil_right _ _ h) in
      let one : scenario_problems fl j.model s ≡ [] =
        each-nil_at (scenario_problems fl j.model) j.experiment.scenarios s each_one i in
      translated_of s.name (scenario_sets j.model s) (append-nil_right _ _ one)

  -- The checks of each mode
  operate_lem : (j : Job F) → problems_in fl operate j ≡ operate_problems j.model
  unfolding problems_in str_eq
  operate_lem j = refl

  stochastic_lem : (j : Job F) → problems_in fl stochastic j ≡ stochastic_problems fl j
  unfolding problems_in str_eq
  stochastic_lem j = refl

  power_flow_lem : (j : Job F) → problems_in fl power_flow_mode j ≡ power_flow_problems fl j
  unfolding problems_in str_eq
  power_flow_lem j = refl

  pub run-IsRunnable : (j : Job F) → run_problems fl j ≡ [] → IsRunnable j
  unfolding run_problems mode_problems switch_problems solver_problems subset_problems
      accounting_problems
  run-IsRunnable j h =
      let e = j.experiment in
      let h1 = append-nil_right (subset_problems j.model) _ h in
      let h2 = append-nil_right (each_entry purchase_problems j.model.technologies) _ h1 in
      let h3 = append-nil_right (mode_problems fl j) _ h2 in
      let h4 = append-nil_right (each (scope_problems fl) j.model.constraints) _ h3 in
      let h5 = append-nil_right (switch_problems e) _ h4 in
      let h6 = append-nil_right (solver_problems j) _ h5 in
      let planning : planning_problems fl j ≡ [] = append-nil_left _ _ h6 in
      let in_mode : problems_in fl (effective_mode e) j ≡ [] =
        append-nil_left _ _ (append-nil_left (mode_problems fl j) _ h2) in
      let (flow, (law, (priced, _))) =
        (report-nil_iff mode_place _).0 (append-nil_left (switch_problems e) _ h4) in
      let under_law =
        append-nil_right (problems_in fl (effective_mode e) j) _
          (append-nil_left (mode_problems fl j) _ h2) in
      record {
        fixed = λ m. fixed_of j.model (rw (m, operate_lem j) at in_mode);
        unlimited = λ m. unlimited_of j.model (rw (m, operate_lem j) at in_mode);
        named = λ m. scenarios_of j (rw (m, stochastic_lem j) at in_mode);
        translates = λ m s i. translates_of j s (rw (m, stochastic_lem j) at in_mode) i;
        solvable = λ m. power_flow_problems-IsSolvable fl j (rw (m, power_flow_lem j) at in_mode);
        free_of_network = λ c. (second_fails _ _ flow c, second_fails _ _ law c);
        whole = true_of_not _ (passed (codes "time.subset") _ _ [] (append-nil_left _ _ h));
        priced = λ ud given_by. enabled_given ud (rw given_by at priced);
        accounting = passed mode_place _ _ [] (append-nil_right (planning_problems fl j) _ h6);
        scoped = λ c t i.
            scoped_at c t
              (each-nil_at (scope_problems fl) j.model.constraints c (append-nil_left _ _ h3) i);
        law = λ o v. linear_problems-IsLawful fl j (rw (o, v) at under_law);
        mixed =
            second_holds _ _ (passed mode_place _ _ [] (append-nil_left (solver_problems j) _ h5));
        planned = λ p. (staged_of j planning p).0;
        staged = λ p id t. (staged_of j planning p).1 id t;
        staged_arcs = λ p id l. (staged_of j planning p).2 id l;
      }
