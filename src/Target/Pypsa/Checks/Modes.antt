-- ===== src/Target/Pypsa/Checks/Modes.antt =====
-- The checks of `ValidateJob` (internal/target/pypsa/pypsa.go) that depend on the mode, on constraints and
-- on investment periods.
use meme.Base.{
  Bool, false, not, ◌&&◌, ◌||◌, Option, none, some, List, [], ◌∷◌, ◌++◌, if◌then◌else◌, Float64,
  Text, codes, str_eq, is_some,
}
use meme.Model.Types.{Transmission, Capacity, Technology, Term, Constraint, Model}
use meme.Model.Run.{Scenario, Experiment, Job}
use meme.Model.Run.Modes.{plan_mode, power_flow_mode, effective_network, effective_mode}
use meme.Model.Enums.{linear_power_flow}
use meme.Model.Periods.{investment_periods}
use meme.Model.Checks.{Problem, report}
use meme.Model.Validate.Each.{each, each_entry}
use meme.Model.Validate.Techs.{no_element}
use meme.Target.Gates.{mode_place}
use meme.Target.Gates.Uses.{expandable_cap}
use meme.Target.Pypsa.Planning.{decommission_mode}
use meme.Target.Pypsa.Scenarios.{Attempt, failed, translated, ScenarioSet, scenario_sets}
use meme.Target.Pypsa.Buses.{global_type}
use meme.Target.Pypsa.Network.{linear_problems}
use meme.Target.Pypsa.Flow.{power_flow_problems, power_flow_warnings}
use meme.Target.Pypsa.Checks.Fields.{
  tech_place, arc_place, operate, stochastic, is_store, energy_expandable,
}
use meme.Target.Pypsa.Checks.Runs.{operate_problems}

module _ (fl : Float64) where
  open fl use {F, zero, lt}

  unfoldable pub untranslated : Text → Attempt (List (ScenarioSet F)) → List Problem
  untranslated name (failed why) =
      (name, codes "an override of the scenario has no PyPSA attribute") ∷ []
  untranslated name (translated sets) = []

  abbrev pub stochastic_checks : Scenario F → List (Bool × Text)
  stochastic_checks s =
      (str_eq s.name [], codes "stochastic scenario without a name")
      ∷ (lt s.weight zero, codes "stochastic scenario %q has a negative weight")
      ∷ []

  abbrev pub scenarios_given : Experiment F → List (Bool × Text)
  scenarios_given e =
      (
        no_element e.scenarios,
        codes "mode \"stochastic\" needs experiment.scenarios (name, weight, overrides)",
      )
      ∷ []

  unfoldable pub scenario_problems : Model F → Scenario F → List Problem
  scenario_problems m s =
      report s.name (stochastic_checks s) ++ untranslated s.name (scenario_sets m s)

  -- The checks of mode stochastic
  unfoldable pub stochastic_problems : Job F → List Problem
  stochastic_problems j =
      report mode_place (scenarios_given j.experiment)
      ++ (each (scenario_problems j.model) j.experiment.scenarios
          ++ report mode_place (
              (
                not (no_element j.model.constraints),
                codes "mode \"stochastic\" on pypsa does not support portable linear constraints",
              )
              ∷ []))

  abbrev pub flow_run : Experiment F → Bool
  flow_run e = str_eq (effective_mode e) power_flow_mode

  abbrev pub voltage_law_run : Experiment F → Bool
  voltage_law_run e = not (flow_run e) && str_eq (effective_network e) linear_power_flow

  -- The switch over the mode
  unfoldable pub problems_in : Text → Job F → List Problem
  problems_in mode j =
      if str_eq mode operate
      then operate_problems j.model
      else if str_eq mode stochastic
      then stochastic_problems j
      else if str_eq mode power_flow_mode
      then power_flow_problems fl j
      else []

  -- The checks of the mode and of the voltage law
  unfoldable pub mode_problems : Job F → List Problem
  mode_problems j =
      problems_in (effective_mode j.experiment) j
      ++ (if voltage_law_run j.experiment then linear_problems fl j else [])

  unfoldable pub mode_warnings : Job F → List Problem
  mode_warnings j = if flow_run j.experiment then power_flow_warnings fl j else []

  unfoldable pub emission_terms : Text → List (Term F) → List Problem
  emission_terms name = each (λ t. report name (
      (
        str_eq t.variable (codes "emissions"),
        codes
            "constraints[%d] %q: tech/node-scoped emissions terms are not supported for pypsa (emission accounting is carrier-wide)",
      )
      ∷ []))

  -- The check of a constraint that is no GlobalConstraint
  unfoldable pub scope_problems : Constraint F → List Problem
  scope_problems c = if is_some (global_type fl c) then [] else emission_terms c.name c.terms

  unfoldable pub grown : Option (Capacity F) → Bool
  grown none = false
  grown (some c) =
      c.expandable
      && (lt zero c.existing && not (str_eq (decommission_mode (some c)) (codes "continuous")))

  unfoldable pub period_tech_problems : Text → Technology F → List Problem
  period_tech_problems id t = report (tech_place id) (
      (
        grown t.capacity,
        codes
            "under investment periods an expandable technology with existing capacity needs decommission continuous (the existing part keeps its build_year, the new builds get one per period), or capacity.existing 0 with the fleet as its own fixed technology",
      )
      ∷ (
        is_store t.storage && (expandable_cap t.capacity || energy_expandable t.storage),
        codes
            "an expandable Store-based storage under investment periods is not supported yet on pypsa; size it with max_hours or fix its capacities",
      )
      ∷ [])

  abbrev pub period_arc_problem : Text → Transmission F → List Problem
  period_arc_problem id l = report (arc_place id) (
      (
        expandable_cap l.capacity,
        codes
            "expandable transmission under investment periods is not supported yet on pypsa; fix its capacity",
      )
      ∷ [])

  abbrev pub period_mode : Experiment F → List Problem
  period_mode e = report mode_place (
      (
        not (str_eq (effective_mode e) plan_mode),
        codes
            "investment periods need mode \"plan\" on pypsa (multi_investment_periods is a planning solve)",
      )
      ∷ [])

  -- The checks of investment periods
  unfoldable pub planning_problems : Job F → List Problem
  planning_problems j =
      if is_some (investment_periods fl j.model)
      then period_mode j.experiment
        ++ (each_entry period_tech_problems j.model.technologies
            ++ each_entry period_arc_problem j.model.transmission)
      else []
