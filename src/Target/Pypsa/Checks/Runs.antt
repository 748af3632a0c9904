-- ===== src/Target/Pypsa/Checks/Runs.antt =====
-- The checks of `ValidateJob` (internal/target/pypsa/pypsa.go) on the run: mode operate, its switches and
-- its solver.
use meme.Base.{
  Bool, false, not, ◌&&◌, ◌||◌, Option, none, some, List, [], ◌∷◌, ◌++◌, if◌then◌else◌, ℤ, Text,
  codes, str_eq, is_some, Map, insert, sorted_keys,
}
use meme.Model.Types.{Transmission, Capacity, Storage, CostClass, Technology, Model}
use meme.Model.Run.{Solver, AllowUnmetDemand, Experiment, Job}
use meme.Model.Run.Modes.{power_flow_mode, effective_network, effective_mode}
use meme.Model.Enums.{linear_power_flow}
use meme.Model.Overrides.{tech_at}
use meme.Model.Checks.{Problem, report, given}
use meme.Model.Validate.Each.{each, each_entry}
use meme.Model.Validate.Times.{no_entry}
use meme.Model.Validate.Techs.{no_element}
use meme.Target.Gates.{mode_place, listing}
use meme.Target.Gates.Uses.{any_value, expandable_cap, committable_op}
use meme.Target.Pypsa.Checks.Fields.{tech_place, arc_place}

abbrev pub gurobi : Text
gurobi = codes "gurobi"

-- `solverName`
unfoldable pub solver_name : Text → Text
solver_name name = if str_eq name [] then codes "highs" else name

-- A solver option's value
pub data Setting (F : Type 0) : Type 0 where
  number : F → Setting F
  count : ℤ → Setting F

-- The names of the time limit, the gap and the threads
unfoldable pub option_names : Text → Option (Text × Text × Text)
option_names solver =
    if str_eq solver (codes "highs")
    then some (codes "time_limit", codes "mip_rel_gap", codes "threads")
    else if str_eq solver gurobi
    then some (codes "TimeLimit", codes "MIPGap", codes "Threads")
    else if str_eq solver (codes "cbc")
    then some (codes "seconds", codes "ratioGap", codes "threads")
    else none

module _ {F : Type 0} where
  set_number : Text → Option F → Map (Setting F) → Map (Setting F)
  set_number k none opts = opts
  set_number k (some x) opts = insert k (number x) opts

  set_count : Text → Option ℤ → Map (Setting F) → Map (Setting F)
  set_count k none opts = opts
  set_count k (some n) opts = insert k (count n) opts

  not_empty_map : Map (Setting F) → Option (Map (Setting F))
  not_empty_map [] = none
  not_empty_map (o ∷ opts) = some (o ∷ opts)

  named_options : Solver F → Option (Text × Text × Text) → Option (Map (Setting F))
  unfolding set_number set_count not_empty_map
  named_options s none = none
  named_options s (some (limit, gap, threads)) =
      not_empty_map
        (set_count threads s.threads (set_number gap s.mip_gap (set_number limit s.time_limit [])))

  -- `solverOptions`; `none` is nil
  unfoldable pub solver_options : Solver F → Option (Map (Setting F))
  unfolding named_options
  solver_options s = named_options s (option_names (solver_name s.name))

  abbrev pub prices_purchase : CostClass F → Bool
  prices_purchase c = given c.purchase

  -- The costs of a technology that `purchaseCost` looks for
  unfoldable pub purchase_problems : Text → Technology F → List Problem
  purchase_problems id t =
      each
        (λ n.
          each_entry
            (λ class c. report (tech_place id) (
              (
                prices_purchase c,
                codes
                    "costs.%s.purchase is not supported by target %q (no fixed purchase cost); fold it into investment_per_capacity",
              )
              ∷ []))
            (tech_at t n).costs)
        t.node

  unfoldable pub subset_problems : Model F → List Problem
  subset_problems m = report (codes "time.subset") (
      (
        not (no_element m.time.subset),
        codes "time.subset is not supported by target %q; narrow time.start/end instead",
      )
      ∷ [])

  abbrev pub fixed_check : Option (Capacity F) → Text → List (Bool × Text)
  fixed_check c what =
      (
        expandable_cap c,
        codes "mode \"operate\" on pypsa dispatches fixed capacities, but " ++ what,
      )
      ∷ []

  abbrev pub fixed_tech : Text → Technology F → List Problem
  fixed_tech id t = report (tech_place id) (fixed_check t.capacity (codes "tech %q is expandable"))

  abbrev pub fixed_arc : Text → Transmission F → List Problem
  fixed_arc id l =
      report (arc_place id) (fixed_check l.capacity (codes "transmission %q is expandable"))

  -- The checks of mode operate
  unfoldable pub operate_problems : Model F → List Problem
  operate_problems m =
      each_entry fixed_tech m.technologies
      ++ (each_entry fixed_arc m.transmission
          ++ report mode_place (
              (
                not (no_element m.constraints) || not (no_element m.emission_limits),
                codes
                    "mode \"operate\" on pypsa (rolling horizon) cannot enforce horizon-wide constraints or emission limits",
              )
              ∷ []))

  abbrev uses_quadratic : Map (CostClass F) → Bool
  uses_quadratic = any_value (λ c. given c.variable_om_quadratic)

  -- `c != nil && c.Expandable && c.PerUnit != nil`
  abbrev pub modular : Option (Capacity F) → Bool
  modular none = false
  modular (some c) = c.expandable && given c.per_unit

  abbrev modular_energy : Option (Storage F) → Bool
  modular_energy none = false
  modular_energy (some s) = modular s.energy_capacity

  -- `hasQuad` and `hasInt`
  unfoldable pub has_quad : Model F → Bool
  has_quad m = any_value (λ t. uses_quadratic t.costs) m.technologies

  unfoldable pub has_int : Model F → Bool
  has_int m =
      any_value
        (λ t. committable_op t.operation || (modular t.capacity || modular_energy t.storage))
        m.technologies
      || any_value (λ l. modular l.capacity) m.transmission

  unfoldable pub solver_problems : Job F → List Problem
  solver_problems j = report mode_place (
      (
        (has_quad j.model && has_int j.model)
            && not (str_eq (solver_name j.experiment.solver.name) gurobi),
        codes
            "costs.variable_om_quadratic together with integer variables (committable units, modular capacity) is a MIQP the free solvers cannot solve; use solver gurobi or drop one of them",
      )
      ∷ [])

  unfoldable pub unpriced : Option (AllowUnmetDemand F) → Bool
  unpriced none = false
  unpriced (some ud) = ud.enabled && not (given ud.penalty_price)

  -- The checks of the run-level switches
  unfoldable pub switch_problems : Experiment F → List Problem
  switch_problems e = report mode_place (
      (
        e.copperplate && str_eq (effective_mode e) power_flow_mode,
        codes
            "copperplate cannot be combined with mode \"power_flow\" (a power flow solves the network as it is)",
      )
      ∷ (
        e.copperplate && str_eq (effective_network e) linear_power_flow,
        codes
            "copperplate cannot be combined with network model \"linear_power_flow\" (the voltage law needs the arcs copperplate drops)",
      )
      ∷ (
        unpriced e.allow_unmet_demand,
        codes
            "allow_unmet_demand needs penalty_price on pypsa (the slack generators' marginal cost)",
      )
      ∷ [])

  unfoldable pub switch_warnings : Job F → List Problem
  switch_warnings j = report (listing (sorted_keys j.model.transmission)) (
      (
        j.experiment.copperplate && not (no_entry j.model.transmission),
        codes
            "copperplate: transmission %v dropped; every node's bus of a carrier is joined through a free hub instead",
      )
      ∷ [])

  unfoldable pub accounting_problems : Experiment F → List Problem
  accounting_problems e = report mode_place (
      (
        str_eq e.emission_accounting (codes "positive_only"),
        codes
            "emission_accounting \"positive_only\" is not supported for pypsa (carrier co2_emissions accounting is net by construction)",
      )
      ∷ [])

  unfoldable pub solver_warnings : Solver F → List Problem
  solver_warnings s = report s.name (
      (
        not (is_some (solver_options s))
            && (given s.time_limit || (given s.mip_gap || given s.threads)),
        codes
            "solver %q: time_limit/mip_gap/threads are not mapped for this solver on pypsa (mapped: highs, gurobi, cbc); use experiment.native",
      )
      ∷ [])
