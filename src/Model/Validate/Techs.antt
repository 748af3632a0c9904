-- ===== src/Model/Validate/Techs.antt =====
-- The checks of technologies and their node overrides in Model.Validate, put together.
use meme.Base.{
  Bool, true, false, not, ◌&&◌, Option, none, some, List, [], ◌∷◌, ◌++◌, Float64, Text, codes,
  str_eq, has_key,
}
use meme.Model.Types.{Performance, Value, NodeOverride, Technology, Model}
use meme.Model.Ids.{contains_str}
use meme.Model.Enums.{demand, storage, valid_role, valid_cost_basis}
use meme.Model.Checks.{
  Problem, report, given, negative, not_positive, exceeds, validate_capacity, validate_storage,
  PerfError, validate_performance,
}
use meme.Model.Validate.Each.{each, each_entry}
use meme.Model.Validate.Blocks.{validate_operation, validate_costs, validate_tech_electrical}
use meme.Model.Validate.Flows.{flow_problems}
use meme.Model.Validate.Slots.{
  perf_message, override_place, node_list_problems, carrier_problems, tech_values, override_values,
  structure_problems, series_of_tech, operation_series, inflow_of, soc_of, precomputed_of,
  series_problems, overnight_problems, annualized_problems,
}

-- `len(s) == 0`
abbrev pub no_element : {A : Type 0} → List A → Bool
no_element [] = true
no_element (x ∷ xs) = false

module _ (fl : Float64) where
  open fl use {F}

  perf_problem : Text → Option (PerfError fl) → List Problem
  perf_problem place none = []
  perf_problem place (some e) = (place, perf_message e) ∷ []

  -- `if e := t.Performance.Validate(); e != nil`
  unfoldable pub performance_problems : Text → Option (Performance F) → List Problem
  unfolding perf_problem
  performance_problems place p = perf_problem place (validate_performance fl p)

  pub role_checks : Technology F → List (Bool × Text)
  role_checks t =
      (not (valid_role t.role), codes "role %q is invalid")
      ∷ (not (valid_cost_basis t.cost_basis), codes "cost_basis %q is invalid")
      ∷ (no_element t.node, codes "no node specified")
      ∷ []

  block_checks : Technology F → List (Bool × Text)
  block_checks t =
      (
        str_eq t.role storage && not (given t.storage),
        codes "role is storage but no storage block given",
      )
      ∷ (
        str_eq t.role demand && not (given t.demand_profile),
        codes "role is demand but no demand_profile given",
      )
      ∷ (
        str_eq t.role demand && given t.dispatch,
        codes "dispatch applies to supply, conversion and storage; demand uses demand_profile",
      )
      ∷ []

  number_checks : Technology F → List (Bool × Text)
  number_checks t =
      (not_positive fl t.lifetime, codes "lifetime must be positive")
      ∷ (negative fl t.interest_rate, codes "interest_rate must not be negative")
      ∷ (negative fl t.annual_output_min, codes "annual_output_min must not be negative")
      ∷ (negative fl t.annual_output_max, codes "annual_output_max must not be negative")
      ∷ (
        exceeds fl t.annual_output_min t.annual_output_max,
        codes "annual_output_min %g exceeds annual_output_max %g",
      )
      ∷ (
        t.demand_curtailable && not (str_eq t.role demand),
        codes "demand_curtailable is only meaningful on role \"demand\"",
      )
      ∷ []

  -- What is asked of the places, carriers and blocks of a technology
  unfoldable pub placement_problems : Text → Model F → Technology F → List Problem
  unfolding role_checks block_checks
  placement_problems place m t =
      report place (role_checks t)
      ++ (node_list_problems place m.nodes [] t.node
          ++ (carrier_problems place m.carriers (t.carrier_in ++ t.carrier_out)
              ++ report place (block_checks t)))

  -- From the series to the storage's series, with the flows
  unfoldable pub slot_problems : Text → Model F → Technology F → List Problem
  slot_problems place m t =
      each (series_problems place m) (series_of_tech t)
      ++ (each (series_problems place m) (operation_series t.operation)
          ++ (overnight_problems place t
              ++ (flow_problems fl place m.carriers t.flows
                  ++ (series_problems place m (inflow_of t.storage)
                      ++ series_problems place m (soc_of t.storage)))))

  -- The ranges of the numbers
  unfoldable pub range_problems : Text → Technology F → List Problem
  unfolding number_checks
  range_problems place t =
      validate_capacity fl place t.capacity
      ++ (validate_operation fl place t.operation
          ++ (validate_storage fl place t.storage
              ++ (validate_costs fl place t.costs
                  ++ (report place (number_checks t) ++ annualized_problems place t))))

  -- The checks of one value of an override
  unfoldable pub override_value_problems : Text → Model F → Option (Value F) → List Problem
  override_value_problems place m v = structure_problems place v ++ series_problems place m v

  -- The checks of one override
  unfoldable pub override_problems :
      Text → Model F → Technology F → Text → NodeOverride F → List Problem
  unfolding override_value_problems
  override_problems place m t nid ov =
      report place (
        (not (contains_str t.node nid), codes "node_override %q is not in the tech's node list")
        ∷ (not (has_key nid m.nodes), codes "node_override %q is not a defined node")
        ∷ [])
      ++ (performance_problems place ov.performance
          ++ (each (override_value_problems place m) (override_values ov)
              ++ (validate_tech_electrical fl place t.role ov.electrical
                  ++ (validate_capacity fl place ov.capacity
                      ++ (validate_operation fl place ov.operation
                          ++ (validate_storage fl place ov.storage
                              ++ validate_costs fl place ov.costs))))))

  -- The loop's body for one technology
  unfoldable pub tech_problems : Model F → Text → Technology F → List Problem
  tech_problems m id t =
      let place = codes "tech " ++ id in
      placement_problems place m t
      ++ (validate_tech_electrical fl place t.role t.electrical
          ++ (slot_problems place m t
              ++ (range_problems place t
                  ++ (each (structure_problems place) (tech_values t)
                      ++ (performance_problems place t.performance
                          ++ (series_problems place m (precomputed_of t.performance)
                              ++ each_entry
                                  (λ nid ov. override_problems (override_place id nid) m t nid ov)
                                  t.node_overrides))))))
