-- ===== src/Model/Validate/Blocks.antt =====
-- The checks of operation, cost and reactive-power blocks: `validateOperation`, `validateCosts` and
-- `validateTechElectrical` of internal/model/validate.go.
use meme.Base.{
  Bool, false, not, ◌&&◌, ◌||◌, Option, none, some, List, [], ◌∷◌, Float64, Text, codes, str_eq,
  Map,
}
use meme.Model.Types.{Value, Operation, CostClass, TechElectrical}
use meme.Model.Values.{reduce}
use meme.Model.Ids.{valid_id}
use meme.Model.Enums.{supply, conversion}
use meme.Model.Checks.{
  Problem, report, given, negative, not_positive, above_one, exceeds, outside_unit,
}
use meme.Model.Validate.Each.{each_entry}

module _ (fl : Float64) where
  open fl use {F, zero, lt}

  -- `f, ok := v.Reduce(); ok && f < 0`
  unfoldable pub negative_value : Option (Value F) → Bool
  negative_value v = negative fl (reduce v)

  -- `*p <= 0 || *p > 1` of a pointer that is not nil
  abbrev pub outside_half_open : Option F → Bool
  outside_half_open p = not_positive fl p || above_one fl p

  -- `p != nil && q != nil && *p > 0 && *q > 0`
  abbrev pub both_positive : Option F → Option F → Bool
  both_positive (some x) (some y) = lt zero x && lt zero y
  both_positive _ _ = false

  -- The checks of `validateOperation`, in order.
  unfoldable pub operation_checks : Operation F → List (Bool × Text)
  unfolding negative_value
  operation_checks op =
      (negative_value op.ramp_up, codes "operation.ramp_up must not be negative")
      ∷ (negative_value op.ramp_down, codes "operation.ramp_down must not be negative")
      ∷ (negative fl op.start_up_cost, codes "operation.start_up_cost must not be negative")
      ∷ (negative fl op.shut_down_cost, codes "operation.shut_down_cost must not be negative")
      ∷ (negative fl op.min_uptime, codes "operation.min_uptime must not be negative")
      ∷ (negative fl op.min_downtime, codes "operation.min_downtime must not be negative")
      ∷ (negative_value op.min_pu, codes "operation.min_pu must not be negative")
      ∷ (negative_value op.max_pu, codes "operation.max_pu must not be negative")
      ∷ (
        exceeds fl (reduce op.min_pu) (reduce op.max_pu),
        codes "operation.min_pu %g exceeds max_pu %g",
      )
      ∷ (negative_value op.equals_pu, codes "operation.equals_pu must not be negative")
      ∷ (negative fl op.max_startups, codes "operation.max_startups must not be negative")
      ∷ (
        outside_unit fl op.standby_power,
        codes "operation.standby_power must be within [0,1] (fraction of capacity)",
      )
      ∷ (
        outside_half_open op.ramp_start_up,
        codes "operation.ramp_start_up must be within (0,1] (fraction of capacity)",
      )
      ∷ (
        outside_half_open op.ramp_shut_down,
        codes "operation.ramp_shut_down must be within (0,1] (fraction of capacity)",
      )
      ∷ (negative fl op.standby_cost, codes "operation.standby_cost must not be negative")
      ∷ (negative fl op.initial_uptime, codes "operation.initial_uptime must not be negative")
      ∷ (negative fl op.initial_downtime, codes "operation.initial_downtime must not be negative")
      ∷ (
        both_positive op.initial_uptime op.initial_downtime,
        codes
            "operation.initial_uptime and operation.initial_downtime are mutually exclusive (a unit was either on or off before the horizon)",
      )
      ∷ []

  -- `validateOperation`
  unfoldable pub validate_operation : Text → Option (Operation F) → List Problem
  unfolding operation_checks
  validate_operation place none = []
  validate_operation place (some op) = report place (operation_checks op)

  -- The checks of one cost class, in order.
  unfoldable pub cost_checks : Text → CostClass F → List (Bool × Text)
  cost_checks class c =
      (not (valid_id class), codes "cost class %q is invalid (allowed: %s)")
      ∷ (
        negative fl c.investment_per_capacity,
        codes "costs.%s.investment_per_capacity must not be negative",
      )
      ∷ (
        negative fl c.investment_per_energy_capacity,
        codes "costs.%s.investment_per_energy_capacity must not be negative",
      )
      ∷ (
        negative fl c.investment_per_capacity_distance,
        codes "costs.%s.investment_per_capacity_distance must not be negative",
      )
      ∷ (negative fl c.fixed_om, codes "costs.%s.fixed_om must not be negative")
      ∷ (negative fl c.fixed_om_fraction, codes "costs.%s.fixed_om_fraction must not be negative")
      ∷ (negative fl c.purchase, codes "costs.%s.purchase must not be negative")
      ∷ (
        negative fl c.variable_om_quadratic,
        codes "costs.%s.variable_om_quadratic must not be negative",
      )
      ∷ (
        given c.fixed_om && given c.fixed_om_fraction,
        codes
            "costs.%s: fixed_om (absolute) and fixed_om_fraction (fraction of investment) are mutually exclusive",
      )
      ∷ []

  -- `validateCosts`
  unfoldable pub validate_costs : Text → Map (CostClass F) → List Problem
  unfolding cost_checks
  validate_costs place costs = each_entry (λ class c. report place (cost_checks class c)) costs

  -- The checks of `validateTechElectrical`, in order.
  unfoldable pub electrical_checks : Text → TechElectrical F → List (Bool × Text)
  electrical_checks role e =
      (outside_half_open e.power_factor, codes "electrical.power_factor must be within (0,1]")
      ∷ (
        given e.reactive_dispatch && given e.power_factor,
        codes "electrical.reactive_dispatch and electrical.power_factor are mutually exclusive",
      )
      ∷ (
        e.leading && not (given e.power_factor),
        codes "electrical.leading needs electrical.power_factor",
      )
      ∷ (
        not (
            str_eq e.control []
            || (str_eq e.control (codes "pq") || str_eq e.control (codes "pv"))),
        codes "electrical.control %q is invalid (pq or pv)",
      )
      ∷ (
        not (str_eq e.control []) && not (str_eq role supply),
        codes "electrical.control applies to supply technologies",
      )
      ∷ (
        given e.voltage_setpoint && not (str_eq role supply),
        codes "electrical.voltage_setpoint applies to supply technologies",
      )
      ∷ (not_positive fl e.voltage_setpoint, codes "electrical.voltage_setpoint must be positive")
      ∷ (
        str_eq role conversion && (given e.reactive_dispatch || given e.power_factor),
        codes
            "electrical reactive fields apply to supply, demand and storage; a conversion transfers active power only",
      )
      ∷ []

  -- `validateTechElectrical`
  unfoldable pub validate_tech_electrical : Text → Text → Option (TechElectrical F) → List Problem
  unfolding electrical_checks
  validate_tech_electrical place role none = []
  validate_tech_electrical place role (some e) = report place (electrical_checks role e)
