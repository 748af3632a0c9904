-- ===== src/Model/Validate/Slots.antt =====
-- The slots of technologies and their node overrides, and the checks of single slots in
-- Model.Validate.
pub mod Structure
use meme.Base.{
  ℕ, Bool, true, false, not, ◌&&◌, ◌||◌, Option, none, some, List, [], ◌∷◌, ◌++◌, if◌then◌else◌,
  Float64, Text, codes, str_eq, is_some, Map, has_key, lookup,
}
use meme.Model.Types.{
  Value, Performance, Capacity, Operation, Storage, SourceSpec, CostClass, TechElectrical,
  NodeOverride, Technology, Model,
}
use meme.Model.Values.{Structural, lengths_differ, tuple_differs, is_series, structural_error}
use meme.Model.Ids.{contains_str}
use meme.Model.Enums.{demand, storage, overnight, annualized, valid_role, valid_cost_basis}
use meme.Model.Checks.{
  Problem, report, given, negative, not_positive, exceeds, validate_capacity, validate_storage,
  PerfError, too_few_breakpoints, load_outside, load_not_rising, efficiency_not_positive,
  min_load_outside, unknown_physics, unknown_type, validate_performance,
}
use meme.Model.Validate.Each.{each, each_entry, seen_in}
use meme.Model.Validate.Blocks.{validate_operation, validate_costs, validate_tech_electrical}
use meme.Model.Validate.Times.{has_series}
use meme.Model.Validate.Flows.{flow_problems}

-- The messages of `StructuralError`
structural_message : Structural → Text
structural_message (lengths_differ n k) = codes "indexed param: %d data entries but %d index tuples"
structural_message (tuple_differs i n k) =
    codes "indexed param: index tuple %d has %d coords but %d dims"

-- `if e := v.StructuralError(); e != nil`
unfoldable pub structural_problem : Text → Option Structural → List Problem
unfolding structural_message
structural_problem place none = []
structural_problem place (some e) = (place, structural_message e) ∷ []

-- The messages of `Performance.Validate`
pub perf_message : {fl : Float64} → PerfError fl → Text
perf_message too_few_breakpoints = codes "piecewise performance needs at least 2 breakpoints"
perf_message (load_outside i) = codes "breakpoint %d: load %.3f must be within [0,1]"
perf_message (load_not_rising i) =
    codes "breakpoints must be strictly increasing in load (breakpoint %d)"
perf_message (efficiency_not_positive i) = codes "breakpoint %d: efficiency must be positive"
perf_message min_load_outside = codes "min_load %.3f must be within [0,1]"
perf_message (unknown_physics model) =
    codes "unknown physics model %q (known: pv, wind, heat_pump, open_hydro)"
perf_message (unknown_type kind) = codes "unknown performance type %q"

-- The place of an override's problems
abbrev pub override_place : Text → Text → Text
override_place id nid = codes "tech " ++ id ++ codes " override " ++ nid

-- The loop over the nodes of a technology; `seen` are those before.
unfoldable pub node_list_problems :
    {V : Type 0} → Text → Map V → List Text → List Text → List Problem
node_list_problems place nodes seen [] = []
node_list_problems place nodes seen (n ∷ ns) =
    report place (
      (not (has_key n nodes), codes "node %q not defined")
      ∷ (seen_in n seen, codes "node %q is listed more than once")
      ∷ [])
    ++ node_list_problems place nodes (n ∷ seen) ns

-- A loop that asks for the carriers of a list
unfoldable pub carrier_problems : {V : Type 0} → Text → Map V → List Text → List Problem
carrier_problems place carriers =
    each λ c. report place ((not (has_key c carriers), codes "carrier %q not defined") ∷ [])

module _ {F : Type 0} where
  -- What an optional block contributes to the values
  abbrev pub electrical_values : Option (TechElectrical F) → List (Option (Value F))
  electrical_values none = []
  electrical_values (some e) = e.reactive_dispatch ∷ []

  abbrev pub operation_values : Option (Operation F) → List (Option (Value F))
  operation_values none = []
  operation_values (some op) = op.max_pu ∷ op.min_pu ∷ op.equals_pu ∷ []

  abbrev pub storage_values : Option (Storage F) → List (Option (Value F))
  storage_values none = []
  storage_values (some s) = s.inflow ∷ s.soc_profile ∷ []

  abbrev pub source_values : Option (SourceSpec F) → List (Option (Value F))
  source_values none = []
  source_values (some s) = s.max ∷ []

  abbrev pub cost_values : Map (CostClass F) → List (Option (Value F))
  cost_values [] = []
  cost_values ((class, c) ∷ costs) = c.variable_om ∷ c.fuel_cost ∷ cost_values costs

  -- `techValues`; the nil ones, which it drops, stay in as `none` and have no problem. The range over
  -- the map of costs is in the order of the list.
  unfoldable pub tech_values : Technology F → List (Option (Value F))
  tech_values t =
      (t.efficiency ∷ t.demand_profile ∷ t.dispatch ∷ [])
      ++ (electrical_values t.electrical
          ++ (operation_values t.operation
              ++ (storage_values t.storage ++ (source_values t.source ++ cost_values t.costs))))

  -- `overrideValues`
  unfoldable pub override_values : NodeOverride F → List (Option (Value F))
  override_values ov =
      (ov.efficiency ∷ ov.demand_profile ∷ ov.dispatch ∷ [])
      ++ (electrical_values ov.electrical
          ++ (operation_values ov.operation
              ++ (storage_values ov.storage ++ (source_values ov.source ++ cost_values ov.costs))))

  unfoldable pub structure_problems : Text → Option (Value F) → List Problem
  unfolding structural_problem
  structure_problems place v = structural_problem place (structural_error v)

  -- The values that technologies take from series by their slots; the message names the series.
  unfoldable pub series_of_tech : Technology F → List (Option (Value F))
  series_of_tech t =
      (t.efficiency ∷ t.demand_profile ∷ t.dispatch ∷ []) ++ electrical_values t.electrical

  abbrev pub operation_series : Option (Operation F) → List (Option (Value F))
  operation_series none = []
  operation_series (some op) = op.max_pu ∷ op.min_pu ∷ []

  abbrev pub inflow_of : Option (Storage F) → Option (Value F)
  inflow_of none = none
  inflow_of (some s) = s.inflow

  abbrev pub soc_of : Option (Storage F) → Option (Value F)
  soc_of none = none
  soc_of (some s) = s.soc_profile

  abbrev pub precomputed_of : Option (Performance F) → Option (Value F)
  precomputed_of none = none
  precomputed_of (some p) = p.precomputed

  -- The check of a reference to a series
  unfoldable pub series_problems : Text → Model F → Option (Value F) → List Problem
  unfolding has_series
  series_problems place m v =
      report place ((not (has_series m.timeseries v), codes "time-series %q not defined") ∷ [])

  -- The cost classes of an overnight basis: an investment needs the means to annualize it.
  abbrev needs_annuity : Technology F → CostClass F → Bool
  needs_annuity t c =
      given c.investment_per_capacity && (not (given t.lifetime) || not (given t.interest_rate))

  unfoldable pub annuity_problems : Text → Technology F → Map (CostClass F) → List Problem
  annuity_problems place t [] = []
  annuity_problems place t ((class, c) ∷ costs) =
      report place (
        (
          needs_annuity t c,
          codes
              "overnight investment in cost class %q needs lifetime and interest_rate to annualize",
        )
        ∷ [])
      ++ annuity_problems place t costs

  unfoldable pub overnight_problems : Text → Technology F → List Problem
  unfolding annuity_problems
  overnight_problems place t =
      if str_eq t.cost_basis overnight || str_eq t.cost_basis []
      then annuity_problems place t t.costs
      else []

  unfoldable pub annualized_problems : Text → Technology F → List Problem
  annualized_problems place t =
      if str_eq t.cost_basis annualized
      then each_entry
          (λ class c. report place (
            (
              given c.fixed_om_fraction,
              codes
                  "costs.%s.fixed_om_fraction needs the overnight cost basis (cost_basis is annualized)",
            )
            ∷ []))
          t.costs
      else []
