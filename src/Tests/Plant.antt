-- ===== src/Tests/Plant.antt =====
-- A model of two nodes, a load, a plant with flows and an override, and a line, which passes
-- validation; the dates and the numbers that it is read with.
use meme.Base.{ℕ, ◌≡◌, refl, true, false, some, none, List, [], ◌∷◌, ltb, length, pos, Text, codes}
use meme.Model.Types.{
  Flow, TimeSeries, NodeOverride, Technology, Node, Constraint, EmissionLimit,
  TransmissionElectrical, Transmission, Value, Period, Model,
}
use meme.Model.Dates.{Dates}
use meme.Model.Electrical.{Maths}
use meme.Model.Validate.{validate_model}
use meme.Base.{str_eq, str_lt, sorted_keys, lookup, has_key, has_prefix, trim_prefix}
use meme.Model.Dates.{parse_date, parseable_date}
use meme.Model.Checks.{report, validate_capacity, validate_storage, validate_performance, perf_kind}
use meme.Model.Values.{reduce, is_series, series_id, structural_error}
use meme.Model.Ids.{valid_id, valid_series_id, contains_str}
use meme.Model.Enums.{valid_role, valid_cost_basis, valid_sense, valid_variable, valid_kind}
use meme.Model.Validate.Each.{each, each_entry}
use meme.Model.Validate.Times.{
  time_problems, timestep_problems, horizon_problems, period_problems, any_year, has_series,
  weights_not_positive,
}
use meme.Model.Validate.Blocks.{validate_operation, validate_costs, validate_tech_electrical}
use meme.Model.Validate.Flows.{flow_problems}
use meme.Model.Validate.Slots.{
  node_list_problems, carrier_problems, tech_values, override_values, structure_problems,
  series_of_tech, series_problems, overnight_problems, annualized_problems,
}
use meme.Model.Validate.Techs.{
  performance_problems, placement_problems, slot_problems, range_problems, override_problems,
  tech_problems,
}
use meme.Model.Validate.Registry.{naming_problems, node_problems}
use meme.Model.Validate.Limits.{each_constraint, constraint_names, each_limit, trade_problems}
use meme.Model.Validate.Arcs.{arc_problems}
use meme.Tests.Fixtures.{naturals, grid, wind, power}

abbrev pub dates : Dates
dates = record {
  Time = ℕ;
  parse = λ layout s. some (length s);
  after = λ a b. ltb b a;
  sub = λ a b. pos a;
  add = λ t d. t;
  format = λ t layout. layout;
}

abbrev pub maths : Maths naturals
maths = record { round = λ x. x; tan = λ x. x; acos = λ x. x; neg = λ x. x }

abbrev pub series : List ℕ → TimeSeries ℕ
series xs = record { source = codes "inline"; path = []; column = []; values = xs; unit = [] }

abbrev pub node : Text → Node ℕ
node name = record {
  name = name;
  coords = none;
  allowed_techs = [];
  available_area = none;
  climate = [];
  electrical = some (record { v_nom = 110; shunt = none });
  native = none;
}

abbrev pub of_series : Text → Value ℕ
of_series id = record { scalar = none; ref = id; inline = []; indexed = none }

abbrev pub load : Technology ℕ
load = record wind {
  role = codes "demand";
  node = codes "south" ∷ [];
  carrier_in = codes "power" ∷ [];
  carrier_out = [];
  demand_profile = some (of_series (codes "load"));
}

abbrev pub gas_in : Flow ℕ
gas_in = record { carrier = codes "gas"; direction = codes "in"; ratio = 0; reference = true }

abbrev pub power_out : Flow ℕ
power_out = record {
  carrier = codes "power";
  direction = codes "out";
  ratio = 2;
  reference = false;
}

abbrev pub no_override : NodeOverride ℕ
no_override = record {
  carrier_in = none;
  carrier_out = none;
  efficiency = none;
  performance = none;
  capacity = none;
  operation = none;
  storage = none;
  demand_profile = none;
  dispatch = some (of_series (codes "load"));
  electrical = none;
  area = none;
  source = none;
  costs = [];
  native = none;
}

abbrev pub plant : Technology ℕ
plant = record wind {
  role = codes "conversion";
  node = codes "north" ∷ codes "south" ∷ [];
  carrier_in = codes "gas" ∷ [];
  flows = gas_in ∷ power_out ∷ [];
  node_overrides = (codes "north", no_override) ∷ [];
}

abbrev pub branch : TransmissionElectrical ℕ
branch = record {
  kind = codes "line";
  r = 1;
  x = 2;
  r_per_length = none;
  x_per_length = none;
  s_nom = none;
  num_parallel = none;
  b = none;
  g = none;
  tap_ratio = none;
  phase_shift = none;
  max_loading = none;
}

abbrev pub arc : Transmission ℕ
arc = record {
  carrier = codes "power";
  from = codes "north";
  to = codes "south";
  bidirectional = true;
  capacity = none;
  efficiency = none;
  distance = some 10;
  loss_per_distance = none;
  min_flow = none;
  emission_factor = none;
  energy_consumption = none;
  costs = [];
  electrical = some branch;
  dispatch = none;
  lifetime = none;
  interest_rate = none;
  cost_basis = [];
  active = none;
  native = none;
}

abbrev pub cap : Constraint ℕ
cap = record {
  name = codes "cap";
  terms =
      record {
        coefficient = 1;
        variable = codes "capacity";
        techs = codes "plant" ∷ [];
        carriers = [];
        nodes = codes "north" ∷ [];
      }
      ∷ [];
  sense = codes "<=";
  bound = 5;
  period = [];
}

abbrev pub co2 : EmissionLimit ℕ
co2 = record {
  name = codes "co2";
  carrier = codes "gas";
  sense = codes "<=";
  limit = 100;
  period = [];
}

abbrev pub period : Text → ℕ → Period ℕ
period name year = record {
  name = name;
  year = some (pos year);
  length_years = none;
  objective_weight = none;
}

abbrev pub network : Model ℕ
network = record grid {
  time = record (grid.time) { end = codes "2030-01-02T00:00" };
  periods = period (codes "first") 2030 ∷ period (codes "second") 2040 ∷ [];
  carriers = (codes "power", power) ∷ (codes "gas", power) ∷ [];
  nodes = (codes "north", node (codes "North")) ∷ (codes "south", node (codes "South")) ∷ [];
  timeseries = (codes "load", series (1 ∷ 2 ∷ [])) ∷ [];
  technologies = (codes "load", load) ∷ (codes "plant", plant) ∷ [];
  transmission = (codes "tie", arc) ∷ [];
  constraints = cap ∷ [];
  emission_limits = co2 ∷ [];
}

pub network-valid : validate_model naturals dates network ≡ []
unfolding validate_model str_eq str_lt sorted_keys lookup has_key parse_date parseable_date report
    validate_capacity validate_storage validate_performance perf_kind reduce is_series series_id
    structural_error valid_id valid_series_id contains_str valid_role valid_cost_basis valid_sense
    valid_variable valid_kind each each_entry time_problems timestep_problems horizon_problems
    period_problems any_year has_series weights_not_positive validate_operation validate_costs
    validate_tech_electrical flow_problems node_list_problems carrier_problems tech_values
    override_values structure_problems series_of_tech series_problems overnight_problems
    annualized_problems performance_problems placement_problems slot_problems range_problems
    override_problems tech_problems naming_problems node_problems each_constraint constraint_names
    each_limit trade_problems arc_problems has_prefix trim_prefix
network-valid = refl
