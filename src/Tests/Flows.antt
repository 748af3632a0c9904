-- ===== src/Tests/Flows.antt =====
-- A power flow and a plan that the PyPSA target accepts.
use meme.Base.{
  ℕ, ◌≡◌, refl, true, none, some, false, [], ◌∷◌, Text, codes, str_eq, str_lt, lookup, insert,
  has_key, sorted_keys, sort_strings, insert_sorted,
}
use meme.Model.Types.{NodeOverride, Capacity, Technology, Model}
use meme.Model.Run.{PowerFlowOptions, Job}
use meme.Model.Run.Modes.{effective_mode, effective_network}
use meme.Model.Ids.{contains_str}
use meme.Model.Electrical.{
  is_pv, rating, rating_or, capacity_rating, slack_or_empty, effective_method,
}
use meme.Model.Overrides.{tech_at}
use meme.Model.Periods.{investment_periods}
use meme.Model.Checks.{report}
use meme.Model.Validate.Each.{each, each_entry}
use meme.Model.Values.{is_series}
use meme.Target.Gates.{accepted}
use meme.Target.Gates.Warnings.{first_or}
use meme.Target.Pypsa.Planning.{decommission_mode}
use meme.Target.Pypsa.Buses.{
  mark, mark_each, tech_marks, techs_marks, arcs_marks, bus_grid, by_carrier,
}
use meme.Target.Pypsa.Islands.{
  find_root, link, link_all, self_parents, branches, rooted, groups_of, insert_island, sort_islands,
  islands, ac_islands,
}
use meme.Target.Pypsa.Network.{
  cut_at, seen_carriers, electrical_carriers, component_name, supplies, slack_at, slack_component,
  nodes_on, ac_nodes, on_network, level_problems,
}
use meme.Target.Gates.Uses.{expandable_cap}
use meme.Target.Pypsa.Flow.{
  instance_problems, injection_problems, share_problems, island_problems, slack_problems,
  arc_flow_problems, network_problems, power_flow_problems, has_reactive_inputs, carriers_beside,
  network_warnings, power_flow_warnings,
}
use meme.Target.Pypsa.Flow.Held.{
  hold_nodes, hold_tech, hold_techs, disagreements, hold_at, setpoints_by_node, agreement_problems,
}
use meme.Target.Pypsa.Flow.Balancing.{weigh_at, weigh_nodes, weigh_tech, weigh_techs, balance_of}
use meme.Target.Pypsa.Flow.Solvable.{IsSolvable, power_flow_problems-IsSolvable}
use meme.Target.Pypsa.Checks.Fields.{
  is_store, field_problems, systemwide_problems, storage_problems, arc_field_problems,
}
use meme.Target.Pypsa.Checks.Dropped.{field_warnings, dropped_warnings, trade_warnings}
use meme.Target.Pypsa.Checks.Runs.{
  operate_problems, solver_name, option_names, solver_options, purchase_problems, subset_problems,
  has_quad, has_int, solver_problems, switch_problems, switch_warnings, accounting_problems,
  solver_warnings, unpriced,
}
use meme.Target.Pypsa.Checks.Modes.{
  problems_in, mode_problems, mode_warnings, scope_problems, planning_problems,
}
use meme.Target.Pypsa.Costs.{transmission_capital_cost}
use meme.Target.Pypsa.Checks.{
  run_problems, component_problems, job_problems, cost_warnings, job_warnings, validate_job,
}
use meme.Target.Pypsa.Checks.Accepted.{IsEncodable, validate_job-IsEncodable}
use meme.Tests.Fixtures.{grid, naturals, wind, sweeping}
use meme.Tests.Plant.{no_override, network, load, arc, branch, of_series}
use meme.Tests.Planning.{powers}

abbrev pub built : Capacity ℕ
built = record {
  existing = 50;
  expandable = false;
  min = none;
  max = none;
  unit = [];
  per_unit = none;
  units_min = none;
  units_max = none;
  systemwide_min = none;
  systemwide_max = none;
  decommission = none;
}

-- The balancing turbine in the north, and one in the south with a dispatch
abbrev pub balancing_wind : Technology ℕ
balancing_wind = record wind { capacity = some built }

abbrev pub fixed_wind : Technology ℕ
fixed_wind = record wind { node = codes "south" ∷ []; dispatch = some (of_series (codes "load")) }

abbrev pub flow_model : Model ℕ
flow_model = record network {
  technologies =
      (codes "load", load) ∷ (codes "south", fixed_wind) ∷ (codes "wind", balancing_wind) ∷ [];
  transmission =
      (codes "tie", record arc { electrical = some (record branch { s_nom = some 40 }) }) ∷ [];
  constraints = [];
  periods = [];
  emission_limits = [];
}

abbrev flow_options : PowerFlowOptions ℕ
flow_options = record {
  method = [];
  slack = codes "wind";
  distribute_slack = false;
  tolerance = none;
}

abbrev pub flow_job : Job ℕ
flow_job = record {
  api_key = [];
  model = flow_model;
  experiment = record (sweeping []) { mode = codes "power_flow"; power_flow = some flow_options };
}

flow_job-solvable : power_flow_problems naturals flow_job ≡ []
unfolding str_eq str_lt lookup insert has_key sorted_keys sort_strings insert_sorted contains_str
    is_pv rating rating_or capacity_rating slack_or_empty tech_at report each each_entry mark
    mark_each tech_marks techs_marks arcs_marks bus_grid by_carrier find_root link link_all
    self_parents branches rooted groups_of insert_island sort_islands islands ac_islands cut_at
    seen_carriers electrical_carriers component_name supplies slack_at slack_component nodes_on
    ac_nodes on_network level_problems instance_problems injection_problems share_problems hold_at
    setpoints_by_node agreement_problems weigh_at weigh_nodes weigh_tech weigh_techs balance_of
    island_problems slack_problems arc_flow_problems network_problems power_flow_problems hold_nodes
    hold_tech hold_techs disagreements
flow_job-solvable = refl

power_flow_problems-IsSolvable_example :
    (carrier : Text) × (slack : Text) × (n : Text) × IsSolvable naturals flow_job carrier slack n
power_flow_problems-IsSolvable_example =
    power_flow_problems-IsSolvable naturals flow_job flow_job-solvable

flow_job-accepted : validate_job naturals powers flow_job ≡ accepted []
unfolding validate_job job_problems run_problems component_problems job_warnings cost_warnings
    first_or subset_problems purchase_problems mode_problems problems_in scope_problems
    switch_problems solver_problems has_quad has_int planning_problems accounting_problems
    field_problems systemwide_problems storage_problems arc_field_problems mode_warnings
    power_flow_warnings network_warnings switch_warnings field_warnings dropped_warnings
    trade_warnings solver_warnings solver_options option_names solver_name transmission_capital_cost
    is_store decommission_mode has_reactive_inputs carriers_beside effective_method effective_mode
    effective_network investment_periods each each_entry report lookup str_eq str_lt sorted_keys
    sort_strings insert_sorted insert tech_at is_series electrical_carriers seen_carriers bus_grid
    techs_marks tech_marks mark_each mark arcs_marks slack_component slack_or_empty cut_at supplies
    slack_at component_name ac_nodes nodes_on ac_islands islands link_all link find_root
    self_parents branches rooted groups_of by_carrier insert_island sort_islands has_key balance_of
    weigh_techs weigh_tech weigh_nodes weigh_at contains_str unpriced
flow_job-accepted = rw flow_job-solvable refl

validate_job-IsEncodable_example : IsEncodable naturals flow_job
validate_job-IsEncodable_example =
    validate_job-IsEncodable naturals powers flow_job [] flow_job-accepted

-- An override makes a capacity expandable in mode operate.
abbrev growing : NodeOverride ℕ
growing = record no_override {
  dispatch = none;
  capacity = some (record built { expandable = true });
}

abbrev growing_wind : Technology ℕ
growing_wind = record balancing_wind { node_overrides = (codes "north", growing) ∷ [] }

abbrev operated : Job ℕ
operated = record {
  api_key = [];
  model = record grid { technologies = (codes "wind", growing_wind) ∷ [] };
  experiment = record (sweeping []) { mode = codes "operate" };
}

operated-expands :
    (job_problems naturals operated ≡ [])
    × (expandable_cap (tech_at growing_wind (codes "north")).capacity ≡ true)
unfolding validate_job job_problems run_problems component_problems job_warnings cost_warnings
    first_or subset_problems purchase_problems mode_problems problems_in scope_problems
    switch_problems solver_problems has_quad has_int planning_problems accounting_problems
    field_problems systemwide_problems storage_problems arc_field_problems mode_warnings
    power_flow_warnings network_warnings switch_warnings field_warnings dropped_warnings
    trade_warnings solver_warnings solver_options option_names solver_name transmission_capital_cost
    is_store decommission_mode has_reactive_inputs carriers_beside effective_method effective_mode
    effective_network investment_periods each each_entry report lookup str_eq str_lt sorted_keys
    sort_strings insert_sorted insert tech_at is_series electrical_carriers seen_carriers bus_grid
    techs_marks tech_marks mark_each mark arcs_marks slack_component slack_or_empty cut_at supplies
    slack_at component_name ac_nodes nodes_on ac_islands islands link_all link find_root
    self_parents branches rooted groups_of by_carrier insert_island sort_islands has_key balance_of
    weigh_techs weigh_tech weigh_nodes weigh_at unpriced contains_str operate_problems
operated-expands = (refl, refl)
