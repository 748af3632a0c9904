-- ===== src/Tests/Voltages.antt =====
-- The voltage set-points of a power flow, compared and emitted.
use meme.Base.{
  ℕ, ◌≡◌, refl, inl, inr, All, true, Map, some_injective, Bool-cases, none, some, false, [], ◌∷◌,
  Text, codes, str_eq, str_lt, lookup, insert, has_key, sorted_keys, sort_strings, insert_sorted,
}
use meme.Model.Types.{TechElectrical, Technology, Model}
use meme.Model.Run.{Job}
use meme.Model.Run.Modes.{effective_mode}
use meme.Model.Ids.{contains_str}
use meme.Model.Electrical.{is_pv, rating, rating_or, capacity_rating, slack_or_empty}
use meme.Model.Overrides.{tech_at}
use meme.Model.Checks.{report}
use meme.Model.Validate.Each.{each, each_entry}
use meme.Target.Pypsa.Buses.{
  mark, mark_each, tech_marks, techs_marks, arcs_marks, bus_grid, by_carrier,
}
use meme.Target.Pypsa.Islands.{
  is_active, find_root, link, link_all, self_parents, branches, rooted, groups_of, insert_island,
  sort_islands, islands, ac_islands,
}
use meme.Target.Pypsa.Network.{
  cut_at, seen_carriers, electrical_carriers, component_name, supplies, slack_at, slack_component,
  nodes_on, ac_nodes, on_network, level_problems,
}
use meme.Target.Pypsa.Flow.Emitted.{
  PowerFlow, name_of, set_first, emit_at, emit_nodes, emit_tech, emit_techs, voltage_setpoints,
  power_flow_of,
}
use meme.Target.Pypsa.Flow.Compared.{AllActive}
use meme.Target.Pypsa.Flow.Agreed.{IsAgreed, power_flow_of-IsAgreed}
use meme.Target.Pypsa.Flow.{
  instance_problems, injection_problems, share_problems, island_problems, slack_problems,
  arc_flow_problems, network_problems, power_flow_problems,
}
use meme.Target.Pypsa.Flow.Held.{
  hold_nodes, hold_tech, hold_techs, disagreements, hold_at, setpoints_by_node, agreement_problems,
}
use meme.Target.Pypsa.Flow.Balancing.{weigh_at, weigh_nodes, weigh_tech, weigh_techs, balance_of}
use meme.Tests.Fixtures.{naturals}
use meme.Tests.Plant.{load}
use meme.Tests.Flows.{balancing_wind, fixed_wind, flow_model, flow_job}

-- A slack that holds its own voltage
abbrev holding : Text → ℕ → TechElectrical ℕ
holding control v = record {
  reactive_dispatch = none;
  power_factor = none;
  leading = false;
  control = control;
  voltage_setpoint = some v;
}

abbrev held_model : Model ℕ
held_model = record flow_model {
  technologies =
      (codes "load", load)
      ∷ (codes "south", fixed_wind)
      ∷ (codes "wind", record balancing_wind { electrical = some (holding [] 2) })
      ∷ [];
}

abbrev held_job : Job ℕ
held_job = record flow_job { model = held_model }

held_job-solvable : power_flow_problems naturals held_job ≡ []
unfolding str_eq str_lt lookup insert has_key sorted_keys sort_strings insert_sorted contains_str
    is_pv rating rating_or capacity_rating slack_or_empty tech_at report each each_entry mark
    mark_each tech_marks techs_marks arcs_marks bus_grid by_carrier find_root link link_all
    self_parents branches rooted groups_of insert_island sort_islands islands ac_islands cut_at
    seen_carriers electrical_carriers component_name supplies slack_at slack_component nodes_on
    ac_nodes on_network level_problems instance_problems injection_problems share_problems hold_at
    setpoints_by_node agreement_problems weigh_at weigh_nodes weigh_tech weigh_techs balance_of
    island_problems slack_problems arc_flow_problems network_problems power_flow_problems hold_nodes
    hold_tech hold_techs disagreements
held_job-solvable = refl

abbrev held_flow : PowerFlow ℕ
held_flow = record {
  carrier = codes "power";
  slack = codes "wind";
  setpoints = (codes "north", 2) ∷ [];
}

held_job-flow : power_flow_of held_job ≡ some held_flow
unfolding str_eq str_lt lookup insert has_key sorted_keys sort_strings insert_sorted contains_str
    is_pv rating rating_or capacity_rating slack_or_empty tech_at report each each_entry mark
    mark_each tech_marks techs_marks arcs_marks bus_grid by_carrier find_root link link_all
    self_parents branches rooted groups_of insert_island sort_islands islands ac_islands cut_at
    seen_carriers electrical_carriers component_name supplies slack_at slack_component nodes_on
    ac_nodes on_network level_problems instance_problems injection_problems share_problems hold_at
    setpoints_by_node agreement_problems weigh_at weigh_nodes weigh_tech weigh_techs balance_of
    island_problems slack_problems arc_flow_problems network_problems power_flow_problems
    effective_mode power_flow_of name_of voltage_setpoints emit_techs emit_tech emit_nodes emit_at
    set_first
held_job-flow = refl

active_at :
    (id : Text) (t : Technology ℕ) (m : Map (Technology ℕ))
    → All (λ (k, u). is_active u.active ≡ true) m
    → lookup id m ≡ some t
    → is_active t.active ≡ true
unfolding lookup
active_at id t [] a e = cc
active_at id t ((k, u) ∷ m) (h, a) e = elim (Bool-cases (str_eq k id)) [
  | inl s ↦ let same : u ≡ t = some_injective (rw s at e) in rw (← same) h
  | inr s ↦ active_at id t m a (rw s at e)
]

held_job-active : AllActive held_model
held_job-active id t e = active_at id t held_model.technologies (refl, (refl, (refl, tt))) e

power_flow_of-IsAgreed_example : IsAgreed naturals held_job held_flow (codes "north") 2
power_flow_of-IsAgreed_example =
    power_flow_of-IsAgreed naturals held_job held_flow (codes "north") 2 held_job-solvable
      held_job-flow held_job-active (unfold lookup str_eq in refl)

-- An inactive generator's set-point is emitted, though nothing has compared it.
abbrev idle : Technology ℕ
idle = record balancing_wind { active = some false; electrical = some (holding (codes "pv") 9) }

abbrev idle_model : Model ℕ
idle_model = record held_model { technologies = (codes "idle", idle) ∷ held_model.technologies }

abbrev idle_job : Job ℕ
idle_job = record flow_job { model = idle_model }

idle_job-setpoints :
    (power_flow_problems naturals idle_job ≡ [])
    × (voltage_setpoints idle_model (codes "power") (codes "wind") ≡ (codes "north", 9) ∷ [])
    × (setpoints_by_node naturals (codes "power") (codes "wind") idle_model
        ≡ (codes "north", (codes "wind", 2) ∷ []) ∷ [])
unfolding str_eq str_lt lookup insert has_key sorted_keys sort_strings insert_sorted contains_str
    is_pv rating rating_or capacity_rating slack_or_empty tech_at report each each_entry mark
    mark_each tech_marks techs_marks arcs_marks bus_grid by_carrier find_root link link_all
    self_parents branches rooted groups_of insert_island sort_islands islands ac_islands cut_at
    seen_carriers electrical_carriers component_name supplies slack_at slack_component nodes_on
    ac_nodes on_network level_problems instance_problems injection_problems share_problems hold_at
    setpoints_by_node agreement_problems weigh_at weigh_nodes weigh_tech weigh_techs balance_of
    island_problems slack_problems arc_flow_problems network_problems power_flow_problems hold_nodes
    hold_tech hold_techs disagreements voltage_setpoints emit_techs emit_tech emit_nodes emit_at
    set_first
idle_job-setpoints = (refl, refl, refl)
