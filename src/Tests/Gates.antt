-- ===== src/Tests/Gates.antt =====
-- The gates of a target's capabilities.
use meme.Base.{
  ℕ, ◌≡◌, refl, Bool, true, List, [], ◌∷◌, codes, Map, lookup, str_eq, str_lt, sorted_keys,
}
use meme.Model.Run.{Job}
use meme.Model.Run.Modes.{valid_mode, effective_mode, effective_network}
use meme.Model.Enums.{valid_objective, valid_foresight}
use meme.Model.Values.{is_series}
use meme.Model.Checks.{report, perf_kind, Problem}
use meme.Model.Validate.Each.{each, each_entry}
use meme.Target.Gates.{
  accepted, gate_problems, capable, mode_gates, outage_gates, power_flow_gates, run_gates,
  file_gates, feature_gates, indexed_gates, tech_gates,
}
use meme.Target.Gates.Uses.{mode_feature, uses_flows, uses_commit, uses_area, uses_source}
use meme.Target.Gates.Warnings.{validate_generic, gate_warnings}
use meme.Target.Gates.Honored.{IsHonored, validate_generic-IsHonored}
use meme.Tests.Fixtures.{naturals, sweeping}
use meme.Tests.Plant.{network}

abbrev pub capabilities : Map Bool
capabilities =
    (codes "mode:plan", true)
    ∷ (codes "multi_carrier_conversion", true)
    ∷ (codes "emission_limit", true)
    ∷ (codes "linear_constraint", true)
    ∷ (codes "indexed_params", true)
    ∷ []

abbrev pub planning : Job ℕ
planning = record { api_key = []; model = network; experiment = sweeping [] }

abbrev pub warned : List Problem
warned = gate_warnings naturals capabilities (codes "pypsa") planning

pub planning-accepted :
    validate_generic naturals capabilities (codes "pypsa") planning ≡ accepted warned
unfolding validate_generic gate_problems capable mode_gates outage_gates power_flow_gates run_gates
    file_gates feature_gates indexed_gates tech_gates mode_feature uses_flows uses_commit uses_area
    uses_source report each each_entry perf_kind is_series valid_mode effective_mode
    effective_network valid_objective valid_foresight lookup str_eq str_lt sorted_keys
planning-accepted = refl

validate_generic-IsHonored_example : IsHonored capabilities planning
validate_generic-IsHonored_example =
    validate_generic-IsHonored capabilities naturals (codes "pypsa") planning warned
      planning-accepted
