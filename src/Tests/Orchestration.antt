-- ===== src/Tests/Orchestration.antt =====
-- Parameter paths, and the simulation of one target.
use meme.Base.{
  ℕ, ◌≡◌, refl, ◌↔◌, some, List, [], ◌∷◌, Text, codes, str_eq, lookup, insert, length, split,
}
use meme.Model.Types.{Model}
use meme.Model.Run.Sweeps.{expand_sweep}
use meme.Service.Orchestrator.{
  panic, apply_segments, apply_tech, apply_capacity, apply_path, apply_assignment, ExpandedRun,
  expand_runs, expand_each, split_path, scalar_value,
}
use meme.Service.Orchestrator.Paths.{
  param_at, param_at-apply_segments, AgreeBut, apply_segments_frame,
}
use meme.Service.Orchestrator.Panics.{CutCapacityPath, apply_segments-panic_iff}
use meme.Service.Simulate.{fine, simulate}
use meme.Service.Simulate.Results.{Reports, simulate-Reports}
use meme.Tests.Fixtures.{naturals, grid, wind, job, calls}

-- The model with the wind technology's efficiency set.
abbrev with_efficiency : ℕ → Model ℕ
with_efficiency v = record grid {
  technologies = (codes "wind", record wind { efficiency = some (scalar_value naturals v) }) ∷ [];
}

abbrev efficiency_path : List Text
efficiency_path = codes "technologies" ∷ codes "wind" ∷ codes "efficiency" ∷ []

param_at-apply_segments_example : param_at naturals efficiency_path (with_efficiency 7) ≡ some 7
unfolding apply_segments apply_tech lookup insert str_eq
param_at-apply_segments_example =
    param_at-apply_segments naturals efficiency_path 7 grid (with_efficiency 7) refl

apply_segments_frame_example : AgreeBut naturals (codes "wind") grid (with_efficiency 7)
unfolding apply_segments apply_tech lookup insert str_eq
apply_segments_frame_example =
    apply_segments_frame naturals (codes "technologies") (codes "wind") (codes "efficiency") [] 7
      grid (with_efficiency 7) refl

apply_segments-panic_iff_example :
    (apply_segments naturals (codes "technologies" ∷ codes "wind" ∷ codes "capacity" ∷ []) 7 grid
      ≡ panic)
    ↔ CutCapacityPath naturals (codes "technologies" ∷ codes "wind" ∷ codes "capacity" ∷ []) grid
apply_segments-panic_iff_example =
    apply_segments-panic_iff naturals (codes "technologies" ∷ codes "wind" ∷ codes "capacity" ∷ [])
      7 grid

-- Such a path does panic.
cut_path_panics :
    apply_segments naturals (codes "technologies" ∷ codes "wind" ∷ codes "capacity" ∷ []) 7 grid
    ≡ panic
unfolding apply_segments apply_tech apply_capacity lookup str_eq
cut_path_panics = refl

abbrev run_of : ℕ → ExpandedRun naturals
run_of v = record {
  job = record job { model = with_efficiency v };
  assignment = (codes "technologies.wind.efficiency", v) ∷ [];
}

simulate-Reports_example :
    let out = (simulate naturals calls job (codes "pypsa") (codes "jobs")).1 in
    Reports naturals calls (codes "pypsa") (codes "jobs") 0 (run_of 1 ∷ run_of 2 ∷ []) out.results
    × (out.end ≡ fine → length out.results ≡ 2)
    × (out.warnings ≡ codes "short series" ∷ [])
unfolding expand_runs expand_each expand_sweep apply_assignment apply_path apply_segments apply_tech
    split_path split lookup insert str_eq
simulate-Reports_example =
    simulate-Reports naturals calls job (codes "pypsa") (codes "jobs") (run_of 1 ∷ run_of 2 ∷ [])
      refl refl refl
