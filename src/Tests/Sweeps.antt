-- ===== src/Tests/Sweeps.antt =====
-- Sweep expansion and its run count.
use meme.Base.{ℕ, ◌≡◌, refl, some, str_eq, ◌≤◌, ◌↔◌, [], ◌∷◌, codes, length, In, Map}
use meme.Model.Run.{SweepAxis, SecurityOptions, NetworkOptions, Experiment}
use meme.Model.Run.Sweeps.{expand_sweep, count_runs, max_sweep_runs}
use meme.Model.Run.Sweeps.Product.{Assigns, expand_sweep_lem}
use meme.Model.Run.Modes.{valid_mode, effective_mode, effective_network}
use meme.Model.Run.Validate.{
  sweep_problems, axis_checks, cap_checks, network_checks, security_checks, validate_experiment,
}
use meme.Model.Run.Validate.Accepted.{validate_experiment-runs}
use meme.Model.Enums.{valid_objective, valid_foresight, valid_network}
use meme.Model.Checks.{report}
use meme.Model.Validate.Each.{each}
use meme.Tests.Fixtures.{naturals, efficiency_axis, sweeping}

abbrev max_axis : SweepAxis ℕ
max_axis = record { parameter = codes "technologies.wind.capacity.max"; values = 10 ∷ 20 ∷ 30 ∷ [] }

abbrev assignment : Map ℕ
assignment =
    (codes "technologies.wind.efficiency", 2) ∷ (codes "technologies.wind.capacity.max", 10) ∷ []

expand_sweep_lem_example :
    In assignment (expand_sweep (efficiency_axis ∷ max_axis ∷ []))
    ↔ Assigns (efficiency_axis ∷ max_axis ∷ []) [] assignment
expand_sweep_lem_example = expand_sweep_lem efficiency_axis (max_axis ∷ []) assignment

abbrev both_axes : Experiment ℕ
both_axes = sweeping (efficiency_axis ∷ max_axis ∷ [])

both_axes-valid : validate_experiment naturals both_axes ≡ []
unfolding validate_experiment report each sweep_problems count_runs axis_checks cap_checks
    network_checks valid_mode valid_objective valid_foresight str_eq
both_axes-valid = refl

validate_experiment-runs_example :
    (1 ≤ length (expand_sweep both_axes.sweep))
    × (length (expand_sweep both_axes.sweep) ≤ max_sweep_runs)
validate_experiment-runs_example =
    validate_experiment-runs naturals both_axes efficiency_axis (max_axis ∷ []) both_axes-valid refl

abbrev outages : SecurityOptions ℕ
outages = record { outages = codes "tie" ∷ [] }

abbrev secure : NetworkOptions ℕ
secure = record { model = codes "linear_power_flow"; security = some outages }

abbrev secured : Experiment ℕ
secured = record (sweeping []) { network = some secure }

secured-valid : validate_experiment naturals secured ≡ []
unfolding validate_experiment report each sweep_problems count_runs axis_checks cap_checks
    network_checks security_checks valid_mode valid_objective valid_foresight valid_network
    effective_mode effective_network str_eq
secured-valid = refl
