-- ===== src/Tests/Checking.antt =====
-- The checks of a job for a target, as a whole.
use meme.Base.{
  ℕ, ◌≡◌, refl, false, none, [], ◌∷◌, codes, lookup, insert, has_prefix, str_eq, str_lt,
  sorted_keys, sort_strings, insert_sorted, strip_prefix, trim_prefix,
}
use meme.Model.Run.Modes.{valid_mode}
use meme.Model.Run.Validate.{validate_experiment, sweep_problems, network_checks}
use meme.Model.Enums.{valid_objective, valid_foresight}
use meme.Model.Values.{is_series, is_inline, series_id}
use meme.Model.Ids.{intern_key, add_parts}
use meme.Model.Checks.{report}
use meme.Model.Validate.Each.{each}
use meme.Model.Intern.{
  squatter, ◌>>=◌, keep_as, intern_inline_series, intern_value, intern, intern_at, intern_keys,
  intern_entries, intern_electrical, intern_operation, intern_storage, intern_source,
  intern_performance, intern_cost, intern_override, intern_tech, intern_climate, intern_node,
  intern_arc, intern_side, intern_trade, intern_slots,
}
use meme.Target.Registry.{Target, Registry, for_target, resolve}
use meme.Target.Pipeline.{Hooks, Checked, validate_for}
use meme.Target.Pipeline.Again.{validate_for-again}
use meme.Tests.Fixtures.{naturals, sweeping}
use meme.Tests.Plant.{network, network-valid, dates}
use meme.Tests.Gates.{capabilities, planning, planning-accepted}

abbrev solver : Target
solver = record {
  name = codes "pypsa";
  version = codes "0.35";
  capabilities = capabilities;
  variant = false;
}

abbrev solvers : Registry
solvers = record { registry = (codes "pypsa", solver) ∷ []; aliases = [] }

abbrev hooks : Hooks ℕ
hooks = record { quote = λ s. s; validate_job = λ name j. (codes "no solver" ∷ [], none) }

network-interned : intern_inline_series network ≡ (network, none)
unfolding lookup intern_inline_series intern_slots ◌>>=◌ keep_as intern_entries intern_keys
    sorted_keys str_eq intern_arc intern intern_node intern_climate is_inline intern_value is_series
    insert insert_sorted sort_strings has_prefix str_lt strip_prefix trim_prefix add_parts
    intern_key intern_at intern_cost intern_electrical intern_operation intern_override
    intern_performance intern_side intern_source intern_storage intern_tech intern_trade squatter
    series_id
network-interned = refl

sweeping-valid : validate_experiment naturals (sweeping []) ≡ []
unfolding validate_experiment report each sweep_problems network_checks valid_mode valid_objective
    valid_foresight str_eq
sweeping-valid = refl

abbrev checked : Checked ℕ
checked = validate_for naturals dates hooks solvers planning (codes "pypsa")

planning-passes : checked.2 ≡ none
unfolding validate_for for_target resolve lookup str_eq
planning-passes = rw (network-interned, network-valid, sweeping-valid, planning-accepted) refl

planning-job : checked.0 ≡ planning
unfolding validate_for for_target resolve lookup str_eq
planning-job = rw (network-interned, network-valid, sweeping-valid, planning-accepted) refl

validate_for-again_example :
    validate_for naturals dates hooks solvers checked.0 (codes "pypsa") ≡ checked
validate_for-again_example =
    validate_for-again naturals dates hooks solvers planning (codes "pypsa") planning-passes
      (rw (planning-job, network-interned) refl)
