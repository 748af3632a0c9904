-- ===== src/Model/Run/Validate.antt =====
-- `Experiment.Validate` of internal/model/experiment.go. A problem is its place and the format of its
-- message.
pub mod Accepted
use meme.Base.{
  ℕ, suc, Bool, true, false, not, ◌&&◌, ◌||◌, Option, none, some, List, [], ◌∷◌, ◌++◌,
  if◌then◌else◌, ltb, leb, length, Float64, ℤ, pos, ltb_ℤ, Text, codes, str_eq, Map, lookup,
  sort_strings, get_or_else,
}
use meme.Model.Enums.{valid_foresight, valid_objective, valid_network, transport, linear_power_flow}
use meme.Model.Run.{
  Solver, AlternativesOptions, ParetoOptions, MonteCarloOptions, TimeAggregation, Scenario,
  AllowUnmetDemand, SweepAxis, PowerFlowOptions, SecurityOptions, NetworkOptions, Experiment,
}
use meme.Model.Run.Modes.{plan_mode, valid_mode, effective_network, effective_mode}
use meme.Model.Run.Sweeps.{max_sweep_runs, count_runs}
use meme.Model.Checks.{Problem, report, given, neg_int, negative, not_positive}
use meme.Model.Validate.Each.{each}
use meme.Model.Validate.Techs.{no_element}

-- The keys of `scoringAlgorithms`
unfoldable pub scoring_algorithm : Text → Bool
scoring_algorithm s =
    str_eq s (codes "integer")
    || (str_eq s (codes "relative_deployment")
        || (str_eq s (codes "random") || str_eq s (codes "evolving_average")))

-- The keys of `monteCarloOn`
unfoldable pub monte_carlo_on : Text → Bool
monte_carlo_on s =
    str_eq s (codes "technology_capex")
    || (str_eq s (codes "network_capex")
        || (str_eq s (codes "import_price") || str_eq s (codes "export_price")))

-- The checks of the number of runs
unfoldable pub cap_checks : ℕ × Bool → List (Bool × Text)
cap_checks (runs, overflowed) =
    (overflowed, codes "experiment.sweep expands to more runs than can be counted; the limit is %d")
    ∷ (
      not overflowed && ltb max_sweep_runs runs,
      codes "experiment.sweep expands to %d runs; the limit is %d",
    )
    ∷ []

module _ {F : Type 0} where
  -- The checks of the aggregation's method, and of its periods
  aggregation_checks : Option (TimeAggregation F) → List (Bool × Text)
  aggregation_checks none = []
  aggregation_checks (some ta) =
      (
        str_eq ta.method (codes "cluster") && str_eq ta.cluster_series [],
        codes "experiment.time_aggregation method \"cluster\" needs cluster_series",
      )
      ∷ (
        not (
            str_eq ta.method (codes "typical_days")
            || (str_eq ta.method (codes "resample") || str_eq ta.method (codes "cluster"))),
        codes
            "experiment.time_aggregation.method %q is invalid (typical_days, resample or cluster)",
      )
      ∷ (ltb_ℤ ta.periods (pos 0), codes "experiment.time_aggregation.periods must not be negative")
      ∷ []

  pareto_checks : Option (ParetoOptions F) → List (Bool × Text)
  pareto_checks none = []
  pareto_checks (some p) =
      (ltb_ℤ p.points (pos 0), codes "experiment.pareto.points must not be negative") ∷ []

  -- The checks of a security-constrained solve
  unfoldable pub security_checks : Experiment F → Option (SecurityOptions F) → List (Bool × Text)
  security_checks e none = []
  security_checks e (some sec) =
      (
        no_element sec.outages,
        codes "experiment.network.security.outages must name at least one transmission arc",
      )
      ∷ (
        not (str_eq (effective_network e) linear_power_flow),
        codes
            "experiment.network.security needs network.model \"linear_power_flow\" (outages are branches of the voltage-law network)",
      )
      ∷ (
        not (str_eq (effective_mode e) plan_mode),
        codes
            "experiment.network.security needs mode \"plan\" (the security-constrained solve is a planning solve)",
      )
      ∷ []

  unfoldable pub network_checks : Experiment F → Option (NetworkOptions F) → List (Bool × Text)
  unfolding security_checks
  network_checks e none = []
  network_checks e (some nw) =
      (
        not (valid_network nw.model),
        codes "experiment.network.model %q is invalid (transport or linear_power_flow)",
      )
      ∷ security_checks e nw.security

  -- The checks of the names and enums of the experiment
  pub enum_checks : Experiment F → List (Bool × Text)
  enum_checks e =
      (not (valid_mode e.mode), codes "experiment.mode %q is invalid")
      ∷ (not (valid_objective e.objective), codes "experiment.objective %q is invalid")
      ∷ (not (valid_foresight e.foresight), codes "experiment.foresight %q is invalid")
      ∷ (
        not (
            str_eq e.emission_accounting []
            || (str_eq e.emission_accounting (codes "net")
                || str_eq e.emission_accounting (codes "positive_only"))),
        codes "experiment.emission_accounting %q is invalid (net or positive_only)",
      )
      ∷ []

  -- The checks of one axis
  unfoldable pub axis_checks : SweepAxis F → List (Bool × Text)
  axis_checks axis =
      (no_element axis.parameter, codes "experiment.sweep[%d] has no parameter path")
      ∷ (no_element axis.values, codes "experiment.sweep[%d] (%s) has no values")
      ∷ []

  -- The checks of the sweep
  unfoldable pub sweep_problems : List (SweepAxis F) → List Problem
  unfolding count_runs axis_checks cap_checks
  sweep_problems axes =
      each (λ axis. report (codes "experiment") (axis_checks axis)) axes
      ++ report (codes "experiment") (cap_checks (count_runs axes 1 false))

module _ (fl : Float64) where
  open fl use {F, zero, lt}

  unmet_checks : Option (AllowUnmetDemand F) → List (Bool × Text)
  unmet_checks none = []
  unmet_checks (some ud) =
      (
        negative fl ud.penalty_price,
        codes "experiment.allow_unmet_demand.penalty_price must not be negative",
      )
      ∷ []

  alternatives_checks : Option (AlternativesOptions F) → List (Bool × Text)
  alternatives_checks none = []
  alternatives_checks (some a) =
      (ltb_ℤ a.number (pos 0), codes "experiment.alternatives.number must not be negative")
      ∷ (negative fl a.slack, codes "experiment.alternatives.slack must not be negative")
      ∷ (
        not (str_eq a.scoring_algorithm []) && not (scoring_algorithm a.scoring_algorithm),
        codes
            "experiment.alternatives.scoring_algorithm %q is invalid (integer, relative_deployment, random or evolving_average)",
      )
      ∷ []

  pub power_flow_checks : Option (PowerFlowOptions F) → List (Bool × Text)
  power_flow_checks none = []
  power_flow_checks (some pf) =
      (
        not (
            str_eq pf.method []
            || (str_eq pf.method (codes "newton_raphson") || str_eq pf.method (codes "linear"))),
        codes "experiment.power_flow.method %q is invalid (newton_raphson or linear)",
      )
      ∷ (not_positive fl pf.tolerance, codes "experiment.power_flow.tolerance must be positive")
      ∷ []

  on_checks : List Text → List (Bool × Text)
  on_checks [] = []
  on_checks (on ∷ ons) =
      (
        not (monte_carlo_on on),
        codes
            "experiment.monte_carlo.on entry %q is invalid (technology_capex, network_capex, import_price or export_price)",
      )
      ∷ on_checks ons

  pub monte_carlo_checks : Option (MonteCarloOptions F) → List (Bool × Text)
  unfolding on_checks
  monte_carlo_checks none = []
  monte_carlo_checks (some mc) =
      (ltb_ℤ mc.samples (pos 0), codes "experiment.monte_carlo.samples must not be negative")
      ∷ (
        not_positive fl mc.standard_deviation,
        codes "experiment.monte_carlo.standard_deviation must be positive",
      )
      ∷ on_checks mc.on

  pub solver_checks : Solver F → List (Bool × Text)
  solver_checks s =
      (
        not_positive fl s.time_limit,
        codes "experiment.solver.time_limit must be positive (seconds)",
      )
      ∷ (negative fl s.mip_gap, codes "experiment.solver.mip_gap must not be negative")
      ∷ (neg_int s.threads, codes "experiment.solver.threads must not be negative")
      ∷ []

  pub scenario_checks : Scenario F → List (Bool × Text)
  scenario_checks sc =
      (str_eq sc.name [], codes "experiment.scenarios[%d] has no name")
      ∷ (lt sc.weight zero, codes "experiment.scenarios[%d] %q has a negative weight")
      ∷ []

  -- The checks of the option blocks, in order
  pub option_checks : Experiment F → List (Bool × Text)
  unfolding aggregation_checks unmet_checks alternatives_checks pareto_checks
  option_checks e =
      aggregation_checks e.time_aggregation
      ++ (unmet_checks e.allow_unmet_demand
          ++ (alternatives_checks e.alternatives ++ pareto_checks e.pareto))

  -- `Experiment.Validate`; no problem is nil
  unfoldable pub validate_experiment : Experiment F → List Problem
  unfolding enum_checks option_checks network_checks power_flow_checks monte_carlo_checks
      solver_checks scenario_checks
  validate_experiment e =
      let place = codes "experiment" in
      report place (enum_checks e)
      ++ (report place (option_checks e)
          ++ (report place (network_checks e e.network)
              ++ (report place (power_flow_checks e.power_flow)
                  ++ (report place (monte_carlo_checks e.monte_carlo)
                      ++ (report place (solver_checks e.solver)
                          ++ (each (λ sc. report place (scenario_checks sc)) e.scenarios
                              ++ sweep_problems e.sweep))))))
