-- ===== src/Model/Run.antt =====
-- The experiment of internal/model/experiment.go, with its network and power-flow options
-- (electrical.go), and the job. Free-form maps of any JSON keep their keys alone where the code
-- reads only those.
pub mod Sweeps
pub mod Modes
pub mod Validate
use meme.Base.{ℕ, Bool, Option, List, ℤ, Text, Map}
use meme.Model.Types.{Model, Native}

module _ (F : Type 0) where
  -- `option_keys` are the keys of the free-form `options`.
  pub record Solver : Type 0 where
    pub name : Text
    pub time_limit : Option F
    pub mip_gap : Option F
    pub threads : Option ℤ
    pub option_keys : List Text

  pub record OperateOptions : Type 0 where
    pub window : Text
    pub horizon : Text

  pub record AlternativesOptions : Type 0 where
    pub number : ℤ
    pub slack : Option F
    pub scoring_algorithm : Text

  pub record ParetoOptions : Type 0 where
    pub points : ℤ

  pub record MonteCarloOptions : Type 0 where
    pub samples : ℤ
    pub standard_deviation : Option F
    pub on : List Text

  pub record TimeAggregation : Type 0 where
    pub method : Text
    pub periods : ℤ
    pub resolution : Text
    pub cluster_series : Text
    pub keep_full_resolution_for : List Text

  -- An override that is no number is `none`.
  pub record Scenario : Type 0 where
    pub name : Text
    pub weight : F
    pub overrides : Map (Option F)

  pub record AllowUnmetDemand : Type 0 where
    pub enabled : Bool
    pub penalty_price : Option F

  pub record Reporting : Type 0 where
    pub output_dir : Text
    pub case_name : Text
    pub save_logs : Text
    pub shadow_prices : List Text

  pub record SweepAxis : Type 0 where
    pub parameter : Text
    pub values : List F

  pub record PowerFlowOptions : Type 0 where
    pub method : Text
    pub slack : Text
    pub distribute_slack : Bool
    pub tolerance : Option F

  pub record SecurityOptions : Type 0 where
    pub outages : List Text

  pub record NetworkOptions : Type 0 where
    pub model : Text
    pub security : Option SecurityOptions

  pub record Experiment : Type 0 where
    pub mode : Text
    pub objective : Text
    pub emission_accounting : Text
    pub foresight : Text
    pub time_aggregation : Option TimeAggregation
    pub operate : Option OperateOptions
    pub alternatives : Option AlternativesOptions
    pub pareto : Option ParetoOptions
    pub monte_carlo : Option MonteCarloOptions
    pub power_flow : Option PowerFlowOptions
    pub network : Option NetworkOptions
    pub allow_unmet_demand : Option AllowUnmetDemand
    pub copperplate : Bool
    pub reporting : Option Reporting
    pub scenarios : List Scenario
    pub sweep : List SweepAxis
    pub solver : Solver
    pub custom_math : Option Bool
    pub native : Option (Native F)

  pub record Job : Type 0 where
    pub api_key : Text
    pub model : Model F
    pub experiment : Experiment
