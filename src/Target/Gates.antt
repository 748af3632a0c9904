-- ===== src/Target/Gates.antt =====
-- `validateGeneric` of internal/target/validate.go: what a target without a capability rejects, and
-- what it ignores with a warning. The code returns at the first gate that fails, without its warnings:
-- the error is the head of the list of the gates' problems.
pub mod Uses
pub mod Warnings
pub mod Honored
use meme.Base.{
  Bool, true, false, not, ◌&&◌, ◌||◌, Option, none, some, List, [], ◌∷◌, ◌++◌, if◌then◌else◌, ltb,
  length, Float64, Text, codes, str_eq, is_some, join, Map, lookup, has_key, sorted_keys,
}
use meme.Model.Types.{
  Performance, Capacity, Operation, CostClass, NodeOverride, Technology, Transmission, TimeSeries,
  Model,
}
use meme.Model.Run.{Reporting, SecurityOptions, NetworkOptions, Experiment, Job}
use meme.Model.Run.Modes.{power_flow_mode, valid_mode, effective_network, effective_mode}
use meme.Model.Enums.{
  conversion, min_cost, min_emissions, valid_objective, valid_foresight, linear_power_flow,
}
use meme.Model.Values.{is_series}
use meme.Model.Periods.{investment_periods}
use meme.Model.Checks.{Problem, report, given, perf_kind}
use meme.Model.Validate.Each.{each, each_entry}
use meme.Model.Validate.Times.{no_entry}
use meme.Model.Validate.Slots.{override_place}
use meme.Model.Validate.Techs.{no_element}
use meme.Model.Uses.{multi_indexed_problems}
use meme.Target.Gates.Uses.{
  mode_feature, any_value, keys_with, expandable_cap, uses_flows, uses_commit, uses_area,
  uses_source, flow_techs, flow_arcs, flow_nodes, soc_techs, uc_techs, quadratic_techs,
}

-- `caps[f]`; a feature that is not in the map reads as false
unfoldable pub capable : Map Bool → Text → Bool
capable caps f = elim (lookup f caps) [ none ↦ false | some b ↦ b ]

-- What the validation of a job comes to.
pub data Verdict : Type 0 where
  accepted : List Problem → Verdict
  rejected : Problem → Verdict

-- `%v` of a list of ids
abbrev pub listing : List Text → Text
listing ids = codes "[" ++ join ids b' ' ++ codes "]"

abbrev pub mode_place : Text
mode_place = codes "experiment"

abbrev used_check : Bool → Text → Bool × Text
used_check used what =
    (used, codes "mode %q has no decision variables, but the payload carries " ++ what)

-- One row of the table `gates`
abbrev gate : Map Bool → Bool → Text → Text → Bool × Text
gate caps used feat what =
    (used && not (capable caps feat), what ++ codes " is not supported by target %q")

module _ {F : Type 0} where
  -- The gates of the mode and of the network model
  unfoldable pub mode_gates : Map Bool → Experiment F → List Problem
  mode_gates caps e = report mode_place (
      (not (valid_mode (effective_mode e)), codes "experiment.mode %q is invalid")
      ∷ (
        not (capable caps (mode_feature (effective_mode e))),
        codes "mode %q is not supported by target %q",
      )
      ∷ (
        str_eq (effective_network e) linear_power_flow
            && not (capable caps (codes "linear_power_flow")),
        codes "network model %q is not supported by target %q",
      )
      ∷ [])

  -- `!ok` and `l.Electrical == nil` of an outage
  abbrev outage_checks : Option (Transmission F) → List (Bool × Text)
  outage_checks none =
      (true, codes "experiment.network.security.outages: %q is not a transmission arc") ∷ []
  outage_checks (some l) =
      (
        not (given l.electrical),
        codes
            "experiment.network.security.outages: %q is not an electrical arc (only a branch of the voltage-law network can be taken out)",
      )
      ∷ []

  abbrev outages_of : Option (SecurityOptions F) → List Text
  outages_of none = []
  outages_of (some sec) = sec.outages

  abbrev pub network_outages : Option (NetworkOptions F) → List Text
  network_outages none = []
  network_outages (some nw) = outages_of nw.security

  -- The gates of the outages
  unfoldable pub outage_gates : Model F → Option (NetworkOptions F) → List Problem
  outage_gates m nw =
      each (λ id. report id (outage_checks (lookup id m.transmission))) (network_outages nw)

  -- One check of a capacity that must not be a decision
  abbrev expansion : Text → Option (Capacity F) → List Problem
  expansion place c =
      report place
        ((expandable_cap c, codes "mode %q has no decision variables, but it is expandable") ∷ [])

  -- The gates inside a power flow
  unfoldable pub decision_gates : Job F → List Problem
  decision_gates j =
      each_entry
        (λ id t.
          expansion (codes "tech " ++ id) t.capacity
          ++ each_entry (λ nid ov. expansion (override_place id nid) ov.capacity) t.node_overrides)
        j.model.technologies
      ++ (each_entry (λ id l. expansion (codes "transmission " ++ id) l.capacity)
            j.model.transmission
          ++ report mode_place (
              used_check (not (no_entry j.model.trade)) (codes "trade (import/export)")
              ∷ used_check (not (no_element j.model.constraints)) (codes "constraints")
              ∷ used_check (not (no_element j.model.emission_limits)) (codes "emission_limits")
              ∷ used_check (not (no_element j.experiment.scenarios)) (codes "scenarios")
              ∷ []))

  unfoldable pub power_flow_gates : Job F → List Problem
  unfolding decision_gates
  power_flow_gates j =
      if str_eq (effective_mode j.experiment) power_flow_mode then decision_gates j else []

  -- The gates of the objective, the foresight and the aggregation
  unfoldable pub run_gates : Map Bool → Experiment F → List Problem
  run_gates caps e = report mode_place (
      (not (valid_objective e.objective), codes "experiment.objective %q is invalid")
      ∷ (
        str_eq e.objective min_emissions && not (capable caps (codes "objective:min_emissions")),
        codes
            "objective %q is not supported by target %q (the runner would silently minimize cost)",
      )
      ∷ (not (valid_foresight e.foresight), codes "experiment.foresight %q is invalid")
      ∷ (
        given e.time_aggregation && not (capable caps (codes "time_aggregation")),
        codes "time_aggregation is not supported by target %q",
      )
      ∷ [])

  -- The gate of series in files
  unfoldable pub file_gates : Model F → List Problem
  file_gates m =
      each_entry
        (λ id ts. report (codes "timeseries " ++ id) (
          (
            str_eq ts.source (codes "file"),
            codes
                "source \"file\" is not supported by any target yet; inline the values (source \"inline\")",
          )
          ∷ []))
        m.timeseries

  -- The table `gates`
  unfoldable pub feature_gates : Map Bool → Model F → List Problem
  feature_gates caps m = report mode_place (
      gate caps (uses_flows m) (codes "multi_carrier_conversion")
        (codes "multi-port conversion (flows)")
      ∷ gate caps (not (no_element m.emission_limits)) (codes "emission_limit")
          (codes "emission_limits")
      ∷ gate caps (not (no_entry m.trade)) (codes "import_export") (codes "trade (import/export)")
      ∷ gate caps (uses_commit m) (codes "committable") (codes "committable operation")
      ∷ gate caps (uses_area m) (codes "area_constraints") (codes "area constraints")
      ∷ gate caps (uses_source m) (codes "source_constraints") (codes "source constraints")
      ∷ gate caps (not (no_element m.constraints)) (codes "linear_constraint")
          (codes "linear constraints")
      ∷ [])

  -- The gate of indexed parameters
  unfoldable pub indexed_gates : Map Bool → Model F → List Problem
  indexed_gates caps m =
      if capable caps (codes "indexed_params") then [] else multi_indexed_problems m

  abbrev precomputed_given : Option (Performance F) → Bool
  precomputed_given none = false
  precomputed_given (some p) = given p.precomputed

  abbrev scalar_operation : Option (Operation F) → List (Bool × Text)
  scalar_operation none = []
  scalar_operation (some op) =
      (
        is_series op.min_pu,
        codes "operation.min_pu as a time series is not supported (scalar only)",
      )
      ∷ (
        is_series op.ramp_up || is_series op.ramp_down,
        codes "ramp limits as time series are not supported (scalar only)",
      )
      ∷ []

module _ (fl : Float64) where
  open fl use {F}

  -- `checkPerf`
  unfoldable pub perf_gates : Map Bool → Text → Option (Performance F) → List Problem
  perf_gates caps place p = report place (
      (
        str_eq (perf_kind fl p) (codes "piecewise")
            && not (capable caps (codes "piecewise_performance")),
        codes
            "piecewise part-load performance is not supported by target %q (no native piecewise-efficiency representation)",
      )
      ∷ (
        str_eq (perf_kind fl p) (codes "physics")
            && (not (capable caps (codes "physics_performance")) && not (precomputed_given p)),
        codes
            "physics model %q requires a precomputed profile for target %q (run the model externally and set performance.precomputed)",
      )
      ∷ [])

  -- The gates of one technology. An override without performance has nothing to check.
  unfoldable pub tech_gates : Map Bool → Text → Technology F → List Problem
  unfolding perf_gates
  tech_gates caps id t =
      perf_gates caps (codes "tech " ++ id) t.performance
      ++ (each_entry (λ nid ov. perf_gates caps (override_place id nid) ov.performance)
            t.node_overrides
          ++ (report (codes "tech " ++ id) (scalar_operation t.operation)
              ++ report (codes "tech " ++ id) (
                  (
                    is_series t.efficiency,
                    codes "efficiency as a time series is not supported (scalar only)",
                  )
                  ∷ [])))

  -- All gates, in order
  unfoldable pub gate_problems : Map Bool → Job F → List Problem
  gate_problems caps j =
      mode_gates caps j.experiment
      ++ (outage_gates j.model j.experiment.network
          ++ (power_flow_gates j
              ++ (run_gates caps j.experiment
                  ++ (file_gates j.model
                      ++ (feature_gates caps j.model
                          ++ (indexed_gates caps j.model
                              ++ (each_entry (tech_gates caps) j.model.technologies
                                  ++ each_entry
                                      (λ id l. report (codes "transmission " ++ id) (
                                        (
                                          is_series l.efficiency,
                                          codes
                                              "efficiency as a time series is not supported (scalar only)",
                                        )
                                        ∷ []))
                                      j.model.transmission)))))))
