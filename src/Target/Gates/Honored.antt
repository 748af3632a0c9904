-- ===== src/Target/Gates/Honored.antt =====
-- What a job that passes the gates may use: nothing that the target does not claim.
use meme.Base.{
  ◌≡◌, refl, inl, inr, Bool, true, false, not, ◌&&◌, ◌||◌, Option, some, List, [], ◌∷◌, ◌++◌, arith,
  All, Float64, Text, codes, str_eq, some_injective, Map, lookup, Bool-cases,
}
use meme.Model.Types.{Value, NodeOverride, Technology, Transmission, TimeSeries, Model}
use meme.Model.Run.{Job}
use meme.Model.Run.Modes.{power_flow_mode, effective_network, effective_mode}
use meme.Model.Enums.{min_emissions, linear_power_flow}
use meme.Model.Checks.{Problem, report, given}
use meme.Model.Validate.Each.{
  each_entry, append-nil_left, append-nil_right, report-nil_iff, each-nil_iff, All-map,
  each_entry-nil_iff, true_of_not,
}
use meme.Model.Validate.Times.{no_entry}
use meme.Model.Validate.Slots.{override_place, tech_values, override_values}
use meme.Model.Validate.Techs.{no_element}
use meme.Model.Uses.{multi_indexed, multi_problems, multi_indexed_problems}
use meme.Target.Gates.{
  accepted, capable, mode_gates, outage_gates, expansion, decision_gates, power_flow_gates,
  run_gates, file_gates, feature_gates, indexed_gates, mode_place, gate_problems,
}
use meme.Target.Gates.Uses.{
  mode_feature, any_value, committable_op, expandable_cap, uses_flows, uses_commit, uses_area,
  uses_source,
}
use meme.Target.Gates.Warnings.{gate_warnings, first_or, validate_generic}

-- A flag is set by any value that passes the test.
any_value-true :
    {V : Type 0} (p : V → Bool) (m : Map V) (k : Text) (v : V)
    → lookup k m ≡ some v
    → p v ≡ true
    → any_value p m ≡ true
unfolding lookup
any_value-true p [] k v e h = cc
any_value-true p ((j, w) ∷ m) k v e h = elim (Bool-cases (str_eq j k)) [
  | inl t ↦ let same : w ≡ v = some_injective (rw t at e) in rw (same, h) refl
  | inr t ↦ ground (arith, any_value-true p m k v (rw t at e) h)
]

or_true_left : (a b : Bool) → a ≡ true → (a || b) ≡ true
or_true_left a b h = ground arith

or_true_right : (a b : Bool) → b ≡ true → (a || b) ≡ true
or_true_right a b h = ground arith

-- What is used is claimed.
claimed : (used claims : Bool) → (used && not claims) ≡ false → used ≡ true → claims ≡ true
claimed used claims h u = ground arith

not_empty : (b claims : Bool) → (not b && not claims) ≡ false → b ≡ false → claims ≡ true
not_empty b claims h e = ground arith

module _ (caps : Map Bool) where
  -- A feature that the capabilities claim
  abbrev pub Claims : Text → Type 0
  Claims f = capable caps f ≡ true

  module _ {F : Type 0} where
    -- A technology at the base or in one of its overrides uses the feature only if it is claimed.
    pub record IsHonoredTech (t : Technology F) : Type 0 where
      pub flows : no_element t.flows ≡ false → Claims (codes "multi_carrier_conversion")
      pub committable : committable_op t.operation ≡ true → Claims (codes "committable")
      pub area : given t.area ≡ true → Claims (codes "area_constraints")
      pub source : given t.source ≡ true → Claims (codes "source_constraints")
      pub overrides :
          (nid : Text) (ov : NodeOverride F)
          → lookup nid t.node_overrides ≡ some ov
          → (committable_op ov.operation ≡ true → Claims (codes "committable"))
            × (given ov.area ≡ true → Claims (codes "area_constraints"))
            × (given ov.source ≡ true → Claims (codes "source_constraints"))
      pub indexed :
          capable caps (codes "indexed_params") ≡ false
          → All (λ v. multi_indexed v ≡ false) (tech_values t)
            × ((nid : Text) (ov : NodeOverride F)
                → lookup nid t.node_overrides ≡ some ov
                → All (λ v. multi_indexed v ≡ false) (override_values ov))

    -- No technology, no override of one and no arc has an expandable capacity.
    pub record IsFixed (m : Model F) : Type 0 where
      pub techs :
          (id : Text) (t : Technology F)
          → lookup id m.technologies ≡ some t
          → expandable_cap t.capacity ≡ false
      pub overrides :
          (id : Text) (t : Technology F) (nid : Text) (ov : NodeOverride F)
          → lookup id m.technologies ≡ some t
          → lookup nid t.node_overrides ≡ some ov
          → expandable_cap ov.capacity ≡ false
      pub arcs :
          (id : Text) (l : Transmission F)
          → lookup id m.transmission ≡ some l
          → expandable_cap l.capacity ≡ false

    -- What the job as a whole may use
    pub record IsHonored (j : Job F) : Type 0 where
      pub mode : Claims (mode_feature (effective_mode j.experiment))
      pub network :
          str_eq (effective_network j.experiment) linear_power_flow ≡ true
          → Claims (codes "linear_power_flow")
      pub objective :
          str_eq j.experiment.objective min_emissions ≡ true
          → Claims (codes "objective:min_emissions")
      pub aggregation :
          given j.experiment.time_aggregation ≡ true → Claims (codes "time_aggregation")
      pub emission_limits :
          no_element j.model.emission_limits ≡ false → Claims (codes "emission_limit")
      pub trade : no_entry j.model.trade ≡ false → Claims (codes "import_export")
      pub constraints : no_element j.model.constraints ≡ false → Claims (codes "linear_constraint")
      pub techs :
          (id : Text) (t : Technology F) → lookup id j.model.technologies ≡ some t → IsHonoredTech t
      pub inline_series :
          (id : Text) (ts : TimeSeries F)
          → lookup id j.model.timeseries ≡ some ts
          → str_eq ts.source (codes "file") ≡ false
      pub fixed : str_eq (effective_mode j.experiment) power_flow_mode ≡ true → IsFixed j.model

    single :
        (place : Text) (v : Option (Value F)) (message : Text)
        → report place ((multi_indexed v, message) ∷ []) ≡ []
        → multi_indexed v ≡ false
    single place v message h = ((report-nil_iff place _).0 h).0

    multi_none :
        (place : Text) (vs : List (Option (Value F)))
        → multi_problems place vs ≡ []
        → All (λ v. multi_indexed v ≡ false) vs
    unfolding multi_problems
    multi_none place vs h = All-map vs (λ v p. single place v _ p) ((each-nil_iff _ vs).0 h)

    -- The tests of the flags
    abbrev commits : Technology F → Bool
    commits t =
        committable_op t.operation || any_value (λ ov. committable_op ov.operation) t.node_overrides

    abbrev areas : Technology F → Bool
    areas t = given t.area || any_value (λ ov. given ov.area) t.node_overrides

    abbrev sources : Technology F → Bool
    sources t = given t.source || any_value (λ ov. given ov.source) t.node_overrides

    tech-IsHonored :
        (m : Model F) (id : Text) (t : Technology F)
        → feature_gates caps m ≡ []
        → indexed_gates caps m ≡ []
        → lookup id m.technologies ≡ some t
        → IsHonoredTech t
    unfolding feature_gates uses_flows uses_commit uses_area uses_source indexed_gates
        multi_indexed_problems
    tech-IsHonored m id t gates entries e =
        let (flows, (_, (_, (commit, (area, (source, _)))))) =
          (report-nil_iff mode_place _).0 gates in
        record {
          flows = λ u. claimed (uses_flows m) _ flows (
              any_value-true (λ t. not (no_element t.flows)) m.technologies id t e
                (ground (arith, u)));
          committable = λ u.
              claimed (uses_commit m) _ commit
                (any_value-true commits m.technologies id t e (or_true_left _ _ u));
          area = λ u.
              claimed (uses_area m) _ area
                (any_value-true areas m.technologies id t e (or_true_left _ _ u));
          source = λ u.
              claimed (uses_source m) _ source
                (any_value-true sources m.technologies id t e (or_true_left _ _ u));
          overrides = λ nid ov f. (
            λ u. claimed (uses_commit m) _ commit (
                any_value-true commits m.technologies id t e (
                  or_true_right _ _ (
                    any_value-true (λ ov. committable_op ov.operation) t.node_overrides nid ov f
                      u))),
            λ u. claimed (uses_area m) _ area (
                any_value-true areas m.technologies id t e (
                  or_true_right _ _
                    (any_value-true (λ ov. given ov.area) t.node_overrides nid ov f u))),
            λ u. claimed (uses_source m) _ source (
                any_value-true sources m.technologies id t e (
                  or_true_right _ _
                    (any_value-true (λ ov. given ov.source) t.node_overrides nid ov f u))),
          );
          indexed = λ c.
              let all_techs : multi_indexed_problems m ≡ [] = rw c at entries in
              let both = (each_entry-nil_iff _ m.technologies).0 all_techs id t e in
              (
                multi_none (codes "tech " ++ id) (tech_values t) (append-nil_left _ _ both),
                λ nid ov f. multi_none (override_place id nid) (override_values ov) (
                    (each_entry-nil_iff _ t.node_overrides).0
                      (append-nil_right (multi_problems (codes "tech " ++ id) (tech_values t)) _
                        both)
                      nid ov f),
              );
        }

  module _ (fl : Float64) where
    open fl use {F}

    abbrev expansions : Job F → Text → Technology F → List Problem
    expansions j id t =
        expansion (codes "tech " ++ id) t.capacity
        ++ each_entry (λ nid ov. expansion (override_place id nid) ov.capacity) t.node_overrides

    power_flow_gates-IsFixed :
        (j : Job F)
        → power_flow_gates j ≡ []
        → str_eq (effective_mode j.experiment) power_flow_mode ≡ true
        → IsFixed j.model
    unfolding power_flow_gates decision_gates
    power_flow_gates-IsFixed j h p =
        let open_gates : decision_gates j ≡ [] = rw p at h in
        let techs =
          (each_entry-nil_iff _ j.model.technologies).0 (append-nil_left _ _ open_gates) in
        let rest = append-nil_right (each_entry (expansions j) j.model.technologies) _ open_gates in
        let arcs = (each_entry-nil_iff _ j.model.transmission).0 (append-nil_left _ _ rest) in
        record {
          techs = λ id t e.
              ((report-nil_iff (codes "tech " ++ id) _).0 (append-nil_left _ _ (techs id t e))).0;
          overrides = λ id t nid ov e f.
              let own = expansion (codes "tech " ++ id) t.capacity in
              ((report-nil_iff (override_place id nid) _).0 (
                (each_entry-nil_iff (λ nid ov. expansion (override_place id nid) ov.capacity)
                    t.node_overrides).0
                  (append-nil_right own _ (techs id t e)) nid ov f)).0;
          arcs = λ id l e. ((report-nil_iff (codes "transmission " ++ id) _).0 (arcs id l e)).0;
        }

    gates-IsHonored : (j : Job F) → gate_problems fl caps j ≡ [] → IsHonored j
    unfolding gate_problems mode_gates run_gates file_gates feature_gates
    gates-IsHonored j h =
        let m = j.model in
        let e = j.experiment in
        let h1 = append-nil_right (mode_gates caps e) _ h in
        let h2 = append-nil_right (outage_gates m e.network) _ h1 in
        let h3 = append-nil_right (power_flow_gates j) _ h2 in
        let h4 = append-nil_right (run_gates caps e) _ h3 in
        let h5 = append-nil_right (file_gates m) _ h4 in
        let h6 = append-nil_right (feature_gates caps m) _ h5 in
        let features : feature_gates caps m ≡ [] = append-nil_left _ _ h5 in
        let entries : indexed_gates caps m ≡ [] = append-nil_left _ _ h6 in
        let (_, (m2, (m3, _))) = (report-nil_iff mode_place _).0 (append-nil_left _ _ h) in
        let (_, (r2, (_, (r4, _)))) = (report-nil_iff mode_place _).0 (append-nil_left _ _ h3) in
        let (_, (f2, (f3, (_, (_, (_, (f7, _))))))) = (report-nil_iff mode_place _).0 features in
        let files = (each_entry-nil_iff _ m.timeseries).0 (append-nil_left _ _ h4) in
        record {
          mode = true_of_not _ m2;
          network = claimed _ _ m3;
          objective = claimed _ _ r2;
          aggregation = claimed _ _ r4;
          emission_limits = not_empty _ _ f2;
          trade = not_empty _ _ f3;
          constraints = not_empty _ _ f7;
          techs = λ id t l. tech-IsHonored m id t features entries l;
          inline_series =
              λ id ts l. ((report-nil_iff (codes "timeseries " ++ id) _).0 (files id ts l)).0;
          fixed = power_flow_gates-IsFixed j (append-nil_left _ _ h2);
        }

    -- What the generic gates accept, the target claims: the mode of an accepted job, and each of these
    -- features where the job uses it: linear power flow, the objective min_emissions, time aggregation,
    -- emission limits, trade, linear constraints, the flows of a technology, committable operation, areas
    -- and sources of a technology or an override, and parameters of several entries among the values that
    -- techValues and overrideValues list. No series is left in a file, and in mode power_flow no
    -- technology, no override and no arc has an expandable capacity. (Features that a target without them
    -- ignores with a warning are not among these.)
    pub validate_generic-IsHonored :
        (name : Text) (j : Job F) (warnings : List Problem)
        → validate_generic fl caps name j ≡ accepted warnings
        → IsHonored j
    unfolding validate_generic first_or
    validate_generic-IsHonored name j warnings h =
        gates-IsHonored j (no_gate (gate_problems fl caps j) h)
      where
        no_gate :
            (ps : List Problem)
            → first_or fl ps (gate_warnings fl caps name j) ≡ accepted warnings
            → ps ≡ []
        no_gate [] e = refl
        no_gate (p ∷ ps) e = cc
