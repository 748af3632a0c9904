-- ===== src/Model/Validate/References.antt =====
-- In a model without problems every reference of a technology leads somewhere.
use meme.Base.{
  ◌≡◌, sym, inl, inr, true, false, Option, none, some, List, [], ◌∷◌, ◌++◌, arith, All, In, Float64,
  Text, codes, str_eq, str_eq_iff, Map, has_key, lookup, Bool-cases,
}
use meme.Model.Types.{Value, TimeSeries, Flow, NodeOverride, Technology, Model}
use meme.Model.Values.{is_series, series_id}
use meme.Model.Ids.{contains_str}
use meme.Model.Dates.{Dates}
use meme.Model.Checks.{report}
use meme.Model.Validate.{validate_model}
use meme.Model.Validate.Each.{
  each, seen_in, Distinct, Defined, has_key_iff, append-nil_left, append-nil_right, each-nil_iff,
  report-nil_iff, passed, true_of_not, fresh_before, All-map, each_entry-nil_iff,
}
use meme.Model.Validate.Blocks.{validate_tech_electrical}
use meme.Model.Validate.Times.{has_series}
use meme.Model.Validate.Flows.{each_flow, flow_checks, flow_problems}
use meme.Model.Validate.Slots.{
  override_place, node_list_problems, carrier_problems, override_values, series_of_tech,
  operation_series, inflow_of, soc_of, precomputed_of, series_problems, overnight_problems,
  structure_problems, tech_values,
}
use meme.Model.Validate.Techs.{
  role_checks, placement_problems, slot_problems, range_problems, performance_problems,
  override_value_problems, override_problems, tech_problems,
}
use meme.Model.Validate.Parts.{validate_model-IsSound}

-- The nodes that a technology stands at are defined, and none of those from here on was seen.
module _ {V : Type 0} (place : Text) (nodes : Map V) where
  nodes-Defined :
      (seen ns : List Text)
      → node_list_problems place nodes seen ns ≡ []
      → All (λ n. Defined n nodes) ns × All (λ n. seen_in n seen ≡ false) ns × Distinct ns
  unfolding node_list_problems
  nodes-Defined seen [] h = (tt, tt, tt)
  nodes-Defined seen (n ∷ ns) h =
      let head = (report-nil_iff place _).0 (append-nil_left _ _ h) in
      let (later, fresh, rest) = nodes-Defined (n ∷ seen) ns (append-nil_right _ _ h) in
      let (before, absent) = fresh_before n seen ns fresh in
      (
        ((has_key_iff n nodes).0 (true_of_not (has_key n nodes) head.0), later),
        (head.1.0, before),
        (absent, rest),
      )

  carriers-Defined :
      (cs : List Text) → carrier_problems place nodes cs ≡ [] → All (λ c. Defined c nodes) cs
  unfolding carrier_problems
  carriers-Defined cs h =
      All-map cs
        (λ c p. (has_key_iff c nodes).0 (true_of_not (has_key c nodes) (passed place _ _ [] p)))
        ((each-nil_iff _ cs).0 h)

pub contains_str-In : (s : List Text) (v : Text) → contains_str s v ≡ true → In v s
unfolding contains_str
contains_str-In [] v h = cc
contains_str-In (x ∷ s) v h = elim (Bool-cases (str_eq x v)) [
  | inl e ↦ inl (sym ((str_eq_iff x v).0 e))
  | inr e ↦ inr (contains_str-In s v (rw e at h))
]

module _ {F : Type 0} where
  -- A value that names a series names one of the registry.
  abbrev pub Resolves : Map (TimeSeries F) → Option (Value F) → Type 0
  Resolves series v =
      (w : Value F) → v ≡ some w → is_series (some w) ≡ true → Defined (series_id w) series

  series_resolved :
      (place : Text) (m : Model F) (v : Option (Value F))
      → series_problems place m v ≡ []
      → Resolves m.timeseries v
  unfolding series_problems has_series
  series_resolved place m none h w e s = cc
  series_resolved place m (some v) h w e s =
      (has_key_iff (series_id w) m.timeseries).0 (ground (arith, passed place _ _ [] h))

  all_resolved :
      (place : Text) (m : Model F) (vs : List (Option (Value F)))
      → each (series_problems place m) vs ≡ []
      → All (Resolves m.timeseries) vs
  all_resolved place m vs h =
      All-map vs (λ v p. series_resolved place m v p)
        ((each-nil_iff (series_problems place m) vs).0 h)

  -- What the references of a technology come to in a model.
  pub record IsResolved (m : Model F) (t : Technology F) : Type 0 where
    pub nodes : All (λ n. Defined n m.nodes) t.node
    pub distinct : Distinct t.node
    pub carriers : All (λ c. Defined c m.carriers) (t.carrier_in ++ t.carrier_out)
    pub flows : All (λ f. Defined f.carrier m.carriers) t.flows
    pub series : All (Resolves m.timeseries) (series_of_tech t)
    pub operation : All (Resolves m.timeseries) (operation_series t.operation)
    pub inflow : Resolves m.timeseries (inflow_of t.storage)
    pub soc_profile : Resolves m.timeseries (soc_of t.storage)
    pub precomputed : Resolves m.timeseries (precomputed_of t.performance)
    pub overrides :
        (nid : Text) (ov : NodeOverride F)
        → lookup nid t.node_overrides ≡ some ov
        → In nid t.node × Defined nid m.nodes × All (Resolves m.timeseries) (override_values ov)

module _ (fl : Float64) where
  open fl use {F}

  flows-Defined :
      (place : Text) (m : Model F) (fs : List (Flow F))
      → each_flow fl place m.carriers fs ≡ []
      → All (λ f. Defined f.carrier m.carriers) fs
  unfolding each_flow flow_checks
  flows-Defined place m [] h = tt
  flows-Defined place m (f ∷ fs) h =
      let head = (report-nil_iff place _).0 (append-nil_left _ _ h) in
      (
        (has_key_iff f.carrier m.carriers).0 (true_of_not (has_key f.carrier m.carriers) head.0),
        flows-Defined place m fs (append-nil_right _ _ h),
      )

  flow_carriers :
      (place : Text) (m : Model F) (fs : List (Flow F))
      → flow_problems fl place m.carriers fs ≡ []
      → All (λ f. Defined f.carrier m.carriers) fs
  unfolding flow_problems
  flow_carriers place m [] h = tt
  flow_carriers place m (f ∷ fs) h = flows-Defined place m (f ∷ fs) (append-nil_left _ _ h)

  override_resolved :
      (place : Text) (m : Model F) (t : Technology F) (nid : Text) (ov : NodeOverride F)
      → override_problems fl place m t nid ov ≡ []
      → In nid t.node × Defined nid m.nodes × All (Resolves m.timeseries) (override_values ov)
  unfolding override_problems override_value_problems
  override_resolved place m t nid ov h =
      let head = (report-nil_iff place _).0 (append-nil_left _ _ h) in
      let values = append-nil_left _ _ (append-nil_right _ _ (append-nil_right _ _ h)) in
      (
        contains_str-In t.node nid (true_of_not (contains_str t.node nid) head.0),
        (has_key_iff nid m.nodes).0 (true_of_not (has_key nid m.nodes) head.1.0),
        All-map (override_values ov) (λ v p. series_resolved place m v (append-nil_right _ _ p))
            ((each-nil_iff (override_value_problems fl place m) (override_values ov)).0 values),
      )

  tech-IsResolved :
      (m : Model F) (id : Text) (t : Technology F) → tech_problems fl m id t ≡ [] → IsResolved m t
  unfolding tech_problems placement_problems slot_problems
  tech-IsResolved m id t h =
      let place = codes "tech " ++ id in
      let placement = append-nil_left (placement_problems fl place m t) _ h in
      let h1 = append-nil_right (placement_problems fl place m t) _ h in
      let h2 = append-nil_right (validate_tech_electrical fl place t.role t.electrical) _ h1 in
      let slots = append-nil_left (slot_problems fl place m t) _ h2 in
      let h3 = append-nil_right (slot_problems fl place m t) _ h2 in
      let h4 = append-nil_right (range_problems fl place t) _ h3 in
      let h5 = append-nil_right (each (structure_problems place) (tech_values t)) _ h4 in
      let h6 = append-nil_right (performance_problems fl place t.performance) _ h5 in
      let p1 = append-nil_right (report place (role_checks fl t)) _ placement in
      let p2 = append-nil_right (node_list_problems place m.nodes [] t.node) _ p1 in
      let s1 = append-nil_right (each (series_problems place m) (series_of_tech t)) _ slots in
      let s2 =
        append-nil_right (each (series_problems place m) (operation_series t.operation)) _ s1 in
      let s3 = append-nil_right (overnight_problems place t) _ s2 in
      let s4 = append-nil_right (flow_problems fl place m.carriers t.flows) _ s3 in
      let (defined, fresh, distinct) =
        nodes-Defined place m.nodes [] t.node (append-nil_left _ _ p1) in
      record {
        nodes = defined;
        distinct = distinct;
        carriers =
            carriers-Defined place m.carriers (t.carrier_in ++ t.carrier_out)
              (append-nil_left _ _ p2);
        flows = flow_carriers place m t.flows (append-nil_left _ _ s3);
        series = all_resolved place m (series_of_tech t) (append-nil_left _ _ slots);
        operation = all_resolved place m (operation_series t.operation) (append-nil_left _ _ s1);
        inflow = series_resolved place m (inflow_of t.storage) (append-nil_left _ _ s4);
        soc_profile = series_resolved place m (soc_of t.storage) (append-nil_right _ _ s4);
        precomputed =
            series_resolved place m (precomputed_of t.performance) (append-nil_left _ _ h6);
        overrides = λ nid ov e. override_resolved (override_place id nid) m t nid ov (
            (each_entry-nil_iff (λ nid ov. override_problems fl (override_place id nid) m t nid ov)
                t.node_overrides).0
              (append-nil_right _ _ h6) nid ov e);
      }

  -- In a model that passes validation the references of each technology lead somewhere: its nodes are
  -- defined and distinct, the carriers that it lists and those of its flows are defined, each value
  -- that names a series (efficiency, demand profile, dispatch, reactive dispatch, max_pu, min_pu,
  -- inflow, state-of-charge profile, precomputed performance) names one of the registry, and each
  -- override stands at a defined node of the technology, the series of those of its values being
  -- defined that `overrideValues` lists (efficiency, demand profile, dispatch, reactive dispatch,
  -- max_pu, min_pu, equals_pu, inflow, state-of-charge profile, source.max, and variable_om and
  -- fuel_cost of its cost classes).
  pub validate_model-IsResolved :
      (dates : Dates) (m : Model F) (id : Text) (t : Technology F)
      → validate_model fl dates m ≡ []
      → lookup id m.technologies ≡ some t
      → IsResolved m t
  validate_model-IsResolved dates m id t h e =
      tech-IsResolved m id t ((validate_model-IsSound fl dates m h).techs id t e)
