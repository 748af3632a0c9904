-- ===== src/Model/Intern.antt =====
-- `InternInlineSeries` of internal/model/intern.go. The values are pointers that the code writes
-- through: a slot is put back into its block here. The registry and the referenced ids are the state.
pub mod Pass
pub mod Entries
pub mod Slots
pub mod Kept
pub mod Interned
pub mod Squatters
use meme.Base.{
  Bool, true, false, not, ◌&&◌, Option, none, some, List, [], ◌∷◌, ◌++◌, if◌then◌else◌, Text, codes,
  str_eq, has_prefix, any, Map, lookup, insert, sorted_keys,
}
use meme.Model.Types.{
  Value, TimeConfig, TimeSeries, Operation, Storage, SourceSpec, CostClass, Performance,
  TechElectrical, NodeOverride, Technology, Node, Transmission, TradeSide, Trade, Model,
}
use meme.Model.Values.{is_series, is_inline, series_id}
use meme.Model.Ids.{intern_key}

module _ (F : Type 0) where
  pub record Interning : Type 0 where
    pub series : Map (TimeSeries F)
    pub referenced : List Text

-- A step of the pass
abbrev pub Pass : Type 0 → Type 0 → Type 0
Pass F A = Interning F → A × Interning F

infixl 5 ◌>>=◌
unfoldable pub ◌>>=◌ : {F A B : Type 0} → Pass F A → (A → Pass F B) → Pass F B
◌>>=◌ m f s = f (m s).0 (m s).1

unfoldable pub keep_as : {F A : Type 0} → A → Pass F A
keep_as x s = (x, s)

-- `base` and the field are the parts of the id.
abbrev pub slot : List Text → Text → Text
slot base field = intern_key (base ++ field ∷ [])

-- The first reserved id that nothing references
unfoldable pub squatter : List Text → List Text → Option Text
squatter referenced [] = none
squatter referenced (id ∷ ids) =
    let rest = squatter referenced ids in
    if has_prefix id (codes "_inline:") && not (any (str_eq id) referenced) then some id else rest

module _ {F : Type 0} where
  abbrev pub ref_value : Text → Value F
  ref_value id = record { scalar = none; ref = id; inline = []; indexed = none }

  abbrev pub inline_series : List F → TimeSeries F
  inline_series xs = record {
    source = codes "inline";
    path = [];
    column = [];
    values = xs;
    unit = [];
  }

  -- `intern` at a value
  unfoldable pub intern_value : Text → Value F → Pass F (Value F)
  intern_value id v s =
      if is_series (some v)
      then (v, record s { referenced = series_id v ∷ s.referenced })
      else if not (is_inline (some v))
      then (v, s)
      else (
        ref_value id,
        record s {
          series = insert id (inline_series v.inline) s.series;
          referenced = id ∷ s.referenced;
        },
      )

  -- `intern`
  unfoldable pub intern : Text → Option (Value F) → Pass F (Option (Value F))
  intern id none = keep_as none
  intern id (some v) = do w ← intern_value id v; keep_as (some w)

  -- A loop over the sorted keys of a map
  unfoldable pub intern_at :
      {V : Type 0} → (Text → V → Pass F V) → Text → Option V → Map V → Pass F (Map V)
  intern_at f k none m = keep_as m
  intern_at f k (some v) m = do v' ← f k v; keep_as (insert k v' m)

  unfoldable pub intern_keys :
      {V : Type 0} → (Text → V → Pass F V) → List Text → Map V → Pass F (Map V)
  unfolding intern_at
  intern_keys f [] m = keep_as m
  intern_keys f (k ∷ ks) m = do m' ← intern_at f k (lookup k m) m; intern_keys f ks m'

  unfoldable pub intern_entries : {V : Type 0} → (Text → V → Pass F V) → Map V → Pass F (Map V)
  intern_entries f m = intern_keys f (sorted_keys m) m

  -- The slots of each block
  unfoldable pub intern_electrical :
      List Text → Option (TechElectrical F) → Pass F (Option (TechElectrical F))
  intern_electrical base none = keep_as none
  intern_electrical base (some e) = do
    q ← intern (slot base (codes "reactive_dispatch")) e.reactive_dispatch
    keep_as (some (record e { reactive_dispatch = q }))

  unfoldable pub intern_operation : List Text → Option (Operation F) → Pass F (Option (Operation F))
  intern_operation base none = keep_as none
  intern_operation base (some op) = do
    a ← intern (slot base (codes "max_pu")) op.max_pu
    b ← intern (slot base (codes "min_pu")) op.min_pu
    c ← intern (slot base (codes "equals_pu")) op.equals_pu
    keep_as (some (record op { max_pu = a; min_pu = b; equals_pu = c }))

  unfoldable pub intern_storage : List Text → Option (Storage F) → Pass F (Option (Storage F))
  intern_storage base none = keep_as none
  intern_storage base (some st) = do
    a ← intern (slot base (codes "inflow")) st.inflow
    b ← intern (slot base (codes "soc_profile")) st.soc_profile
    keep_as (some (record st { inflow = a; soc_profile = b }))

  unfoldable pub intern_source : List Text → Option (SourceSpec F) → Pass F (Option (SourceSpec F))
  intern_source base none = keep_as none
  intern_source base (some src) = do
    a ← intern (slot base (codes "source_max")) src.max
    keep_as (some (record src { max = a }))

  unfoldable pub intern_performance :
      List Text → Option (Performance F) → Pass F (Option (Performance F))
  intern_performance base none = keep_as none
  intern_performance base (some p) = do
    a ← intern (slot base (codes "performance_efficiency")) p.efficiency
    b ← intern (slot base (codes "precomputed")) p.precomputed
    keep_as (some (record p { efficiency = a; precomputed = b }))

  unfoldable pub intern_cost : List Text → Text → CostClass F → Pass F (CostClass F)
  intern_cost base class c = do
    a ← intern (intern_key (base ++ codes "variable_om" ∷ class ∷ [])) c.variable_om
    b ← intern (intern_key (base ++ codes "fuel_cost" ∷ class ∷ [])) c.fuel_cost
    keep_as (record c { variable_om = a; fuel_cost = b })

  -- The slots of one override
  unfoldable pub intern_override : Text → Text → NodeOverride F → Pass F (NodeOverride F)
  intern_override tid nid ov =
      let base = codes "tech" ∷ tid ∷ nid ∷ [] in
      do
        a ← intern (slot base (codes "efficiency")) ov.efficiency
        b ← intern (slot base (codes "demand_profile")) ov.demand_profile
        c ← intern (slot base (codes "dispatch")) ov.dispatch
        e ← intern_electrical base ov.electrical
        op ← intern_operation base ov.operation
        st ← intern_storage base ov.storage
        src ← intern_source base ov.source
        p ← intern_performance base ov.performance
        costs ← intern_entries (intern_cost base) ov.costs
        keep_as (record ov {
          efficiency = a;
          demand_profile = b;
          dispatch = c;
          electrical = e;
          operation = op;
          storage = st;
          source = src;
          performance = p;
          costs = costs;
        })

  -- The slots of one technology
  unfoldable pub intern_tech : Text → Technology F → Pass F (Technology F)
  intern_tech tid t =
      let base = codes "tech" ∷ tid ∷ [] in
      do
        a ← intern (slot base (codes "efficiency")) t.efficiency
        b ← intern (slot base (codes "demand_profile")) t.demand_profile
        c ← intern (slot base (codes "dispatch")) t.dispatch
        e ← intern_electrical base t.electrical
        op ← intern_operation base t.operation
        st ← intern_storage base t.storage
        src ← intern_source base t.source
        p ← intern_performance base t.performance
        costs ← intern_entries (intern_cost base) t.costs
        ovs ← intern_entries (intern_override tid) t.node_overrides
        keep_as (record t {
          efficiency = a;
          demand_profile = b;
          dispatch = c;
          electrical = e;
          operation = op;
          storage = st;
          source = src;
          performance = p;
          costs = costs;
          node_overrides = ovs;
        })

  unfoldable pub intern_climate : Text → Text → Value F → Pass F (Value F)
  intern_climate nid col v =
      if is_inline (some v) then intern_value (slot (codes "node" ∷ nid ∷ []) col) v else keep_as v

  unfoldable pub intern_node : Text → Node F → Pass F (Node F)
  intern_node nid n = do
    climate ← intern_entries (intern_climate nid) n.climate
    keep_as (record n { climate = climate })

  unfoldable pub intern_arc : Text → Transmission F → Pass F (Transmission F)
  intern_arc lid l = do
    a ← intern (slot (codes "transmission" ∷ lid ∷ []) (codes "dispatch")) l.dispatch
    keep_as (record l { dispatch = a })

  unfoldable pub intern_side :
      List Text → Text → Text → Option (TradeSide F) → Pass F (Option (TradeSide F))
  intern_side base limit price none = keep_as none
  intern_side base limit price (some side) = do
    a ← intern (slot base limit) side.limit
    b ← intern (slot base price) side.price
    keep_as (some (record side { limit = a; price = b }))

  unfoldable pub intern_trade : Text → Trade F → Pass F (Trade F)
  intern_trade id tr =
      let base = codes "trade" ∷ id ∷ [] in
      do
        a ← intern_side base (codes "import_limit") (codes "import_price") tr.import_side
        b ← intern_side base (codes "export_limit") (codes "export_price") tr.export_side
        keep_as (record tr { import_side = a; export_side = b })

  -- The walk over all slots
  unfoldable pub intern_slots : Model F → Pass F (Model F)
  intern_slots m = do
    w ← intern (slot (codes "time" ∷ []) (codes "weights")) m.time.weights
    techs ← intern_entries intern_tech m.technologies
    nodes ← intern_entries intern_node m.nodes
    arcs ← intern_entries intern_arc m.transmission
    trade ← intern_entries intern_trade m.trade
    keep_as (record m {
      time = record (m.time) { weights = w };
      technologies = techs;
      nodes = nodes;
      transmission = arcs;
      trade = trade;
    })

  -- `InternInlineSeries`: the model behind it, and the id that its error names
  unfoldable pub intern_inline_series : Model F → Model F × Option Text
  unfolding squatter
  intern_inline_series m =
      let (m', s) = intern_slots m (record { series = m.timeseries; referenced = [] }) in
      (record m' { timeseries = s.series }, squatter s.referenced (sorted_keys s.series))
