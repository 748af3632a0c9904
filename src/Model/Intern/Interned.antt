-- ===== src/Model/Intern/Interned.antt =====
-- `InternInlineSeries` of internal/model/intern.go as a whole: behind it every slot that
-- it visits is plain, what the user registered is still there, and a second run changes nothing.
use meme.Base.{◌≡◌, ap₂, inl, inr, Option, none, some, List, ◌∷◌, [], Text, codes, Map, Bool-cases}
use meme.Model.Types.{Value, TimeSeries, Node, Transmission, TradeSide, Trade, Model}
use meme.Model.Values.{is_inline}
use meme.Model.Intern.{
  intern_climate, intern_node, intern_arc, intern_side, intern_trade, intern_slots,
  intern_inline_series,
}
use meme.Model.Intern.Pass.{
  Plain, SameOutside, Sound, Keeps, key-Reserved, pass_done, then-Sound, kept, then-Keeps,
  intern_value-Sound, intern_value-Keeps,
}
use meme.Model.Intern.Entries.{Entries, intern_entries-Sound, intern_entries-Keeps}
use meme.Model.Intern.Slots.{PlainTech, slot-Sound, intern_tech-Plain}
use meme.Model.Intern.Kept.{slot-Keeps, intern_tech-Keeps}

module _ {F : Type 0} where
  abbrev pub PlainNode : Node F → Type 0
  PlainNode n = Entries (λ v. Plain (some v)) n.climate

  abbrev pub PlainArc : Transmission F → Type 0
  PlainArc l = Plain l.dispatch

  abbrev pub PlainSide : Option (TradeSide F) → Type 0
  PlainSide none = Unit
  PlainSide (some side) = Plain side.limit × Plain side.price

  abbrev pub PlainTrade : Trade F → Type 0
  PlainTrade tr = PlainSide tr.import_side × PlainSide tr.export_side

  -- No slot that the walk visits holds an inline array; ramp_up and ramp_down of an operation and the
  -- efficiency of an arc are not visited.
  pub record Interned (m : Model F) : Type 0 where
    pub weights : Plain m.time.weights
    pub techs : Entries PlainTech m.technologies
    pub nodes : Entries PlainNode m.nodes
    pub arcs : Entries PlainArc m.transmission
    pub trades : Entries PlainTrade m.trade

  climate-Sound :
      (nid col : Text) (v : Value F) → Sound (intern_climate nid col v) (λ w. Plain (some w))
  unfolding intern_climate
  climate-Sound nid col v = elim (Bool-cases (is_inline (some v))) [
    | inl h ↦ rw h (intern_value-Sound _ v (key-Reserved (codes "node" ∷ nid ∷ []) col []))
    | inr h ↦ rw h (pass_done v (inr h))
  ]

  node-Sound : (nid : Text) (n : Node F) → Sound (intern_node nid n) PlainNode
  unfolding intern_node
  node-Sound nid n =
      then-Sound (intern_entries-Sound (λ v. Plain (some v)) n.climate (climate-Sound nid))
        (λ c p. pass_done _ p)

  arc-Sound : (lid : Text) (l : Transmission F) → Sound (intern_arc lid l) PlainArc
  unfolding intern_arc
  arc-Sound lid l =
      then-Sound (slot-Sound (codes "transmission" ∷ lid ∷ []) _ l.dispatch) (λ a p. pass_done _ p)

  side-Sound :
      (base : List Text) (limit price : Text) (side : Option (TradeSide F))
      → Sound (intern_side base limit price side) PlainSide
  unfolding intern_side
  side-Sound base limit price none = pass_done _ tt
  side-Sound base limit price (some side) =
      then-Sound (slot-Sound base _ side.limit)
        (λ a p. then-Sound (slot-Sound base _ side.price) (λ b q. pass_done _ (p, q)))

  trade-Sound : (id : Text) (tr : Trade F) → Sound (intern_trade id tr) PlainTrade
  unfolding intern_trade
  trade-Sound id tr =
      then-Sound (side-Sound _ _ _ tr.import_side)
        (λ a p. then-Sound (side-Sound _ _ _ tr.export_side) (λ b q. pass_done _ (p, q)))

  pub slots-Sound : (m : Model F) → Sound (intern_slots m) Interned
  unfolding intern_slots
  slots-Sound m = then-Sound (slot-Sound (codes "time" ∷ []) _ m.time.weights) (λ w pw.
      then-Sound (intern_entries-Sound PlainTech m.technologies intern_tech-Plain) (λ ts pt.
        then-Sound (intern_entries-Sound PlainNode m.nodes node-Sound) (λ ns pn.
          then-Sound (intern_entries-Sound PlainArc m.transmission arc-Sound) (λ ls pl.
            then-Sound (intern_entries-Sound PlainTrade m.trade trade-Sound) (λ trs pr.
              pass_done _
                (record { weights = pw; techs = pt; nodes = pn; arcs = pl; trades = pr }))))))

  climate-Keeps :
      (nid col : Text) (v : Value F) → Plain (some v) → Keeps (intern_climate nid col v) v
  unfolding intern_climate
  climate-Keeps nid col v p = elim (Bool-cases (is_inline (some v))) [
    | inl h ↦ rw h (intern_value-Keeps _ v p)
    | inr h ↦ rw h (kept v)
  ]

  node-Keeps : (nid : Text) (n : Node F) → PlainNode n → Keeps (intern_node nid n) n
  unfolding intern_node
  node-Keeps nid n h =
      then-Keeps _ (intern_entries-Keeps n.climate (λ k v e. climate-Keeps nid k v (h k v e)))
        (kept n)

  arc-Keeps : (lid : Text) (l : Transmission F) → PlainArc l → Keeps (intern_arc lid l) l
  unfolding intern_arc
  arc-Keeps lid l h = then-Keeps _ (slot-Keeps (codes "transmission" ∷ lid ∷ []) _ _ h) (kept l)

  side-Keeps :
      (base : List Text) (limit price : Text) (side : Option (TradeSide F))
      → PlainSide side
      → Keeps (intern_side base limit price side) side
  unfolding intern_side
  side-Keeps base limit price none h = kept none
  side-Keeps base limit price (some side) (a, b) =
      then-Keeps _ (slot-Keeps base _ _ a) (then-Keeps _ (slot-Keeps base _ _ b) (kept (some side)))

  trade-Keeps : (id : Text) (tr : Trade F) → PlainTrade tr → Keeps (intern_trade id tr) tr
  unfolding intern_trade
  trade-Keeps id tr (a, b) =
      then-Keeps _ (side-Keeps _ _ _ _ a) (then-Keeps _ (side-Keeps _ _ _ _ b) (kept tr))

  slots-Keeps : (m : Model F) → Interned m → Keeps (intern_slots m) m
  unfolding intern_slots
  slots-Keeps m h = then-Keeps _ (slot-Keeps (codes "time" ∷ []) _ _ h.weights) (
      then-Keeps _
        (intern_entries-Keeps m.technologies (λ k v e. intern_tech-Keeps k v (h.techs k v e)))
        (then-Keeps _ (intern_entries-Keeps m.nodes (λ k v e. node-Keeps k v (h.nodes k v e))) (
          then-Keeps _ (intern_entries-Keeps m.transmission (λ k v e. arc-Keeps k v (h.arcs k v e)))
            (then-Keeps _ (intern_entries-Keeps m.trade (λ k v e. trade-Keeps k v (h.trades k v e)))
              (kept m)))))

  -- Behind the pass no slot that it visits holds an inline array, and each entry that the user
  -- registered under a name of his own is as it was. It does not visit ramp_up and ramp_down of an
  -- operation and the efficiency of an arc: of these nothing is said.
  pub intern_inline_series-Interned :
      (m : Model F)
      → Interned (intern_inline_series m).0
        × SameOutside m.timeseries (intern_inline_series m).0.timeseries
  unfolding intern_inline_series
  intern_inline_series-Interned m =
      let (h, (same, _)) =
        (slots-Sound m).sound_at (record { series = m.timeseries; referenced = [] }) in
      (
        record {
          weights = h.weights;
          techs = h.techs;
          nodes = h.nodes;
          arcs = h.arcs;
          trades = h.trades;
        },
        same,
      )

  plain_again : (m : Model F) → Interned m → (intern_inline_series m).0 ≡ m
  unfolding intern_inline_series
  plain_again m h =
      let (e, r) = (slots-Keeps m h).keeps_at (record { series = m.timeseries; referenced = [] }) in
      ap₂ {A = Model F} {B = Map (TimeSeries F)} (λ x y. record x { timeseries = y }) e r

  -- A second run leaves the model and its registry as they are.
  pub intern_inline_series_idem :
      (m : Model F)
      → (intern_inline_series (intern_inline_series m).0).0 ≡ (intern_inline_series m).0
  intern_inline_series_idem m =
      plain_again (intern_inline_series m).0 (intern_inline_series-Interned m).0
