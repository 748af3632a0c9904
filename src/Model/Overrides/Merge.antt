-- ===== src/Model/Overrides/Merge.antt =====
-- The merge of cost classes in `Technology.At` (internal/model/constraint.go).
use meme.Base.{
  ◌≡◌, refl, ap, ◌∙◌, false, Option, none, some, [], ◌∷◌, arith, Text, Map, lookup, insert, has_key,
  IsMap, str_eq_iff, str_eq_refl, lookup-insert, lookup_of_not_key, get_or_else,
}
use meme.Model.Types.{CostClass, NodeOverride, Technology}
use meme.Model.Overrides.{or_else, merge_into, apply_override, tech_at}

or_else_twice : {A : Type 0} (o base : Option A) → or_else o (or_else o base) ≡ or_else o base
or_else_twice none base = refl
or_else_twice (some x) base = refl

get_or_else_twice :
    {A : Type 0} (o : Option A) (base : A) → get_or_else o (get_or_else o base) ≡ get_or_else o base
get_or_else_twice none base = refl
get_or_else_twice (some x) base = refl

module _ {F : Type 0} where
  lookup-merge_into :
      (k : Text) (base over : Map (CostClass F))
      → IsMap over
      → lookup k (merge_into base over) ≡ or_else (lookup k over) (lookup k base)
  unfolding merge_into lookup
  lookup-merge_into k base [] h = refl
  lookup-merge_into k base ((j, c) ∷ over) (fresh, h) = ground (
    arith,
    lookup-merge_into k (insert j c base) over h,
    lookup-insert j k c base,
    str_eq_iff j k,
    lookup_of_not_key j over fresh,
  )

  -- At a node with an override, each cost class is the override's where it has one, else the base's.
  -- The override's classes are a map, one entry to a name.
  pub tech_at-costs :
      (t : Technology F) (node class : Text) (ov : NodeOverride F)
      → IsMap ov.costs
      → lookup node t.node_overrides ≡ some ov
      → lookup class (tech_at t node).costs ≡ or_else (lookup class ov.costs) (lookup class t.costs)
  unfolding tech_at apply_override
  tech_at-costs t node class ov h e = rw e (lookup-merge_into class t.costs ov.costs h)

  insert_same :
      (k : Text) (c : CostClass F) (m : Map (CostClass F)) → lookup k m ≡ some c → insert k c m ≡ m
  unfolding lookup insert
  insert_same k c [] h = cc
  insert_same k c ((j, d) ∷ m) h = ground (arith, insert_same k c m)

  -- Every entry of the second map is one of the first.
  abbrev Within : Map (CostClass F) → Map (CostClass F) → Type 0
  Within [] m = Unit
  Within ((k, c) ∷ over) m = (lookup k m ≡ some c) × Within over m

  merge_into_same : (over m : Map (CostClass F)) → Within over m → merge_into m over ≡ m
  unfolding merge_into
  merge_into_same [] m h = refl
  merge_into_same ((k, c) ∷ over) m (e, h) = rw (insert_same k c m e) (merge_into_same over m h)

  merge_into-lookup_kept :
      (k : Text) (c : CostClass F) (base over : Map (CostClass F))
      → IsMap over
      → has_key k over ≡ false
      → lookup k base ≡ some c
      → lookup k (merge_into base over) ≡ some c
  merge_into-lookup_kept k c base over h fresh e =
      rw (lookup-merge_into k base over h, lookup_of_not_key k over fresh, e) refl

  merge_into-Within :
      (base over : Map (CostClass F)) → IsMap over → Within over (merge_into base over)
  unfolding merge_into
  merge_into-Within base [] h = tt
  merge_into-Within base ((k, c) ∷ over) (fresh, h) = (
    merge_into-lookup_kept k c (insert k c base) over h fresh
        (rw (lookup-insert k k c base, str_eq_refl k) refl),
    merge_into-Within (insert k c base) over h,
  )

  apply_override_twice :
      (o : Option (NodeOverride F)) (t : Technology F)
      → ((ov : NodeOverride F) → o ≡ some ov → IsMap ov.costs)
      → apply_override o (apply_override o t) ≡ apply_override o t
  unfolding apply_override
  apply_override_twice none t h = refl
  apply_override_twice (some ov) t h =
      rw
        (
          get_or_else_twice ov.carrier_in t.carrier_in,
          get_or_else_twice ov.carrier_out t.carrier_out,
          or_else_twice ov.efficiency t.efficiency,
          or_else_twice ov.capacity t.capacity,
          or_else_twice ov.operation t.operation,
          or_else_twice ov.storage t.storage,
          or_else_twice ov.demand_profile t.demand_profile,
          or_else_twice ov.dispatch t.dispatch,
          or_else_twice ov.electrical t.electrical,
          or_else_twice ov.area t.area,
          or_else_twice ov.source t.source,
          or_else_twice ov.native t.native,
          merge_into_same ov.costs (merge_into t.costs ov.costs)
              (merge_into-Within t.costs ov.costs (h ov refl)),
        )
        refl

  apply_override-node_overrides :
      (o : Option (NodeOverride F)) (t : Technology F)
      → (apply_override o t).node_overrides ≡ t.node_overrides
  unfolding apply_override
  apply_override-node_overrides none t = refl
  apply_override-node_overrides (some ov) t = refl

  -- Taking the technology at a node twice is taking it once. The cost classes of the node's override
  -- are a map, one entry to a name.
  pub tech_at_idempotent :
      (t : Technology F) (node : Text)
      → ((ov : NodeOverride F) → lookup node t.node_overrides ≡ some ov → IsMap ov.costs)
      → tech_at (tech_at t node) node ≡ tech_at t node
  unfolding tech_at
  tech_at_idempotent t node h =
      let o = lookup node t.node_overrides in
      ap (λ m. apply_override (lookup node m) (apply_override o t))
        (apply_override-node_overrides o t)
      ∙ apply_override_twice o t h
