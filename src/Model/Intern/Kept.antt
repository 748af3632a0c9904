-- ===== src/Model/Intern/Kept.antt =====
-- The blocks of the walk in internal/model/intern.go where every slot is plain: nothing changes.
use meme.Base.{Option, none, some, List, ◌∷◌, [], Text, codes, Map}
use meme.Model.Types.{
  Value, Operation, Storage, SourceSpec, CostClass, Performance, TechElectrical, NodeOverride,
  Technology,
}
use meme.Model.Intern.{
  intern, slot, intern_entries, intern_electrical, intern_operation, intern_storage, intern_source,
  intern_performance, intern_cost, intern_override, intern_tech,
}
use meme.Model.Intern.Pass.{Plain, Keeps, kept, then-Keeps, intern-Keeps}
use meme.Model.Intern.Entries.{Entries, intern_entries-Keeps}
use meme.Model.Intern.Slots.{
  PlainElectrical, PlainOperation, PlainStorage, PlainSource, PlainPerformance, PlainCost,
  PlainOverride, PlainTech,
}

module _ {F : Type 0} where
  pub slot-Keeps :
      (base : List Text) (field : Text) (v : Option (Value F))
      → Plain v
      → Keeps (intern (slot base field) v) v
  slot-Keeps base field v p = intern-Keeps (slot base field) v p

  electrical-Keeps :
      (base : List Text) (e : Option (TechElectrical F))
      → PlainElectrical e
      → Keeps (intern_electrical base e) e
  unfolding intern_electrical
  electrical-Keeps base none h = kept none
  electrical-Keeps base (some e) h = then-Keeps _ (slot-Keeps base _ _ h) (kept (some e))

  operation-Keeps :
      (base : List Text) (o : Option (Operation F))
      → PlainOperation o
      → Keeps (intern_operation base o) o
  unfolding intern_operation
  operation-Keeps base none h = kept none
  operation-Keeps base (some o) (a, b, c) =
      then-Keeps _ (slot-Keeps base _ _ a) (
        then-Keeps _ (slot-Keeps base _ _ b) (then-Keeps _ (slot-Keeps base _ _ c) (kept (some o))))

  storage-Keeps :
      (base : List Text) (st : Option (Storage F))
      → PlainStorage st
      → Keeps (intern_storage base st) st
  unfolding intern_storage
  storage-Keeps base none h = kept none
  storage-Keeps base (some st) (a, b) =
      then-Keeps _ (slot-Keeps base _ _ a) (then-Keeps _ (slot-Keeps base _ _ b) (kept (some st)))

  source-Keeps :
      (base : List Text) (src : Option (SourceSpec F))
      → PlainSource src
      → Keeps (intern_source base src) src
  unfolding intern_source
  source-Keeps base none h = kept none
  source-Keeps base (some src) h = then-Keeps _ (slot-Keeps base _ _ h) (kept (some src))

  performance-Keeps :
      (base : List Text) (p : Option (Performance F))
      → PlainPerformance p
      → Keeps (intern_performance base p) p
  unfolding intern_performance
  performance-Keeps base none h = kept none
  performance-Keeps base (some p) (a, b) =
      then-Keeps _ (slot-Keeps base _ _ a) (then-Keeps _ (slot-Keeps base _ _ b) (kept (some p)))

  cost-Keeps :
      (base : List Text) (class : Text) (c : CostClass F)
      → PlainCost c
      → Keeps (intern_cost base class c) c
  unfolding intern_cost
  cost-Keeps base class c (a, b) =
      then-Keeps _ (intern-Keeps _ _ a) (then-Keeps _ (intern-Keeps _ _ b) (kept c))

  costs-Keeps :
      (base : List Text) (costs : Map (CostClass F))
      → Entries PlainCost costs
      → Keeps (intern_entries (intern_cost base) costs) costs
  costs-Keeps base costs h = intern_entries-Keeps costs (λ k v e. cost-Keeps base k v (h k v e))

  pub intern_override-Keeps :
      (tid nid : Text) (ov : NodeOverride F)
      → PlainOverride ov
      → Keeps (intern_override tid nid ov) ov
  unfolding intern_override
  intern_override-Keeps tid nid ov h =
      let base = codes "tech" ∷ tid ∷ nid ∷ [] in
      let (a, b, c) = h.own in
      let (e, op, st) = h.block in
      let (src, p, costs) = h.rest in
      then-Keeps _ (slot-Keeps base _ _ a) (
        then-Keeps _ (slot-Keeps base _ _ b) (
          then-Keeps _ (slot-Keeps base _ _ c) (
            then-Keeps _ (electrical-Keeps base _ e) (
              then-Keeps _ (operation-Keeps base _ op) (
                then-Keeps _ (storage-Keeps base _ st) (
                  then-Keeps _ (source-Keeps base _ src) (
                    then-Keeps _ (performance-Keeps base _ p)
                      (then-Keeps _ (costs-Keeps base _ costs) (kept ov)))))))))

  pub intern_tech-Keeps :
      (tid : Text) (t : Technology F) → PlainTech t → Keeps (intern_tech tid t) t
  unfolding intern_tech
  intern_tech-Keeps tid t (h, ovs) =
      let base = codes "tech" ∷ tid ∷ [] in
      let (a, b, c) = h.own in
      let (e, op, st) = h.block in
      let (src, p, costs) = h.rest in
      then-Keeps _ (slot-Keeps base _ _ a) (
        then-Keeps _ (slot-Keeps base _ _ b) (
          then-Keeps _ (slot-Keeps base _ _ c) (
            then-Keeps _ (electrical-Keeps base _ e) (
              then-Keeps _ (operation-Keeps base _ op) (
                then-Keeps _ (storage-Keeps base _ st) (
                  then-Keeps _ (source-Keeps base _ src) (
                    then-Keeps _ (performance-Keeps base _ p) (
                      then-Keeps _ (costs-Keeps base _ costs) (
                        then-Keeps _
                          (intern_entries-Keeps t.node_overrides
                            (λ k v e'. intern_override-Keeps tid k v (ovs k v e')))
                          (kept t))))))))))
