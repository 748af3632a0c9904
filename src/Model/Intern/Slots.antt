-- ===== src/Model/Intern/Slots.antt =====
-- The blocks of the walk in internal/model/intern.go: which slots of each block are plain behind it.
use meme.Base.{Option, none, some, List, ◌∷◌, [], Text, codes, Map}
use meme.Model.Types.{
  Value, Operation, Storage, SourceSpec, CostClass, Performance, TechElectrical, NodeOverride,
  Technology,
}
use meme.Model.Intern.{
  intern, slot, intern_entries, intern_electrical, intern_operation, intern_storage, intern_source,
  intern_performance, intern_cost, intern_override, intern_tech,
}
use meme.Model.Intern.Pass.{key-Reserved, Plain, Sound, pass_done, then-Sound, intern-Sound}
use meme.Model.Intern.Entries.{Entries, intern_entries-Sound}

module _ {F : Type 0} where
  abbrev pub PlainElectrical : Option (TechElectrical F) → Type 0
  PlainElectrical none = Unit
  PlainElectrical (some e) = Plain e.reactive_dispatch

  abbrev pub PlainOperation : Option (Operation F) → Type 0
  PlainOperation none = Unit
  PlainOperation (some op) = Plain op.max_pu × Plain op.min_pu × Plain op.equals_pu

  abbrev pub PlainStorage : Option (Storage F) → Type 0
  PlainStorage none = Unit
  PlainStorage (some st) = Plain st.inflow × Plain st.soc_profile

  abbrev pub PlainSource : Option (SourceSpec F) → Type 0
  PlainSource none = Unit
  PlainSource (some src) = Plain src.max

  abbrev pub PlainPerformance : Option (Performance F) → Type 0
  PlainPerformance none = Unit
  PlainPerformance (some p) = Plain p.efficiency × Plain p.precomputed

  abbrev pub PlainCost : CostClass F → Type 0
  PlainCost c = Plain c.variable_om × Plain c.fuel_cost

  -- The slots that a technology and an override share
  pub record PlainBlocks (efficiency demand_profile dispatch : Option (Value F))
      (electrical : Option (TechElectrical F)) (operation : Option (Operation F))
      (storage : Option (Storage F)) (source : Option (SourceSpec F))
      (performance : Option (Performance F)) (costs : Map (CostClass F)) : Type 0 where
    pub own : Plain efficiency × Plain demand_profile × Plain dispatch
    pub block : PlainElectrical electrical × PlainOperation operation × PlainStorage storage
    pub rest : PlainSource source × PlainPerformance performance × Entries PlainCost costs

  abbrev pub PlainOverride : NodeOverride F → Type 0
  PlainOverride ov =
      PlainBlocks ov.efficiency ov.demand_profile ov.dispatch ov.electrical ov.operation ov.storage
        ov.source ov.performance ov.costs

  abbrev pub PlainTech : Technology F → Type 0
  PlainTech t =
      PlainBlocks t.efficiency t.demand_profile t.dispatch t.electrical t.operation t.storage
        t.source t.performance t.costs
      × Entries PlainOverride t.node_overrides

  pub slot-Sound :
      (base : List Text) (field : Text) (v : Option (Value F))
      → Sound (intern (slot base field) v) Plain
  slot-Sound base field v = intern-Sound (slot base field) v (key-Reserved base field [])

  electrical-Sound :
      (base : List Text) (e : Option (TechElectrical F))
      → Sound (intern_electrical base e) PlainElectrical
  unfolding intern_electrical
  electrical-Sound base none = pass_done _ tt
  electrical-Sound base (some e) =
      then-Sound (slot-Sound base _ e.reactive_dispatch) (λ q p. pass_done _ p)

  operation-Sound :
      (base : List Text) (o : Option (Operation F)) → Sound (intern_operation base o) PlainOperation
  unfolding intern_operation
  operation-Sound base none = pass_done _ tt
  operation-Sound base (some o) = then-Sound (slot-Sound base _ o.max_pu) (λ a p.
      then-Sound (slot-Sound base _ o.min_pu)
        (λ b q. then-Sound (slot-Sound base _ o.equals_pu) (λ c r. pass_done _ (p, q, r))))

  storage-Sound :
      (base : List Text) (st : Option (Storage F)) → Sound (intern_storage base st) PlainStorage
  unfolding intern_storage
  storage-Sound base none = pass_done _ tt
  storage-Sound base (some st) =
      then-Sound (slot-Sound base _ st.inflow)
        (λ a p. then-Sound (slot-Sound base _ st.soc_profile) (λ b q. pass_done _ (p, q)))

  source-Sound :
      (base : List Text) (src : Option (SourceSpec F)) → Sound (intern_source base src) PlainSource
  unfolding intern_source
  source-Sound base none = pass_done _ tt
  source-Sound base (some src) = then-Sound (slot-Sound base _ src.max) (λ a p. pass_done _ p)

  performance-Sound :
      (base : List Text) (p : Option (Performance F))
      → Sound (intern_performance base p) PlainPerformance
  unfolding intern_performance
  performance-Sound base none = pass_done _ tt
  performance-Sound base (some p) =
      then-Sound (slot-Sound base _ p.efficiency)
        (λ a q. then-Sound (slot-Sound base _ p.precomputed) (λ b r. pass_done _ (q, r)))

  cost-Sound :
      (base : List Text) (class : Text) (c : CostClass F)
      → Sound (intern_cost base class c) PlainCost
  unfolding intern_cost
  cost-Sound base class c =
      then-Sound (intern-Sound _ c.variable_om (key-Reserved base _ _)) (λ a p.
        then-Sound (intern-Sound _ c.fuel_cost (key-Reserved base _ _)) (λ b q. pass_done _ (p, q)))

  costs-Sound :
      (base : List Text) (costs : Map (CostClass F))
      → Sound (intern_entries (intern_cost base) costs) (Entries PlainCost)
  costs-Sound base costs = intern_entries-Sound PlainCost costs (cost-Sound base)

  -- Every slot of an override is plain behind the walk.
  pub intern_override-Plain :
      (tid nid : Text) (ov : NodeOverride F) → Sound (intern_override tid nid ov) PlainOverride
  unfolding intern_override
  intern_override-Plain tid nid ov =
      let base = codes "tech" ∷ tid ∷ nid ∷ [] in
      then-Sound (slot-Sound base _ ov.efficiency) (λ a pa.
        then-Sound (slot-Sound base _ ov.demand_profile) (λ b pb.
          then-Sound (slot-Sound base _ ov.dispatch) (λ c pc.
            then-Sound (electrical-Sound base ov.electrical) (λ e pe.
              then-Sound (operation-Sound base ov.operation) (λ op po.
                then-Sound (storage-Sound base ov.storage) (λ st ps.
                  then-Sound (source-Sound base ov.source) (λ src px.
                    then-Sound (performance-Sound base ov.performance) (λ p pp.
                      then-Sound (costs-Sound base ov.costs) (λ costs pk. pass_done _ (record {
                        own = (pa, pb, pc);
                        block = (pe, po, ps);
                        rest = (px, pp, pk);
                      }))))))))))

  -- Every slot of a technology, of its overrides too, is plain behind the walk.
  pub intern_tech-Plain : (tid : Text) (t : Technology F) → Sound (intern_tech tid t) PlainTech
  unfolding intern_tech
  intern_tech-Plain tid t =
      let base = codes "tech" ∷ tid ∷ [] in
      then-Sound (slot-Sound base _ t.efficiency) (λ a pa.
        then-Sound (slot-Sound base _ t.demand_profile) (λ b pb.
          then-Sound (slot-Sound base _ t.dispatch) (λ c pc.
            then-Sound (electrical-Sound base t.electrical) (λ e pe.
              then-Sound (operation-Sound base t.operation) (λ op po.
                then-Sound (storage-Sound base t.storage) (λ st ps.
                  then-Sound (source-Sound base t.source) (λ src px.
                    then-Sound (performance-Sound base t.performance) (λ p pp.
                      then-Sound (costs-Sound base t.costs) (λ costs pk.
                        then-Sound
                          (intern_entries-Sound PlainOverride t.node_overrides
                            (intern_override-Plain tid))
                          (λ ovs pv. pass_done _ (
                            record {
                              own = (pa, pb, pc);
                              block = (pe, po, ps);
                              rest = (px, pp, pk);
                            },
                            pv,
                          )))))))))))
