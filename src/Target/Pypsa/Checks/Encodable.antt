-- ===== src/Target/Pypsa/Checks/Encodable.antt =====
-- What a job satisfies that `ValidateJob` of internal/target/pypsa/pypsa.go accepts.
use meme.Base.{
  ◌≡◌, ◌⊎◌, inl, inr, Bool, true, false, not, ◌&&◌, ◌||◌, Option, none, some, some_injective, [],
  arith, In, Text, codes, str_eq, lookup, Bool-cases,
}
use meme.Model.Types.{Capacity, Operation, Storage, CostClass, Technology, Transmission}
use meme.Model.Enums.{supply}
use meme.Model.Values.{is_series}
use meme.Model.Overrides.{tech_at}
use meme.Model.Checks.{report, given}
use meme.Model.Validate.Each.{
  append-nil_left, append-nil_right, passed, report-nil_iff, each-nil_at, each_entry-nil_iff,
  true_of_not,
}
use meme.Target.Gates.Warnings.{primary_cost_class}
use meme.Target.Gates.Uses.{expandable_cap}
use meme.Target.Pypsa.Planning.{decommission_mode}
use meme.Target.Pypsa.Checks.Fields.{
  tech_place, arc_place, operate, stochastic, is_store, odd_mode, base_checks, operation_checks,
  fuel_checks, store_checks, unit_checks, sized_checks, fuel_series, systemwide, field_problems,
  systemwide_problems, storage_problems, arc_field_problems,
}
use meme.Target.Pypsa.Checks.Runs.{prices_purchase, purchase_problems}

-- One of two tests decides.
pub second_fails : (a b : Bool) → (a && b) ≡ false → a ≡ true → b ≡ false
second_fails a b h t = ground arith

pub second_holds : (a b : Bool) → (a && not b) ≡ false → a ≡ true → b ≡ true
second_holds a b h t = ground arith

module _ {F : Type 0} where
  -- The base fields of a technology that `ValidateJob` checks have a place in the components.
  pub record IsEncodableTech (mode : Text) (t : Technology F) : Type 0 where
    pub emission : given t.emission_factor ≡ false
    pub curtailable : t.demand_curtailable ≡ false
    pub annual :
        (given t.annual_output_min || given t.annual_output_max) ≡ true
        → str_eq t.role supply ≡ true
    pub retired_store :
        str_eq (decommission_mode t.capacity) (codes "continuous") ≡ true
        → is_store t.storage ≡ false
    pub retirement :
        (str_eq (decommission_mode t.capacity) (codes "impossible") ≡ true)
        ⊎ (str_eq (decommission_mode t.capacity) (codes "continuous") ≡ true)
    pub operation :
        (op : Operation F)
        → t.operation ≡ some op
        → (given op.max_startups ≡ false) × (given op.standby_power ≡ false)
    pub fuel :
        (c : CostClass F)
        → lookup primary_cost_class t.costs ≡ some c
        → is_series c.fuel_cost ≡ false
    pub bounds :
        (c : Capacity F)
        → (str_eq mode operate || str_eq mode stochastic) ≡ true
        → t.capacity ≡ some c
        → (given c.systemwide_min ≡ false) × (given c.systemwide_max ≡ false)

  -- Those of a storage: a Store has no inflow, a StorageUnit no rates.
  pub record IsEncodableStorage (mode : Text) (t : Technology F) (s : Storage F) : Type 0 where
    pub store :
        given s.energy_capacity ≡ true → (given s.inflow ≡ false) × (given s.soc_profile ≡ false)
    pub sidecar :
        given s.energy_capacity ≡ true
        → str_eq mode stochastic ≡ true
        → (given s.max_charge_rate || (given s.max_discharge_rate || expandable_cap t.capacity))
          ≡ false
    pub unit :
        given s.energy_capacity ≡ false
        → ((given s.max_charge_rate || given s.max_discharge_rate) ≡ false)
          × (given s.depth_of_discharge ≡ false)
    pub exclusion : s.no_simultaneous_charge_discharge ≡ false

  -- Those of an arc
  pub record IsEncodableArc (l : Transmission F) : Type 0 where
    pub loss : given l.loss_per_distance ≡ true → given l.distance ≡ true
    pub one_way :
        l.bidirectional ≡ true → (given l.min_flow ≡ false) × (given l.energy_consumption ≡ false)
    pub emission : given l.emission_factor ≡ false
    pub retirement : str_eq (decommission_mode l.capacity) (codes "impossible") ≡ true

  operation_set :
      (id : Text) (o : Option (Operation F)) (op : Operation F)
      → report (tech_place id) (operation_checks o) ≡ []
      → o ≡ some op
      → (given op.max_startups ≡ false) × (given op.standby_power ≡ false)
  operation_set id none op h e = cc
  operation_set id (some op') op h e =
      let (a, (b, _)) = (report-nil_iff (tech_place id) (operation_checks (some op'))).0 h in
      rw (← some_injective e) (a, b)

  either_mode :
      (o : Option (Capacity F))
      → odd_mode o ≡ false
      → (str_eq (decommission_mode o) (codes "impossible") ≡ true)
        ⊎ (str_eq (decommission_mode o) (codes "continuous") ≡ true)
  either_mode o h = elim (Bool-cases (str_eq (decommission_mode o) (codes "impossible"))) [
    | inl e ↦ inl e
    | inr e ↦ inr (ground (arith, h, e))
  ]

  no_series :
      (o : Option (CostClass F)) (c : CostClass F)
      → fuel_series o ≡ false
      → o ≡ some c
      → is_series c.fuel_cost ≡ false
  no_series o c h e = rw e at h

  no_bounds :
      (o : Option (Capacity F)) (c : Capacity F)
      → systemwide o ≡ false
      → o ≡ some c
      → (given c.systemwide_min ≡ false) × (given c.systemwide_max ≡ false)
  no_bounds o c h e =
      let none_set : (given c.systemwide_min || given c.systemwide_max) ≡ false = rw e at h in
      (ground (arith, none_set), ground (arith, none_set))

  pub tech-IsEncodableTech :
      (mode id : Text) (t : Technology F)
      → field_problems id t ≡ []
      → systemwide_problems mode id t ≡ []
      → IsEncodableTech mode t
  unfolding field_problems systemwide_problems
  tech-IsEncodableTech mode id t h k =
      let (a, (b, (c, (d, (e, _))))) =
        (report-nil_iff (tech_place id) (base_checks t)).0 (append-nil_left _ _ h) in
      let later = append-nil_right (report (tech_place id) (base_checks t)) _ h in
      let last = append-nil_right (report (tech_place id) (operation_checks t.operation)) _ later in
      let (f, _) = (report-nil_iff (tech_place id) (fuel_checks t)).0 last in
      let (g, _) = (report-nil_iff (tech_place id) _).0 k in
      record {
        emission = a;
        curtailable = b;
        annual = second_holds _ _ c;
        retired_store = second_fails _ _ d;
        retirement = either_mode t.capacity e;
        operation = λ op. operation_set id t.operation op (append-nil_left _ _ later);
        fuel = λ c. no_series _ c f;
        bounds = λ c m. no_bounds t.capacity c (second_fails _ _ g m);
      }

  pub arc-IsEncodableArc :
      (id : Text) (l : Transmission F) → arc_field_problems id l ≡ [] → IsEncodableArc l
  unfolding arc_field_problems
  arc-IsEncodableArc id l h =
      let (a, (b, (c, (d, (e, _))))) = (report-nil_iff (arc_place id) _).0 h in
      record {
        loss = second_holds _ _ a;
        one_way = λ t. (ground (arith, b, t), ground (arith, c, t));
        emission = d;
        retirement = true_of_not _ e;
      }

  pub storage-IsEncodableStorage :
      (mode id : Text) (t : Technology F) (s : Storage F)
      → storage_problems mode id t ≡ []
      → t.storage ≡ some s
      → IsEncodableStorage mode t s
  unfolding storage_problems
  storage-IsEncodableStorage mode id t s h e =
      let both = rw e at h in
      let sized = append-nil_left (report (tech_place id) (sized_checks mode t s)) _ both in
      let rest = append-nil_right (report (tech_place id) (sized_checks mode t s)) _ both in
      let exclusion = passed (tech_place id) _ _ [] rest in
      elim (Bool-cases (given s.energy_capacity)) [
        | inl g ↦
            let (a, (b, (c, _))) =
              (report-nil_iff (tech_place id) (store_checks mode t s)).0 (rw g at sized) in
            record {
              store = λ u. (a, b);
              sidecar = λ u. second_fails _ _ c;
              unit = λ u. ground (arith, u, g);
              exclusion = exclusion;
            }
        | inr g ↦
            let (a, (b, _)) = (report-nil_iff (tech_place id) (unit_checks s)).0 (rw g at sized) in
            record {
              store = λ u. ground (arith, u, g);
              sidecar = λ u. ground (arith, u, g);
              unit = λ u. (a, b);
              exclusion = exclusion;
            }
      ]

  -- No cost class of the technology at one of its nodes has a purchase cost.
  pub no_purchase :
      (id : Text) (t : Technology F) (n class : Text) (c : CostClass F)
      → purchase_problems id t ≡ []
      → In n t.node
      → lookup class (tech_at t n).costs ≡ some c
      → prices_purchase c ≡ false
  unfolding purchase_problems
  no_purchase id t n class c h i e =
      let costs = each-nil_at _ t.node n h i in
      passed (tech_place id) _ _ [] ((each_entry-nil_iff _ (tech_at t n).costs).0 costs class c e)
