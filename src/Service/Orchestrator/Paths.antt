-- ===== src/Service/Orchestrator/Paths.antt =====
-- What a parameter path (`applyPath`, internal/service/orchestrator.go) changes in a model, read back
-- by `param_at`.
use meme.Base.{
  get_or_else, ◌≡◌, refl, sym, ◌∙◌, inl, inr, Option, none, some, List, [], ◌∷◌, if◌then◌else◌,
  arith, Float64, Text, codes, str_eq, str_eq_sound, str_eq_refl, lookup, insert, lookup-insert,
  lookup-insert_ne, Bool-cases,
}
use mathlib.Core.Logic.{◌≢◌}
use mathlib.Core.Path.{subst}
use meme.Model.Types.{Value, CostClass, Capacity, Technology, Carrier, Model}
use meme.Service.Orchestrator.{
  unsupported_path_root, ok, err, >>=-eq-ok, set_capacity, set_cost, apply_capacity, apply_costs,
  apply_tech, apply_carrier, apply_segments, on_tech, on_carrier, empty_capacity, empty_cost,
}

infixl 5 ◌>>=◌
abbrev ◌>>=◌ : {A B : Type 0} → Option A → (A → Option B) → Option B
none >>= f = none
some a >>= f = f a

module _ (fl : Float64) where
  open fl use {F, zero}

  -- The parameter that a path names, read off a model.
  get_capacity : Text → Capacity F → Option F
  get_capacity field c =
      if str_eq field (codes "max")
      then c.max
      else if str_eq field (codes "min")
      then c.min
      else if str_eq field (codes "existing")
      then some c.existing
      else none

  value_scalar : Option (Value F) → Option F
  value_scalar none = none
  value_scalar (some x) = x.scalar

  get_cost : Text → CostClass F → Option F
  unfolding value_scalar
  get_cost field c =
      if str_eq field (codes "investment_per_capacity")
      then c.investment_per_capacity
      else if str_eq field (codes "variable_om")
      then value_scalar c.variable_om
      else none

  capacity_at : List Text → Technology F → Option F
  unfolding get_capacity
  capacity_at [] t = none
  capacity_at (field ∷ more) t = t.capacity >>= get_capacity field

  cost_at : List Text → Technology F → Option F
  unfolding get_cost
  cost_at (class ∷ field ∷ more) t = lookup class t.costs >>= get_cost field
  cost_at _ t = none

  tech_param : Text → List Text → Technology F → Option F
  unfolding capacity_at cost_at value_scalar
  tech_param field more t =
      if str_eq field (codes "capacity")
      then capacity_at more t
      else if str_eq field (codes "efficiency")
      then value_scalar t.efficiency
      else if str_eq field (codes "costs")
      then cost_at more t
      else none

  carrier_param : Text → Carrier F → Option F
  carrier_param field c = if str_eq field (codes "co2_intensity") then c.co2_intensity else none

  unfoldable pub param_at : List Text → Model F → Option F
  unfolding tech_param carrier_param
  param_at (root ∷ id ∷ field ∷ more) m =
      if str_eq root (codes "technologies")
      then lookup id m.technologies >>= tech_param field more
      else if str_eq root (codes "carriers")
      then lookup id m.carriers >>= carrier_param field
      else none
  param_at _ m = none

  set_capacity_lem :
      (field : Text) (v : F) (c c' : Capacity F)
      → set_capacity fl field v c ≡ ok c'
      → get_capacity field c' ≡ some v
  unfolding set_capacity get_capacity
  set_capacity_lem field v c c' h = ground arith

  set_cost_lem :
      (field : Text) (v : F) (c c' : CostClass F)
      → set_cost fl field v c ≡ ok c'
      → get_cost field c' ≡ some v
  unfolding set_cost get_cost
  set_cost_lem field v c c' h = ground arith

  apply_capacity_lem :
      (more : List Text) (v : F) (t t' : Technology F)
      → apply_capacity fl more v t ≡ ok t'
      → capacity_at more t' ≡ some v
  unfolding apply_capacity capacity_at
  apply_capacity_lem [] v t t' h = cc
  apply_capacity_lem (field ∷ more) v t t' h =
      let (c, e, k) =
        >>=-eq-ok (set_capacity fl field v (get_or_else t.capacity (empty_capacity fl))) _ h in
      ground (arith, set_capacity_lem field v (get_or_else t.capacity (empty_capacity fl)) c e, k)

  apply_costs_lem :
      (more : List Text) (v : F) (t t' : Technology F)
      → apply_costs fl more v t ≡ ok t'
      → cost_at more t' ≡ some v
  unfolding apply_costs cost_at
  apply_costs_lem [] v t t' h = cc
  apply_costs_lem (class ∷ []) v t t' h = cc
  apply_costs_lem (class ∷ field ∷ more) v t t' h =
      let old : CostClass F = get_or_else (lookup class t.costs) (empty_cost fl) in
      let (c, e, k) = >>=-eq-ok (set_cost fl field v old) _ h in
      ground (
        arith,
        set_cost_lem field v old c e,
        k,
        lookup-insert class class c t.costs,
        str_eq_refl class,
      )

  apply_tech_lem :
      (field : Text) (more : List Text) (v : F) (t t' : Technology F)
      → apply_tech fl field more v t ≡ ok t'
      → tech_param field more t' ≡ some v
  unfolding apply_tech tech_param
  apply_tech_lem field more v t t' h =
      ground (arith, apply_capacity_lem more v t t', apply_costs_lem more v t t')

  apply_carrier_lem :
      (field : Text) (v : F) (c c' : Carrier F)
      → apply_carrier fl field v c ≡ ok c'
      → carrier_param field c' ≡ some v
  unfolding apply_carrier carrier_param
  apply_carrier_lem field v c c' h = ground arith

  -- The edits that a path can make: one technology or one carrier of the model is given anew.
  pub data Edit (segments : List Text) (v : F) (m m' : Model F) : Type 0 where
    tech_edit :
        (id field : Text) (more : List Text) (t t' : Technology F)
        → segments ≡ codes "technologies" ∷ id ∷ field ∷ more
        → lookup id m.technologies ≡ some t
        → apply_tech fl field more v t ≡ ok t'
        → m' ≡ record m { technologies = insert id t' m.technologies }
        → Edit segments v m m'
    carrier_edit :
        (id field : Text) (more : List Text) (c c' : Carrier F)
        → segments ≡ codes "carriers" ∷ id ∷ field ∷ more
        → lookup id m.carriers ≡ some c
        → apply_carrier fl field v c ≡ ok c'
        → m' ≡ record m { carriers = insert id c' m.carriers }
        → Edit segments v m m'

  on_tech-Edit :
      (o : Option (Technology F)) (id field : Text) (more : List Text) (v : F) (m m' : Model F)
      → lookup id m.technologies ≡ o
      → on_tech fl o id field more v m ≡ ok m'
      → Edit (codes "technologies" ∷ id ∷ field ∷ more) v m m'
  unfolding on_tech
  on_tech-Edit none id field more v m m' l h = cc
  on_tech-Edit (some t) id field more v m m' l h =
      let (t', e, k) = >>=-eq-ok (apply_tech fl field more v t) _ h in
      tech_edit id field more t t' refl l e (cc k)

  on_carrier-Edit :
      (o : Option (Carrier F)) (id field : Text) (more : List Text) (v : F) (m m' : Model F)
      → lookup id m.carriers ≡ o
      → on_carrier fl o id field v m ≡ ok m'
      → Edit (codes "carriers" ∷ id ∷ field ∷ more) v m m'
  unfolding on_carrier
  on_carrier-Edit none id field more v m m' l h = cc
  on_carrier-Edit (some c) id field more v m m' l h =
      let (c', e, k) = >>=-eq-ok (apply_carrier fl field v c) _ h in
      carrier_edit id field more c c' refl l e (cc k)

  -- A path that is applied makes one edit, of a component that the model has.
  pub apply_segments-Edit :
      (segments : List Text) (v : F) (m m' : Model F)
      → apply_segments fl segments v m ≡ ok m'
      → Edit segments v m m'
  unfolding apply_segments
  apply_segments-Edit [] v m m' h = cc
  apply_segments-Edit (root ∷ []) v m m' h = cc
  apply_segments-Edit (root ∷ id ∷ []) v m m' h = cc
  apply_segments-Edit (root ∷ id ∷ field ∷ more) v m m' h =
      elim (Bool-cases (str_eq root (codes "technologies"))) [
        | inl is_tech ↦
            let e = str_eq_sound root (codes "technologies") is_tech in
            subst (λ r. Edit (r ∷ id ∷ field ∷ more) v m m') (sym e)
              (on_tech-Edit (lookup id m.technologies) id field more v m m' refl (rw is_tech at h))
        | inr no_tech ↦ elim (Bool-cases (str_eq root (codes "carriers"))) [
          | inl is_carrier ↦
              let e = str_eq_sound root (codes "carriers") is_carrier in
              subst (λ r. Edit (r ∷ id ∷ field ∷ more) v m m') (sym e)
                (on_carrier-Edit (lookup id m.carriers) id field more v m m' refl
                  (rw (no_tech, is_carrier) at h))
          | inr unknown ↦ absurd (other_root (rw (no_tech, unknown) at h))
        ]
      ]
    where
      other_root : err (unsupported_path_root root) ≡ ok m' → ⊥
      other_root e = cc

  -- A parameter that a path was applied to holds the value afterwards.
  pub param_at-apply_segments :
      (segments : List Text) (v : F) (m m' : Model F)
      → apply_segments fl segments v m ≡ ok m'
      → param_at segments m' ≡ some v
  unfolding param_at str_eq
  param_at-apply_segments segments v m m' h = read (apply_segments-Edit segments v m m' h)
    where
      read : Edit segments v m m' → param_at segments m' ≡ some v
      read (tech_edit id field more t t' e l a k) =
          rw (e, k, lookup-insert id id t' m.technologies, str_eq_refl id)
            (apply_tech_lem field more v t t' a)
      read (carrier_edit id field more c c' e l a k) =
          rw (e, k, lookup-insert id id c' m.carriers, str_eq_refl id)
            (apply_carrier_lem field v c c' a)

  -- Outside the component that is named, two models agree.
  pub record AgreeBut (id : Text) (m m' : Model F) : Type 0 where
    pub techs :
        (other : Text) → other ≢ id → lookup other m'.technologies ≡ lookup other m.technologies
    pub carriers : (other : Text) → other ≢ id → lookup other m'.carriers ≡ lookup other m.carriers
    pub nodes : m'.nodes ≡ m.nodes
    pub timeseries : m'.timeseries ≡ m.timeseries
    pub transmission : m'.transmission ≡ m.transmission
    pub trade : m'.trade ≡ m.trade
    pub emission_limits : m'.emission_limits ≡ m.emission_limits
    pub constraints : m'.constraints ≡ m.constraints
    pub time : m'.time ≡ m.time

  -- A path changes no technology and no carrier but the one of the id that it names, and leaves the
  -- nodes, the series, the arcs, the trade, the limits, the constraints and the time alone.
  pub apply_segments_frame :
      (root id field : Text) (more : List Text) (v : F) (m m' : Model F)
      → apply_segments fl (root ∷ id ∷ field ∷ more) v m ≡ ok m'
      → AgreeBut id m m'
  apply_segments_frame root id field more v m m' h =
      frame (apply_segments-Edit (root ∷ id ∷ field ∷ more) v m m' h)
    where
      frame : Edit (root ∷ id ∷ field ∷ more) v m m' → AgreeBut id m m'
      frame (tech_edit i f r t t' e l a k) =
          let same : i ≡ id = cc in
          rw k (record {
            techs = λ other ne. lookup-insert_ne i other t' m.technologies (λ q. ne (sym q ∙ same));
            carriers = λ other ne. refl;
            nodes = refl;
            timeseries = refl;
            transmission = refl;
            trade = refl;
            emission_limits = refl;
            constraints = refl;
            time = refl;
          })
      frame (carrier_edit i f r c c' e l a k) =
          let same : i ≡ id = cc in
          rw k (record {
            techs = λ other ne. refl;
            carriers = λ other ne. lookup-insert_ne i other c' m.carriers (λ q. ne (sym q ∙ same));
            nodes = refl;
            timeseries = refl;
            transmission = refl;
            trade = refl;
            emission_limits = refl;
            constraints = refl;
            time = refl;
          })
