-- ===== src/Service/Orchestrator/Panics.antt =====
-- When `applyPath` (internal/service/orchestrator.go) panics.
use meme.Base.{
  ◌≡◌, refl, sym, ◌↔◌, inl, inr, Option, none, some, List, [], ◌∷◌, arith, Float64, Text, codes,
  str_eq, str_eq_iff, str_eq_sound, lookup, Bool-cases,
}
use mathlib.Core.Logic.{◌≢◌}
use mathlib.Core.Path.{subst}
use meme.Model.Types.{Technology, Carrier, Model}
use meme.Service.Orchestrator.{
  panic, >>=-ok-panic, set_capacity, set_cost, apply_capacity, apply_costs, apply_tech,
  apply_carrier, apply_segments, on_tech, on_carrier,
}

module _ (fl : Float64) where
  open fl use {F, zero}

  apply_tech-panic :
      (field : Text) (more : List Text) (v : F) (t : Technology F)
      → apply_tech fl field more v t ≡ panic
      → (field ≡ codes "capacity") × (more ≡ [])
  unfolding apply_tech apply_capacity apply_costs set_capacity set_cost
  apply_tech-panic field [] v t h = ground (arith, str_eq_iff field (codes "capacity"))
  apply_tech-panic field (x ∷ []) v t h = absurd (ground arith)
  apply_tech-panic field (x ∷ y ∷ more) v t h = absurd (ground arith)

  -- `technologies.<id>.capacity` with no field behind it, of a technology that the model has.
  abbrev pub CutCapacityPath : List Text → Model F → Type 0
  CutCapacityPath segments m =
      (id : Text) × (t : Technology F) × (segments
        ≡ codes "technologies" ∷ id ∷ codes "capacity" ∷ [])
      × (lookup id m.technologies ≡ some t)

  on_tech-panic :
      (o : Option (Technology F)) (id field : Text) (more : List Text) (v : F) (m : Model F)
      → lookup id m.technologies ≡ o
      → on_tech fl o id field more v m ≡ panic
      → CutCapacityPath (codes "technologies" ∷ id ∷ field ∷ more) m
  unfolding on_tech
  on_tech-panic none id field more v m l h = cc
  on_tech-panic (some t) id field more v m l h =
      let (e, k) =
        apply_tech-panic field more v t (>>=-ok-panic (apply_tech fl field more v t) _ h) in
      (id, t, cc, l)

  on_carrier-panic :
      (o : Option (Carrier F)) (id field : Text) (v : F) (m : Model F)
      → on_carrier fl o id field v m ≢ panic
  unfolding on_carrier apply_carrier
  on_carrier-panic none id field v m h = cc
  on_carrier-panic (some c) id field v m h = ground arith

  panic_cut :
      (segments : List Text) (v : F) (m : Model F)
      → apply_segments fl segments v m ≡ panic
      → CutCapacityPath segments m
  unfolding apply_segments
  panic_cut [] v m h = cc
  panic_cut (root ∷ []) v m h = cc
  panic_cut (root ∷ id ∷ []) v m h = cc
  panic_cut (root ∷ id ∷ field ∷ more) v m h =
      elim (Bool-cases (str_eq root (codes "technologies"))) [
        | inl is_tech ↦
            subst (λ r. CutCapacityPath (r ∷ id ∷ field ∷ more) m)
              (sym (str_eq_sound root (codes "technologies") is_tech))
              (on_tech-panic (lookup id m.technologies) id field more v m refl (rw is_tech at h))
        | inr no_tech ↦
            absurd (ground (arith, on_carrier-panic (lookup id m.carriers) id field v m))
      ]

  -- Applying a path panics exactly when it is `technologies.<id>.capacity` with no field behind it,
  -- of a technology that the model has.
  pub apply_segments-panic_iff :
      (segments : List Text) (v : F) (m : Model F)
      → (apply_segments fl segments v m ≡ panic) ↔ CutCapacityPath segments m
  unfolding apply_segments on_tech apply_tech apply_capacity str_eq
  apply_segments-panic_iff segments v m = (panic_cut segments v m, λ (id, t, e, l). rw (e, l))
