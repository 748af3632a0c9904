-- ===== src/Model/Checks/Ranges.antt =====
-- What the range checks of capacities accept.
use meme.Base.{
  ◌≡◌, refl, ◌↔◌, Bool, true, false, not, ◌&&◌, ◌||◌, Option, none, some, [], arith, All, ℤ, pos,
  ltb_ℤ, Float64, Text, some_injective,
}
use mathlib.Core.Path.{subst}
use meme.Model.Types.{Decommission, Capacity}
use meme.Model.Validate.Each.{report-nil_iff}
use meme.Model.Checks.{
  given, neg_int, int_exceeds, known_mode, negative, not_positive, exceeds, bad_mode, bad_cost,
  capacity_checks, validate_capacity,
}

-- A value that is given has a property.
abbrev pub Whenever : {A : Type 0} → Option A → (A → Type 0) → Type 0
Whenever o P = (x : _) → o ≡ some x → P x

-- Two values that are given are in order, by a test that says when they are not.
abbrev pub InOrder : {A : Type 0} → (A → A → Bool) → Option A → Option A → Type 0
InOrder less low high = (x y : _) → low ≡ some x → high ≡ some y → less y x ≡ false

Whenever-some : {A : Type 0} (d : A) (P : A → Type 0) → Whenever (some d) P ↔ P d
Whenever-some d P = (λ h. h d refl, λ p x e. subst P (some_injective e) p)

neg_int_iff : (o : Option ℤ) → (neg_int o ≡ false) ↔ Whenever o (λ n. ltb_ℤ n (pos 0) ≡ false)
neg_int_iff none = (λ h x e. cc, λ h. refl)
neg_int_iff (some n) = (λ h x e. cc, λ h. h n refl)

int_exceeds_iff : (a b : Option ℤ) → (int_exceeds a b ≡ false) ↔ InOrder ltb_ℤ a b
int_exceeds_iff none b = (λ h x y e e'. cc, λ h. refl)
int_exceeds_iff (some x) none = (λ h x y e e'. cc, λ h. refl)
int_exceeds_iff (some x) (some y) = (λ h x' y' e e'. cc, λ h. h x y refl refl)

module _ (fl : Float64) where
  open fl use {F, zero, lt, le}

  negative_iff : (o : Option F) → (negative fl o ≡ false) ↔ Whenever o (λ x. lt x zero ≡ false)
  negative_iff none = (λ h x e. cc, λ h. refl)
  negative_iff (some n) = (λ h x e. cc, λ h. h n refl)

  not_positive_iff :
      (o : Option F) → (not_positive fl o ≡ false) ↔ Whenever o (λ x. le x zero ≡ false)
  not_positive_iff none = (λ h x e. cc, λ h. refl)
  not_positive_iff (some n) = (λ h x e. cc, λ h. h n refl)

  exceeds_iff : (a b : Option F) → (exceeds fl a b ≡ false) ↔ InOrder lt a b
  exceeds_iff none b = (λ h x y e e'. cc, λ h. refl)
  exceeds_iff (some x) none = (λ h x y e e'. cc, λ h. refl)
  exceeds_iff (some x) (some y) = (λ h x' y' e e'. cc, λ h. h x y refl refl)

  -- The envelope of a capacity: no bound is negative, each pair of bounds is in order, and units have
  -- a positive size.
  pub record IsEnvelope (c : Capacity F) : Type 0 where
    pub existing : lt c.existing zero ≡ false
    pub min : Whenever c.min (λ x. lt x zero ≡ false)
    pub max : Whenever c.max (λ x. lt x zero ≡ false)
    pub bounds : InOrder lt c.min c.max
    pub per_unit : Whenever c.per_unit (λ x. le x zero ≡ false)
    pub sized : (given c.units_min || given c.units_max) ≡ true → given c.per_unit ≡ true
    pub units_min : Whenever c.units_min (λ n. ltb_ℤ n (pos 0) ≡ false)
    pub units_max : Whenever c.units_max (λ n. ltb_ℤ n (pos 0) ≡ false)
    pub units : InOrder ltb_ℤ c.units_min c.units_max
    pub systemwide_min : Whenever c.systemwide_min (λ x. lt x zero ≡ false)
    pub systemwide_max : Whenever c.systemwide_max (λ x. lt x zero ≡ false)
    pub systemwide : InOrder lt c.systemwide_min c.systemwide_max
    pub mode : Whenever c.decommission (λ d. known_mode d.mode ≡ true)
    pub cost : Whenever c.decommission (λ d. Whenever d.cost (λ x. lt x zero ≡ false))

  bad_mode_iff :
      (o : Option (Decommission F))
      → (bad_mode fl o ≡ false) ↔ Whenever o (λ d. known_mode d.mode ≡ true)
  unfolding bad_mode
  bad_mode_iff none = (λ h x e. cc, λ h. refl)
  bad_mode_iff (some d) = (
    λ h. (Whenever-some d (λ x. known_mode x.mode ≡ true)).1 (ground (arith, h)),
    λ h. ground (arith, (Whenever-some d (λ x. known_mode x.mode ≡ true)).0 h),
  )

  bad_cost_iff :
      (o : Option (Decommission F))
      → (bad_cost fl o ≡ false) ↔ Whenever o (λ d. Whenever d.cost (λ x. lt x zero ≡ false))
  unfolding bad_cost
  bad_cost_iff none = (λ h x e. cc, λ h. refl)
  bad_cost_iff (some d) =
      let free = λ (x : Decommission F). Whenever x.cost (λ y. lt y zero ≡ false) in
      (
        λ h. (Whenever-some d free).1 ((negative_iff d.cost).0 h),
        λ h. (negative_iff d.cost).1 ((Whenever-some d free).0 h),
      )

  sized_iff : (a b : Bool) → ((a && not b) ≡ false) ↔ (a ≡ true → b ≡ true)
  sized_iff a b = ground arith

  -- The validation finds no problem in a capacity exactly if it is such an envelope.
  pub validate_capacity-nil_iff :
      (place : Text) (c : Capacity F) → (validate_capacity fl place (some c) ≡ []) ↔ IsEnvelope c
  unfolding validate_capacity capacity_checks
  validate_capacity-nil_iff place c =
      let checked = report-nil_iff place (capacity_checks fl c) in
      (λ h. accepted (checked.0 h), λ e. checked.1 (all_pass e))
    where
      accepted : All (λ (bad, message). bad ≡ false) (capacity_checks fl c) → IsEnvelope c
      accepted
            (
              a0,
              (a1, (a2, (a3, (a4, (a5, (a6, (a7, (a8, (a9, (a10, (a11, (a12, (a13, _))))))))))))),
            ) =
          record {
            existing = a0;
            min = (negative_iff c.min).0 a1;
            max = (negative_iff c.max).0 a2;
            bounds = (exceeds_iff c.min c.max).0 a3;
            per_unit = (not_positive_iff c.per_unit).0 a4;
            sized = (sized_iff (given c.units_min || given c.units_max) (given c.per_unit)).0 a5;
            units_min = (neg_int_iff c.units_min).0 a6;
            units_max = (neg_int_iff c.units_max).0 a7;
            units = (int_exceeds_iff c.units_min c.units_max).0 a8;
            systemwide_min = (negative_iff c.systemwide_min).0 a9;
            systemwide_max = (negative_iff c.systemwide_max).0 a10;
            systemwide = (exceeds_iff c.systemwide_min c.systemwide_max).0 a11;
            mode = (bad_mode_iff c.decommission).0 a12;
            cost = (bad_cost_iff c.decommission).0 a13;
          }

      all_pass : IsEnvelope c → All (λ (bad, message). bad ≡ false) (capacity_checks fl c)
      all_pass e = (
        e.existing,
        (
          (negative_iff c.min).1 e.min,
          (
            (negative_iff c.max).1 e.max,
            (
              (exceeds_iff c.min c.max).1 e.bounds,
              (
                (not_positive_iff c.per_unit).1 e.per_unit,
                (
                  (sized_iff (given c.units_min || given c.units_max) (given c.per_unit)).1 e.sized,
                  (
                    (neg_int_iff c.units_min).1 e.units_min,
                    (
                      (neg_int_iff c.units_max).1 e.units_max,
                      (
                        (int_exceeds_iff c.units_min c.units_max).1 e.units,
                        (
                          (negative_iff c.systemwide_min).1 e.systemwide_min,
                          (
                            (negative_iff c.systemwide_max).1 e.systemwide_max,
                            (
                              (exceeds_iff c.systemwide_min c.systemwide_max).1 e.systemwide,
                              (
                                (bad_mode_iff c.decommission).1 e.mode,
                                ((bad_cost_iff c.decommission).1 e.cost, tt),
                              ),
                            ),
                          ),
                        ),
                      ),
                    ),
                  ),
                ),
              ),
            ),
          ),
        ),
      )
