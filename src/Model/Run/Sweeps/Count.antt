-- ===== src/Model/Run/Sweeps/Count.antt =====
-- How many runs a sweep has.
use meme.Base.{
  ℕ, suc, ◌*◌, ◌/◌, ◌≤◌, ◌<◌, ◌≡◌, refl, ◌∙◌, ap, ◌↔◌, true, false, ◌&&◌, List, [], ◌∷◌, arith,
  length, length-append, All, all, Map, ltb, leb, Bool-cases, inl, inr, &&-true, leb→le, ltb→lt,
  not,
}
use meme.Model.Run.{SweepAxis}
use meme.Model.Run.Sweeps.{
  max_int, max_sweep_runs, extend, extend_all, combine, expand_sweep, count_runs, axis_valid,
  sweep_valid,
}

div_lt : (m n r : ℕ) → 0 < n → m / n < r → m < r * n
div_lt m n r h k = grind arith

le_div : (m n r : ℕ) → 0 < n → r ≤ m / n → r * n ≤ m
le_div m n r h k = grind arith

le_mul_pos : (a b : ℕ) → 0 < b → a ≤ a * b
le_mul_pos a b h = grind arith

module _ {F : Type 0} where
  -- The product of the axes' sizes.
  abbrev pub product : List (SweepAxis F) → ℕ
  product [] = 1
  product (axis ∷ axes) = length axis.values * product axes

  abbrev pub HasValues : SweepAxis F → Type 0
  HasValues axis = 0 < length axis.values

  length-extend :
      (axis : SweepAxis F) (base : Map F) (vs : List F)
      → length (extend axis.parameter base vs) ≡ length vs
  unfolding extend
  length-extend axis base [] = refl
  length-extend axis base (v ∷ vs) = ap suc (length-extend axis base vs)

  length-extend_all :
      (axis : SweepAxis F) (combos : List (Map F))
      → length (extend_all axis combos) ≡ length combos * length axis.values
  unfolding extend_all
  length-extend_all axis [] = omega arith
  length-extend_all axis (base ∷ combos) = omega (
    arith,
    length-append (extend axis.parameter base axis.values) (extend_all axis combos),
    length-extend axis base axis.values,
    length-extend_all axis combos,
  )

  length-combine :
      (axes : List (SweepAxis F)) (combos : List (Map F))
      → length (combine axes combos) ≡ length combos * product axes
  unfolding combine
  length-combine [] combos = omega arith
  length-combine (axis ∷ axes) combos =
      length-combine axes (extend_all axis combos)
      ∙ ap (λ n. n * product axes) (length-extend_all axis combos)
      ∙ grind arith

  product_pos : (axes : List (SweepAxis F)) → All HasValues axes → 0 < product axes
  product_pos [] h = omega arith
  product_pos (axis ∷ axes) (h, hs) = grind (arith, product_pos axes hs)

  count_runs_stuck : (axes : List (SweepAxis F)) (runs : ℕ) → (count_runs axes runs true).1 ≡ true
  unfolding count_runs
  count_runs_stuck [] runs = refl
  count_runs_stuck (axis ∷ axes) runs =
      ground (arith, count_runs_stuck axes runs, count_runs_stuck axes (runs * length axis.values))

  -- The count never wraps: it is exact, or the flag is up and the product is beyond math.MaxInt.
  count_runs_exact :
      (axes : List (SweepAxis F)) (runs : ℕ)
      → All HasValues axes
      → runs ≤ max_int
      → ((count_runs axes runs false).1 ≡ false
          → (count_runs axes runs false).0 ≡ runs * product axes)
        × ((count_runs axes runs false).1 ≡ false ↔ (runs * product axes ≤ max_int))
  unfolding count_runs
  count_runs_exact [] runs h fits = (λ e. omega arith, (λ e. omega arith, λ e. refl))
  count_runs_exact (axis ∷ axes) runs (h, hs) fits =
      let nonempty : leb (length axis.values) 0 ≡ false = ground arith in
      let re : runs * (length axis.values * product axes)
          ≡ runs * length axis.values * product axes =
        omega arith in
      elim (Bool-cases (ltb (max_int / length axis.values) runs)) [
        | inl over ↦
            let big : max_int < runs * length axis.values =
              div_lt max_int (length axis.values) runs h
                (ltb→lt (max_int / length axis.values) runs over) in
            let grows =
              le_mul_pos (runs * length axis.values) (product axes) (product_pos axes hs) in
            rw (nonempty, over, re, count_runs_stuck axes runs)
              (λ e. cc, (λ e. cc, λ e. absurd (omega arith)))
        | inr fine ↦
            rw (nonempty, fine, re)
              (count_runs_exact axes (runs * length axis.values) hs
                (le_div max_int (length axis.values) runs h (ground arith)))
      ]

  -- Over axes that all have values the run count of the validation is the number of assignments if
  -- that is at most math.MaxInt, and the overflow is reported exactly when it is more.
  pub count_runs_lem :
      (axes : List (SweepAxis F))
      → All HasValues axes
      → ((count_runs axes 1 false).1 ≡ false → (count_runs axes 1 false).0 ≡ product axes)
        × ((count_runs axes 1 false).1 ≡ false ↔ (product axes ≤ max_int))
  count_runs_lem axes h =
      let one : 1 * product axes ≡ product axes = omega arith in
      rw one at (count_runs_exact axes 1 h (omega arith))

  axis_valid-HasValues :
      (axes : List (SweepAxis F)) → all axis_valid axes ≡ true → All HasValues axes
  unfolding axis_valid
  axis_valid-HasValues [] h = tt
  axis_valid-HasValues (axis ∷ axes) h = (
    leb→le 1 (length axis.values) (&&-true (&&-true h).0).1,
    axis_valid-HasValues axes (&&-true h).1,
  )

  length-expand_sweep :
      (axis : SweepAxis F) (axes : List (SweepAxis F))
      → length (expand_sweep (axis ∷ axes)) ≡ product (axis ∷ axes)
  unfolding expand_sweep
  length-expand_sweep axis axes = omega (arith, length-combine (axis ∷ axes) ([] ∷ []))

  -- A sweep of at least one axis that passes validation expands into at least one run and at most
  -- the cap of 1000.
  pub sweep_valid_bounds :
      (axis : SweepAxis F) (axes : List (SweepAxis F))
      → sweep_valid (axis ∷ axes) ≡ true
      → (1 ≤ length (expand_sweep (axis ∷ axes)))
        × (length (expand_sweep (axis ∷ axes)) ≤ max_sweep_runs)
  unfolding sweep_valid
  sweep_valid_bounds axis axes h =
      let hv = axis_valid-HasValues (axis ∷ axes) (&&-true h).0 in
      let (runs, overflowed) = count_runs (axis ∷ axes) 1 false in
      let counted : (not overflowed && leb runs max_sweep_runs) ≡ true = (&&-true h).1 in
      let exact : runs ≡ product (axis ∷ axes) =
        (count_runs_lem (axis ∷ axes) hv).0 (ground arith) in
      let capped : runs ≤ max_sweep_runs = leb→le runs max_sweep_runs (&&-true counted).1 in
      (
        omega (arith, length-expand_sweep axis axes, product_pos (axis ∷ axes) hv),
        omega (arith, length-expand_sweep axis axes, exact, capped),
      )
