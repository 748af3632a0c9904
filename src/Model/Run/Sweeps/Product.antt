-- ===== src/Model/Run/Sweeps/Product.antt =====
-- The assignments that `ExpandSweep` (internal/model/experiment.go) makes of a sweep.
use meme.Base.{
  ◌≡◌, refl, ◌↔◌, inl, inr, List, [], ◌∷◌, In, In-append, In-append_left, In-append_right, Map,
  insert, ap,
}
use mathlib.Core.Path.{subst}
use meme.Model.Run.{SweepAxis}
use meme.Model.Run.Sweeps.{extend, extend_all, combine, expand_sweep}

module _ {F : Type 0} where
  -- `m` is `base` with one value of each axis assigned, in the order of the axes.
  abbrev pub Assigns : List (SweepAxis F) → Map F → Map F → Type 0
  Assigns [] base m = m ≡ base
  Assigns (axis ∷ axes) base m =
      (v : F) × In v axis.values × Assigns axes (insert axis.parameter v base) m

  extend_sound :
      (axis : SweepAxis F) (base m : Map F) (vs : List F)
      → In m (extend axis.parameter base vs)
      → (v : F) × In v vs × (m ≡ insert axis.parameter v base)
  unfolding extend
  extend_sound axis base m [] i = absurd i
  extend_sound axis base m (v ∷ vs) (inl e) = (v, inl refl, e)
  extend_sound axis base m (v ∷ vs) (inr i) =
      let (w, j, e) = extend_sound axis base m vs i in (w, inr j, e)

  extend_complete :
      (axis : SweepAxis F) (base : Map F) (v : F) (vs : List F)
      → In v vs
      → In (insert axis.parameter v base) (extend axis.parameter base vs)
  unfolding extend
  extend_complete axis base v [] i = absurd i
  extend_complete axis base v (w ∷ vs) (inl e) = inl (ap (λ u. insert axis.parameter u base) e)
  extend_complete axis base v (w ∷ vs) (inr i) = inr (extend_complete axis base v vs i)

  -- `m` comes of one of the combinations by one value of the axis.
  abbrev Extends : SweepAxis F → List (Map F) → Map F → Type 0
  Extends axis combos m =
      (base : Map F) × In base combos
      × ((v : F) × In v axis.values × (m ≡ insert axis.parameter v base))

  extend_all_sound :
      (axis : SweepAxis F) (combos : List (Map F)) (m : Map F)
      → In m (extend_all axis combos)
      → Extends axis combos m
  unfolding extend_all
  extend_all_sound axis [] m i = absurd i
  extend_all_sound axis (base ∷ combos) m i =
      elim (In-append m (extend axis.parameter base axis.values) (extend_all axis combos) i) [
        | inl j ↦ (base, inl refl, extend_sound axis base m axis.values j)
        | inr j ↦ let (b, k, r) = extend_all_sound axis combos m j in (b, inr k, r)
      ]

  extend_all_complete :
      (axis : SweepAxis F) (combos : List (Map F)) (base : Map F) (v : F)
      → In base combos
      → In v axis.values
      → In (insert axis.parameter v base) (extend_all axis combos)
  unfolding extend_all
  extend_all_complete axis [] base v i j = absurd i
  extend_all_complete axis (b ∷ combos) base v (inl e) j =
      In-append_left _ (extend axis.parameter b axis.values) (extend_all axis combos)
        (rw e (extend_complete axis b v axis.values j))
  extend_all_complete axis (b ∷ combos) base v (inr i) j =
      In-append_right _ (extend axis.parameter b axis.values) (extend_all axis combos)
        (extend_all_complete axis combos base v i j)

  combine_sound :
      (axes : List (SweepAxis F)) (combos : List (Map F)) (m : Map F)
      → In m (combine axes combos)
      → (base : Map F) × In base combos × Assigns axes base m
  unfolding combine
  combine_sound [] combos m i = (m, i, refl)
  combine_sound (axis ∷ axes) combos m i =
      let (next, j, rest) = combine_sound axes (extend_all axis combos) m i in
      let (base, k, (v, l, e)) = extend_all_sound axis combos next j in
      (base, k, (v, l, rw e at rest))

  combine_complete :
      (axes : List (SweepAxis F)) (combos : List (Map F)) (base m : Map F)
      → In base combos
      → Assigns axes base m
      → In m (combine axes combos)
  unfolding combine
  combine_complete [] combos base m i e = rw e i
  combine_complete (axis ∷ axes) combos base m i (v, j, rest) =
      combine_complete axes (extend_all axis combos) (insert axis.parameter v base) m
        (extend_all_complete axis combos base v i j) rest

  -- A sweep of at least one axis expands into exactly the assignments that give each axis one of
  -- its values, a later axis overriding an earlier one of the same path.
  pub expand_sweep_lem :
      (axis : SweepAxis F) (axes : List (SweepAxis F)) (m : Map F)
      → In m (expand_sweep (axis ∷ axes)) ↔ Assigns (axis ∷ axes) [] m
  unfolding expand_sweep
  expand_sweep_lem axis axes m = (forth, combine_complete (axis ∷ axes) ([] ∷ []) [] m (inl refl))
    where
      forth : In m (combine (axis ∷ axes) ([] ∷ [])) → Assigns (axis ∷ axes) [] m
      forth i =
          let (base, j, rest) = combine_sound (axis ∷ axes) ([] ∷ []) m i in
          elim j [
            | inl e ↦ subst (λ b. Assigns (axis ∷ axes) b m) e rest
            | inr none_else ↦ absurd none_else
          ]
