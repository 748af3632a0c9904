-- ===== src/Target/Pypsa/Planning/Existing.antt =====
-- The existing part of a retirable technology in internal/target/pypsa/planning.go.
use meme.Base.{
  ◌≡◌, refl, inl, inr, true, false, List, [], ◌∷◌, In, Text, codes, has_suffix, Bool-cases,
}
use meme.Model.Types.{Technology}
use meme.Model.Periods.{InvestmentPeriod}
use meme.Target.Pypsa.Planning.{
  is_continuous, is_expandable, is_new_build, retirement_names, names_of_part, names_of_parts,
  emitted_names,
}

module _ {F : Type 0} where
  existing_part :
      (t : Technology F) (periods : List (InvestmentPeriod F)) (base : Text) (names : List Text)
      → is_new_build base t ≡ false
      → In base (names_of_parts t periods (base ∷ names))
  unfolding names_of_parts names_of_part
  existing_part t [] base names h = inl refl
  existing_part t (p ∷ periods) base names h = rw h (inl refl)

  old_part :
      (t : Technology F) (base : Text)
      → is_continuous t.capacity ≡ true
      → has_suffix base (codes "_new") ≡ false
      → is_new_build base t ≡ false
  unfolding is_new_build
  old_part t base h n = elim (Bool-cases (is_expandable t.capacity)) [
    | inl e ↦ rw (e, h, n) refl
    | inr e ↦ rw e refl
  ]

  -- A technology whose existing capacity may retire keeps a component of its own name for it, over any
  -- investment periods, if the name does not end in _new.
  pub emitted_names-existing :
      (t : Technology F) (periods : List (InvestmentPeriod F)) (base : Text)
      → is_continuous t.capacity ≡ true
      → has_suffix base (codes "_new") ≡ false
      → In base (emitted_names base t periods)
  unfolding emitted_names retirement_names
  emitted_names-existing t periods base h n =
      let old : is_new_build base t ≡ false = old_part t base h n in
      elim (Bool-cases (is_expandable t.capacity)) [
        | inl e ↦ rw (h, e) (existing_part t periods base _ old)
        | inr e ↦ rw (h, e) (existing_part t periods base _ old)
      ]
