-- ===== src/Target/Pypsa/Planning/Names.antt =====
-- The names of the component rows of internal/target/pypsa/planning.go.
use meme.Base.{
  ◌≡◌, refl, sym, ap, ap₂, ◌∙◌, inl, inr, Bool, true, false, ◌&&◌, Option, none, some, List, [],
  ◌∷◌, ◌++◌, map, arith, Float64, Text, codes, str_eq, str_eq_iff, lookup, insert, lookup-insert,
  get_or_else, Bool-cases, if◌then◌else◌,
}
use meme.Model.Types.{Capacity, Technology, Model}
use meme.Model.Periods.{InvestmentPeriod}
use meme.Emit.Capex.{Powers}
use meme.Target.Pypsa.Planning.{
  Row, cell, delete, decommission_mode, is_continuous, is_expandable, is_new_build, part_name,
  retirement_names, names_of_part, names_of_parts, emitted_names, period_row, rows_of_part,
  rows_of_parts, period_rows, set_module, with_module, with_lower, with_lifetime, existing_row,
  fresh_row, retired, rows_of_capacity, retirement_rows,
}

abbrev name_of : Row → Text
name_of row = cell (codes "name") row

cell-insert : (k v : Text) (row : Row) → cell k (insert k v row) ≡ v
unfolding cell
cell-insert k v row = rw (lookup-insert k k v row, (str_eq_iff k k).1 refl) refl

cell-insert_other :
    (k j v : Text) (row : Row) → str_eq k j ≡ false → cell j (insert k v row) ≡ cell j row
unfolding cell
cell-insert_other k j v row h = rw (lookup-insert k j v row, h) refl

lookup-delete :
    (k j : Text) (row : Row) → str_eq k j ≡ false → lookup j (delete k row) ≡ lookup j row
unfolding delete lookup
lookup-delete k j [] h = refl
lookup-delete k j ((i, v) ∷ row) h =
    ground (arith, str_eq_iff i k, str_eq_iff i j, str_eq_iff k j, lookup-delete k j row h)

cell-delete : (k j : Text) (row : Row) → str_eq k j ≡ false → cell j (delete k row) ≡ cell j row
unfolding cell
cell-delete k j row h = ap (λ o. get_or_else o []) (lookup-delete k j row h)

-- A column that is not the name
other :
    (k v : Text) (row : Row)
    → str_eq k (codes "name") ≡ false
    → name_of (insert k v row) ≡ name_of row
other k v row h = cell-insert_other k (codes "name") v row h

map-append : {A B : Type 0} (f : A → B) (xs ys : List A) → map f (xs ++ ys) ≡ map f xs ++ map f ys
map-append f [] ys = refl
map-append f (x ∷ xs) ys = ap (λ zs. f x ∷ zs) (map-append f xs ys)

-- One part, or two
names-parts :
    (b : Bool) (x y : Row) (m n : Text)
    → name_of x ≡ m
    → name_of y ≡ n
    → map name_of (if b then x ∷ y ∷ [] else x ∷ []) ≡ (if b then m ∷ n ∷ [] else m ∷ [])
names-parts true x y m n p q = ap₂ {A = Text} {B = Text} (λ a b. a ∷ b ∷ []) p q
names-parts false x y m n p q = ap (λ a. a ∷ []) p

module _ {F : Type 0} where
  -- Without periods the names stay.
  names_of_parts-nil : (t : Technology F) (names : List Text) → names_of_parts t [] names ≡ names
  unfolding names_of_parts names_of_part
  names_of_parts-nil t [] = refl
  names_of_parts-nil t (n ∷ names) = ap (λ z. n ∷ z) (names_of_parts-nil t names)

module _ (fl : Float64) (ps : Powers fl) where
  open fl use {F}

  name-with_lifetime :
      (life : Option F) (row : Row) → name_of (with_lifetime fl ps life row) ≡ name_of row
  unfolding str_eq
  name-with_lifetime none row = refl
  name-with_lifetime (some x) row = other _ _ row refl

  name-period_row :
      (row : Row) (p : InvestmentPeriod F)
      → name_of (period_row fl ps row p) ≡ part_name (name_of row) p
  unfolding str_eq
  name-period_row row p =
      other (codes "p_nom") _ _ refl
      ∙ other (codes "build_year") _ _ refl
      ∙ cell-insert (codes "name") (part_name (name_of row) p) row

  names-period_rows :
      (row : Row) (periods : List (InvestmentPeriod F))
      → map name_of (map (period_row fl ps row) periods) ≡ map (part_name (name_of row)) periods
  names-period_rows row [] = refl
  names-period_rows row (p ∷ periods) =
      ap₂ {A = Text} {B = List Text} (λ n ns. n ∷ ns) (name-period_row row p)
        (names-period_rows row periods)

  names-part :
      (t : Technology F) (p : InvestmentPeriod F) (periods : List (InvestmentPeriod F)) (row : Row)
      → map name_of (
          if is_new_build (name_of row) t
          then map (period_row fl ps row) (p ∷ periods)
          else row ∷ [])
        ≡ names_of_part t (p ∷ periods) (name_of row)
  unfolding names_of_part
  names-part t p periods row = elim (Bool-cases (is_new_build (name_of row) t)) [
    | inl h ↦ rw h (names-period_rows row (p ∷ periods))
    | inr h ↦ rw h refl
  ]

  names-rows_of_part :
      (t : Technology F) (p : InvestmentPeriod F) (periods : List (InvestmentPeriod F)) (row : Row)
      → map name_of (rows_of_part fl ps t (p ∷ periods) row)
        ≡ names_of_part t (p ∷ periods) (name_of row)
  unfolding rows_of_part
  names-rows_of_part t p periods row =
      names-part t p periods (with_lifetime fl ps t.lifetime row)
      ∙ ap (names_of_part t (p ∷ periods)) (name-with_lifetime t.lifetime row)

  names-rows_of_parts :
      (t : Technology F) (p : InvestmentPeriod F) (periods : List (InvestmentPeriod F))
      (rows : List Row)
      → map name_of (rows_of_parts fl ps t (p ∷ periods) rows)
        ≡ names_of_parts t (p ∷ periods) (map name_of rows)
  unfolding rows_of_parts names_of_parts
  names-rows_of_parts t p periods [] = refl
  names-rows_of_parts t p periods (row ∷ rows) =
      map-append name_of (rows_of_part fl ps t (p ∷ periods) row) _
      ∙ ap₂ {A = List Text} {B = List Text} (λ xs ys. xs ++ ys) (names-rows_of_part t p periods row)
          (names-rows_of_parts t p periods rows)

  names-period :
      (t : Technology F) (periods : List (InvestmentPeriod F)) (rows : List Row)
      → map name_of (period_rows fl ps rows t periods) ≡ names_of_parts t periods (map name_of rows)
  unfolding period_rows
  names-period t [] rows = sym (names_of_parts-nil t (map name_of rows))
  names-period t (p ∷ periods) rows = names-rows_of_parts t p periods rows

  name-with_module :
      (u : Option F) (row : Row)
      → name_of (with_module fl ps u (codes "p_nom_mod") row) ≡ name_of row
  unfolding str_eq
  name-with_module none row = refl
  name-with_module (some x) row = elim (Bool-cases (fl.lt fl.zero x)) [
    | inl h ↦ rw h (other _ _ row refl)
    | inr h ↦ rw h refl
  ]

  name-set_module :
      (row : Row) (c : Capacity F)
      → name_of (set_module fl ps row (some c) (codes "p_nom_mod")) ≡ name_of row
  unfolding set_module
  name-set_module row c = elim (Bool-cases c.expandable) [
    | inl h ↦ rw h (name-with_module c.per_unit row)
    | inr h ↦ rw h refl
  ]

  name-with_lower :
      (c : Capacity F) (o : Option F) (row : Row) → name_of (with_lower fl ps c o row) ≡ name_of row
  unfolding str_eq
  name-with_lower c none row = refl
  name-with_lower c (some min) row = elim (Bool-cases (fl.lt c.existing min)) [
    | inl h ↦ rw h (other _ _ row refl)
    | inr h ↦ rw h refl
  ]

  name-existing_row :
      (m : Model F) (t : Technology F) (c : Capacity F) (row : Row)
      → name_of (existing_row fl ps m t c row) ≡ name_of row
  unfolding str_eq
  name-existing_row m t c row =
      other (codes "capital_cost") _ _ refl
      ∙ cell-delete (codes "p_nom_mod") (codes "name") _ refl
      ∙ cell-delete (codes "p_nom_min") (codes "name") _ refl
      ∙ other (codes "p_nom_max") _ _ refl
      ∙ other (codes "p_nom_extendable") _ row refl

  name-fresh_row :
      (m : Model F) (t : Technology F) (c : Capacity F) (row : Row)
      → name_of (fresh_row fl ps m t c row) ≡ name_of row ++ codes "_new"
  unfolding str_eq
  name-fresh_row m t c row =
      name-set_module _ c
      ∙ other (codes "capital_cost") _ _ refl
      ∙ name-with_lower c _ _
      ∙ cell-delete (codes "p_nom_min") (codes "name") _ refl
      ∙ other (codes "p_nom_max") _ _ refl
      ∙ other (codes "p_nom_extendable") _ _ refl
      ∙ other (codes "p_nom") _ _ refl
      ∙ cell-insert (codes "name") (name_of row ++ codes "_new") row

  names-retired :
      (m : Model F) (t : Technology F) (row : Row) (o : Option (Capacity F))
      → map name_of (rows_of_capacity fl ps m t o row) ≡ (
          if is_continuous o && is_expandable o
          then name_of row ∷ (name_of row ++ codes "_new") ∷ []
          else name_of row ∷ [])
  unfolding rows_of_capacity retired decommission_mode str_eq
  names-retired m t row none = refl
  names-retired m t row (some c) = elim (Bool-cases (is_continuous (some c))) [
    | inl h ↦ rw h (
        names-parts c.expandable (existing_row fl ps m t c row) _ _ _ (name-existing_row m t c row)
          (name-fresh_row m t c (existing_row fl ps m t c row)
            ∙ ap (λ n. n ++ codes "_new") (name-existing_row m t c row)))
    | inr h ↦ rw h refl
  ]

  -- The component rows of a technology carry the names that the series files have a column for.
  pub period_rows-emitted_names :
      (m : Model F) (t : Technology F) (periods : List (InvestmentPeriod F)) (row : Row)
      → map (cell (codes "name")) (period_rows fl ps (retirement_rows fl ps m t row) t periods)
        ≡ emitted_names (cell (codes "name") row) t periods
  unfolding emitted_names retirement_names retirement_rows
  period_rows-emitted_names m t periods row =
      names-period t periods (rows_of_capacity fl ps m t t.capacity row)
      ∙ ap (names_of_parts t periods) (names-retired m t row t.capacity)
