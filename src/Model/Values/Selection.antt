-- ===== src/Model/Values/Selection.antt =====
-- Selecting from an indexed parameter that `StructuralError` accepts.
use meme.Base.{
  ℕ, suc, ◌+◌, ◌-◌, ◌<◌, ◌≤◌, ◌≡◌, refl, ◌≢◌, true, Option, none, some, List, [], ◌∷◌, arith,
  length, get_elem?, Text, str_eq_iff, str_eq_sound, ap, ◌∙◌, some_injective, ==_iff, Bool-cases,
  inl, inr, zero,
}
use meme.Model.Types.{IndexedParam, Value}
use meme.Model.Values.{
  found, out_of_range, find_dim, tuple_matches, find_tuple, select, select_value, select_dim,
  select_tuple, data_at, structural_error, indexed_error, coord_is,
}

find_tuple_bounds :
    (di : ℕ) (key : Text) (tuples : List (List Text)) (i j : ℕ)
    → find_tuple di key tuples i ≡ some j
    → j < i + length tuples
unfolding find_tuple
find_tuple_bounds di key [] i j h = ground arith
find_tuple_bounds di key (tup ∷ tuples) i j h =
    ground (arith, find_tuple_bounds di key tuples (suc i) j)

get_elem?_of_lt :
    {A : Type 0} (xs : List A) (i : ℕ) → i < length xs → (x : A) × (get_elem? xs i ≡ some x)
get_elem?_of_lt [] i h = ground arith
get_elem?_of_lt (x ∷ xs) zero h = (x, refl)
get_elem?_of_lt (x ∷ xs) (suc i) h = get_elem?_of_lt xs i (omega arith)

-- Positions counted from `i` on, and from the next one on.
get_elem?-here :
    {A : Type 0} (x : A) (xs : List A) (i j : ℕ) → i ≡ j → get_elem? (x ∷ xs) (j - i) ≡ some x
get_elem?-here x xs i j e = rw (the_zero i j e) refl
  where
    the_zero : (i j : ℕ) → i ≡ j → j - i ≡ 0
    the_zero i j e = omega arith

get_elem?-later :
    {A : Type 0} (x : A) (xs : List A) (i j : ℕ)
    → suc i ≤ j
    → get_elem? (x ∷ xs) (j - i) ≡ get_elem? xs (j - suc i)
get_elem?-later x xs i j h = rw (one_more i j h) refl
  where
    one_more : (i j : ℕ) → suc i ≤ j → j - i ≡ suc (j - suc i)
    one_more i j h = omega arith

-- A position that is found from position `i` on has its element `i` places earlier.
find_dim_sound :
    (dim : Text) (dims : List Text) (i j : ℕ)
    → find_dim dim dims i ≡ some j
    → (i ≤ j) × (get_elem? dims (j - i) ≡ some dim)
unfolding find_dim
find_dim_sound dim [] i j h = ground arith
find_dim_sound dim (d ∷ dims) i j h = ground (
  arith,
  str_eq_iff d dim,
  find_dim_sound dim dims (suc i) j,
  get_elem?-here d dims i j,
  get_elem?-later d dims i j,
)

-- The tuple at a position has the coordinate.
abbrev TupleAt : ℕ → Text → List (List Text) → ℕ → Type 0
TupleAt di key tuples i =
    (tup : List Text) × (get_elem? tuples i ≡ some tup) × (get_elem? tup di ≡ some key)

coord_is_sound : (key : Text) (c : Option Text) → coord_is key c ≡ true → c ≡ some key
coord_is_sound key none h = cc
coord_is_sound key (some c) h = ap some (str_eq_sound c key h)

find_tuple_sound :
    (di : ℕ) (key : Text) (tuples : List (List Text)) (i j : ℕ)
    → find_tuple di key tuples i ≡ some j
    → (i ≤ j) × TupleAt di key tuples (j - i)
unfolding find_tuple tuple_matches
find_tuple_sound di key [] i j h = ground arith
find_tuple_sound di key (tup ∷ tuples) i j h = elim (Bool-cases (tuple_matches di key tup)) [
  | inl same ↦
      let here : i ≡ j = some_injective (rw same at h) in
      (
        omega arith,
        (tup, get_elem?-here tup tuples i j here, coord_is_sound key (get_elem? tup di) same),
      )
  | inr other ↦
      let (le, (found_tup, e, c)) = find_tuple_sound di key tuples (suc i) j (rw other at h) in
      (omega arith, (found_tup, get_elem?-later tup tuples i j le ∙ e, c))
]

-- The data of a parameter that is accepted has an entry to each tuple.
indexed_lengths :
    {F : Type 0} (ip : IndexedParam F)
    → indexed_error (some ip) ≡ none
    → length ip.values ≡ length ip.index
unfolding indexed_error
indexed_lengths ip h = ground (arith, ==_iff (length ip.values) (length ip.index))

-- Where a tuple is found there is data.
data_found :
    {F : Type 0} (ip : IndexedParam F) (di i : ℕ) (key : Text)
    → indexed_error (some ip) ≡ none
    → find_tuple di key ip.index 0 ≡ some i
    → (x : F) × (get_elem? ip.values i ≡ some x)
data_found ip di i key h e =
    get_elem?_of_lt ip.values i
      (omega (arith, indexed_lengths ip h, find_tuple_bounds di key ip.index 0 i e))

select_tuple-in_range :
    {F : Type 0} (ip : IndexedParam F) (di : ℕ) (key : Text) (o : Option ℕ)
    → indexed_error (some ip) ≡ none
    → find_tuple di key ip.index 0 ≡ o
    → select_tuple ip.values o ≢ out_of_range
unfolding select_tuple
select_tuple-in_range ip di key none h e p = cc
select_tuple-in_range ip di key (some i) h e p =
    let (x, there) = data_found ip di i key h e in cc (rw there at p)

select_dim-in_range :
    {F : Type 0} (ip : IndexedParam F) (key : Text) (o : Option ℕ)
    → indexed_error (some ip) ≡ none
    → select_dim ip key o ≢ out_of_range
unfolding select_dim
select_dim-in_range ip key none h p = cc
select_dim-in_range ip key (some di) h p = select_tuple-in_range ip di key _ h refl p

select_value-in_range :
    {F : Type 0} (scalar : Option F) (indexed : Option (IndexedParam F)) (dim key : Text)
    → indexed_error indexed ≡ none
    → select_value scalar indexed dim key ≢ out_of_range
unfolding select_value
select_value-in_range none none dim key h p = cc
select_value-in_range (some x) none dim key h p = cc
select_value-in_range scalar (some ip) dim key h p =
    select_dim-in_range ip key (find_dim dim ip.dims 0) h p

-- Selecting from a parameter that the structural check accepts never reads out of range.
pub select-in_range :
    {F : Type 0} (v : Option (Value F)) (dim key : Text)
    → structural_error v ≡ none
    → select v dim key ≢ out_of_range
unfolding select structural_error
select-in_range none dim key h e = cc
select-in_range (some v) dim key h e = select_value-in_range v.scalar v.indexed dim key h e

-- The entry that a selection reads: one whose tuple has the key in the dimension.
abbrev pub Entry : {F : Type 0} → IndexedParam F → Text → Text → F → Type 0
Entry ip dim key x =
    (di : ℕ) × (i : ℕ) × (get_elem? ip.dims di ≡ some dim)
    × TupleAt di key ip.index i
    × (get_elem? ip.values i ≡ some x)

from_zero : (i : ℕ) → i - 0 ≡ i
from_zero i = omega arith

data_at-found : {F : Type 0} (o : Option F) {x : F} → data_at o ≡ found x → o ≡ some x
data_at-found none h = cc
data_at-found (some y) h = cc

select_tuple-Entry :
    {F : Type 0} (ip : IndexedParam F) (dim key : Text) (di : ℕ) (o : Option ℕ) (x : F)
    → get_elem? ip.dims di ≡ some dim
    → find_tuple di key ip.index 0 ≡ o
    → select_tuple ip.values o ≡ found x
    → Entry ip dim key x
unfolding select_tuple
select_tuple-Entry ip dim key di none x d e h = cc
select_tuple-Entry ip dim key di (some i) x d e h = (
  di,
  i,
  d,
  rw (from_zero i) at (find_tuple_sound di key ip.index 0 i e).1,
  data_at-found (get_elem? ip.values i) h,
)

select_dim-Entry :
    {F : Type 0} (ip : IndexedParam F) (dim key : Text) (o : Option ℕ) (x : F)
    → find_dim dim ip.dims 0 ≡ o
    → select_dim ip key o ≡ found x
    → Entry ip dim key x
unfolding select_dim
select_dim-Entry ip dim key none x e h = cc
select_dim-Entry ip dim key (some di) x e h =
    select_tuple-Entry ip dim key di _ x
      (rw (from_zero di) at (find_dim_sound dim ip.dims 0 di e).1) refl h

-- A number that is selected from an indexed parameter is the data of an entry that has the key as
-- its coordinate in the dimension.
pub select-Entry :
    {F : Type 0} (v : Value F) (ip : IndexedParam F) (dim key : Text) (x : F)
    → v.indexed ≡ some ip
    → select (some v) dim key ≡ found x
    → Entry ip dim key x
unfolding select select_value
select-Entry v ip dim key x e h = select_dim-Entry ip dim key _ x refl (rw e at h)
