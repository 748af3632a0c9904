-- ===== src/Base/Maps.antt =====
-- Go maps with string keys, as association lists: a lookup finds the first entry, an assignment
-- replaces the entry in place or adds one at the end. Sorted keys are those of emit.Keys.
use mathlib.Core.Path.{◌≡◌, refl, sym, ap}
use mathlib.Core.Logic.{◌≢◌, inl, inr}
use mathlib.Core.Bool.{Bool, true, false, ◌||◌}
use mathlib.Core.Option.{Option, none, some}
use mathlib.Core.List.{List, [], ◌∷◌}
use native.Mathlib.Omega.{arith}
use meme.Base.Tests.{if◌then◌else◌, some_injective, Bool-cases}
use meme.Base.Strings.{Text, str_eq, str_eq_iff, str_lt}

abbrev pub Map {ℓ} : Type ℓ → Type ℓ
Map V = List (Text × V)

module _ {ℓ} {V : Type ℓ} where
  -- `v, ok := m[k]`
  unfoldable pub lookup : Text → Map V → Option V
  lookup k [] = none
  lookup k ((j, v) ∷ m) = if str_eq j k then some v else lookup k m

  -- `m[k] = v`
  unfoldable pub insert : Text → V → Map V → Map V
  insert k v [] = (k, v) ∷ []
  insert k v ((j, w) ∷ m) = if str_eq j k then (j, v) ∷ m else (j, w) ∷ insert k v m

  unfoldable pub has_key : Text → Map V → Bool
  unfolding lookup
  has_key k m = elim (lookup k m) [ none ↦ false | some v ↦ true ]

  abbrev pub keys : Map V → List Text
  keys [] = []
  keys ((k, v) ∷ m) = k ∷ keys m

  pub lookup-insert :
      (k j : Text) (v : V) (m : Map V)
      → lookup j (insert k v m) ≡ (if str_eq k j then some v else lookup j m)
  unfolding lookup insert
  lookup-insert k j v [] = refl
  lookup-insert k j v ((i, w) ∷ m) =
      ground (arith, str_eq_iff k j, str_eq_iff i k, str_eq_iff i j, lookup-insert k j v m)

  pub lookup-insert_ne :
      (k j : Text) (v : V) (m : Map V) → k ≢ j → lookup j (insert k v m) ≡ lookup j m
  lookup-insert_ne k j v m ne = ground (arith, lookup-insert k j v m, str_eq_iff k j)

  -- An assignment of the value that is there
  pub insert_same : (k : Text) (v : V) (m : Map V) → lookup k m ≡ some v → insert k v m ≡ m
  unfolding lookup insert
  insert_same k v [] h = cc
  insert_same k v ((j, w) ∷ m) h = elim (Bool-cases (str_eq j k)) [
    | inl e ↦ rw e (ap (λ z. (j, z) ∷ m) (sym (some_injective (rw e at h))))
    | inr e ↦ rw e (ap (λ n. (j, w) ∷ n) (insert_same k v m (rw e at h)))
  ]

  -- `delete` of every entry whose value fails the test
  unfoldable pub keep : (V → Bool) → Map V → Map V
  keep p [] = []
  keep p ((k, v) ∷ m) = let rest = keep p m in if p v then (k, v) ∷ rest else rest

  -- A map has one entry to a key.
  abbrev pub IsMap : Map V → Type 0
  IsMap [] = Unit
  IsMap ((k, v) ∷ m) = (has_key k m ≡ false) × IsMap m

  pub has_key-insert :
      (k j : Text) (v : V) (m : Map V) → has_key j (insert k v m) ≡ (str_eq k j || has_key j m)
  unfolding has_key
  has_key-insert k j v m = ground (arith, lookup-insert k j v m)

  pub insert-IsMap : (k : Text) (v : V) (m : Map V) → IsMap m → IsMap (insert k v m)
  unfolding insert
  insert-IsMap k v [] h = (unfold has_key lookup in refl, tt)
  insert-IsMap k v ((j, w) ∷ m) h =
      ground (arith, insert-IsMap k v m, has_key-insert k j v m, str_eq_iff j k, str_eq_iff k j)

  pub lookup_of_not_key : (k : Text) (m : Map V) → has_key k m ≡ false → lookup k m ≡ none
  unfolding has_key
  lookup_of_not_key k m h = ground arith

  has_key-keep :
      (p : V → Bool) (k : Text) (m : Map V) → has_key k m ≡ false → has_key k (keep p m) ≡ false
  unfolding has_key keep lookup
  has_key-keep p k [] h = refl
  has_key-keep p k ((j, w) ∷ m) h = ground (arith, has_key-keep p k m)

  pub keep-IsMap : (p : V → Bool) (m : Map V) → IsMap m → IsMap (keep p m)
  unfolding keep
  keep-IsMap p [] h = tt
  keep-IsMap p ((k, v) ∷ m) (fresh, h) = ground (arith, keep-IsMap p m h, has_key-keep p k m fresh)

  -- What a lookup finds when the failing entries are gone.
  pub lookup-keep :
      (p : V → Bool) (k : Text) (m : Map V)
      → IsMap m
      → lookup k (keep p m)
        ≡ elim (lookup k m) [ none ↦ none | some v ↦ if p v then some v else none ]
  unfolding lookup keep
  lookup-keep p k [] h = refl
  lookup-keep p k ((j, v) ∷ m) (fresh, h) = ground (
    arith,
    lookup-keep p k m h,
    str_eq_iff j k,
    lookup_of_not_key j m fresh,
    lookup_of_not_key k m,
  )

-- sort.Strings, by insertion
unfoldable pub insert_sorted : Text → List Text → List Text
insert_sorted k [] = k ∷ []
insert_sorted k (j ∷ js) = if str_lt j k then j ∷ insert_sorted k js else k ∷ j ∷ js

unfoldable pub sort_strings : List Text → List Text
unfolding insert_sorted
sort_strings [] = []
sort_strings (k ∷ ks) = insert_sorted k (sort_strings ks)

-- emit.Keys
unfoldable pub sorted_keys {ℓ} : {V : Type ℓ} → Map V → List Text
unfolding sort_strings
sorted_keys m = sort_strings (keys m)
