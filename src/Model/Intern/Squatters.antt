-- ===== src/Model/Intern/Squatters.antt =====
-- The reserved names of internal/model/intern.go: when the pass rejects a registry.
use meme.Base.{
  ◌≡◌, refl, ◌⊎◌, inl, inr, true, false, none, List, [], ◌∷◌, arith, In, Text, codes, str_eq,
  str_eq_iff, str_lt, has_prefix, any, Map, lookup, keys, has_key, insert_sorted, sort_strings,
  sorted_keys, Bool-cases,
}
use meme.Model.Types.{Model}
use meme.Model.Intern.{Interning, intern_slots, squatter, intern_inline_series}
use meme.Model.Intern.Pass.{Reserved}
use meme.Model.Intern.Interned.{slots-Sound}

pub In-of_insert_sorted :
    (a k : Text) (ks : List Text) → In a (insert_sorted k ks) → (a ≡ k) ⊎ In a ks
unfolding insert_sorted
In-of_insert_sorted a k [] i = i
In-of_insert_sorted a k (j ∷ js) i = elim (Bool-cases (str_lt j k)) [
  | inl h ↦ elim (rw h at i) [
    | inl e ↦ inr (inl e)
    | inr r ↦ elim (In-of_insert_sorted a k js r) [ inl e ↦ inl e | inr q ↦ inr (inr q) ]
  ]
  | inr h ↦ rw h at i
]

pub In-of_sort_strings : (a : Text) (ks : List Text) → In a (sort_strings ks) → In a ks
unfolding sort_strings
In-of_sort_strings a [] i = i
In-of_sort_strings a (k ∷ ks) i = elim (In-of_insert_sorted a k (sort_strings ks) i) [
  | inl e ↦ inl e
  | inr r ↦ inr (In-of_sort_strings a ks r)
]

has_key-In : {V : Type 0} (k : Text) (m : Map V) → In k (keys m) → has_key k m ≡ true
unfolding has_key lookup
has_key-In k [] i = absurd i
has_key-In k ((j, v) ∷ m) (inl e) = ground (arith, str_eq_iff j k)
has_key-In k ((j, v) ∷ m) (inr i) = ground (arith, has_key-In k m i)

squatter-none :
    (referenced ids : List Text)
    → ((id : Text) → In id ids → Reserved id → any (str_eq id) referenced ≡ true)
    → squatter referenced ids ≡ none
unfolding squatter
squatter-none referenced [] h = refl
squatter-none referenced (id ∷ ids) h =
    ground (arith, h id (inl refl), squatter-none referenced ids (λ j i. h j (inr i)))

-- A model whose registry has no reserved name passes: what is reserved behind the walk was written by
-- it and is referenced.
pub intern_inline_series-accepts :
    {F : Type 0} (m : Model F)
    → ((id : Text) → has_key id m.timeseries ≡ true → has_prefix id (codes "_inline:") ≡ false)
    → (intern_inline_series m).1 ≡ none
unfolding intern_inline_series sorted_keys
intern_inline_series-accepts {F = F} m h =
    let s : Interning F = record { series = m.timeseries; referenced = [] } in
    let (_, (_, claims)) = (slots-Sound m).sound_at s in
    let claimed = claims (λ id k r. ground (arith, h id k)) in
    squatter-none (intern_slots m s).1.referenced (sort_strings (keys (intern_slots m s).1.series))
      (λ id i. claimed id (
        has_key-In id (intern_slots m s).1.series
          (In-of_sort_strings id (keys (intern_slots m s).1.series) i)))
