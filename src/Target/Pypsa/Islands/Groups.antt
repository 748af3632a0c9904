-- ===== src/Target/Pypsa/Islands/Groups.antt =====
-- The groups of `acIslands` in internal/target/pypsa/powerflow.go, and their order.
use meme.Base.{
  ◌≡◌, refl, ap, ◌⊎◌, inl, inr, Option, none, some, List, [], ◌∷◌, In, Text, str_lt, Map, lookup,
  keys, sort_strings, sorted_keys, get_or_else, Bool-cases,
}
use meme.Model.Validate.Each.{In-keys, In-sort_strings}
use meme.Target.Pypsa.Islands.{insert_island, sort_islands, groups_of, first}

pub insert_island-In :
    (g h : List Text) (hs : List (List Text)) → In g (insert_island h hs) → (g ≡ h) ⊎ In g hs
unfolding insert_island
insert_island-In g h [] i = i
insert_island-In g h (k ∷ ks) i = elim (Bool-cases (str_lt (first k) (first h))) [
  | inl s ↦ elim (rw s at i) [
    | inl e ↦ inr (inl e)
    | inr j ↦ elim (insert_island-In g h ks j) [ inl e ↦ inl e | inr l ↦ inr (inr l) ]
  ]
  | inr s ↦ rw s at i
]

pub In-insert_island :
    (g h : List Text) (hs : List (List Text)) → (g ≡ h) ⊎ In g hs → In g (insert_island h hs)
unfolding insert_island
In-insert_island g h [] i = i
In-insert_island g h (k ∷ ks) i = elim (Bool-cases (str_lt (first k) (first h))) [
  | inl s ↦ rw s (elim i [
    | inl e ↦ inr (In-insert_island g h ks (inl e))
    | inr (inl e) ↦ inl e
    | inr (inr j) ↦ inr (In-insert_island g h ks (inr j))
  ])
  | inr s ↦ rw s i
]

pub sort_islands-In : (g : List Text) (gs : List (List Text)) → In g (sort_islands gs) → In g gs
unfolding sort_islands
sort_islands-In g [] i = i
sort_islands-In g (h ∷ hs) i = elim (insert_island-In g h (sort_islands hs) i) [
  | inl e ↦ inl e
  | inr j ↦ inr (sort_islands-In g hs j)
]

pub In-sort_islands : (g : List Text) (gs : List (List Text)) → In g gs → In g (sort_islands gs)
unfolding sort_islands
In-sort_islands g [] i = i
In-sort_islands g (h ∷ hs) (inl e) = In-insert_island g h (sort_islands hs) (inl e)
In-sort_islands g (h ∷ hs) (inr j) =
    In-insert_island g h (sort_islands hs) (inr (In-sort_islands g hs j))

pub groups_of-In :
    (m : Map (List Text)) (rs : List Text) (g : List Text)
    → In g (groups_of m rs)
    → (c : Text) × (g ≡ sort_strings (get_or_else (lookup c m) []))
unfolding groups_of
groups_of-In m [] g i = absurd i
groups_of-In m (r ∷ rs) g (inl e) = (r, e)
groups_of-In m (r ∷ rs) g (inr i) = groups_of-In m rs g i

pub In-groups_of :
    (m : Map (List Text)) (rs : List Text) (c : Text)
    → In c rs
    → In (sort_strings (get_or_else (lookup c m) [])) (groups_of m rs)
unfolding groups_of
In-groups_of m [] c i = absurd i
In-groups_of m (r ∷ rs) c (inl e) = inl (ap (λ k. sort_strings (get_or_else (lookup k m) [])) e)
In-groups_of m (r ∷ rs) c (inr i) = inr (In-groups_of m rs c i)

-- A key that has something is a key.
pub key_of :
    (m : Map (List Text)) (c x : Text) → In x (get_or_else (lookup c m) []) → In c (sorted_keys m)
unfolding sorted_keys
key_of m c x i = found (lookup c m) refl i
  where
    found :
        (o : Option (List Text))
        → lookup c m ≡ o
        → In x (get_or_else o [])
        → In c (sort_strings (keys m))
    found none e j = absurd j
    found (some v) e j = In-sort_strings c (keys m) (In-keys c v m e)
