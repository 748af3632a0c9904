-- ===== src/Target/Registry/Defaults.antt =====
-- The default targets, which the request `all` stands for.
use meme.Base.{
  ◌≡◌, refl, sym, ap, ◌∙◌, ◌↔◌, ◌⊎◌, inl, inr, Bool, true, false, Option, none, some,
  some_injective, List, [], ◌∷◌, arith, Text, str_eq, str_eq_iff, str_eq_sound, Map, lookup,
  has_key, lookup_of_not_key, IsMap, In, insert_sorted, sort_strings,
}
use meme.Target.Registry.{Target, Registry, default_keys, defaults}

In-insert_sorted : (n k : Text) (ks : List Text) → In n (insert_sorted k ks) ↔ ((n ≡ k) ⊎ In n ks)
unfolding insert_sorted
In-insert_sorted n k [] = (λ i. i, λ i. i)
In-insert_sorted n k (j ∷ js) = ground (arith, In-insert_sorted n k js)

In-sort_strings : (n : Text) (ks : List Text) → In n (sort_strings ks) ↔ In n ks
unfolding sort_strings
In-sort_strings n [] = (λ i. i, λ i. i)
In-sort_strings n (k ∷ ks) =
    ground (arith, In-insert_sorted n k (sort_strings ks), In-sort_strings n ks)

-- A target of the table that is no version variant.
abbrev pub IsDefault : Map Target → Text → Type 0
IsDefault m n = (t : Target) × (lookup n m ≡ some t) × (t.variant ≡ false)

lookup-here :
    (n k : Text) (t : Target) (m : Map Target) → str_eq k n ≡ true → lookup n ((k, t) ∷ m) ≡ some t
unfolding lookup
lookup-here n k t m e = rw e refl

lookup-later :
    (n k : Text) (t : Target) (m : Map Target)
    → str_eq k n ≡ false
    → lookup n ((k, t) ∷ m) ≡ lookup n m
unfolding lookup
lookup-later n k t m e = rw e refl

none-some : (t : Target) → ◌≡◌ {A = Option Target} none (some t) → ⊥
none-some t h = cc

not_later : (n k : Text) (m : Map Target) → has_key k m ≡ false → k ≡ n → IsDefault m n → ⊥
not_later n k m fresh same (t, e, v) =
    let found_none : none ≡ some t =
      sym (lookup_of_not_key k m fresh) ∙ ap (λ j. lookup j m) same ∙ e in
    elim (none-some t found_none) [ ]

differ : (n k : Text) → str_eq k n ≡ false → n ≡ k → ⊥
differ n k e same = ground (arith, (str_eq_iff k n).1 (sym same))

IsDefault-cons :
    (n k : Text) (t : Target) (m : Map Target)
    → has_key k m ≡ false
    → IsDefault ((k, t) ∷ m) n ↔ (((n ≡ k) × (t.variant ≡ false)) ⊎ IsDefault m n)
IsDefault-cons n k t m fresh = by_name (str_eq k n) refl
  where
    by_name :
        (b : Bool)
        → str_eq k n ≡ b
        → IsDefault ((k, t) ∷ m) n ↔ (((n ≡ k) × (t.variant ≡ false)) ⊎ IsDefault m n)
    by_name true e =
        let same = str_eq_sound k n e in
        let here = lookup-here n k t m e in
        (
          λ (u, l, v).
              let target : t ≡ u = some_injective (sym here ∙ l) in
              inl (sym same, ap (λ x. x.variant) target ∙ v),
          λ x. elim x [
            | inl (_, v) ↦ (t, here, v)
            | inr later ↦ elim (not_later n k m fresh same later) [ ]
          ],
        )
    by_name false e =
        let later = lookup-later n k t m e in
        (
          λ (u, l, v). inr (u, sym later ∙ l, v),
          λ x. elim x [
            | inl (same, v) ↦ elim (differ n k e same) [ ]
            | inr (u, l, v) ↦ (u, later ∙ l, v)
          ],
        )

In-default_keys : (n : Text) (m : Map Target) → IsMap m → In n (default_keys m) ↔ IsDefault m n
unfolding default_keys lookup
In-default_keys n [] h = (λ i. elim i [ ], λ (t, e, v). elim (none-some t e) [ ])
In-default_keys n ((k, t) ∷ m) (fresh, h) =
    ground (arith, In-default_keys n m h, IsDefault-cons n k t m fresh)

-- The defaults are exactly the names under which the registry keeps a target that is no version
-- variant of another. The registry is a map, one entry to a name.
pub defaults_lem :
    (r : Registry) (n : Text) → IsMap r.registry → In n (defaults r) ↔ IsDefault r.registry n
unfolding defaults
defaults_lem r n h =
    let sorted = In-sort_strings n (default_keys r.registry) in
    let listed = In-default_keys n r.registry h in
    (λ i. listed.0 (sorted.0 i), λ d. sorted.1 (listed.1 d))
