-- ===== src/Target/Registry/Request.antt =====
-- The targets that a request names (`parseTargets`, internal/api/handlers.go).
use meme.Base.{
  ◌≡◌, refl, sym, ap, ◌∙◌, ◌↔◌, ◌⊎◌, inl, inr, true, false, ◌||◌, none, some, some_injective, List,
  [], ◌∷◌, ◌++◌, arith, Text, codes, str_eq, str_eq_iff, trim_space, split, In,
}
use mathlib.Core.Path.{subst}
use meme.Target.Registry.{Registry, resolve, known, is_in, parse_parts, parse_targets}

-- No target occurs twice.
abbrev pub IsDistinct : List Text → Type 0
IsDistinct [] = Unit
IsDistinct (t ∷ ts) = (is_in t ts ≡ false) × IsDistinct ts

is_in-snoc : (t u : Text) (ts : List Text) → is_in t (ts ++ u ∷ []) ≡ (is_in t ts || str_eq t u)
is_in-snoc t u [] = ground arith
is_in-snoc t u (v ∷ ts) = ground (arith, is_in-snoc t u ts)

IsDistinct-snoc :
    (u : Text) (ts : List Text) → IsDistinct ts → is_in u ts ≡ false → IsDistinct (ts ++ u ∷ [])
IsDistinct-snoc u [] d h = (refl, tt)
IsDistinct-snoc u (t ∷ ts) (fresh, d) h =
    ground (arith, is_in-snoc t u ts, IsDistinct-snoc u ts d, str_eq_iff t u, str_eq_iff u t)

-- The targets that parts name.
abbrev Names : Registry → List Text → Text → Type 0
Names r parts t = (part : Text) × In part parts × (t ≡ resolve r (trim_space part))

is_in_iff : (t : Text) (ts : List Text) → (is_in t ts ≡ true) ↔ In t ts
is_in_iff t [] = (λ h. ground arith, λ i. elim i [ ])
is_in_iff t (u ∷ ts) = ground (arith, str_eq_iff t u, is_in_iff t ts)

In-snoc : (t u : Text) (ts : List Text) → In t (ts ++ u ∷ []) ↔ (In t ts ⊎ (t ≡ u))
In-snoc t u [] = ground arith
In-snoc t u (v ∷ ts) = ground (arith, In-snoc t u ts)

Names-cons :
    (r : Registry) (part : Text) (parts : List Text) (t : Text)
    → Names r (part ∷ parts) t ↔ ((t ≡ resolve r (trim_space part)) ⊎ Names r parts t)
Names-cons r part parts t = (
  λ (p, i, e). elim i [
    | inl same ↦ inl (e ∙ ap (λ q. resolve r (trim_space q)) same)
    | inr later ↦ inr (p, later, e)
  ],
  λ x. elim x [ inl e ↦ (part, inl refl, e) | inr (p, later, e) ↦ (p, inr later, e) ],
)

-- The loop of `parseTargets` on one part.
parse_parts-cons :
    (r : Registry) (part : Text) (parts out out' : List Text)
    → let t = resolve r (trim_space part) in
      parse_parts r (part ∷ parts) out ≡ some out'
      → (known r t ≡ true)
        × (((is_in t out ≡ true) × (parse_parts r parts out ≡ some out'))
            ⊎ ((is_in t out ≡ false) × (parse_parts r parts (out ++ t ∷ []) ≡ some out')))
unfolding parse_parts
parse_parts-cons r part parts out out' h = ground arith

record Parsed (r : Registry) (parts out out' : List Text) : Type 0 where
  distinct : IsDistinct out'
  named : (t : Text) → In t out' ↔ (In t out ⊎ Names r parts t)
  are_known : (t : Text) → Names r parts t → known r t ≡ true

-- One part, already resolved to `t`, before the rest.
Parsed-cons :
    (r : Registry) (part : Text) (parts out mid out' : List Text)
    → let t = resolve r (trim_space part) in
      known r t ≡ true
      → ((u : Text) → In u mid ↔ (In u out ⊎ (u ≡ t)))
      → Parsed r parts mid out'
      → Parsed r (part ∷ parts) out out'
Parsed-cons r part parts out mid out' there added x = record {
  distinct = x.distinct;
  named = λ u. ground (arith, x.named u, added u, Names-cons r part parts u);
  are_known = λ u n. elim ((Names-cons r part parts u).0 n) [
    | inl e ↦ ap (known r) e ∙ there
    | inr later ↦ x.are_known u later
  ];
}

parse_parts-Parsed :
    (r : Registry) (parts out out' : List Text)
    → IsDistinct out
    → parse_parts r parts out ≡ some out'
    → Parsed r parts out out'
unfolding parse_parts
parse_parts-Parsed r [] out out' d h = subst (Parsed r [] out) (some_injective h) (record {
  distinct = d;
  named = λ t. (λ i. inl i, λ x. elim x [ inl i ↦ i | inr (p, i, e) ↦ elim i [ ] ]);
  are_known = λ t (p, i, e). elim i [ ];
})
parse_parts-Parsed r (part ∷ parts) out out' d h =
    let t = resolve r (trim_space part) in
    let (there, rest) = parse_parts-cons r part parts out out' h in
    elim rest [
      | inl (seen, e) ↦
          Parsed-cons r part parts out out out' there (λ u. ground (arith, is_in_iff t out))
            (parse_parts-Parsed r parts out out' d e)
      | inr (fresh, e) ↦
          Parsed-cons r part parts out (out ++ t ∷ []) out' there (λ u. In-snoc u t out)
            (parse_parts-Parsed r parts (out ++ t ∷ []) out' (IsDistinct-snoc t out d fresh) e)
    ]

-- A part that names no target.
abbrev pub Unknown : Registry → List Text → Type 0
Unknown r parts = (part : Text) × In part parts × (known r (resolve r (trim_space part)) ≡ false)

Unknown-cons :
    (r : Registry) (part : Text) (parts : List Text)
    → Unknown r (part ∷ parts) ↔ ((known r (resolve r (trim_space part)) ≡ false) ⊎ Unknown r parts)
Unknown-cons r part parts = (
  λ (p, i, e). elim i [
    | inl same ↦ inl (ap (λ q. known r (resolve r (trim_space q))) (sym same) ∙ e)
    | inr later ↦ inr (p, later, e)
  ],
  λ x. elim x [ inl e ↦ (part, inl refl, e) | inr (p, later, e) ↦ (p, inr later, e) ],
)

parse_parts-none_iff :
    (r : Registry) (parts out : List Text) → (parse_parts r parts out ≡ none) ↔ Unknown r parts
unfolding parse_parts
parse_parts-none_iff r [] out = (λ h. ground arith, λ (p, i, e). elim i [ ])
parse_parts-none_iff r (part ∷ parts) out = ground (
  arith,
  Unknown-cons r part parts,
  parse_parts-none_iff r parts out,
  parse_parts-none_iff r parts (out ++ resolve r (trim_space part) ∷ []),
)

-- A list of targets other than `all` is refused exactly if one of its parts names no target; if it is
-- not, the answer has no target twice, and its targets are those that the parts resolve to, each one
-- known.
pub parse_targets_lem :
    (r : Registry) (q : Text)
    → str_eq q (codes "all") ≡ false
    → let parts = split q 44 in
      ((parse_targets r q ≡ none) ↔ Unknown r parts)
      × ((out : List Text)
          → parse_targets r q ≡ some out
          → IsDistinct out
            × ((t : Text)
                → In t out ↔ (
                    (part : Text) × In part parts
                    × (t ≡ resolve r (trim_space part))
                    × (known r t ≡ true))))
unfolding parse_targets
parse_targets_lem r q other =
    let parts = split q 44 in
    (
      rw other (parse_parts-none_iff r parts []),
      λ out h.
          let loop : parse_parts r parts [] ≡ some out = rw other at h in
          let x : Parsed r parts [] out = parse_parts-Parsed r parts [] out tt loop in
          (
            x.distinct,
            λ t. (
              λ i. elim ((x.named t).0 i) [
                | inl none_yet ↦ elim none_yet [ ]
                | inr (part, j, e) ↦ (part, j, e, x.are_known t (part, j, e))
              ],
              λ (part, j, e, _). (x.named t).1 (inr (part, j, e)),
            ),
          ),
    )
