-- ===== src/Api/Cors/Matching.antt =====
-- The origins that a configuration allows (`originAllowed`, internal/api/cors.go).
use meme.Base.{
  ◌+◌, ◌≤◌, ◌<◌, ◌≡◌, refl, sym, ap, ◌∙◌, ◌≢◌, ◌↔◌, ◌⊎◌, inl, inr, Bool, true, false, ◌&&◌, ◌||◌,
  Option, none, some, List, [], ◌∷◌, ◌++◌, arith, append_assoc, ltb, ltb→lt, lt→ltb, length,
  length-append, length-drop, drop, drop-append_le, any, &&-true, Text, codes, str_eq, str_eq_iff,
  str_eq_sound, Bool-cases, some_injective, has_prefix, has_suffix, has_prefix_iff, has_suffix_iff,
  to_lower,
}
use mathlib.Core.Path.{subst}
use meme.Api.Cors.{
  CorsConfig, star, cut, Wildcard, wildcard_match, Origins, add_cut, add_origin, add_origins,
  origins_of, func_allows, origin_allowed,
}

drop-prefix : (p r : Text) → drop (length p) (p ++ r) ≡ r
drop-prefix [] r = refl
drop-prefix (c ∷ p) r = drop-prefix p r

-- What is between a prefix and a suffix that do not overlap.
between :
    (p r q s : Text)
    → p ++ r ≡ q ++ s
    → length p + length s < length (q ++ s)
    → (mid : Text) × (mid ≢ []) × (p ++ r ≡ p ++ (mid ++ s))
between p r q s e h =
    let len : length (q ++ s) ≡ length q + length s = length-append q s in
    let fits : length p ≤ length q = omega (arith, len) in
    let longer : 0 < length (drop (length p) q) = omega (arith, len, length-drop (length p) q) in
    (
      drop (length p) q,
      λ none_there. not_both longer none_there,
      ap (λ t. p ++ t)
          (sym (drop-prefix p r) ∙ ap (drop (length p)) e ∙ drop-append_le (length p) q s fits),
    )
  where
    not_both : {t : Text} → 0 < length t → t ≡ [] → ⊥
    not_both h e = omega (arith, ap length e)

length_of_some : (mid : Text) → mid ≢ [] → 0 < length mid
length_of_some [] h = elim (h refl) [ ]
length_of_some (c ∷ mid) h = omega arith

-- A wildcard matches exactly the texts that have something, not empty, between its two parts.
pub wildcard_match_iff :
    (w : Wildcard) (o : Text)
    → (wildcard_match w o ≡ true)
      ↔ ((mid : Text) × (mid ≢ []) × (o ≡ w.prefix ++ (mid ++ w.suffix)))
unfolding wildcard_match
wildcard_match_iff w o = (forth, back)
  where
    forth :
        wildcard_match w o ≡ true → (mid : Text) × (mid ≢ []) × (o ≡ w.prefix ++ (mid ++ w.suffix))
    forth h =
        let tests : (ltb (length w.prefix + length w.suffix) (length o) ≡ true)
            × ((has_prefix o w.prefix && has_suffix o w.suffix) ≡ true) =
          &&-true h in
        let long : length w.prefix + length w.suffix < length o =
          ltb→lt (length w.prefix + length w.suffix) (length o) tests.0 in
        let affixes : (has_prefix o w.prefix ≡ true) × (has_suffix o w.suffix ≡ true) =
          &&-true tests.1 in
        let (r, e) = (has_prefix_iff o w.prefix).0 affixes.0 in
        let (q, e') = (has_suffix_iff o w.suffix).0 affixes.1 in
        let (mid, some_there, whole) =
          between w.prefix r q w.suffix (sym e ∙ e') (omega (arith, long, ap length e')) in
        (mid, some_there, e ∙ whole)

    back :
        (mid : Text) × (mid ≢ []) × (o ≡ w.prefix ++ (mid ++ w.suffix)) → wildcard_match w o ≡ true
    back (mid, some_there, e) =
        let pre : has_prefix o w.prefix ≡ true =
          (has_prefix_iff o w.prefix).1 (mid ++ w.suffix, e) in
        let suf : has_suffix o w.suffix ≡ true =
          (has_suffix_iff o w.suffix).1
            (w.prefix ++ mid, e ∙ sym (append_assoc w.prefix mid w.suffix)) in
        let long : length w.prefix + length w.suffix < length o = omega (
          arith,
          ap length e,
          length-append w.prefix (mid ++ w.suffix),
          length-append mid w.suffix,
          length_of_some mid some_there,
        ) in
        rw (lt→ltb _ _ long, pre, suf) refl

-- What an entry of the list allows: every origin, or the lowercased origins with something between
-- its two parts, or one.
abbrev pub Allows : Text → Text → Type 0
Allows e o =
    (e ≡ star)
    ⊎ (((scheme : Text) × (domain : Text) × (mid : Text) × (cut e (codes "://*.")
            ≡ some (scheme, domain))
          × (mid ≢ [])
          × (o ≡ (scheme ++ codes "://") ++ (mid ++ (codes "." ++ domain))))
        ⊎ ((cut e (codes "://*.") ≡ none) × (o ≡ e)))

-- What the tables allow.
abbrev TablesAllow : Origins → Text → Type 0
TablesAllow h o =
    (h.allow_all || (any (str_eq o) h.exact || any (λ w. wildcard_match w o) h.wildcards)) ≡ true

any-snoc :
    {A : Type 0} (p : A → Bool) (xs : List A) (x : A) → any p (xs ++ x ∷ []) ≡ (any p xs || p x)
any-snoc p [] x = ground arith
any-snoc p (y ∷ xs) x = ground (arith, any-snoc p xs x)

Allows-exact : (e o : Text) → cut e (codes "://*.") ≡ none → e ≢ star → Allows e o ↔ (o ≡ e)
Allows-exact e o k not_star = (
  λ a. elim a [
    | inl is_star ↦ elim (not_star is_star) [ ]
    | inr (inl (scheme, domain, mid, k', some_there, whole)) ↦ cc
    | inr (inr (k', same)) ↦ same
  ],
  λ same. inr (inr (k, same)),
)

-- The wildcard of an entry that is cut at "://*.".
abbrev wildcard_of : Text → Text → Wildcard
wildcard_of scheme domain = record { prefix = scheme ++ codes "://"; suffix = codes "." ++ domain }

Allows-wildcard :
    (e o scheme domain : Text)
    → cut e (codes "://*.") ≡ some (scheme, domain)
    → e ≢ star
    → Allows e o ↔ (wildcard_match (wildcard_of scheme domain) o ≡ true)
Allows-wildcard e o scheme domain k not_star = (
  λ a. elim a [
    | inl is_star ↦ elim (not_star is_star) [ ]
    | inr (inl (scheme', domain', mid, k', some_there, whole)) ↦
        let same : (scheme', domain') ≡ (scheme, domain) = some_injective (sym k' ∙ k) in
        subst (λ (s, d). wildcard_match (wildcard_of s d) o ≡ true) same
          ((wildcard_match_iff (wildcard_of scheme' domain') o).1 (mid, some_there, whole))
    | inr (inr (k', same)) ↦ cc
  ],
  λ h.
      let (mid, some_there, whole) = (wildcard_match_iff (wildcard_of scheme domain) o).0 h in
      inr (inl (scheme, domain, mid, k, some_there, whole)),
)

add_cut-TablesAllow :
    (e o : Text) (c : Option (Text × Text)) (h : Origins)
    → cut e (codes "://*.") ≡ c
    → e ≢ star
    → TablesAllow (add_cut e c h) o ↔ (TablesAllow h o ⊎ Allows e o)
unfolding add_cut
add_cut-TablesAllow e o none h k not_star =
    ground (arith, Allows-exact e o k not_star, str_eq_iff o e)
add_cut-TablesAllow e o (some (scheme, domain)) h k not_star = ground (
  arith,
  Allows-wildcard e o scheme domain k not_star,
  any-snoc (λ w. wildcard_match w o) h.wildcards (wildcard_of scheme domain),
)

add_origin-TablesAllow :
    (e o : Text) (h : Origins) → TablesAllow (add_origin e h) o ↔ (TablesAllow h o ⊎ Allows e o)
unfolding add_origin
add_origin-TablesAllow e o h = elim (Bool-cases (str_eq e star)) [
  | inl is_star ↦ rw is_star (λ x. inr (inl (str_eq_sound e star is_star)), λ x. refl)
  | inr other ↦
      rw other
        (add_cut-TablesAllow e o (cut e (codes "://*.")) h refl (λ same. false_star other same))
]
  where
    false_star : str_eq e star ≡ false → e ≡ star → ⊥
    false_star other same = ground (arith, (str_eq_iff e star).1 same)

-- Some entry of the list, in lower case, allows the lowercased origin.
abbrev pub SomeAllows : List Text → Text → Type 0
SomeAllows [] o = ⊥
SomeAllows (e ∷ es) o = Allows (to_lower e) o ⊎ SomeAllows es o

add_origins-TablesAllow :
    (es : List Text) (o : Text) (h : Origins)
    → TablesAllow (add_origins es h) o ↔ (TablesAllow h o ⊎ SomeAllows es o)
unfolding add_origins
add_origins-TablesAllow [] o h = (λ x. inl x, λ x. elim x [ inl y ↦ y | inr y ↦ elim y [ ] ])
add_origins-TablesAllow (e ∷ es) o h = ground (
  arith,
  add_origin-TablesAllow (to_lower e) o h,
  add_origins-TablesAllow es o (add_origin (to_lower e) h),
)

-- An origin is allowed exactly if an entry of the configured list allows it, both in lower case (the
-- entry is `*`, a pattern with something in place of its star, or the origin itself), or the
-- configured function does.
pub origin_allowed_iff :
    (c : CorsConfig) (origin : Text)
    → (origin_allowed c origin ≡ true) ↔ (
        SomeAllows c.allowed_origins (to_lower origin)
        ⊎ (func_allows c.allow_origin_func origin ≡ true))
unfolding origin_allowed origins_of
origin_allowed_iff c origin = ground (
  arith,
  add_origins-TablesAllow c.allowed_origins (to_lower origin)
      (record { allow_all = false; exact = []; wildcards = [] }),
)
