-- ===== src/Config/Cli/Parsed.antt =====
-- The list of origins that internal/cli/cli.go reads.
use meme.Base.{
  ◌≡◌, refl, ap, ◌∙◌, ◌≢◌, ◌↔◌, inl, inr, List, [], ◌∷◌, arith, In, Text, str_eq, str_eq_iff, split,
  trim_space, Bool-cases,
}
use meme.Config.Cli.{trimmed, split_list}

-- A part of the value, with its spaces off, that is not empty
abbrev pub IsPart : List Text → Text → Type 0
IsPart parts v = (p : Text) × In p parts × (v ≡ trim_space p) × (v ≢ [])

trimmed-IsPart : (vs : List Text) (v : Text) → In v (trimmed vs) → IsPart vs v
unfolding trimmed
trimmed-IsPart [] v i = absurd i
trimmed-IsPart (w ∷ vs) v i = elim (Bool-cases (str_eq (trim_space w) [])) [
  | inl h ↦ let (p, j, e, n) = trimmed-IsPart vs v (rw h at i) in (p, inr j, e, n)
  | inr h ↦ elim (rw h at i) [
    | inl e ↦ (w, inl refl, e, λ q. ground (arith, h, e, q, str_eq_iff (trim_space w) []))
    | inr j ↦ let (p, k, e, n) = trimmed-IsPart vs v j in (p, inr k, e, n)
  ]
]

IsPart-trimmed : (vs : List Text) (v : Text) → IsPart vs v → In v (trimmed vs)
unfolding trimmed
IsPart-trimmed [] v (p, i, e, n) = absurd i
IsPart-trimmed (w ∷ vs) v (p, inl i, e, n) =
    let same : v ≡ trim_space w = e ∙ ap trim_space i in
    elim (Bool-cases (str_eq (trim_space w) [])) [
      | inl h ↦ absurd (n (same ∙ (str_eq_iff (trim_space w) []).0 h))
      | inr h ↦ rw h (inl same)
    ]
IsPart-trimmed (w ∷ vs) v (p, inr i, e, n) = elim (Bool-cases (str_eq (trim_space w) [])) [
  | inl h ↦ rw h (IsPart-trimmed vs v (p, i, e, n))
  | inr h ↦ rw h (inr (IsPart-trimmed vs v (p, i, e, n)))
]

-- The origins of a list are exactly the parts between its commas, without the spaces around them, that
-- are not empty.
pub split_list_iff : (s v : Text) → In v (split_list s) ↔ IsPart (split s b',') v
unfolding split_list
split_list_iff s v = (trimmed-IsPart (split s b',') v, IsPart-trimmed (split s b',') v)
