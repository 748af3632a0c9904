-- ===== src/Model/Ids/Safety.antt =====
-- Valid ids as file names, and the ids of interned series (internal/model/validate.go, intern.go).
use meme.Base.{
  ℕ, ◌≡◌, refl, sym, ap, ap₂, ◌∙◌, ◌≢◌, true, false, not, List, [], ◌∷◌, ◌++◌, arith, append_assoc,
  append-nil, ◌==◌, ==_iff, all, All, Text, codes, has_prefix, split, split_from, &&-true,
}
use meme.Model.Ids.{id_char, valid_id, valid_series_id, add_parts, intern_key}

-- A character that is not a separator of paths, nor the end of a C string.
abbrev pub IsPlain : ℕ → Type 0
IsPlain c = ◌≢◌ {A = ℕ} c b'/' × (◌≢◌ {A = ℕ} c b'\\' × ◌≢◌ {A = ℕ} c 0)

id_char-IsPlain : (c : ℕ) → id_char c ≡ true → IsPlain c
id_char-IsPlain c h = ground arith

all_id_char-IsPlain : (s : Text) → all id_char s ≡ true → All IsPlain s
all_id_char-IsPlain [] h = tt
all_id_char-IsPlain (c ∷ s) h =
    (id_char-IsPlain c (&&-true h).0, all_id_char-IsPlain s (&&-true h).1)

-- A valid id is one component of a path: it is not empty, no character of it separates paths, and it
-- is neither the directory itself nor the one above.
pub valid_id-IsPlain :
    (id : Text)
    → valid_id id ≡ true
    → All IsPlain id × (id ≢ []) × (id ≢ codes ".") × (id ≢ codes "..")
unfolding valid_id
valid_id-IsPlain [] h = cc
valid_id-IsPlain (c ∷ id) h =
    let parts : (not (c == b'.') ≡ true) × (all id_char (c ∷ id) ≡ true) = &&-true h in
    let no_dot : ◌≢◌ {A = ℕ} c b'.' = ground (arith, parts.0, ==_iff c b'.') in
    (
      all_id_char-IsPlain (c ∷ id) parts.1,
      λ e. cc,
      λ e. no_dot (ap (first 0) e),
      λ e. no_dot (ap (first 0) e),
    )
  where
    first : ℕ → List ℕ → ℕ
    first d [] = d
    first d (x ∷ xs) = x

-- No character is the colon that joins the parts of a key.
abbrev NoColon : Text → Type 0
NoColon = All (λ c. (c == b':') ≡ false)

id_char-NoColon : (c : ℕ) → id_char c ≡ true → (c == b':') ≡ false
id_char-NoColon c h = ground (arith, ==_iff c b':')

all_id_char-NoColon : (s : Text) → all id_char s ≡ true → NoColon s
all_id_char-NoColon [] h = tt
all_id_char-NoColon (c ∷ s) h =
    (id_char-NoColon c (&&-true h).0, all_id_char-NoColon s (&&-true h).1)

valid_id-NoColon : (id : Text) → valid_id id ≡ true → NoColon id
unfolding valid_id
valid_id-NoColon [] h = tt
valid_id-NoColon (c ∷ id) h = all_id_char-NoColon (c ∷ id) (&&-true h).1

all_valid-NoColon : (ps : List Text) → all valid_id ps ≡ true → All NoColon ps
all_valid-NoColon [] h = tt
all_valid-NoColon (p ∷ ps) h =
    (valid_id-NoColon p (&&-true h).0, all_valid-NoColon ps (&&-true h).1)

-- The parts behind the first one, each with its colon.
abbrev tail_of : List Text → Text
tail_of [] = []
tail_of (p ∷ ps) = b':' ∷ (p ++ tail_of ps)

add_parts-tail_of : (id : Text) (ps : List Text) → add_parts id ps ≡ id ++ tail_of ps
unfolding add_parts
add_parts-tail_of id [] = sym (append-nil id)
add_parts-tail_of id (p ∷ ps) =
    add_parts-tail_of (id ++ b':' ∷ p) ps ∙ append_assoc id (b':' ∷ p) (tail_of ps)

split_from-tail_of :
    (cur p : Text) (ps : List Text)
    → NoColon p
    → All NoColon ps
    → split_from b':' cur (p ++ tail_of ps) ≡ (cur ++ p) ∷ ps
unfolding split_from
split_from-tail_of cur [] [] h hs = ap (λ q. q ∷ []) (sym (append-nil cur))
split_from-tail_of cur [] (q ∷ qs) h (hq, hs) =
    ap₂ (λ a b. a ∷ b) (sym (append-nil cur)) (split_from-tail_of [] q qs hq hs)
split_from-tail_of cur (c ∷ p) ps (hc, h) hs =
    rw (split_from, hc)
      (split_from-tail_of (cur ++ c ∷ []) p ps h hs
        ∙ ap (λ a. a ∷ ps) (append_assoc cur (c ∷ []) p))

-- A key splits into the prefix and its parts.
split-intern_key :
    (ps : List Text) → all valid_id ps ≡ true → split (intern_key ps) b':' ≡ codes "_inline" ∷ ps
unfolding intern_key split
split-intern_key ps h = rw (add_parts-tail_of (codes "_inline") ps) (
    split_from-tail_of [] (codes "_inline") ps
      (refl, (refl, (refl, (refl, (refl, (refl, (refl, tt))))))) (all_valid-NoColon ps h))

-- Series that are interned under different parts have different ids: the parts are valid ids.
pub intern_key_injective :
    (ps qs : List Text)
    → all valid_id ps ≡ true
    → all valid_id qs ≡ true
    → intern_key ps ≡ intern_key qs
    → ps ≡ qs
intern_key_injective ps qs h k e =
    tails (sym (split-intern_key ps h) ∙ ap (λ s. split s b':') e ∙ split-intern_key qs k)
  where
    tails : codes "_inline" ∷ ps ≡ codes "_inline" ∷ qs → ps ≡ qs
    tails e = cc

pub prefixed :
    (p : Text) (ps : List Text) → has_prefix (intern_key (p ∷ ps)) (codes "_inline:") ≡ true
unfolding intern_key has_prefix
prefixed p ps = rw (add_parts-tail_of (codes "_inline") (p ∷ ps)) refl

-- The validation of the model accepts the id of a series that was interned under valid ids.
pub valid_series_id-intern_key :
    (p : Text) (ps : List Text)
    → all valid_id (p ∷ ps) ≡ true
    → valid_series_id (intern_key (p ∷ ps)) ≡ true
unfolding valid_series_id valid_id
valid_series_id-intern_key p ps h = rw (prefixed p ps, split-intern_key (p ∷ ps) h) h
