-- ===== src/Model/Ids.antt =====
-- Identifiers (internal/model/validate.go): the ids that the emitters use as file names.
pub mod Safety
use meme.Base.{
  ℕ, ◌≤◌, Bool, true, false, not, ◌&&◌, ◌||◌, List, [], ◌∷◌, ◌++◌, if◌then◌else◌, leb, ◌==◌, all,
  any, Text, codes, str_eq, has_prefix, split,
}

-- The character class of `validID`.
abbrev pub id_char : ℕ → Bool
id_char c =
    (leb b'a' c && leb c b'z')
    || ((leb b'A' c && leb c b'Z')
        || ((leb b'0' c && leb c b'9') || (c == b'.' || (c == b'_' || c == b'-'))))

-- `validID`
unfoldable pub valid_id : Text → Bool
valid_id [] = false
valid_id (c ∷ id) = not (c == b'.') && all id_char (c ∷ id)

-- `validSeriesID`
unfoldable pub valid_series_id : Text → Bool
valid_series_id id =
    if has_prefix id (codes "_inline:") then all valid_id (split id b':') else valid_id id

-- `ContainsStr`
unfoldable pub contains_str : List Text → Text → Bool
contains_str s v = any (λ x. str_eq x v) s

-- The loop of `key` in `InternInlineSeries` (intern.go) over the parts.
unfoldable pub add_parts : Text → List Text → Text
add_parts id [] = id
add_parts id (p ∷ ps) = add_parts (id ++ b':' ∷ p) ps

-- `key`: the id of an interned series
unfoldable pub intern_key : List Text → Text
unfolding add_parts
intern_key parts = add_parts (codes "_inline") parts
