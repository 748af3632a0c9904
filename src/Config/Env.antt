-- ===== src/Config/Env.antt =====
-- The reader of .env files, internal/env/env.go. The file is a parameter: its lines, or `none` where it
-- cannot be opened; so is the variable MEME_ENV_FILE.
pub mod Vars
use mathlib.Core.List.{reverse}
use meme.Base.{
  ℕ, Bool, true, false, not, ◌&&◌, ◌||◌, Option, none, some, List, [], ◌∷◌, if◌then◌else◌, ◌==◌,
  Text, codes, str_eq, has_prefix, trim_prefix, trim_space, to_lower, Map, lookup, insert,
}

-- `args[i+1]`, if there is one
abbrev next_or : Text → List Text → Text
next_or path [] = path
next_or path (b ∷ bs) = b

-- The loop over the arguments
unfoldable pub later_path : Text → List Text → Text
later_path path [] = path
later_path path (a ∷ args) =
    let from_next = later_path (next_or path args) args in
    let short = later_path (trim_prefix a (codes "-env-file=")) args in
    let long = later_path (trim_prefix a (codes "--env-file=")) args in
    let rest = later_path path args in
    if str_eq a (codes "-env-file") || str_eq a (codes "--env-file")
    then from_next
    else if has_prefix a (codes "-env-file=")
    then short
    else if has_prefix a (codes "--env-file=")
    then long
    else rest

-- `ResolvePath`
unfoldable pub resolve_path : Text → List Text → Text
resolve_path variable args = later_path (if str_eq variable [] then codes ".env" else variable) args

-- `line[:eq]` and `line[eq+1:]` at the first `=`
unfoldable pub cut_equals : Text → Option (Text × Text)
cut_equals [] = none
cut_equals (c ∷ s) = if c == b'=' then some ([], s) else behind c (cut_equals s)
  where
    behind : ℕ → Option (Text × Text) → Option (Text × Text)
    behind c none = none
    behind c (some (key, value)) = some (c ∷ key, value)

abbrev inner : Text → ℕ → Text → Text
inner s c [] = s
inner s c (d ∷ r) = if d == c then reverse r else s

-- `unquote`
unfoldable pub unquote : Text → Text
unquote [] = []
unquote (c ∷ s) = if c == b'"' || c == b'\'' then inner (c ∷ s) c (reverse s) else c ∷ s

abbrev setting : Option (Text × Text) → Option (Text × Text)
setting none = none
setting (some (key, value)) =
    let k = trim_space key in if str_eq k [] then none else some (k, unquote (trim_space value))

-- What one line sets, if anything
unfoldable pub line_setting : Text → Option (Text × Text)
line_setting text =
    let line = trim_space text in
    if str_eq line [] || has_prefix line (codes "#")
    then none
    else setting (cut_equals (trim_prefix line (codes "export ")))

abbrev pub set : Option (Text × Text) → Map Text → Map Text
set none vars = vars
set (some (key, value)) vars = insert key value vars

unfoldable pub load_lines : List Text → Map Text → Map Text
load_lines [] vars = vars
load_lines (line ∷ lines) vars = load_lines lines (set (line_setting line) vars)

-- `Load`
unfoldable pub load : Option (List Text) → Map Text × Bool
load none = ([], false)
load (some lines) = (load_lines lines [], true)

-- `Bool`
unfoldable pub read_bool : Text → Bool → Bool
read_bool s fallback =
    let w = to_lower (trim_space s) in
    if str_eq w (codes "1")
      || (str_eq w (codes "true") || (str_eq w (codes "yes") || str_eq w (codes "on")))
    then true
    else if str_eq w (codes "0")
        || (str_eq w (codes "false") || (str_eq w (codes "no") || str_eq w (codes "off")))
    then false
    else fallback
