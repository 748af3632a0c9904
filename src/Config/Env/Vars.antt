-- ===== src/Config/Env/Vars.antt =====
-- What a .env file sets (internal/env/env.go).
use meme.Base.{
  ◌≡◌, refl, ap, ◌∙◌, Option, none, some, List, [], ◌∷◌, if◌then◌else◌, Text, str_eq, Map, lookup,
  lookup-insert,
}
use meme.Config.Env.{line_setting, set, load_lines, load}

-- A line's value for the key, over what was set before
abbrev pub by_line : Text → Option (Text × Text) → Option Text → Option Text
by_line key none old = old
by_line key (some (k, value)) old = if str_eq k key then some value else old

-- The last line that sets the key
abbrev pub last_set : Text → List Text → Option Text → Option Text
last_set key [] old = old
last_set key (line ∷ lines) old = last_set key lines (by_line key (line_setting line) old)

lookup-set :
    (key : Text) (a : Option (Text × Text)) (vars : Map Text)
    → lookup key (set a vars) ≡ by_line key a (lookup key vars)
lookup-set key none vars = refl
lookup-set key (some (k, value)) vars = lookup-insert k key value vars

lookup-load_lines :
    (key : Text) (lines : List Text) (vars : Map Text)
    → lookup key (load_lines lines vars) ≡ last_set key lines (lookup key vars)
unfolding load_lines
lookup-load_lines key [] vars = refl
lookup-load_lines key (line ∷ lines) vars =
    lookup-load_lines key lines (set (line_setting line) vars)
    ∙ ap (last_set key lines) (lookup-set key (line_setting line) vars)

-- Each variable of a file has the value of the last line that sets it, and no other variable is set.
pub load-last_set :
    (key : Text) (lines : List Text) → lookup key (load (some lines)).0 ≡ last_set key lines none
unfolding load lookup
load-last_set key lines = lookup-load_lines key lines []
