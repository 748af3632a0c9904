-- ===== src/Target/Registry.antt =====
-- The registry of framework targets (internal/target/target.go) and the target list of a request
-- (`parseTargets`, internal/api/handlers.go). The two package variables are a record that the
-- functions pass on; a panic, which only an init function can run into, is `none`.
pub mod Inv
pub mod Request
pub mod Defaults
use meme.Base.{
  ◌≡◌, Bool, true, false, not, ◌&&◌, Option, none, some, List, [], ◌∷◌, ◌++◌, map, if◌then◌else◌,
  Text, codes, str_eq, any, trim_space, split, Map, lookup, insert, has_key, keys, keep,
  sort_strings, sorted_keys,
}

-- What the registry reads of a `Target`: `variant` says that it implements `Variant`.
pub record Target : Type 0 where
  pub name : Text
  pub version : Text
  pub capabilities : Map Bool
  pub variant : Bool

pub record Registry : Type 0 where
  pub registry : Map Target
  pub aliases : Map Text

unfoldable pub empty_registry : Registry
empty_registry = record { registry = []; aliases = [] }

-- `Register`
unfoldable pub register : Target → Registry → Option Registry
register t r =
    if has_key t.name r.registry
    then none
    else if has_key t.name r.aliases
    then none
    else some (record r { registry = insert t.name t r.registry })

-- The test of `RegisterAlias` for an alias that is taken by another target.
alias_taken : Text → Option Text → Bool
alias_taken canonical none = false
alias_taken canonical (some prev) = not (str_eq prev canonical)

-- `RegisterAlias`
unfoldable pub register_alias : Text → Text → Registry → Option Registry
unfolding alias_taken
register_alias alias canonical r =
    if not (has_key canonical r.registry)
    then none
    else if has_key alias r.registry
    then none
    else if alias_taken canonical (lookup alias r.aliases)
    then none
    else some (record r { aliases = insert alias canonical r.aliases })

or_name : Text → Option Text → Text
or_name name none = name
or_name name (some canonical) = canonical

-- `resolve`, and `Resolve`, which locks
unfoldable pub resolve : Registry → Text → Text
unfolding or_name
resolve r name = or_name name (lookup name r.aliases)

-- `For`; `none` is its error
unfoldable pub for_target : Registry → Text → Option Target
for_target r name = lookup (resolve r name) r.registry

-- `Known`
unfoldable pub known : Registry → Text → Bool
known r name = has_key (resolve r name) r.registry

-- `names`, and `Names`, which locks
pub names : Registry → List Text
names r = sorted_keys r.registry

-- The keys that `Defaults` collects.
default_keys : Map Target → List Text
default_keys [] = []
default_keys ((n, t) ∷ m) = let rest = default_keys m in if t.variant then rest else n ∷ rest

-- `Defaults`
pub defaults : Registry → List Text
unfolding default_keys
defaults r = sort_strings (default_keys r.registry)

-- `Versions`
pub versions : Registry → Map Text
versions r = map (λ (n, t). (n, t.version)) r.registry

claims : Text → Option Target → Bool
claims f none = false
claims f (some t) = elim (lookup f t.capabilities) [ none ↦ false | some b ↦ b ]

-- `Supports`; a feature that is not in the map reads as false
pub supports : Registry → Text → Text → Bool
unfolding claims
supports r name f = claims f (for_target r name)

-- `if !seen[t] { seen[t] = true; out = append(out, t) }`: the seen targets are those of `out`
abbrev is_in : Text → List Text → Bool
is_in t out = any (str_eq t) out

-- The loop of `parseTargets`; `none` is the error about an unknown target.
parse_parts : Registry → List Text → List Text → Option (List Text)
parse_parts r [] out = some out
parse_parts r (part ∷ parts) out =
    let t = resolve r (trim_space part) in
    let seen = parse_parts r parts out in
    let fresh = parse_parts r parts (out ++ t ∷ []) in
    if not (known r t) then none else if is_in t out then seen else fresh

-- `parseTargets`
unfoldable pub parse_targets : Registry → Text → Option (List Text)
unfolding parse_parts
parse_targets r q =
    if str_eq q (codes "all") then some (defaults r) else parse_parts r (split q 44) []

-- What an init function does.
pub data Init : Type 0 where
  add : Target → Init
  add_alias : Text → Text → Init

run_init : Init → Registry → Option Registry
run_init (add t) r = register t r
run_init (add_alias alias canonical) r = register_alias alias canonical r

then_inits : Option Registry → (Registry → Option Registry) → Option Registry
then_inits none f = none
then_inits (some r) f = f r

-- The init functions of the program, in the order in which they run.
unfoldable pub run_inits : List Init → Registry → Option Registry
unfolding run_init then_inits
run_inits [] r = some r
run_inits (i ∷ is) r = then_inits (run_init i r) (run_inits is)
