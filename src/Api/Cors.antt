-- ===== src/Api/Cors.antt =====
-- The CORS policy (internal/api/cors.go): the check of the configuration, the origins that it allows
-- and the headers of a response.
pub mod Matching
pub mod Responses
use meme.Base.{
  ℕ, ◌+◌, ◌-◌, ◌/◌, ◌<◌, ◌≡◌, Bool, true, false, not, ◌&&◌, ◌||◌, Option, none, some, List, [], ◌∷◌,
  ◌++◌, map, if◌then◌else◌, ltb, leb, ◌==◌, length, any, drop, ℤ, pos, negsuc, Text, codes, str_eq,
  has_prefix, has_suffix, strip_prefix, to_lower, itoa, Map, lookup, insert, get_or_else,
}

-- `max_age` is a duration, in nanoseconds.
pub record CorsConfig : Type 0 where
  pub allowed_origins : List Text
  pub allow_origin_func : Option (Text → Bool)
  pub allowed_methods : List Text
  pub allowed_headers : List Text
  pub expose_headers : List Text
  pub allow_credentials : Bool
  pub max_age : ℤ
  pub allow_private_network : Bool

abbrev is_some_func : Option (Text → Bool) → Bool
is_some_func none = false
is_some_func (some f) = true

-- `enabled`
pub enabled : CorsConfig → Bool
enabled c = ltb 0 (length c.allowed_origins) || is_some_func c.allow_origin_func

abbrev pub star : Text
star = codes "*"

cut_or : Text → Option Text → Option (Text × Text) → Option (Text × Text)
cut_or before none later = later
cut_or before (some after) later = some (before, after)

cut_from : Text → Text → Text → Option (Text × Text)
unfolding cut_or
cut_from sep before [] = cut_or before (strip_prefix sep []) none
cut_from sep before (c ∷ s) =
    cut_or before (strip_prefix sep (c ∷ s)) (cut_from sep (before ++ c ∷ []) s)

-- strings.Cut: what is before the first occurrence and what is behind it
unfoldable pub cut : Text → Text → Option (Text × Text)
unfolding cut_from
cut s sep = cut_from sep [] s

-- strings.Contains
contains : Text → Text → Bool
unfolding cut
contains s sub = elim (cut s sub) [ none ↦ false | some p ↦ true ]

-- The errors of `Validate`.
pub data CorsError : Type 0 where
  any_method_with_credentials : CorsError
  any_expose_with_credentials : CorsError
  empty_origin : CorsError
  any_origin_with_credentials : CorsError
  malformed_origin : Text → CorsError
  origin_with_path : Text → CorsError
  misplaced_star : Text → CorsError

-- `strings.Contains(host, "*") && (...)`
bad_host : Text → Bool
unfolding contains
bad_host host =
    contains host star
    && (not (has_prefix host (codes "*.")) || (ltb (length host) 3 || contains (drop 1 host) star))

check_parts : Text → Option (Text × Text) → Option CorsError
unfolding bad_host
check_parts o none = some (malformed_origin o)
check_parts o (some (scheme, host)) =
    if str_eq scheme [] || str_eq host []
    then some (malformed_origin o)
    else if contains host (codes "/")
    then some (origin_with_path o)
    else if contains scheme star || bad_host host
    then some (misplaced_star o)
    else none

-- One round of the loop over the origins.
check_origin : Bool → Text → Option CorsError
unfolding check_parts
check_origin credentials o =
    if str_eq o []
    then some empty_origin
    else if str_eq o star
    then (if credentials then some any_origin_with_credentials else none)
    else if str_eq (to_lower o) (codes "null")
    then none
    else check_parts o (cut o (codes "://"))

abbrev first_error : Option CorsError → Option CorsError → Option CorsError
first_error none later = later
first_error (some e) later = some e

check_origins : Bool → List Text → Option CorsError
unfolding check_origin
check_origins credentials [] = none
check_origins credentials (o ∷ os) =
    first_error (check_origin credentials o) (check_origins credentials os)

-- The literal "*" in a list
abbrev pub has_star : List Text → Bool
has_star = any (λ m. str_eq m star)

-- `Validate`
unfoldable pub validate : CorsConfig → Option CorsError
unfolding check_origins
validate c =
    let origins = check_origins c.allow_credentials c.allowed_origins in
    if c.allow_credentials && has_star c.allowed_methods
    then some any_method_with_credentials
    else if c.allow_credentials && has_star c.expose_headers
    then some any_expose_with_credentials
    else origins

pub record Wildcard : Type 0 where
  pub prefix : Text
  pub suffix : Text

-- `match`
unfoldable pub wildcard_match : Wildcard → Text → Bool
wildcard_match w origin =
    ltb (length w.prefix + length w.suffix) (length origin)
    && (has_prefix origin w.prefix && has_suffix origin w.suffix)

-- What the constructor makes of the list of origins; `exact` is the map's keys.
pub record Origins : Type 0 where
  pub allow_all : Bool
  pub exact : List Text
  pub wildcards : List Wildcard

-- The entry of a lowercased origin, cut at "://*.".
add_cut : Text → Option (Text × Text) → Origins → Origins
add_cut o none h = record h { exact = o ∷ h.exact }
add_cut o (some (scheme, domain)) h = record h {
  wildcards =
      h.wildcards ++ record { prefix = scheme ++ codes "://"; suffix = codes "." ++ domain } ∷ [];
}

add_origin : Text → Origins → Origins
unfolding add_cut
add_origin o h =
    if str_eq o star then record h { allow_all = true } else add_cut o (cut o (codes "://*.")) h

-- The loop over the origins in `newCORSHandler`.
unfoldable pub add_origins : List Text → Origins → Origins
unfolding add_origin
add_origins [] h = h
add_origins (o ∷ os) h = add_origins os (add_origin (to_lower o) h)

unfoldable pub origins_of : CorsConfig → Origins
unfolding add_origins
origins_of c =
    add_origins c.allowed_origins (record { allow_all = false; exact = []; wildcards = [] })

pub func_allows : Option (Text → Bool) → Text → Bool
func_allows none origin = false
func_allows (some f) origin = f origin

-- `originAllowed`
unfoldable pub origin_allowed : CorsConfig → Text → Bool
unfolding func_allows
origin_allowed c origin =
    let h = origins_of c in
    let o = to_lower origin in
    h.allow_all
    || (any (str_eq o) h.exact
        || (any (λ w. wildcard_match w o) h.wildcards || func_allows c.allow_origin_func origin))

-- `allowOriginValue`
unfoldable pub allow_origin_value : CorsConfig → Text → Text
allow_origin_value c origin =
    if (origins_of c).allow_all && not c.allow_credentials then star else origin
