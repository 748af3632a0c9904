-- ===== src/Api/Cors/Responses.antt =====
-- The headers of a response (internal/api/cors.go).
pub mod Headers
use meme.Base.{
  ℕ, ◌+◌, ◌-◌, ◌/◌, ◌<◌, ◌≡◌, Bool, true, false, not, ◌&&◌, ◌||◌, Option, none, some, List, [], ◌∷◌,
  ◌++◌, map, if◌then◌else◌, ltb, leb, ◌==◌, length, any, drop, ℤ, pos, negsuc, Text, codes, str_eq,
  has_prefix, has_suffix, strip_prefix, to_lower, itoa, Map, lookup, insert, get_or_else,
}
use meme.Api.Cors.{CorsConfig, star, origin_allowed, allow_origin_value}

-- The header lists that the constructor joins: `canon` is http.CanonicalHeaderKey, and `upper`
-- strings.ToUpper.
pub record Canonical : Type 0 where
  pub canon : Text → Text
  pub upper : Text → Text

join_list : List Text → Text
join_list [] = []
join_list (v ∷ []) = v
join_list (v ∷ w ∷ vs) = v ++ codes ", " ++ join_list (w ∷ vs)

-- `join`, the local function
join_or : (Text → Text) → List Text → List Text → Text
unfolding join_list
join_or canon [] fallback = join_list (map canon fallback)
join_or canon (v ∷ vs) fallback = join_list (map canon (v ∷ vs))

pub methods_value : Canonical → CorsConfig → Text
unfolding join_or
methods_value k c =
    join_or k.upper c.allowed_methods (codes "GET" ∷ codes "POST" ∷ codes "OPTIONS" ∷ [])

pub headers_any : List Text → Bool
headers_any (h ∷ []) = str_eq h star
headers_any _ = false

pub headers_value : Canonical → CorsConfig → Text
unfolding join_or headers_any
headers_value k c =
    if headers_any c.allowed_headers
    then []
    else join_or k.canon c.allowed_headers (codes "Content-Type" ∷ codes "Authorization" ∷ [])

pub expose_value : Canonical → CorsConfig → Text
unfolding join_or
expose_value k c = join_or k.canon c.expose_headers (codes "Content-Disposition" ∷ [])

max_age_text : ℤ → Text
max_age_text (negsuc n) = []
max_age_text (pos n) = if leb n 0 then itoa 600 else itoa (n / 1000000000)

-- The headers of a request, by canonical name; an absent one reads as empty.
abbrev pub header_of : Text → Map Text → Text
header_of name headers = get_or_else (lookup name headers) []

-- `hdr.Set` under a condition
abbrev set_if : Bool → Text → Text → Map Text → Map Text
set_if b name value hdr = if b then insert name value hdr else hdr

abbrev pub allow_origin_header : Text
allow_origin_header = codes "Access-Control-Allow-Origin"

-- The headers of an actual request's response, before the API's own handler runs; `Vary` is left out.
unfoldable pub actual_headers : Canonical → CorsConfig → Map Text → Map Text
unfolding expose_value
actual_headers k c request =
    let origin = header_of (codes "Origin") request in
    let first = insert allow_origin_header (allow_origin_value c origin) [] in
    let second =
      set_if c.allow_credentials (codes "Access-Control-Allow-Credentials") (codes "true") first in
    let third =
      set_if (not (str_eq (expose_value k c) [])) (codes "Access-Control-Expose-Headers")
        (expose_value k c) second in
    if not (str_eq origin []) && origin_allowed c origin then third else []

-- The header that tells which headers are allowed: in the echo mode those that are asked for.
allow_headers : Canonical → CorsConfig → Map Text → Map Text → Map Text
unfolding headers_value headers_any
allow_headers k c request hdr =
    let asked = header_of (codes "Access-Control-Request-Headers") request in
    let value = if headers_any c.allowed_headers then asked else headers_value k c in
    set_if (not (str_eq value [])) (codes "Access-Control-Allow-Headers") value hdr

-- The headers of the answer to a preflight, whose status is 204; `Vary` is left out.
unfoldable pub preflight_headers : Canonical → CorsConfig → Map Text → Map Text
unfolding methods_value allow_headers max_age_text
preflight_headers k c request =
    let origin = header_of (codes "Origin") request in
    let first = insert allow_origin_header (allow_origin_value c origin) [] in
    let second = insert (codes "Access-Control-Allow-Methods") (methods_value k c) first in
    let third = allow_headers k c request second in
    let fourth =
      set_if c.allow_credentials (codes "Access-Control-Allow-Credentials") (codes "true") third in
    let fifth =
      set_if (not (str_eq (max_age_text c.max_age) [])) (codes "Access-Control-Max-Age")
        (max_age_text c.max_age) fourth in
    let sixth =
      set_if
        (c.allow_private_network
          && str_eq (header_of (codes "Access-Control-Request-Private-Network") request)
              (codes "true"))
        (codes "Access-Control-Allow-Private-Network") (codes "true") fifth in
    if not (str_eq origin []) && origin_allowed c origin then sixth else []

-- What `ServeHTTP` does with a request: answer it as a preflight, or pass it on with headers set.
pub data Served : Type 0 where
  answered : Map Text → Served
  passed_on : Map Text → Served

-- `ServeHTTP`
unfoldable pub serve : Canonical → CorsConfig → Text → Map Text → Served
serve k c method request =
    if str_eq method (codes "OPTIONS")
      && not (str_eq (header_of (codes "Access-Control-Request-Method") request) [])
    then answered (preflight_headers k c request)
    else passed_on (actual_headers k c request)
