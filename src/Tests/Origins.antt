-- ===== src/Tests/Origins.antt =====
-- The CORS policy.
use meme.Base.{
  ◌≡◌, refl, ◌≢◌, ◌↔◌, ◌⊎◌, true, false, none, [], ◌∷◌, Text, codes, pos, str_eq, to_lower, lookup,
  insert, Map, strip_prefix,
}
use meme.Api.Cors.{
  CorsConfig, Wildcard, origin_allowed, func_allows, star, origins_of, cut, allow_origin_value,
}
use meme.Api.Cors.Responses.{Canonical, serve, actual_headers}
use meme.Api.Cors.Matching.{SomeAllows, origin_allowed_iff}
use meme.Api.Cors.Responses.Headers.{serve-allow_origin}

abbrev subdomains : Wildcard
subdomains = record { prefix = codes "https://"; suffix = codes ".example.com" }

abbrev policy : CorsConfig
policy = record {
  allowed_origins = codes "https://*.example.com" ∷ codes "https://app.test" ∷ [];
  allow_origin_func = none;
  allowed_methods = [];
  allowed_headers = [];
  expose_headers = [];
  allow_credentials = true;
  max_age = pos 0;
  allow_private_network = false;
}

origin_allowed_iff_example : (origin_allowed policy (codes "https://App.test") ≡ true) ↔ (
    SomeAllows policy.allowed_origins (to_lower (codes "https://App.test"))
    ⊎ (func_allows policy.allow_origin_func (codes "https://App.test") ≡ true))
origin_allowed_iff_example = origin_allowed_iff policy (codes "https://App.test")

abbrev canonical : Canonical
canonical = record { canon = λ s. s; upper = λ s. s }

abbrev request : Map Text
request = (codes "Origin", codes "https://app.test") ∷ []

serve-allow_origin_example :
    (codes "https://app.test" ≢ [])
    × (origin_allowed policy (codes "https://app.test") ≡ true)
    × ((codes "https://app.test" ≡ codes "https://app.test")
        ⊎ ((codes "https://app.test" ≡ star) × (true ≡ false)))
unfolding serve lookup insert str_eq to_lower actual_headers origin_allowed origins_of cut
    strip_prefix allow_origin_value
serve-allow_origin_example =
    serve-allow_origin canonical policy (codes "GET") request (codes "https://app.test") refl
