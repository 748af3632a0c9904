-- ===== src/Api/Cors/Responses/Headers.antt =====
-- The header by which a response lets an origin read it (internal/api/cors.go).
use meme.Base.{
  ◌≡◌, refl, sym, ap, ◌∙◌, ◌⊎◌, inl, inr, ◌≢◌, Bool, true, false, not, ◌&&◌, Option, none, some,
  some_injective, List, [], ◌∷◌, arith, if◌then◌else◌, Text, codes, str_eq, str_eq_iff, Map, lookup,
  insert, lookup-insert, &&-true, Bool-cases,
}
use meme.Api.Cors.{
  CorsConfig, star, has_star, validate, check_origins, check_origin, origin_allowed,
  allow_origin_value,
}
use meme.Api.Cors.Responses.{
  Canonical, header_of, set_if, allow_origin_header, actual_headers, allow_headers,
  preflight_headers, Served, answered, passed_on, serve, expose_value, methods_value, max_age_text,
}

lookup-set_if :
    (b : Bool) (k name value : Text) (hdr : Map Text)
    → str_eq name k ≡ false
    → lookup k (set_if b name value hdr) ≡ lookup k hdr
lookup-set_if true k name value hdr h = rw (lookup-insert name k value hdr, h) refl
lookup-set_if false k name value hdr h = refl

lookup-first : (k value : Text) → lookup k (insert k value []) ≡ some value
lookup-first k value = rw (lookup-insert k k value [], (str_eq_iff k k).1 refl) refl

-- The headers of a served request.
abbrev pub headers_of : Served → Map Text
headers_of (answered hdr) = hdr
headers_of (passed_on hdr) = hdr

-- Who is let in, and by which value.
abbrev Grants : CorsConfig → Text → Map Text → Type 0
Grants c origin hdr =
    (v : Text)
    → lookup allow_origin_header hdr ≡ some v
    → (origin ≢ []) × (origin_allowed c origin ≡ true) × (v ≡ allow_origin_value c origin)

guarded-Grants :
    (c : CorsConfig) (origin : Text) (hdr : Map Text)
    → lookup allow_origin_header hdr ≡ some (allow_origin_value c origin)
    → Grants c origin (if not (str_eq origin []) && origin_allowed c origin then hdr else [])
unfolding lookup
guarded-Grants c origin hdr e v h =
    elim (Bool-cases (not (str_eq origin []) && origin_allowed c origin)) [
      | inl let_in ↦
          let tests : (not (str_eq origin []) ≡ true) × (origin_allowed c origin ≡ true) =
            &&-true let_in in
          let same : some (allow_origin_value c origin) ≡ some v = sym e ∙ rw let_in at h in
          (
            λ empty. ground (arith, tests.0, (str_eq_iff origin []).1 empty),
            tests.1,
            sym (some_injective same),
          )
      | inr kept_out ↦ elim (nothing (rw kept_out at h)) [ ]
    ]
  where
    nothing : ◌≡◌ {A = Option Text} none (some v) → ⊥
    nothing h = cc

actual-Grants :
    (k : Canonical) (c : CorsConfig) (request : Map Text)
    → Grants c (header_of (codes "Origin") request) (actual_headers k c request)
unfolding actual_headers
actual-Grants k c request =
    let origin = header_of (codes "Origin") request in
    guarded-Grants c origin _ (
      lookup-set_if (not (str_eq (expose_value k c) [])) allow_origin_header
        (codes "Access-Control-Expose-Headers") (expose_value k c) _ (unfold str_eq in refl)
      ∙ lookup-set_if c.allow_credentials allow_origin_header
          (codes "Access-Control-Allow-Credentials") (codes "true") _ (unfold str_eq in refl)
      ∙ lookup-first allow_origin_header (allow_origin_value c origin))

preflight-Grants :
    (k : Canonical) (c : CorsConfig) (request : Map Text)
    → Grants c (header_of (codes "Origin") request) (preflight_headers k c request)
unfolding preflight_headers allow_headers
preflight-Grants k c request =
    let origin = header_of (codes "Origin") request in
    guarded-Grants c origin _ (
      lookup-set_if _ allow_origin_header (codes "Access-Control-Allow-Private-Network")
        (codes "true") _ (unfold str_eq in refl)
      ∙ lookup-set_if _ allow_origin_header (codes "Access-Control-Max-Age")
          (max_age_text c.max_age) _ (unfold str_eq in refl)
      ∙ lookup-set_if c.allow_credentials allow_origin_header
          (codes "Access-Control-Allow-Credentials") (codes "true") _ (unfold str_eq in refl)
      ∙ lookup-set_if _ allow_origin_header (codes "Access-Control-Allow-Headers") _ _
          (unfold str_eq in refl)
      ∙ lookup-set_if true allow_origin_header (codes "Access-Control-Allow-Methods")
          (methods_value k c) _ (unfold str_eq in refl)
      ∙ lookup-first allow_origin_header (allow_origin_value c origin))

either-Grants :
    (k : Canonical) (c : CorsConfig) (request : Map Text) (b : Bool)
    → Grants c (header_of (codes "Origin") request) (
        headers_of (
          if b
          then answered (preflight_headers k c request)
          else passed_on (actual_headers k c request)))
either-Grants k c request true = preflight-Grants k c request
either-Grants k c request false = actual-Grants k c request

allow_origin_value-cases :
    (c : CorsConfig) (origin : Text)
    → (allow_origin_value c origin ≡ origin)
      ⊎ ((allow_origin_value c origin ≡ star) × (c.allow_credentials ≡ false))
unfolding allow_origin_value
allow_origin_value-cases c origin = ground arith

-- Whatever the request is, a response carries Access-Control-Allow-Origin only for an origin that is
-- given and allowed; its value is that origin, or, where credentials are not allowed, it may be `*`.
pub serve-allow_origin :
    (k : Canonical) (c : CorsConfig) (method : Text) (request : Map Text) (v : Text)
    → lookup allow_origin_header (headers_of (serve k c method request)) ≡ some v
    → let origin = header_of (codes "Origin") request in
      (origin ≢ [])
      × (origin_allowed c origin ≡ true)
      × ((v ≡ origin) ⊎ ((v ≡ star) × (c.allow_credentials ≡ false)))
unfolding serve
serve-allow_origin k c method request v h =
    let origin = header_of (codes "Origin") request in
    let (given, allowed, value) = either-Grants k c request _ v h in
    (
      given,
      allowed,
      elim (allow_origin_value-cases c origin) [
        | inl same ↦ inl (value ∙ same)
        | inr (any_origin, no_credentials) ↦ inr (value ∙ any_origin, no_credentials)
      ],
    )

check_origins-no_star : (os : List Text) → check_origins true os ≡ none → has_star os ≡ false
unfolding check_origins check_origin
check_origins-no_star [] h = refl
check_origins-no_star (o ∷ os) h = ground (arith, check_origins-no_star os, str_eq_iff o star)

-- A configuration that is accepted and allows credentials has no `*` among its origins, its methods
-- and its exposed headers.
pub validate-credentials :
    (c : CorsConfig)
    → validate c ≡ none
    → c.allow_credentials ≡ true
    → (has_star c.allowed_origins ≡ false)
      × (has_star c.allowed_methods ≡ false)
      × (has_star c.expose_headers ≡ false)
unfolding validate
validate-credentials c h creds = ground (
  arith,
  ap (λ b. check_origins b c.allowed_origins) creds,
  check_origins-no_star c.allowed_origins,
)
