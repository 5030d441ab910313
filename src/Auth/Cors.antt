-- ===== src/Auth/Cors.antt =====
-- engine/internal/api/middleware/cors.go, and Handler of engine/internal/api/server.go, which puts
-- it around the auth middleware.
use rampart.Base.{
  Bool, true, false, not, ◌&&◌, List, [], ◌∷◌, ◌++◌, Text, bytes, ◌==◌, Text-eq, ℕ-eq, contains,
  if◌then◌else◌,
}
use rampart.Base.Strings.{trim_space}
use rampart.Domain.Incident.{Time}
use rampart.Auth.{AuthOptions, Jwt, Request, Verdict, auth}

-- CORSOptions
pub record CorsOptions : Type 0 where
  pub allow_all : Bool
  pub origins : List Text
  pub allowed_methods : List Text
  pub allowed_headers : List Text
  pub exposed_headers : List Text

abbrev pub engine_methods : List Text
engine_methods = bytes "GET" ∷ bytes "POST" ∷ bytes "PUT" ∷ bytes "DELETE" ∷ bytes "OPTIONS" ∷ []

abbrev pub engine_headers : List Text
engine_headers = bytes "Authorization" ∷ bytes "Content-Type" ∷ bytes "Last-Event-ID" ∷ []

abbrev pub engine_exposed : List Text
engine_exposed = bytes "Content-Type" ∷ []

-- DefaultCORSOptions
unfoldable pub default_cors_options : CorsOptions
default_cors_options = record {
  allow_all = true;
  origins = [];
  allowed_methods = engine_methods;
  allowed_headers = engine_headers;
  exposed_headers = engine_exposed;
}

abbrev pub defaulted_slice : List Text → List Text → List Text
defaulted_slice [] fallback = fallback
defaulted_slice (s ∷ ss) fallback = s ∷ ss

-- strings.Join with ", ".
unfoldable pub comma_joined : List Text → Text
comma_joined [] = []
comma_joined (part ∷ []) = part
comma_joined (part ∷ next ∷ parts) = part ++ bytes ", " ++ comma_joined (next ∷ parts)

-- The set of the origins that are allowed, as a list.
unfoldable pub allowed_of : List Text → List Text
allowed_of [] = []
allowed_of (o ∷ os) =
    let rest = allowed_of os in let o' = trim_space o in if not (o' == []) then o' ∷ rest else rest

unfoldable pub allow_origin : Text → Bool → List Text → Bool
allow_origin origin allow_all allowed =
    if allow_all then true else if origin == [] then false else contains allowed origin

unfoldable pub echo_or_wildcard : Text → Bool → Text
echo_or_wildcard origin allow_all = if allow_all && origin == [] then bytes "*" else origin

-- Headers that are set, in the order of the calls.
abbrev pub Headers : Type 0
Headers = List (Text × Text)

unfoldable pub cors_headers : CorsOptions → Text → Headers
cors_headers opts origin =
    if allow_origin origin opts.allow_all (allowed_of opts.origins)
    then (bytes "Access-Control-Allow-Origin", echo_or_wildcard origin opts.allow_all)
      ∷ (bytes "Vary", bytes "Origin")
      ∷ (
        bytes "Access-Control-Allow-Methods",
        comma_joined (defaulted_slice opts.allowed_methods engine_methods),
      )
      ∷ (
        bytes "Access-Control-Allow-Headers",
        comma_joined (defaulted_slice opts.allowed_headers engine_headers),
      )
      ∷ (
        bytes "Access-Control-Expose-Headers",
        comma_joined (defaulted_slice opts.exposed_headers engine_exposed),
      )
      ∷ []
    else []

-- A preflight request is answered with 204; any other goes on.
pub data Answer (A : Type 0) : Type 0 where
  no_content : Answer A
  passed : A → Answer A

-- CORS
unfoldable pub cors : {A : Type 0} → CorsOptions → (Request → A) → Request → Headers × Answer A
cors opts next r = (
  cors_headers opts r.origin,
  if r.method == bytes "OPTIONS" then no_content else passed (next r),
)

-- Server.Handler, up to the handlers that the OpenAPI generator makes.
unfoldable pub handler :
    {PublicKey : Type 0}
    → Jwt PublicKey
    → AuthOptions
    → CorsOptions
    → Time
    → Request
    → Headers × Answer Verdict
handler jwt auth_opts cors_opts now r = cors cors_opts (λ q. auth jwt auth_opts now q) r
