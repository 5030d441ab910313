-- ===== src/Auth.antt =====
-- engine/internal/api/middleware/auth.go: which requests the auth middleware passes on. golang-jwt,
-- encoding/pem and crypto/x509 are a parameter.
pub mod Admits
pub mod Cors
pub mod Token
pub mod Issued
use rampart.Base.{
  ℕ, zero, suc, ◌+◌, ◌-◌, ◌*◌, ◌≤◌, ◌<◌, ◌≡◌, refl, sym, ap, ◌∙◌, ◌≢◌, ◌↔◌, ◌⊎◌, inl, inr, Bool,
  true, false, not, ◌&&◌, ◌||◌, Option, none, some, List, [], ◌∷◌, ◌++◌, map, arith, Text, bytes,
  String, Eq, ◌==◌, eq_iff, eq_refl, eq_false, ne_of_eq_false, Text-eq, ℕ-eq, contains,
  contains_iff, keep_if, In, All, length, take, if◌then◌else◌, ltb, leb, Bool-cases, Option-cases,
}
use rampart.Base.Strings.{has_prefix, to_lower, trim_space}
use rampart.Domain.Incident.{Time}
use rampart.Parsers.Lines.{cut_prefix}

-- AuthOptions; its Now is an argument of the functions that read the clock.
pub record AuthOptions : Type 0 where
  pub enabled : Bool
  pub signing_key : Text
  pub algorithm : Text
  pub audience : Text
  pub exempt_paths : List Text

unfoldable pub default_exempt_paths : List Text
default_exempt_paths =
    bytes "/healthz" ∷ bytes "/readyz" ∷ bytes "/v1/auth/token" ∷ bytes "/v1/stream" ∷ []

abbrev paths_or_default : List Text → List Text
paths_or_default [] = default_exempt_paths
paths_or_default (p ∷ ps) = p ∷ ps

-- Server.SetAuth: the options that it installs.
unfoldable pub set_auth : AuthOptions → AuthOptions
set_auth opts = record opts { exempt_paths = paths_or_default opts.exempt_paths }

-- Scope and its constants.
abbrev pub Scope : Type 0
Scope = Text

abbrev pub scope_read : Scope
scope_read = bytes "read"

abbrev pub scope_write : Scope
scope_write = bytes "write"

abbrev pub scope_admin : Scope
scope_admin = bytes "admin"

pub record Principal : Type 0 where
  pub subject : Text
  pub scope : Scope

-- scopedClaims, with the registered claims that the code sets or reads.
pub record Claims : Type 0 where
  pub scope : Text
  pub subject : Text
  pub audience : List Text
  pub issued_at : Option Time
  pub not_before : Option Time
  pub expires_at : Option Time

-- The options of jwt.NewParser that validate gives.
pub record ParserOptions : Type 0 where
  pub valid_methods : List Text
  pub time : Time
  pub expiration_required : Bool
  pub audience : Option Text

pub data KeyError : Type 0 where
  no_signing_key not_pem bad_public_key not_rsa : KeyError

-- A call's result, or its error.
pub data Either (A E : Type 0) : Type 0 where
  ok : A → Either A E
  err : E → Either A E

-- What a Keyfunc hands to the parser: an HMAC secret, or an RSA public key.
pub data Key (PublicKey : Type 0) : Type 0 where
  hmac : Text → Key PublicKey
  rsa : PublicKey → Key PublicKey

-- What x509.ParsePKIXPublicKey returns: an error, an RSA key, or a key of another type.
pub data Parsed (PublicKey : Type 0) : Type 0 where
  unparsed : Parsed PublicKey
  rsa_key : PublicKey → Parsed PublicKey
  other_key : Parsed PublicKey

-- The library functions that the code calls.
pub record Jwt (PublicKey : Type 0) : Type 0 where
  -- pem.Decode: the block's bytes.
  pub pem_decode : Text → Option Text
  -- x509.ParsePKIXPublicKey
  pub parse_public_key : Text → Parsed PublicKey
  -- jwt.NewNumericDate
  pub numeric_date : Time → Time
  -- Parser.ParseWithClaims, with what its Keyfunc returns; the error is its text.
  pub parse_with_claims :
      ParserOptions → Either (Key PublicKey) KeyError → Text → Either Claims Text
  -- Token.SignedString for HS256.
  pub sign_hs256 : Claims → Text → Either Text Text

pub data AuthError : Type 0 where
  token_refused : Text → AuthError
  sub_claim_missing : AuthError

-- What writeAuthError is called with, always with the status 401.
pub data Refusal : Type 0 where
  auth_missing : Refusal
  auth_invalid : AuthError → Refusal

-- The next handler is called, with the principal that the request's context carries; or
-- writeAuthError.
pub data Verdict : Type 0 where
  serves : Option Principal → Verdict
  denies : Refusal → Verdict

-- What the middleware reads of a request.
pub record Request : Type 0 where
  pub method : Text
  pub path : Text
  pub authorization : Text
  pub origin : Text

unfoldable pub is_exempt : Text → List Text → Bool
is_exempt path [] = false
is_exempt path (p ∷ ps) =
    let rest = is_exempt path ps in
    if path == p || has_prefix path (p ++ bytes "/") then true else rest

unfoldable pub bearer_token : Text → Text
bearer_token header = elim (cut_prefix header (bytes "Bearer ")) [
  | none ↦ []
  | some rest ↦ trim_space rest
]

-- strings.ToUpper on ASCII.
upper_byte : ℕ → ℕ
upper_byte c = if leb b'a' c && leb c b'z' then c - 32 else c

unfoldable pub to_upper : Text → Text
unfolding upper_byte
to_upper s = map upper_byte s

abbrev pub is_rs256 : Text → Bool
is_rs256 alg = to_upper alg == bytes "RS256"

unfoldable pub allowed_methods : Text → List Text
allowed_methods alg = (if is_rs256 alg then bytes "RS256" else bytes "HS256") ∷ []

unfoldable pub normalise_scope : Text → Scope
normalise_scope s =
    let tier = to_lower (trim_space s) in
    if tier == bytes "write"
    then scope_write
    else if tier == bytes "admin"
    then scope_admin
    else scope_read

abbrev pub parser_options : AuthOptions → Time → ParserOptions
parser_options opts now = record {
  valid_methods = allowed_methods opts.algorithm;
  time = now;
  expiration_required = true;
  audience = if not (opts.audience == []) then some opts.audience else none;
}

module _ {PublicKey : Type 0} (jwt : Jwt PublicKey) where
  abbrev rsa_of : Parsed PublicKey → Either (Key PublicKey) KeyError
  rsa_of unparsed = err bad_public_key
  rsa_of (rsa_key k) = ok (rsa k)
  rsa_of other_key = err not_rsa

  abbrev rsa_from_pem : Option Text → Either (Key PublicKey) KeyError
  rsa_from_pem none = err not_pem
  rsa_from_pem (some block) = rsa_of (jwt.parse_public_key block)

  -- keyFunc: what the function that it returns returns.
  unfoldable pub key_func : AuthOptions → Either (Key PublicKey) KeyError
  key_func opts =
      if opts.signing_key == []
      then err no_signing_key
      else if is_rs256 opts.algorithm
      then rsa_from_pem (jwt.pem_decode opts.signing_key)
      else ok (hmac opts.signing_key)

  abbrev principal_of : Either Claims Text → Either Principal AuthError
  principal_of (err e) = err (token_refused e)
  principal_of (ok claims) =
      if claims.subject == []
      then err sub_claim_missing
      else ok (record { subject = claims.subject; scope = normalise_scope claims.scope })

  unfoldable pub validate : Text → AuthOptions → Time → Either Principal AuthError
  validate raw opts now =
      principal_of (jwt.parse_with_claims (parser_options opts now) (key_func opts) raw)

  abbrev after_validate : Either Principal AuthError → Verdict
  after_validate (err e) = denies (auth_invalid e)
  after_validate (ok p) = serves (some p)

  abbrev after_token : AuthOptions → Time → Text → Verdict
  after_token opts now token =
      if token == [] then denies auth_missing else after_validate (validate token opts now)

  -- Auth; a denied request gets the status 401.
  unfoldable pub auth : AuthOptions → Time → Request → Verdict
  auth opts now r =
      if not opts.enabled || is_exempt r.path opts.exempt_paths
      then serves none
      else after_token opts now (bearer_token r.authorization)
