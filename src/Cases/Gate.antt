-- ===== src/Cases/Gate.antt =====
-- Witnesses for the authentication of the HTTP API, over a JWT library that knows one token.
use rampart.Base.Strings.{trim_space}
use rampart.Base.{
  ◌+◌, ◌≤◌, ◌<◌, ◌≡◌, refl, sym, ◌↔◌, true, false, ◌&&◌, none, some, [], ◌∷◌, ◌++◌, arith, Text,
  bytes, ◌==◌, Text-eq, ℕ-eq, list_eq, if◌then◌else◌,
}
use rampart.Base.Strings.{has_prefix}
use rampart.Base.Int.{pos}
use rampart.Auth.{
  AuthOptions, Claims, Jwt, Key, hmac, rsa, Either, ok, err, KeyError, unparsed, Request, is_exempt,
  to_upper, is_rs256, serves, scope_admin, default_exempt_paths, auth, normalise_scope,
}
use rampart.Auth.Token.{
  AuthTokenRequest, issued, second, min_ttl, max_ttl, new_claims, ttl_of, issue_auth_token,
  scope_of, clamp_ttl, seconds,
}
use rampart.Auth.Admits.{is_exempt_iff, Exempt, Admitted, auth-Admitted}
use rampart.Auth.Issued.{
  lifetime, issued_claims, Verifies, Signs, Truncates, issue_auth_token-Admitted, horizon,
}

abbrev pub secret : Text
secret = bytes "a secret"

abbrev alice : AuthTokenRequest
alice = record { scope = some scope_admin; subject = bytes "alice"; ttl_seconds = some (pos 5) }

abbrev opts : AuthOptions
opts = record {
  enabled = true;
  signing_key = secret;
  algorithm = bytes "HS256";
  audience = bytes "rampart";
  exempt_paths = default_exempt_paths;
}

abbrev token : Text
token = bytes "h.p.s"

-- The claims of alice's token, issued at 1 s and good for a minute.
abbrev alice_claims : Claims
alice_claims = record {
  scope = scope_admin;
  subject = bytes "alice";
  audience = bytes "rampart" ∷ [];
  issued_at = some second;
  not_before = some second;
  expires_at = some (second + min_ttl);
}

abbrev read_token : Either (Key Text) KeyError → Text → Either Claims Text
read_token (ok (hmac s)) raw =
    if s == secret && raw == token then ok alice_claims else err (bytes "signature is invalid")
read_token (ok (rsa k)) raw = err (bytes "key is of invalid type")
read_token (err e) raw = err (bytes "token is unverifiable")

abbrev pub jwt : Jwt Text
jwt = record {
  pem_decode = λ s. none;
  parse_public_key = λ s. unparsed;
  numeric_date = λ t. t;
  parse_with_claims = λ o key raw. read_token key raw;
  sign_hs256 = λ c s. ok token;
}

abbrev pub request : Request
request = record {
  method = bytes "GET";
  path = bytes "/v1/incidents";
  authorization = bytes "Bearer " ++ token;
  origin = [];
}

alice_claims-issued : issued_claims jwt opts second alice ≡ alice_claims
unfolding new_claims ttl_of clamp_ttl seconds list_eq
alice_claims-issued = refl

read_back : (raw : Text) → token ≡ raw → read_token (ok (hmac secret)) raw ≡ ok alice_claims
unfolding list_eq
read_back raw e = rw (sym e) refl

jwt-Verifies : Verifies jwt (issued_claims jwt opts second alice) secret
jwt-Verifies raw o now exp signed accepts = rw alice_claims-issued (read_back raw (cc signed))

jwt-Signs : Signs jwt (issued_claims jwt opts second alice) secret
unfolding trim_space
jwt-Signs keyed = (token, refl, λ h. cc h, refl)

jwt-Truncates : Truncates jwt
jwt-Truncates t = (omega arith, omega arith)

not_exempt : is_exempt request.path opts.exempt_paths ≡ false
unfolding is_exempt has_prefix list_eq default_exempt_paths
not_exempt = refl

guarded : Exempt request.path opts.exempt_paths → ⊥
guarded exempt = cc (not_exempt, (is_exempt_iff request.path opts.exempt_paths).1 exempt)

hs256 : is_rs256 opts.algorithm ≡ false
unfolding to_upper list_eq
hs256 = refl

in_time : second + second + second ≤ second + lifetime alice
unfolding ttl_of clamp_ttl seconds
in_time = omega arith

near : second + lifetime alice < horizon
unfolding ttl_of clamp_ttl seconds
near = omega arith

issue_auth_token-Admitted_example :
    (t : Text) × (issue_auth_token jwt opts second (some alice)
      ≡ issued t (second + lifetime alice))
    × (auth jwt opts (second + second) (record request { authorization = bytes "Bearer " ++ t })
        ≡ serves
            (some (record { subject = bytes "alice"; scope = normalise_scope (scope_of alice) })))
    × (second + min_ttl ≤ second + lifetime alice)
    × (second + lifetime alice ≤ second + max_ttl)
issue_auth_token-Admitted_example =
    issue_auth_token-Admitted jwt opts second alice jwt-Signs jwt-Verifies jwt-Truncates refl hs256
      (λ h. cc h) (λ h. cc h) (omega arith, omega arith, omega arith) near (second + second)
      (omega arith) in_time request guarded

auth-Admitted_example :
    (auth jwt opts (second + second) request
      ≡ serves (some (record { subject = bytes "alice"; scope = scope_admin })))
    ↔ Admitted jwt opts
        (second + second)
        request
        (some (record { subject = bytes "alice"; scope = scope_admin }))
auth-Admitted_example =
    auth-Admitted jwt opts (second + second) request
      (some (record { subject = bytes "alice"; scope = scope_admin }))
