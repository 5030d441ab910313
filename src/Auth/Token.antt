-- ===== src/Auth/Token.antt =====
-- IssueAuthToken and clampTTL of engine/internal/api/handlers_auth.go, and IssueHS256 of
-- engine/internal/api/middleware/auth.go. A duration is in nanoseconds.
use rampart.Base.{
  ℕ, zero, suc, ◌+◌, ◌-◌, ◌*◌, not, Option, none, some, [], ◌∷◌, Text, bytes, ◌==◌, Text-eq, ℕ-eq,
  if◌then◌else◌,
}
use Prim.Native.Nat.{◌%◌}
use rampart.Base.Int.{ℤ, pos, negsuc, int64, lt_int, whole}
use rampart.Domain.Incident.{Time}
use rampart.Auth.{AuthOptions, Scope, Claims, Jwt, Either, ok, err, scope_write}

abbrev pub second : ℕ
second = 1000000000

-- gen.AuthTokenRequest
pub record AuthTokenRequest : Type 0 where
  pub scope : Option Text
  pub subject : Text
  pub ttl_seconds : Option ℤ

-- What the handler replies: 503, 400 twice, 500, or 200 with the token and its end.
pub data TokenReply : Type 0 where
  auth_disabled invalid_body subject_required : TokenReply
  auth_sign_failed : Text → TokenReply
  issued : Text → Time → TokenReply

pub data IssueError : Type 0 where
  no_signing_key : IssueError
  sign_failed : Text → IssueError

-- `time.Duration(n) * time.Second`, on int64.
unfoldable pub seconds : ℤ → ℤ
seconds (pos n) = int64 ((n * second) % whole)
seconds (negsuc n) = int64 ((whole - (suc n * second) % whole) % whole)

-- 60 s and 24 h.
abbrev pub min_ttl : ℕ
min_ttl = 60000000000

abbrev pub max_ttl : ℕ
max_ttl = 86400000000000

unfoldable pub clamp_ttl : ℤ → ℤ
clamp_ttl d =
    if lt_int d (pos min_ttl)
    then pos min_ttl
    else if lt_int (pos max_ttl) d
    then pos max_ttl
    else d

-- `if ttl <= 0 { ttl = time.Hour }`
abbrev pub positive_or_hour : ℤ → ℕ
positive_or_hour (pos zero) = 3600000000000
positive_or_hour (pos (suc n)) = suc n
positive_or_hour (negsuc n) = 3600000000000

abbrev pub scope_of : AuthTokenRequest → Scope
scope_of req = elim req.scope [ none ↦ scope_write | some s ↦ s ]

unfoldable pub ttl_of : AuthTokenRequest → ℤ
ttl_of req = elim req.ttl_seconds [ none ↦ pos 3600000000000 | some n ↦ clamp_ttl (seconds n) ]

module _ {PublicKey : Type 0} (jwt : Jwt PublicKey) where
  unfoldable pub new_claims : Text → Text → Scope → Time → Time → Claims
  new_claims subject audience scope now exp = record {
    scope = scope;
    subject = subject;
    audience = if not (audience == []) then audience ∷ [] else [];
    issued_at = some (jwt.numeric_date now);
    not_before = some (jwt.numeric_date now);
    expires_at = some (jwt.numeric_date exp);
  }

  abbrev signed_until : Time → Either Text Text → Either (Text × Time) IssueError
  signed_until exp (err e) = err (sign_failed e)
  signed_until exp (ok token) = ok (token, exp)

  -- IssueHS256
  unfoldable pub issue_hs256 :
      Text → Text → Text → Scope → ℤ → Time → Either (Text × Time) IssueError
  issue_hs256 secret subject audience scope ttl now =
      let exp = now + positive_or_hour ttl in
      if secret == []
      then err no_signing_key
      else signed_until exp (jwt.sign_hs256 (new_claims subject audience scope now exp) secret)

  abbrev replied : Either (Text × Time) IssueError → TokenReply
  replied (err no_signing_key) = auth_sign_failed (bytes "signing key not configured")
  replied (err (sign_failed e)) = auth_sign_failed e
  replied (ok (token, exp)) = issued token exp

  abbrev token_for : AuthOptions → Time → AuthTokenRequest → TokenReply
  token_for opts now req =
      if req.subject == []
      then subject_required
      else replied
          (issue_hs256 opts.signing_key req.subject opts.audience (scope_of req) (ttl_of req) now)

  -- IssueAuthToken; `none` is a body that decodeJSON refuses.
  unfoldable pub issue_auth_token : AuthOptions → Time → Option AuthTokenRequest → TokenReply
  issue_auth_token opts now body =
      if opts.signing_key == []
      then auth_disabled
      else elim body [ none ↦ invalid_body | some req ↦ token_for opts now req ]
