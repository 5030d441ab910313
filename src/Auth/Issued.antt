-- ===== src/Auth/Issued.antt =====
-- The tokens of IssueAuthToken before the auth middleware, given what golang-jwt documents.
use rampart.Base.{
  ℕ, zero, suc, ◌+◌, ◌≤◌, ◌<◌, ◌≡◌, refl, ◌≢◌, inl, inr, true, false, some, [], ◌++◌, arith, Text,
  bytes, ◌==◌, eq_false, Text-eq, ℕ-eq, In, All, ltb, Bool-cases, Option-cases,
}
use rampart.Base.Int.{ℤ, pos, negsuc}
use rampart.Base.Strings.{trim_space}
use rampart.Domain.Incident.{Time}
use rampart.Auth.{
  AuthOptions, Principal, Claims, Jwt, ParserOptions, hmac, ok, Request, serves, is_rs256,
  allowed_methods, normalise_scope, parser_options, key_func, auth,
}
use rampart.Auth.Token.{
  AuthTokenRequest, issued, second, min_ttl, max_ttl, seconds, clamp_ttl, positive_or_hour,
  scope_of, ttl_of, new_claims, issue_hs256, issue_auth_token,
}
use rampart.Auth.Admits.{Exempt, auth-Admitted}

-- The lifetime of a token that is asked for.
abbrev pub lifetime : AuthTokenRequest → ℕ
lifetime req = positive_or_hour (ttl_of req)

-- What is one byte in JSON and in UTF-8.
abbrev pub Ascii : Text → Type 0
Ascii s = All (λ c. c < 128) s

-- Times that a JSON number tells apart by seconds.
abbrev pub horizon : ℕ
horizon = 9007199254740992000000000

module _ {PublicKey : Type 0} (jwt : Jwt PublicKey) where
  -- The options accept a token with these claims.
  pub record Accepts (opts : ParserOptions) (c : Claims) (now exp : Time) : Type 0 where
    pub method : In (bytes "HS256") opts.valid_methods
    pub from_issue : c.issued_at ≡ some (jwt.numeric_date now)
    pub from_now : c.not_before ≡ some (jwt.numeric_date now)
    pub until : c.expires_at ≡ some (jwt.numeric_date exp)
    pub far : exp < horizon
    pub started : jwt.numeric_date now ≤ opts.time
    pub running : opts.time < jwt.numeric_date exp
    pub for_audience : (a : Text) → opts.audience ≡ some a → In a c.audience
    pub plain : Ascii c.scope × Ascii c.subject × All Ascii c.audience

  -- A token that was signed with HS256 for these claims is accepted under the same secret, and gives
  -- them back.
  abbrev pub Verifies : Claims → Text → Type 0
  Verifies c secret =
      (token : Text) (opts : ParserOptions) (now exp : Time)
      → jwt.sign_hs256 c secret ≡ ok token
      → Accepts opts c now exp
      → jwt.parse_with_claims opts (ok (hmac secret)) token ≡ ok c

  -- HS256 signs these claims with a secret that is not empty. A token is not empty and begins and ends with
  -- no space.
  abbrev pub Signs : Claims → Text → Type 0
  Signs c secret =
      secret ≢ []
      → (token : Text) × (jwt.sign_hs256 c secret ≡ ok token)
        × (token ≢ [])
        × (trim_space token ≡ token)

  -- A NumericDate is the time cut off to whole seconds.
  abbrev pub Truncates : Type 0
  Truncates = (t : Time) → (jwt.numeric_date t ≤ t) × (t < jwt.numeric_date t + second)

clamp_ttl-Within : (d : ℤ) → (n : ℕ) × (clamp_ttl d ≡ pos n) × min_ttl ≤ n × n ≤ max_ttl
unfolding clamp_ttl
clamp_ttl-Within (negsuc n) = (min_ttl, refl, omega arith, omega arith)
clamp_ttl-Within (pos n) = elim (Bool-cases (ltb n min_ttl)) [
  | inl low ↦ rw low (min_ttl, refl, omega arith, omega arith)
  | inr e ↦ elim (Bool-cases (ltb max_ttl n)) [
    | inl high ↦ rw (e, high) (max_ttl, refl, omega arith, omega arith)
    | inr f ↦ rw (e, f) (n, refl, ground (arith, e), ground (arith, f))
  ]
]

by_clamp :
    (d : ℤ)
    → ((n : ℕ) × (d ≡ pos n) × min_ttl ≤ n × n ≤ max_ttl)
    → (min_ttl ≤ positive_or_hour d) × (positive_or_hour d ≤ max_ttl)
by_clamp d (zero, e, low, high) = absurd (omega (arith, low))
by_clamp d (suc n, e, low, high) = rw e (low, high)

pub lifetime-Within : (req : AuthTokenRequest) → (min_ttl ≤ lifetime req) × (lifetime req ≤ max_ttl)
unfolding ttl_of
lifetime-Within req = elim (Option-cases req.ttl_seconds) [
  | inl e ↦ rw e (omega arith, omega arith)
  | inr (n, e) ↦ rw e (by_clamp (clamp_ttl (seconds n)) (clamp_ttl-Within (seconds n)))
]

module _ {PublicKey : Type 0} (jwt : Jwt PublicKey) (opts : AuthOptions) (now : Time)
    (req : AuthTokenRequest) where
  -- The claims of the token that is handed out.
  abbrev pub issued_claims : Claims
  issued_claims = new_claims jwt req.subject opts.audience (scope_of req) now (now + lifetime req)

  issued_as :
      (token : Text)
      → opts.signing_key ≢ []
      → req.subject ≢ []
      → jwt.sign_hs256 issued_claims opts.signing_key ≡ ok token
      → issue_auth_token jwt opts now (some req) ≡ issued token (now + lifetime req)
  unfolding issue_auth_token issue_hs256
  issued_as token keyed named signed =
      rw (eq_false opts.signing_key [] keyed, eq_false req.subject [] named, signed) refl

  in_audience :
      (a : Text) → (parser_options opts now).audience ≡ some a → In a issued_claims.audience
  unfolding new_claims
  in_audience a e = elim (Bool-cases (opts.audience == [])) [
    | inl empty ↦ absurd (cc (rw empty at e))
    | inr some_audience ↦ rw some_audience (inl (cc (rw some_audience at e)))
  ]

  plain_audience : Ascii opts.audience → All Ascii issued_claims.audience
  unfolding new_claims
  plain_audience plain = elim (Bool-cases (opts.audience == [])) [
    | inl empty ↦ rw empty tt
    | inr some_audience ↦ rw some_audience (plain, tt)
  ]

  accepted :
      Truncates jwt
      → is_rs256 opts.algorithm ≡ false
      → Ascii (scope_of req) × Ascii req.subject × Ascii opts.audience
      → now + lifetime req < horizon
      → (later : Time) → now ≤ later
      → later + second ≤ now + lifetime req
      → Accepts jwt (parser_options opts later) issued_claims now (now + lifetime req)
  unfolding new_claims allowed_methods
  accepted truncates hs256 (scope, subject, audience) far later after before = record {
    method = rw hs256 (inl refl);
    from_issue = refl;
    from_now = refl;
    until = refl;
    far = far;
    started = omega (arith, truncates now, after);
    running = omega (arith, truncates (now + lifetime req), before);
    for_audience = in_audience;
    plain = (scope, subject, plain_audience audience);
  }

  verified :
      (token : Text)
      → Verifies jwt issued_claims opts.signing_key
      → opts.signing_key ≢ []
      → is_rs256 opts.algorithm ≡ false
      → jwt.sign_hs256 issued_claims opts.signing_key ≡ ok token
      → (later : Time)
      → Accepts jwt (parser_options opts later) issued_claims now (now + lifetime req)
      → jwt.parse_with_claims (parser_options opts later) (key_func jwt opts) token
        ≡ ok issued_claims
  unfolding key_func
  verified token verifies keyed hs256 signed later accepts =
      rw (eq_false opts.signing_key [] keyed, hs256)
        (verifies token (parser_options opts later) now (now + lifetime req) signed accepts)

  -- Where authentication is switched on with HS256 and a signing key, and the JWT library behaves as
  -- documented: IssueAuthToken hands out a token to a request that names a subject, its end between
  -- a minute and a day away, whatever lifetime is asked for; and from its issue until a second before
  -- that end the auth middleware passes a request for a path that is not exempt with this token in
  -- its Authorization header on to the next handler, as the subject and with the scope that were
  -- asked for, the latter normalised. The texts are ASCII, and the end
  -- lies before the year 285 million.
  pub issue_auth_token-Admitted :
      Signs jwt issued_claims opts.signing_key
      → Verifies jwt issued_claims opts.signing_key
      → Truncates jwt
      → opts.enabled ≡ true
      → is_rs256 opts.algorithm ≡ false
      → opts.signing_key ≢ []
      → req.subject ≢ []
      → Ascii (scope_of req) × Ascii req.subject × Ascii opts.audience
      → now + lifetime req < horizon
      → (later : Time) → now ≤ later
      → later + second ≤ now + lifetime req
      → (r : Request) → (Exempt r.path opts.exempt_paths → ⊥)
      → (token : Text) × (issue_auth_token jwt opts now (some req)
          ≡ issued token (now + lifetime req))
        × (auth jwt opts later (record r { authorization = bytes "Bearer " ++ token })
            ≡ serves
                (some (record { subject = req.subject; scope = normalise_scope (scope_of req) })))
        × (now + min_ttl ≤ now + lifetime req)
        × (now + lifetime req ≤ now + max_ttl)
  unfolding new_claims
  issue_auth_token-Admitted signs verifies truncates on hs256 keyed named plain far later after
        before r closed =
      let (token, signed, nonempty, trimmed) = signs keyed in
      let r' : Request = record r { authorization = bytes "Bearer " ++ token } in
      let principal : Principal = record {
        subject = req.subject;
        scope = normalise_scope (scope_of req);
      } in
      let parsed =
        verified token verifies keyed hs256 signed later
          (accepted truncates hs256 plain far later after before) in
      (
        token,
        issued_as token keyed named signed,
        (auth-Admitted jwt opts later r' (some principal)).1 (
          λ o. elim o [ inl off ↦ cc (on, off) | inr exempt ↦ closed exempt ],
          (token, refl, rw trimmed nonempty, rw trimmed (issued_claims, parsed, named, refl)),
        ),
        omega (arith, lifetime-Within req),
        omega (arith, lifetime-Within req),
      )
