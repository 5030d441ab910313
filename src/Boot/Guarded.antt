-- ===== src/Boot/Guarded.antt =====
-- From the environment to a request: what an engine serves that boots with authentication switched on.
use rampart.Base.Strings.{trim_space}
use rampart.Base.{
  ◌≡◌, refl, sym, ap, ◌∙◌, ◌≢◌, ◌⊎◌, inl, inr, true, Option, none, some, [], Text, bytes, ◌==◌,
  eq_iff, Text-eq, ℕ-eq, Bool-cases,
}
use rampart.Domain.Incident.{Time}
use rampart.Auth.{
  AuthOptions, Principal, Claims, Jwt, KeyError, no_signing_key, ok, err, Request, serves, set_auth,
  default_exempt_paths, key_func, parser_options, auth,
}
use rampart.Auth.Cors.{CorsOptions, Headers, passed, cors, handler}
use rampart.Auth.Admits.{Exempt, Credential, auth-Admitted}
use rampart.Native.Calls.{Sidecar}
use rampart.Boot.{
  Backend, Config, Scan, from_env, Database, BootError, App, auth_of, open_storage, new_app,
}
use rampart.Boot.Locked.{key_of, SwitchedOn, from_env-Locked}

-- Parser.ParseWithClaims gives no claims where the Keyfunc returns an error.
abbrev pub RefusesKeyErrors : {PublicKey : Type 0} → Jwt PublicKey → Type 0
RefusesKeyErrors jwt =
    (o : _) (e : KeyError) (raw : Text) (c : Claims) → jwt.parse_with_claims o (err e) raw ≢ ok c

-- The request is exempt and carries no principal, or its token is verified under a key of the
-- environment.
abbrev pub Guarded :
    {PublicKey : Type 0}
    → Jwt PublicKey
    → AuthOptions
    → Text
    → Time
    → Request
    → Option Principal
    → Type 0
Guarded jwt opts key now r none = Exempt r.path default_exempt_paths
Guarded jwt opts key now r (some p) =
    (opts.signing_key ≡ key) × (key ≢ []) × Credential jwt opts now r p

module _ {PublicKey : Type 0} (jwt : Jwt PublicKey) where
  wired-auth :
      (db : Database) (cfg : Config) (socket : Text → Sidecar) (app : App)
      → new_app db cfg socket ≡ inr app
      → app.auth ≡ auth_of db cfg
  unfolding new_app
  wired-auth db cfg socket app e = by_store (open_storage db cfg) refl
    where
      by_store : (o : BootError ⊎ Backend) → open_storage db cfg ≡ o → app.auth ≡ auth_of db cfg
      by_store (inl x) o = cc (rw o at e)
      by_store (inr store) o = sym (
          ap (λ (x : BootError ⊎ App). elim x [ inl y ↦ auth_of db cfg | inr a ↦ a.auth ])
            (rw o at e))

  served :
      (opts : AuthOptions) (copts : CorsOptions) (now : Time) (r : Request) (hs : Headers)
      (p : Option Principal)
      → handler jwt opts copts now r ≡ (hs, passed (serves p))
      → auth jwt opts now r ≡ serves p
  unfolding handler cors
  served opts copts now r hs p e = elim (Bool-cases (r.method == bytes "OPTIONS")) [
    | inl o ↦ absurd (cc (rw o at e))
    | inr o ↦ cc (rw o at e)
  ]

  keyed :
      RefusesKeyErrors jwt
      → (opts : AuthOptions) (now : Time) (r : Request) (p : Principal)
      → Credential jwt opts now r p
      → opts.signing_key ≢ []
  unfolding key_func
  keyed refuses opts now r p (given, header, some_token, (claims, parsed, named, same)) none_set =
      refuses (parser_options opts now) no_signing_key (trim_space given) claims
        (rw ((eq_iff opts.signing_key []).1 none_set) at parsed)

  guarded :
      RefusesKeyErrors jwt
      → (opts : AuthOptions) (key : Text) (now : Time) (r : Request) (p : Option Principal)
      → opts.enabled ≡ true
      → opts.signing_key ≡ key
      → opts.exempt_paths ≡ default_exempt_paths
      → auth jwt opts now r ≡ serves p
      → Guarded jwt opts key now r p
  guarded refuses opts key now r none on keyed_by_env exempt e =
      elim ((auth-Admitted jwt opts now r none).0 e) [
        | inl off ↦ absurd (cc (on, off))
        | inr path ↦ rw exempt at path
      ]
  guarded refuses opts key now r (some p) on keyed_by_env exempt e =
      let (closed, credential) = (auth-Admitted jwt opts now r (some p)).0 e in
      (keyed_by_env, λ h. keyed refuses opts now r p credential (keyed_by_env ∙ h), credential)

  exempt_of : (db : Database) (cfg : Config) → (auth_of db cfg).exempt_paths ≡ default_exempt_paths
  unfolding set_auth default_exempt_paths
  exempt_of db cfg = refl

  fields_of :
      (db : Database) (cfg : Config)
      → ((auth_of db cfg).enabled ≡ cfg.auth_enabled)
        × ((auth_of db cfg).signing_key ≡ cfg.auth_signing_key)
  unfolding set_auth
  fields_of db cfg = (refl, refl)

  -- An engine that boots from an environment in which RAMPART_AUTH_ENABLED is "true", in any case of
  -- its letters, or "1", serves a request only if its path is one of the four exempt ones or lies
  -- below one, or if it carries a token that is verified under RAMPART_AUTH_SIGNING_KEY, and that is
  -- not empty: without a key nothing but the exempt paths is served. No other setting changes this,
  -- provided that the JWT library accepts no token where it is given no key.
  pub from_env-Guarded :
      RefusesKeyErrors jwt
      → (scan : Scan) (lookup_env : Text → Option Text) (db : Database) (socket : Text → Sidecar)
        (app : App)
      → SwitchedOn scan lookup_env
      → new_app db (from_env scan lookup_env) socket ≡ inr app
      → (now : Time) (r : Request) (hs : Headers) (p : Option Principal)
      → handler jwt app.auth app.cors now r ≡ (hs, passed (serves p))
      → Guarded jwt app.auth (key_of scan lookup_env) now r p
  from_env-Guarded refuses scan lookup_env db socket app on booted now r hs p answer =
      let cfg = from_env scan lookup_env in
      let same = wired-auth db cfg socket app booted in
      let (enabled, key) = from_env-Locked scan lookup_env on in
      let (enabled', key') = fields_of db cfg in
      guarded refuses app.auth (key_of scan lookup_env) now r p
        (ap (λ (a : AuthOptions). a.enabled) same ∙ enabled' ∙ enabled)
        (ap (λ (a : AuthOptions). a.signing_key) same ∙ key' ∙ key)
        (ap (λ (a : AuthOptions). a.exempt_paths) same ∙ exempt_of db cfg)
        (served app.auth app.cors now r hs p answer)
