-- ===== src/Auth/Admits.antt =====
-- The auth middleware of engine/internal/api/middleware/auth.go: exactly which requests pass.
use rampart.Base.{
  ◌≡◌, refl, sym, ◌∙◌, ◌≢◌, ◌↔◌, ◌⊎◌, inl, inr, true, false, not, ◌||◌, Option, none, some, List,
  [], ◌∷◌, ◌++◌, arith, Text, bytes, ◌==◌, eq_iff, ne_of_eq_false, Text-eq, ℕ-eq, In, Bool-cases,
  Option-cases,
}
use rampart.Base.Strings.{has_prefix, trim_space}
use rampart.Domain.Incident.{Time}
use rampart.Parsers.Lines.{cut_prefix}
use rampart.Auth.{
  AuthOptions, Principal, Claims, Jwt, Either, ok, err, Request, Verdict, serves, denies, is_exempt,
  bearer_token, normalise_scope, parser_options, key_func, after_validate, after_token, validate,
  auth, AuthError, auth_missing,
}

-- A path is exempt if it is one of the paths or lies below one.
abbrev pub Exempt : Text → List Text → Type 0
Exempt path ps =
    (p : Text) × In p ps × ((path ≡ p) ⊎ ((rest : Text) × (path ≡ p ++ bytes "/" ++ rest)))

pub has_prefix_iff : (s p : Text) → (has_prefix s p ≡ true) ↔ ((rest : Text) × (s ≡ p ++ rest))
unfolding has_prefix
has_prefix_iff s [] = (λ h. (s, refl), λ h. refl)
has_prefix_iff [] (x ∷ p) = ground arith
has_prefix_iff (c ∷ s) (x ∷ p) = elim (Bool-cases (c == x)) [
  | inl e ↦ rw e (
    λ h. let (rest, same) = (has_prefix_iff s p).0 h in (rest, cc ((eq_iff c x).0 e, same)),
    λ (rest, same). (has_prefix_iff s p).1 (rest, cc same),
  )
  | inr e ↦ rw e (λ h. cc h, λ (rest, same). ground (arith, e, same))
]

pub cut_prefix_iff : (s p rest : Text) → (cut_prefix s p ≡ some rest) ↔ (s ≡ p ++ rest)
unfolding cut_prefix
cut_prefix_iff s [] rest = ground arith
cut_prefix_iff [] (x ∷ p) rest = ground arith
cut_prefix_iff (c ∷ s) (x ∷ p) rest = elim (Bool-cases (c == x)) [
  | inl e ↦ rw e (
    λ h. cc ((eq_iff c x).0 e, (cut_prefix_iff s p rest).0 h),
    λ same. (cut_prefix_iff s p rest).1 (cc same),
  )
  | inr e ↦ rw e (λ h. cc h, λ same. ground (arith, e, same))
]

reaches_iff :
    (path p : Text)
    → (path == p || has_prefix path (p ++ bytes "/") ≡ true)
      ↔ ((path ≡ p) ⊎ ((rest : Text) × (path ≡ p ++ bytes "/" ++ rest)))
reaches_iff path p = elim (Bool-cases (path == p)) [
  | inl e ↦ rw e (λ h. inl ((eq_iff path p).0 e), λ how. refl)
  | inr e ↦ rw e (
    λ h. let (rest, same) = (has_prefix_iff path (p ++ bytes "/")).0 h in inr (rest, same),
    λ how. elim how [
      | inl same ↦ absurd (ne_of_eq_false path p e same)
      | inr (rest, same) ↦ (has_prefix_iff path (p ++ bytes "/")).1 (rest, same)
    ],
  )
]

pub is_exempt_iff : (path : Text) (ps : List Text) → (is_exempt path ps ≡ true) ↔ Exempt path ps
unfolding is_exempt
is_exempt_iff path [] = (λ h. cc h, λ (p, here, how). absurd here)
is_exempt_iff path (p ∷ ps) = elim (Bool-cases (path == p || has_prefix path (p ++ bytes "/"))) [
  | inl e ↦ rw e (λ h. (p, inl refl, (reaches_iff path p).0 e), λ found. refl)
  | inr e ↦ rw e (
    λ h. let (q, here, how) = (is_exempt_iff path ps).0 h in (q, inr here, how),
    λ (q, here, how). elim here [
      | inl same ↦ absurd (cc (e, (reaches_iff path p).1 (rw (sym same) how)))
      | inr later ↦ (is_exempt_iff path ps).1 (q, later, how)
    ],
  )
]

bearer_token_iff :
    (header token : Text)
    → token ≢ []
    → (bearer_token header ≡ token)
      ↔ ((given : Text) × (header ≡ bytes "Bearer " ++ given) × (trim_space given ≡ token))
unfolding bearer_token cut_prefix trim_space
bearer_token_iff header token some_token =
    elim (Option-cases (cut_prefix header (bytes "Bearer "))) [
      | inl bare ↦ rw bare (
        λ h. absurd (some_token (sym h)),
        λ (given, same, t). cc (bare, (cut_prefix_iff header (bytes "Bearer ") given).1 same),
      )
      | inr (rest, cut) ↦ rw cut (
        λ h. (rest, (cut_prefix_iff header (bytes "Bearer ") rest).0 cut, h),
        λ (given, same, t). cc (cut, t, (cut_prefix_iff header (bytes "Bearer ") given).1 same),
      )
    ]

module _ {PublicKey : Type 0} (jwt : Jwt PublicKey) (opts : AuthOptions) (now : Time) where
  -- The library accepts the token, which names a subject, and the principal is the one that it names.
  abbrev pub Verified : Text → Principal → Type 0
  Verified raw p =
      (claims : Claims) × (jwt.parse_with_claims (parser_options opts now) (key_func jwt opts) raw
        ≡ ok claims)
      × (claims.subject ≢ [])
      × (p ≡ record { subject = claims.subject; scope = normalise_scope claims.scope })

  Parsed-cases : (a : Either Claims Text) → ((e : Text) × (a ≡ err e)) ⊎ ((c : Claims) × (a ≡ ok c))
  Parsed-cases (err e) = inl (e, refl)
  Parsed-cases (ok c) = inr (c, refl)

  pub validate_iff :
      (raw : Text) (p : Principal)
      → (after_validate jwt (validate jwt raw opts now) ≡ serves (some p)) ↔ Verified raw p
  unfolding validate
  validate_iff raw p =
      elim (Parsed-cases
        (jwt.parse_with_claims (parser_options opts now) (key_func jwt opts) raw)) [
          | inl (e, failed) ↦ rw failed (λ h. cc h, λ (c, parsed, named, same). cc parsed)
          | inr (c, parsed) ↦ elim (Bool-cases (c.subject == [])) [
            | inl e ↦
                rw (parsed, e)
                  (
                    λ h. cc h,
                    λ (d, again, named, same).
                        absurd (named (cc (again, (eq_iff c.subject []).0 e))),
                  )
            | inr e ↦
                rw (parsed, e)
                  (
                    λ h. (c, refl, ne_of_eq_false c.subject [] e, cc h),
                    λ (d, again, named, same). cc (again, same),
                  )
          ]
        ]

  names : (a : Either Principal AuthError) → after_validate jwt a ≡ serves none → ⊥
  names (err e) h = cc h
  names (ok p) h = cc h

module _ {PublicKey : Type 0} (jwt : Jwt PublicKey) (opts : AuthOptions) (now : Time)
    (r : Request) where
  -- No token is asked for.
  abbrev pub Open : Type 0
  Open = (opts.enabled ≡ false) ⊎ Exempt r.path opts.exempt_paths

  -- The header carries a token that is verified.
  abbrev pub Credential : Principal → Type 0
  Credential p =
      (given : Text) × (r.authorization ≡ bytes "Bearer " ++ given)
      × (trim_space given ≢ [])
      × Verified jwt opts now (trim_space given) p

  abbrev pub Admitted : Option Principal → Type 0
  Admitted none = Open
  Admitted (some p) = (Open → ⊥) × Credential p

  Open_iff : (not opts.enabled || is_exempt r.path opts.exempt_paths ≡ true) ↔ Open
  Open_iff = elim (Bool-cases opts.enabled) [
    | inl on ↦ rw on (
      λ h. inr ((is_exempt_iff r.path opts.exempt_paths).0 h),
      λ how. elim how [
        | inl off ↦ cc off
        | inr exempt ↦ (is_exempt_iff r.path opts.exempt_paths).1 exempt
      ],
    )
    | inr off ↦ rw off (λ h. inl refl, λ how. refl)
  ]

  unasked :
      Open → (q : Option Principal) → (◌≡◌ {A = Verdict} (serves none) (serves q)) ↔ Admitted q
  unasked o none = (λ h. o, λ h. refl)
  unasked o (some q) = (λ h. cc h, λ (closed, c). absurd (closed o))

  checked :
      (Open → ⊥)
      → (q : Option Principal)
      → (after_token jwt opts now (bearer_token r.authorization) ≡ serves q) ↔ Admitted q
  checked closed q = elim (Bool-cases (bearer_token r.authorization == [])) [
    | inl e ↦ rw e (missing ((eq_iff (bearer_token r.authorization) []).0 e) q)
    | inr e ↦ rw e (given_token (ne_of_eq_false (bearer_token r.authorization) [] e) q)
  ]
    where
      missing :
          bearer_token r.authorization ≡ []
          → (q' : Option Principal) → (denies auth_missing ≡ serves q') ↔ Admitted q'
      missing e none = (λ h. cc h, λ o. absurd (closed o))
      missing e (some p) = (
        λ h. cc h,
        λ (c, (given, header, nonempty, v)). absurd (
            nonempty (
              sym (
                (bearer_token_iff r.authorization (trim_space given) nonempty).1
                  (given, header, refl))
              ∙ e)),
      )

      given_token :
          bearer_token r.authorization ≢ []
          → (q' : Option Principal)
          → (after_validate jwt (validate jwt (bearer_token r.authorization) opts now) ≡ serves q')
            ↔ Admitted q'
      given_token e none = (
        λ h. absurd (names jwt opts now (validate jwt (bearer_token r.authorization) opts now) h),
        λ o. absurd (closed o),
      )
      given_token e (some p) = (
        λ h.
            let (given, header, same) =
              (bearer_token_iff r.authorization (bearer_token r.authorization) e).0 refl in
            (
              closed,
              (
                given,
                header,
                rw same e,
                rw same ((validate_iff jwt opts now (bearer_token r.authorization) p).0 h),
              ),
            ),
        λ (c, (given, header, nonempty, v)).
            rw
              ((bearer_token_iff r.authorization (trim_space given) nonempty).1
                (given, header, refl))
              ((validate_iff jwt opts now (trim_space given) p).1 v),
      )

  -- A request reaches the next handler without a principal exactly when authentication is switched
  -- off, or its path is one of the exempt ones or lies below one. It reaches the next handler with a
  -- principal exactly when neither holds and its Authorization header is "Bearer " and a token that
  -- is not empty, that the JWT library accepts under the options and the key of the configuration,
  -- and whose subject is not empty; the principal then is that subject with the scope of the token,
  -- and a token of any scope will do.
  pub auth-Admitted : (p : Option Principal) → (auth jwt opts now r ≡ serves p) ↔ Admitted p
  unfolding auth
  auth-Admitted p = elim (Bool-cases (not opts.enabled || is_exempt r.path opts.exempt_paths)) [
    | inl free ↦ rw free (unasked (Open_iff.0 free) p)
    | inr asked ↦ rw asked (checked (λ o. cc (asked, Open_iff.1 o)) p)
  ]
