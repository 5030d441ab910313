-- ===== src/Boot/Locked.antt =====
-- FromEnv of engine/internal/config/config.go: what it makes of the settings of the authentication.
use rampart.Base.Strings.{to_lower}
use rampart.Base.{
  ◌≡◌, refl, sym, ◌∙◌, ◌≢◌, inl, inr, true, Option, [], ◌∷◌, Text, bytes, ◌==◌, eq_iff, eq_false,
  Text-eq, ℕ-eq, Bool-cases, list_eq,
}
use rampart.Boot.{
  Config, default_config, Scan, when_set, apply_all, storage_overrides, auth_overrides, getenv,
  service_overrides, from_env, is_on,
}
use rampart.Boot.Keeps.{when_set-Keeps, when_positive-Keeps, apply_all-Keeps, with_origins-Keeps}

-- What the later overrides leave alone.
abbrev Locked : Text → Config → Type 0
Locked key c = (c.auth_enabled ≡ true) × (c.auth_signing_key ≡ key)

abbrev Keyless : Config → Type 0
Keyless c = c.auth_signing_key ≡ []

module _ (scan : Scan) (lookup_env : Text → Option Text) where
  abbrev pub key_of : Text
  key_of = getenv scan lookup_env (bytes "RAMPART_AUTH_SIGNING_KEY")

  abbrev pub SwitchedOn : Type 0
  SwitchedOn = is_on (getenv scan lookup_env (bytes "RAMPART_AUTH_ENABLED")) ≡ true

is_on-set : (v : Text) → is_on v ≡ true → v ≢ []
unfolding to_lower list_eq
is_on-set v h e = cc (rw e at h)

enabled_by :
    (v : Text) (c : Config)
    → is_on v ≡ true
    → (when_set v (λ d. record d { auth_enabled = is_on v }) c).auth_enabled ≡ true
enabled_by v c on = rw (eq_false v [] (is_on-set v on)) on

keyed_by :
    (v : Text) (c : Config)
    → Keyless c
    → (when_set v (λ d. record d { auth_signing_key = v }) c).auth_signing_key ≡ v
keyed_by v c keyless = elim (Bool-cases (v == [])) [
  | inl e ↦ rw e (keyless ∙ sym ((eq_iff v []).0 e))
  | inr e ↦ rw e refl
]

module _ (scan : Scan) (lookup_env : Text → Option Text) where
  stored : Config
  stored = apply_all (storage_overrides scan lookup_env) default_config

  stored-Keyless : Keyless stored
  unfolding stored
  stored-Keyless =
      apply_all-Keeps Keyless (storage_overrides scan lookup_env)
        (
          when_set-Keeps (Keyless) _ _ (λ c s. s),
          (
            when_set-Keeps (Keyless) _ _ (λ c s. s),
            (
              when_set-Keeps (Keyless) _ _ (λ c s. s),
              (
                when_set-Keeps (Keyless) _ _ (λ c s. s),
                (
                  when_set-Keeps (Keyless) _ _ (
                      when_positive-Keeps (Keyless)
                        (scan.sscanf_int32 (getenv scan lookup_env (bytes "RAMPART_DB_MAX_CONNS")))
                        (λ n c. record c { db_max_conns = n }) (λ n p c s. s)),
                  tt,
                ),
              ),
            ),
          ),
        )
        default_config refl

  auth-Locked :
      SwitchedOn scan lookup_env
      → (c : Config) → Keyless c
      → Locked (key_of scan lookup_env) (apply_all (auth_overrides scan lookup_env) c)
  auth-Locked on c keyless =
      let key = key_of scan lookup_env in
      let enabled = getenv scan lookup_env (bytes "RAMPART_AUTH_ENABLED") in
      let c' = when_set enabled (λ d. record d { auth_enabled = is_on enabled }) c in
      apply_all-Keeps (Locked key)
        (when_set (getenv scan lookup_env (bytes "RAMPART_AUTH_ALGORITHM")) (λ d. record d {
          auth_algorithm = getenv scan lookup_env (bytes "RAMPART_AUTH_ALGORITHM");
        })
          ∷ when_set (getenv scan lookup_env (bytes "RAMPART_AUTH_AUDIENCE")) (λ d. record d {
            auth_audience = getenv scan lookup_env (bytes "RAMPART_AUTH_AUDIENCE");
          })
          ∷ [])
        (
          when_set-Keeps (Locked key) _ _ (λ c s. s),
          (when_set-Keeps (Locked key) _ _ (λ c s. s), tt),
        )
        _
        (
          when_set-Keeps (λ d. d.auth_enabled ≡ true) key (λ d. record d { auth_signing_key = key })
              (λ d h. h) c' (enabled_by enabled c on),
          keyed_by key c' (
              when_set-Keeps Keyless enabled (λ d. record d { auth_enabled = is_on enabled })
                (λ d h. h) c keyless),
        )

  kept-Locked :
      (key : Text) (c : Config)
      → Locked key c
      → Locked key (apply_all (service_overrides scan lookup_env) c)
  kept-Locked key = apply_all-Keeps (Locked key) (service_overrides scan lookup_env) (
    with_origins-Keeps (Locked key) _ (λ os c s. s),
    (
      when_set-Keeps (Locked key) _ _ (λ c s. s),
      (
        when_set-Keeps (Locked key) _ _ (λ c s. s),
        (
          when_set-Keeps (Locked key) _ _ (
              when_positive-Keeps (Locked key)
                (scan.parse_duration
                  (getenv scan lookup_env (bytes "RAMPART_PUBLISHER_REFRESH_INTERVAL")))
                (λ n c. record c { publisher_refresh_interval = n }) (λ n p c s. s)),
          (
            when_set-Keeps (Locked key) _ _ (
                when_positive-Keeps (Locked key)
                  (scan.sscanf_int (getenv scan lookup_env (bytes "RAMPART_PUBLISHER_BATCH_SIZE")))
                  (λ n c. record c { publisher_batch_size = n }) (λ n p c s. s)),
            (
              when_set-Keeps (Locked key) _ _ (λ c s. s),
              (
                when_set-Keeps (Locked key) _ _ (λ c s. s),
                (
                  when_set-Keeps (Locked key) _ _ (
                      when_positive-Keeps (Locked key)
                        (scan.parse_duration
                          (getenv scan lookup_env (bytes "RAMPART_ANOMALY_DETECT_INTERVAL")))
                        (λ n c. record c { anomaly_detect_interval = n }) (λ n p c s. s)),
                  (
                    when_set-Keeps (Locked key) _ _ (
                        when_positive-Keeps (Locked key)
                          (scan.sscanf_int
                            (getenv scan lookup_env (bytes "RAMPART_ANOMALY_BATCH_SIZE")))
                          (λ n c. record c { anomaly_batch_size = n }) (λ n p c s. s)),
                    tt,
                  ),
                ),
              ),
            ),
          ),
        ),
      ),
    ),
  )

  pub from_env-Locked :
      SwitchedOn scan lookup_env → Locked (key_of scan lookup_env) (from_env scan lookup_env)
  unfolding from_env stored
  from_env-Locked on = kept-Locked (key_of scan lookup_env) _ (auth-Locked on stored stored-Keyless)
