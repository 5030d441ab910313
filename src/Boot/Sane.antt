-- ===== src/Boot/Sane.antt =====
-- FromEnv of engine/internal/config/config.go: its numbers, whatever the environment holds.
use rampart.Boot.Keeps.{when_set-Keeps, with_origins-Keeps}
use rampart.Base.{
  ◌≡◌, refl, inl, inr, true, false, Option, none, some, List, [], ◌∷◌, Text, ◌==◌, Text-eq, ℕ-eq,
  Bool-cases, bytes, ◌≢◌, Bool, ℕ, String, ne_of_eq_false, suc, leb, eq_iff,
}
use rampart.Base.Int.{ℤ, pos, lt_int}
use rampart.Boot.{
  Config, default_config, Scan, when_set, when_positive, apply_all, storage_overrides,
  auth_overrides, getenv, service_overrides, from_env,
}

abbrev Positive : ℤ → Type 0
Positive n = lt_int (pos 0) n ≡ true

-- The scheduler, the orchestrator, the event streams and the connection pool get positive settings.
abbrev pub Sane : Config → Type 0
Sane c =
    Positive c.db_max_conns
    × Positive c.publisher_refresh_interval
    × Positive c.publisher_batch_size
    × Positive c.anomaly_detect_interval
    × Positive c.anomaly_batch_size
    × Positive c.sse_heartbeat_interval
    × Positive c.sse_subscriber_buffer

-- A variable that leaves the default: it is not set or empty, is no number, or is not positive.
pub data Kept (v : Text) : Option ℤ → Type 0 where
  unset : {o : Option ℤ} → v ≡ [] → Kept v o
  unparsed : {o : Option ℤ} → o ≡ none → Kept v o
  not_positive : {o : Option ℤ} → (n : ℤ) → o ≡ some n → lt_int (pos 0) n ≡ false → Kept v o

-- A setting: the variable's number if that is positive, and else the default.
pub data Setting (v : Text) (o : Option ℤ) (d : ℤ) : ℤ → Type 0 where
  given : (n : ℤ) → v ≢ [] → o ≡ some n → lt_int (pos 0) n ≡ true → Setting v o d n
  kept : (n : ℤ) → Kept v o → n ≡ d → Setting v o d n

Setting-Positive : (v : Text) (o : Option ℤ) (d n : ℤ) → Positive d → Setting v o d n → Positive n
Setting-Positive v o d n p (given m set e q) = q
Setting-Positive v o d n p (kept m k e) = rw e p

-- The setting, or, before its variable has been looked at, its default.
abbrev Part : Bool → Text → Option ℤ → ℤ → ℤ → Type 0
Part true v o d n = Setting v o d n
Part false v o d n = n ≡ d

abbrev Turns : (Config → Type 0) → (Config → Type 0) → (Config → Config) → Type 0
Turns P Q f = (c : Config) → P c → Q (f c)

settle :
    (P Q : Config → Type 0) (v : Text) (o : Option ℤ) (put : ℤ → Config → Config)
    → ((c : Config) → Kept v o → P c → Q c)
    → ((n : ℤ) (c : Config) → v ≢ [] → o ≡ some n → Positive n → P c → Q (put n c))
    → Turns P Q (when_set v (when_positive o put))
settle P Q v o put stays moves c p = elim (Bool-cases (v == [])) [
  | inl e ↦ rw e (stays c (unset ((eq_iff v []).0 e)) p)
  | inr e ↦ rw e (by_number (ne_of_eq_false v [] e) o refl)
]
  where
    by_number : v ≢ [] → (x : Option ℤ) → o ≡ x → Q (when_positive x put c)
    by_number set none e = stays c (unparsed e) p
    by_number set (some n) e = elim (Bool-cases (lt_int (pos 0) n)) [
      | inl up ↦ rw up (moves n c set e up p)
      | inr down ↦ rw down (stays c (not_positive n e down) p)
    ]

-- Each function of a list turns a predicate into the next.
module _ (P : ℕ → Config → Type 0) where
  abbrev Route : ℕ → List (Config → Config) → Type 0
  Route i [] = Unit
  Route i (f ∷ fs) = Turns (P i) (P (suc i)) f × Route (suc i) fs

  abbrev end : ℕ → List (Config → Config) → ℕ
  end i [] = i
  end i (f ∷ fs) = end (suc i) fs

  apply_all-Turns :
      (i : ℕ) (fs : List (Config → Config)) → Route i fs → Turns (P i) (P (end i fs)) (apply_all fs)
  apply_all-Turns i [] path c p = p
  apply_all-Turns i (f ∷ fs) path c p = apply_all-Turns (suc i) fs path.1 (f c) (path.0 c p)

module _ (scan : Scan) (lookup_env : Text → Option Text) where
  abbrev variable : String → Text
  variable name = getenv scan lookup_env (bytes name)

  -- The numbers after so many overrides.
  abbrev Numbers : ℕ → Config → Type 0
  Numbers i c =
      Part (leb 5 i) (variable "RAMPART_DB_MAX_CONNS")
        (scan.sscanf_int32 (variable "RAMPART_DB_MAX_CONNS")) (pos 10) c.db_max_conns
      × Part (leb 13 i) (variable "RAMPART_PUBLISHER_REFRESH_INTERVAL")
          (scan.parse_duration (variable "RAMPART_PUBLISHER_REFRESH_INTERVAL")) (pos 3600000000000)
          c.publisher_refresh_interval
      × Part (leb 14 i) (variable "RAMPART_PUBLISHER_BATCH_SIZE")
          (scan.sscanf_int (variable "RAMPART_PUBLISHER_BATCH_SIZE")) (pos 50)
          c.publisher_batch_size
      × Part (leb 17 i) (variable "RAMPART_ANOMALY_DETECT_INTERVAL")
          (scan.parse_duration (variable "RAMPART_ANOMALY_DETECT_INTERVAL")) (pos 3600000000000)
          c.anomaly_detect_interval
      × Part (leb 18 i) (variable "RAMPART_ANOMALY_BATCH_SIZE")
          (scan.sscanf_int (variable "RAMPART_ANOMALY_BATCH_SIZE")) (pos 200) c.anomaly_batch_size
      × (c.sse_heartbeat_interval ≡ pos 15000000000)
      × (c.sse_subscriber_buffer ≡ pos 256)

  -- Every number is its variable's if that is positive, and else its default; those of the event
  -- streams are always the defaults.
  abbrev pub Settled : Config → Type 0
  Settled c = Numbers 18 c

  storage-Route : Route Numbers 0 (storage_overrides scan lookup_env)
  storage-Route = (
    when_set-Keeps (Numbers 0) _ _ (λ c s. s),
    (
      when_set-Keeps (Numbers 0) _ _ (λ c s. s),
      (
        when_set-Keeps (Numbers 0) _ _ (λ c s. s),
        (
          when_set-Keeps (Numbers 0) _ _ (λ c s. s),
          (
            settle (Numbers 4) (Numbers 5) _ _ _
                (λ c k (a, r, p, d, b, h, e). (kept c.db_max_conns k a, r, p, d, b, h, e))
                (λ n c set o up (a, r, p, d, b, h, e). (given n set o up, r, p, d, b, h, e)),
            tt,
          ),
        ),
      ),
    ),
  )

  auth-Route : Route Numbers 5 (auth_overrides scan lookup_env)
  auth-Route = (
    when_set-Keeps (Numbers 5) _ _ (λ c s. s),
    (
      when_set-Keeps (Numbers 5) _ _ (λ c s. s),
      (when_set-Keeps (Numbers 5) _ _ (λ c s. s), (when_set-Keeps (Numbers 5) _ _ (λ c s. s), tt)),
    ),
  )

  service-Route : Route Numbers 9 (service_overrides scan lookup_env)
  service-Route = (
    with_origins-Keeps (Numbers 9) _ (λ os c s. s),
    (
      when_set-Keeps (Numbers 9) _ _ (λ c s. s),
      (
        when_set-Keeps (Numbers 9) _ _ (λ c s. s),
        (
          settle (Numbers 12) (Numbers 13) _ _ _
              (λ c k (a, r, p, d, b, h, e).
                (a, kept c.publisher_refresh_interval k r, p, d, b, h, e))
              (λ n c set o up (a, r, p, d, b, h, e). (a, given n set o up, p, d, b, h, e)),
          (
            settle (Numbers 13) (Numbers 14) _ _ _
                (λ c k (a, r, p, d, b, h, e). (a, r, kept c.publisher_batch_size k p, d, b, h, e))
                (λ n c set o up (a, r, p, d, b, h, e). (a, r, given n set o up, d, b, h, e)),
            (
              when_set-Keeps (Numbers 14) _ _ (λ c s. s),
              (
                when_set-Keeps (Numbers 14) _ _ (λ c s. s),
                (
                  settle (Numbers 16) (Numbers 17) _ _ _
                      (λ c k (a, r, p, d, b, h, e).
                        (a, r, p, kept c.anomaly_detect_interval k d, b, h, e))
                      (λ n c set o up (a, r, p, d, b, h, e). (a, r, p, given n set o up, b, h, e)),
                  (
                    settle (Numbers 17) (Numbers 18) _ _ _
                        (λ c k (a, r, p, d, b, h, e).
                          (a, r, p, d, kept c.anomaly_batch_size k b, h, e))
                        (λ n c set o up (a, r, p, d, b, h, e).
                          (a, r, p, d, given n set o up, h, e)),
                    tt,
                  ),
                ),
              ),
            ),
          ),
        ),
      ),
    ),
  )

  Settled-Sane : (c : Config) → Settled c → Sane c
  Settled-Sane c (a, r, p, d, b, h, e) = (
    Setting-Positive _ _ _ c.db_max_conns refl a,
    Setting-Positive _ _ _ c.publisher_refresh_interval refl r,
    Setting-Positive _ _ _ c.publisher_batch_size refl p,
    Setting-Positive _ _ _ c.anomaly_detect_interval refl d,
    Setting-Positive _ _ _ c.anomaly_batch_size refl b,
    rw h refl,
    rw e refl,
  )

-- Whatever the environment holds, every interval, batch size and buffer and the number of database
-- connections is positive. The five that a variable can set are the variable's number if it is set to a
-- positive one; one that is not set, does not parse or is not positive leaves the default. The two of
-- the event streams are always the defaults.
pub from_env-Sane :
    (scan : Scan) (lookup_env : Text → Option Text)
    → Sane (from_env scan lookup_env) × Settled scan lookup_env (from_env scan lookup_env)
unfolding from_env
from_env-Sane scan lookup_env =
    let numbers = Numbers scan lookup_env in
    let stored = apply_all (storage_overrides scan lookup_env) default_config in
    let authed = apply_all (auth_overrides scan lookup_env) stored in
    let settled : Settled scan lookup_env (apply_all (service_overrides scan lookup_env) authed) =
      apply_all-Turns numbers 9 (service_overrides scan lookup_env) (service-Route scan lookup_env)
        authed
        (apply_all-Turns numbers 5 (auth_overrides scan lookup_env) (auth-Route scan lookup_env)
          stored
          (apply_all-Turns numbers 0 (storage_overrides scan lookup_env)
            (storage-Route scan lookup_env) default_config
            (refl, refl, refl, refl, refl, refl, refl))) in
    (
      Settled-Sane scan lookup_env (apply_all (service_overrides scan lookup_env) authed) settled,
      settled,
    )
