-- ===== src/Boot.antt =====
-- engine/internal/config/config.go, and New with openStorage of engine/internal/app/app.go: from the
-- environment to a server with its store, its middleware and its parser strategy. A duration is in
-- nanoseconds. fmt.Sscanf, time.ParseDuration and the postgres package are parameters.
pub mod Keeps
pub mod Sane
pub mod Locked
pub mod Guarded
use rampart.Base.{
  ℕ, zero, suc, ◌+◌, ◌-◌, ◌*◌, ◌≤◌, ◌<◌, ◌≡◌, refl, sym, ap, ◌∙◌, ◌≢◌, ◌↔◌, ◌⊎◌, inl, inr, Bool,
  true, false, not, ◌&&◌, ◌||◌, Option, none, some, List, [], ◌∷◌, ◌++◌, map, arith, Text, bytes,
  String, Eq, ◌==◌, eq_iff, eq_refl, eq_false, ne_of_eq_false, Text-eq, ℕ-eq, contains,
  contains_iff, keep_if, In, All, length, take, if◌then◌else◌, ltb, leb, Bool-cases, Option-cases,
}
use rampart.Base.Int.{ℤ, pos, lt_int}
use rampart.Base.Strings.{to_lower, trim_space, split}
use rampart.Auth.{AuthOptions, default_exempt_paths, set_auth}
use rampart.Auth.Cors.{CorsOptions, default_cors_options}
use rampart.Native.Calls.{Sidecar}
use rampart.Parsers.Npm.Strategy.{Strategy, go, native, unset, other, effective_strategy}

pub record Config : Type 0 where
  pub http_addr : Text
  pub log_level : Text
  pub trust_engine : Text
  pub parser_strategy : Text
  pub native_socket_path : Text
  pub sse_heartbeat_interval : ℤ
  pub sse_subscriber_buffer : ℤ
  pub storage_backend : Text
  pub db_dsn : Text
  pub db_max_conns : ℤ
  pub auth_enabled : Bool
  pub auth_signing_key : Text
  pub auth_algorithm : Text
  pub auth_audience : Text
  pub cors_origins : List Text
  pub cors_allow_all : Bool
  pub publisher_enabled : Bool
  pub publisher_refresh_interval : ℤ
  pub publisher_batch_size : ℤ
  pub github_token : Text
  pub anomaly_enabled : Bool
  pub anomaly_detect_interval : ℤ
  pub anomaly_batch_size : ℤ

-- Default
abbrev pub default_config : Config
default_config = record {
  http_addr = bytes ":8080";
  log_level = bytes "info";
  trust_engine = bytes "always_trust";
  parser_strategy = bytes "go";
  native_socket_path = bytes "/var/run/rampart/native.sock";
  sse_heartbeat_interval = pos 15000000000;
  sse_subscriber_buffer = pos 256;
  storage_backend = bytes "postgres";
  db_dsn = [];
  db_max_conns = pos 10;
  auth_enabled = false;
  auth_signing_key = [];
  auth_algorithm = bytes "HS256";
  auth_audience = [];
  cors_origins = [];
  cors_allow_all = true;
  publisher_enabled = false;
  publisher_refresh_interval = pos 3600000000000;
  publisher_batch_size = pos 50;
  github_token = [];
  anomaly_enabled = false;
  anomaly_detect_interval = pos 3600000000000;
  anomaly_batch_size = pos 200;
}

-- What FromEnv calls of fmt and time; `none` is an error.
pub record Scan : Type 0 where
  pub sscanf_int32 : Text → Option ℤ
  pub sscanf_int : Text → Option ℤ
  pub parse_duration : Text → Option ℤ

abbrev non_empty : List Text → List Text
non_empty [] = []
non_empty (p ∷ ps) =
    let rest = non_empty ps in let t = trim_space p in if not (t == []) then t ∷ rest else rest

-- splitAndTrim
unfoldable pub split_and_trim : Text → List Text
split_and_trim s = if s == [] then [] else non_empty (split b',' s)

-- `strings.EqualFold(v, "true") || v == "1"`
abbrev pub is_on : Text → Bool
is_on v = to_lower v == bytes "true" || v == bytes "1"

-- `if v := …; v != ""`
abbrev pub when_set : Text → (Config → Config) → Config → Config
when_set v change c = if not (v == []) then change c else c

-- `if …; err == nil && n > 0`
abbrev pub when_positive : Option ℤ → (ℤ → Config → Config) → Config → Config
when_positive none change c = c
when_positive (some n) change c = if lt_int (pos 0) n then change n c else c

abbrev pub apply_all : List (Config → Config) → Config → Config
apply_all [] c = c
apply_all (f ∷ fs) c = apply_all fs (f c)

-- `if v, ok := os.LookupEnv("RAMPART_CORS_ORIGINS"); ok`
abbrev pub with_origins : Option Text → Config → Config
with_origins none c = c
with_origins (some v) c = record c { cors_origins = split_and_trim v; cors_allow_all = false }

module _ (scan : Scan) (lookup_env : Text → Option Text) where
  -- os.Getenv
  abbrev pub getenv : Text → Text
  getenv k = elim (lookup_env k) [ none ↦ [] | some v ↦ v ]

  -- FromEnv, in three parts.
  abbrev pub storage_overrides : List (Config → Config)
  storage_overrides =
      let strategy = getenv (bytes "RAMPART_PARSER_STRATEGY") in
      let socket = getenv (bytes "RAMPART_NATIVE_SOCKET") in
      let storage = getenv (bytes "RAMPART_STORAGE") in
      let dsn = getenv (bytes "RAMPART_DB_DSN") in
      let conns = getenv (bytes "RAMPART_DB_MAX_CONNS") in
      when_set strategy (λ c. record c { parser_strategy = strategy })
      ∷ when_set socket (λ c. record c { native_socket_path = socket })
      ∷ when_set storage (λ c. record c { storage_backend = storage })
      ∷ when_set dsn (λ c. record c { db_dsn = dsn })
      ∷ when_set conns
          (when_positive (scan.sscanf_int32 conns) (λ n c. record c { db_max_conns = n }))
      ∷ []

  abbrev pub auth_overrides : List (Config → Config)
  auth_overrides =
      let enabled = getenv (bytes "RAMPART_AUTH_ENABLED") in
      let key = getenv (bytes "RAMPART_AUTH_SIGNING_KEY") in
      let algorithm = getenv (bytes "RAMPART_AUTH_ALGORITHM") in
      let audience = getenv (bytes "RAMPART_AUTH_AUDIENCE") in
      when_set enabled (λ c. record c { auth_enabled = is_on enabled })
      ∷ when_set key (λ c. record c { auth_signing_key = key })
      ∷ when_set algorithm (λ c. record c { auth_algorithm = algorithm })
      ∷ when_set audience (λ c. record c { auth_audience = audience })
      ∷ []

  abbrev pub service_overrides : List (Config → Config)
  service_overrides =
      let allow_all = getenv (bytes "RAMPART_CORS_ALLOW_ALL") in
      let publisher = getenv (bytes "RAMPART_PUBLISHER_ENABLED") in
      let refresh = getenv (bytes "RAMPART_PUBLISHER_REFRESH_INTERVAL") in
      let publisher_batch = getenv (bytes "RAMPART_PUBLISHER_BATCH_SIZE") in
      let token = getenv (bytes "GITHUB_TOKEN") in
      let anomaly = getenv (bytes "RAMPART_ANOMALY_ENABLED") in
      let detect = getenv (bytes "RAMPART_ANOMALY_DETECT_INTERVAL") in
      let anomaly_batch = getenv (bytes "RAMPART_ANOMALY_BATCH_SIZE") in
      with_origins (lookup_env (bytes "RAMPART_CORS_ORIGINS"))
      ∷ when_set allow_all (λ c. record c { cors_allow_all = is_on allow_all })
      ∷ when_set publisher (λ c. record c { publisher_enabled = is_on publisher })
      ∷ when_set refresh (
          when_positive (scan.parse_duration refresh)
            (λ d c. record c { publisher_refresh_interval = d }))
      ∷ when_set publisher_batch (
          when_positive (scan.sscanf_int publisher_batch)
            (λ n c. record c { publisher_batch_size = n }))
      ∷ when_set token (λ c. record c { github_token = token })
      ∷ when_set anomaly (λ c. record c { anomaly_enabled = is_on anomaly })
      ∷ when_set detect (
          when_positive (scan.parse_duration detect)
            (λ d c. record c { anomaly_detect_interval = d }))
      ∷ when_set anomaly_batch (
          when_positive (scan.sscanf_int anomaly_batch)
            (λ n c. record c { anomaly_batch_size = n }))
      ∷ []

  unfoldable pub from_env : Config
  from_env =
      apply_all service_overrides
        (apply_all auth_overrides (apply_all storage_overrides default_config))

-- What openStorage opens; the postgres package migrates and opens a database by its DSN.
pub data Backend : Type 0 where
  memory : Backend
  postgres : (dsn : Text) (max_conns : ℤ) → Backend

pub data BootError : Type 0 where
  dsn_empty migrate_failed open_failed : BootError
  unknown_storage : Text → BootError

pub record Database : Type 0 where
  pub migrate_up : Text → Bool
  pub opens : Text → ℤ → Bool

-- The server that New wires.
pub record App : Type 0 where
  pub storage : Backend
  pub events_buffer : ℤ
  pub auth : AuthOptions
  pub cors : CorsOptions
  pub effective : Strategy

-- npm.Strategy of a text.
abbrev pub strategy_named : Text → Strategy
strategy_named s =
    if s == bytes "go"
    then go
    else if s == bytes "native"
    then native
    else if s == []
    then unset
    else other s

module _ (db : Database) where
  abbrev open_postgres : Text → ℤ → BootError ⊎ Backend
  open_postgres dsn max_conns =
      if dsn == []
      then inl dsn_empty
      else if not (db.migrate_up dsn)
      then inl migrate_failed
      else if not (db.opens dsn max_conns)
      then inl open_failed
      else inr (postgres dsn max_conns)

  -- openStorage
  unfoldable pub open_storage : Config → BootError ⊎ Backend
  open_storage cfg =
      if cfg.storage_backend == [] || cfg.storage_backend == bytes "memory"
      then inr memory
      else if cfg.storage_backend == bytes "postgres"
      then open_postgres cfg.db_dsn cfg.db_max_conns
      else inl (unknown_storage cfg.storage_backend)

  abbrev pub auth_of : Config → AuthOptions
  auth_of cfg = set_auth (record {
    enabled = cfg.auth_enabled;
    signing_key = cfg.auth_signing_key;
    algorithm = cfg.auth_algorithm;
    audience = cfg.auth_audience;
    exempt_paths = default_exempt_paths;
  })

  abbrev pub cors_of : Config → CorsOptions
  cors_of cfg = record default_cors_options {
    allow_all = cfg.cors_allow_all;
    origins = cfg.cors_origins;
  }

  abbrev wired : Config → (Text → Sidecar) → BootError ⊎ Backend → BootError ⊎ App
  wired cfg socket (inl e) = inl e
  wired cfg socket (inr store) = inr (record {
    storage = store;
    events_buffer = cfg.sse_subscriber_buffer;
    auth = auth_of cfg;
    cors = cors_of cfg;
    effective =
        effective_strategy (strategy_named cfg.parser_strategy)
          (some (socket cfg.native_socket_path));
  })

  -- New, with what answers at the path of a socket.
  unfoldable pub new_app : Config → (Text → Sidecar) → BootError ⊎ App
  new_app cfg socket = wired cfg socket (open_storage cfg)
