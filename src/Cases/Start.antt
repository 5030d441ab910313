-- ===== src/Cases/Start.antt =====
-- Witnesses for the boot of the engine, over an environment with authentication switched on and one
-- setting out of range.
use rampart.Base.{
  ◌≡◌, refl, inr, true, false, Option, none, some, [], Text, bytes, ◌==◌, Text-eq, ℕ-eq,
  if◌then◌else◌,
}
use rampart.Base.{list_eq}
use rampart.Base.Int.{pos, negsuc}
use rampart.Base.Strings.{has_prefix, to_lower, trim_space}
use rampart.Parsers.Lines.{cut_prefix}
use rampart.Auth.{
  Principal, serves, scope_admin, default_exempt_paths, set_auth, is_exempt, bearer_token, validate,
  key_func, to_upper, normalise_scope, auth,
}
use rampart.Auth.Cors.{passed, cors_headers, cors, handler, default_cors_options}
use rampart.Native.Calls.{Sidecar}
use rampart.Parsers.Npm.Strategy.{go, effective_strategy}
use rampart.Boot.{Scan, Database, App, memory, from_env, new_app, open_storage}
use rampart.Boot.Sane.{Sane, Settled, from_env-Sane}
use rampart.Boot.Locked.{SwitchedOn, key_of}
use rampart.Boot.Guarded.{RefusesKeyErrors, Guarded, from_env-Guarded}
use rampart.Cases.Gate.{jwt, secret, request}
use rampart.Cases.Wire.{hostile}

abbrev scan : Scan
scan = record {
  sscanf_int32 = λ v. some (negsuc 3);
  sscanf_int = λ v. none;
  parse_duration = λ v. none;
}

-- RAMPART_AUTH_ENABLED=1, a signing key, the memory store, and -4 database connections.
abbrev lookup_env : Text → Option Text
lookup_env k =
    if k == bytes "RAMPART_AUTH_ENABLED"
    then some (bytes "1")
    else if k == bytes "RAMPART_AUTH_SIGNING_KEY"
    then some secret
    else if k == bytes "RAMPART_STORAGE"
    then some (bytes "memory")
    else if k == bytes "RAMPART_DB_MAX_CONNS"
    then some (bytes "-4")
    else none

abbrev db : Database
db = record { migrate_up = λ dsn. false; opens = λ dsn n. false }

abbrev socket : Text → Sidecar
socket path = hostile

abbrev engine : App
engine = record {
  storage = memory;
  events_buffer = pos 256;
  auth = record {
    enabled = true;
    signing_key = secret;
    algorithm = bytes "HS256";
    audience = [];
    exempt_paths = default_exempt_paths;
  };
  cors = default_cors_options;
  effective = go;
}

from_env-Sane_example :
    Sane (from_env scan lookup_env) × Settled scan lookup_env (from_env scan lookup_env)
from_env-Sane_example = from_env-Sane scan lookup_env

on : SwitchedOn scan lookup_env
unfolding list_eq to_lower
on = refl

boots : new_app db (from_env scan lookup_env) socket ≡ inr engine
unfolding new_app from_env open_storage list_eq to_lower set_auth default_exempt_paths
    effective_strategy default_cors_options
boots = refl

refuses : RefusesKeyErrors jwt
refuses o e raw c h = cc h

abbrev alice_now : Principal
alice_now = record { subject = bytes "alice"; scope = scope_admin }

admitted :
    handler jwt engine.auth engine.cors 7 request
    ≡ (cors_headers engine.cors [], passed (serves (some alice_now)))
unfolding handler cors auth is_exempt has_prefix bearer_token cut_prefix trim_space validate
    key_func to_upper list_eq normalise_scope to_lower default_exempt_paths
admitted = refl

from_env-Guarded_example :
    Guarded jwt engine.auth (key_of scan lookup_env) 7 request (some alice_now)
from_env-Guarded_example =
    from_env-Guarded jwt refuses scan lookup_env db socket engine on boots 7 request
      (cors_headers engine.cors []) (some alice_now) admitted
