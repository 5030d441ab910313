-- ===== src/Parsers/Npm/Strategy.antt =====
-- engine/sbom/npm/strategy.go: the choice between the Go parser and the sidecar.
use rampart.Base.{
  ◌≡◌, refl, ◌≢◌, ◌⊎◌, inl, inr, Option, none, some, [], Text, Text-eq, ℕ-eq, length, ap,
}
use rampart.Domain.Package.{ParsedSbom}
use rampart.Store.{StorageError}
use rampart.Parsers.Npm.{Lockfile, NpmError, parse}
use rampart.Native.{Outcome, ok, err, panics, NativeError}
use rampart.Native.Calls.{Sidecar, ping, parse_npm_lockfile}
use rampart.Native.Safety.{Returns, calls-Return}

-- Strategy: its two constants and the empty string, and any other string.
pub data Strategy : Type 0 where
  go native unset : Strategy
  other : Text → Strategy

-- The errors of Parse.
pub data StrategyError : Type 0 where
  native_unconfigured : StrategyError
  unknown_strategy : Text → StrategyError
  go_failed : NpmError → StrategyError
  native_failed : NativeError → StrategyError

pub data Result : Type 0 where
  parsed : ParsedSbom → Result
  failed : StrategyError → Result
  panicked : Result

-- StrategyParser, less the Go parser, which has no state; `none` is a nil client.
pub record StrategyParser : Type 0 where
  pub strategy : Strategy
  pub native_client : Option Sidecar

-- NewStrategyParser
unfoldable pub new_strategy_parser : Strategy → Option Sidecar → StrategyParser
new_strategy_parser s client = record { strategy = s; native_client = client }

-- `if err := nativeClient.Ping(probeCtx); err != nil`; the probe does not panic.
abbrev go_if_failed : Strategy → Outcome (Unit {0}) → Strategy
go_if_failed requested (ok pong) = requested
go_if_failed requested (err e) = go
go_if_failed requested panics = requested

abbrev probed : Strategy → Option Sidecar → Strategy
probed requested none = go
probed requested (some client) = go_if_failed requested (ping client)

-- EffectiveStrategy
unfoldable pub effective_strategy : Strategy → Option Sidecar → Strategy
effective_strategy native client = probed native client
effective_strategy go client = go
effective_strategy unset client = unset
effective_strategy (other s) client = other s

abbrev pub of_go : NpmError ⊎ ParsedSbom → Result
of_go (inl e) = failed (go_failed e)
of_go (inr sbom) = parsed sbom

abbrev pub of_native : Outcome ParsedSbom → Result
of_native (ok sbom) = parsed sbom
of_native (err e) = failed (native_failed e)
of_native panics = panicked

of_native-ne-panicked : (o : Outcome ParsedSbom) → Returns o → of_native o ≢ panicked
of_native-ne-panicked (ok a) h e = cc e
of_native-ne-panicked (err x) h e = cc e
of_native-ne-panicked panics h e = h

-- The JSON decoders of the client and of the Go parser.
module _ (unmarshal : Text → Option ParsedSbom) (lockfile_of : Text → Option Lockfile) where
  abbrev by_client : Option Sidecar → Text → Result
  by_client none content = failed native_unconfigured
  by_client (some client) content = of_native (parse_npm_lockfile unmarshal client content)

  abbrev by_go : Option StorageError → Text → Result
  by_go ctx_err content = of_go (parse ctx_err (lockfile_of content) (length content))

  -- StrategyParser.Parse
  unfoldable pub strategy_parse : StrategyParser → Option StorageError → Text → Result
  strategy_parse sp ctx_err content = elim sp.strategy [
    | native ↦ by_client sp.native_client content
    | go ↦ by_go ctx_err content
    | unset ↦ by_go ctx_err content
    | other s ↦ failed (unknown_strategy s)
  ]

  -- The sidecar was asked for, is wired and answers the probe.
  abbrev pub Answering : Strategy → Option Sidecar → Sidecar → Type 0
  Answering requested client sidecar =
      (requested ≡ native) × (client ≡ some sidecar) × (ping sidecar ≡ ok tt)

  -- What a request for a strategy comes to: the sidecar exactly if it was asked for and answers a
  -- ping, and otherwise the Go parser.
  abbrev pub Chosen : Strategy → Option Sidecar → Option StorageError → Text → Result → Type 0
  Chosen requested client ctx_err content r =
      ((sidecar : Sidecar) × Answering requested client sidecar
        × (r ≡ of_native (parse_npm_lockfile unmarshal sidecar content))
        × (r ≢ panicked))
      ⊎ (((sidecar : Sidecar) → ¬ Answering requested client sidecar)
          × (r ≡ of_go (parse ctx_err (lockfile_of content) (length content))))

  not_ponged :
      (sidecar third : Sidecar) (x : NativeError)
      → ping sidecar ≡ err x
      → ¬ Answering native (some sidecar) third
  not_ponged sidecar third x e (asked, wired, pong) =
      let same : sidecar ≡ third = cc wired in absurd (cc (e, ap ping same, pong))

  -- For each strategy that is a constant of the package or empty: a parser that is built with the
  -- effective strategy parses with the sidecar if that was asked for, is wired and answers the probe, and
  -- then does not panic; and in every other case with the Go parser. So it never refuses a lockfile for
  -- want of a client. (The engine resolves the strategy at its start, but does not build this parser.)
  pub effective_strategy-Chosen :
      (requested : Strategy) (client : Option Sidecar) (ctx_err : Option StorageError)
      (content : Text)
      → ((s : Text) → requested ≢ other s)
      → Chosen requested client ctx_err content (
          strategy_parse
            (new_strategy_parser (effective_strategy requested client) client)
            ctx_err
            content)
  unfolding strategy_parse effective_strategy new_strategy_parser
  effective_strategy-Chosen go client ctx_err content known = inr (λ sidecar h. cc (h.0), refl)
  effective_strategy-Chosen unset client ctx_err content known = inr (λ sidecar h. cc (h.0), refl)
  effective_strategy-Chosen (other s) client ctx_err content known = absurd (known s refl)
  effective_strategy-Chosen native none ctx_err content known = inr (λ sidecar h. cc (h.1), refl)
  effective_strategy-Chosen native (some sidecar) ctx_err content known =
      by_ping (ping sidecar) refl
    where
      by_ping :
          (o : Outcome (Unit {0}))
          → ping sidecar ≡ o
          → Chosen native (some sidecar) ctx_err content (
              strategy_parse
                (new_strategy_parser (go_if_failed native o) (some sidecar))
                ctx_err
                content)
      by_ping (ok p) e = inl (
        sidecar,
        (refl, refl, e),
        refl,
        of_native-ne-panicked (parse_npm_lockfile unmarshal sidecar content)
            (calls-Return sidecar unmarshal content []).1,
      )
      by_ping (err x) e = inr (λ third h. absurd (not_ponged sidecar third x e h), refl)
      by_ping panics e = absurd (rw e at ((calls-Return sidecar unmarshal content []).0))
