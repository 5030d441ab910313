-- ===== src/Lib.antt =====
-- Verification of the engine of rampart, which matches indicators of compromise (IoCs) against the
-- dependency snapshots (SBOMs) of software components and opens incidents.
--
-- The parts and how they interact. Components, SBOMs, IoCs and incidents stand in a store. A new SBOM
-- is matched against the stored IoCs, a new IoC against the stored packages; each pair of an IoC and
-- a component that has no open incident gets one, which is announced on the event bus. Operators move
-- incidents through their life cycle. Detectors read the snapshots of a package's publisher and raise
-- anomalies, which the store holds once each.
--
--   Base            lists, Go strings as lists of bytes, Go maps as association lists, sorting, int64
--   Domain          engine/internal/domain: Domain/Incident is incident.go and remediation.go (with
--                   isNonTerminal of engine/internal/api/matching.go), Domain/Ioc ioc.go,
--                   Domain/Component component.go, Domain/Package packageversion.go and sbom.go,
--                   Domain/Publisher publisher.go, publisher_snapshot.go and anomaly.go, Domain/Event
--                   events.go
--   Matcher         engine/internal/matcher/matcher.go
--   Store           engine/internal/storage/memory/memory.go: Store/Catalog components, SBOMs and
--                   IoCs, Store/Incidents incidents and remediations, Store/Publishers publishers and
--                   snapshots, Store/Anomalies anomalies
--   Bus             engine/internal/events/bus.go
--   Anomaly         engine/anomaly: Anomaly/VersionJump is versionjump/detector.go, Anomaly/Oidc
--                   oidcregression/detector.go, Anomaly/Drift maintainerdrift/detector.go, and
--                   Anomaly/Bridge the IoC that orchestrator.go builds from an anomaly
--   Api             engine/internal/api/matching.go: Api/Matching is openIncidentsForMatches,
--                   Api/Lookup is iocLookupKey, matchPackagesAgainstIoC, forwardMatch and
--                   retroactiveMatch; Api/Transition is TransitionIncident of handlers_incident.go
--                   Api/Wire is the types of engine/api/gen/api.gen.go and the conversions, and
--                   Api/Handlers the handlers: Submit is handlers_ioc.go, Sbom handlers_sbom.go with
--                   engine/ingestion/ingestion.go, Catalog handlers_component.go,
--                   handlers_anomaly.go and handlers_publisher.go, Incidents and BlastRadius
--                   handlers_incident.go with handlers_remediation.go
--   Auth            engine/internal/api/middleware: Auth is auth.go, Auth/Cors cors.go with Handler of
--                   engine/internal/api/server.go, Auth/Token IssueHS256 of auth.go and
--                   engine/internal/api/handlers_auth.go
--   Forward         engine/internal/iocforward/iocforward.go
--   Orchestrator    engine/anomaly/orchestrator.go: NewOrchestrator, Tick and Run
--   Publisher       engine/publisher: Publisher/Httpx is internal/httpx/httpx.go,
--                   Publisher/Scheduler scheduler.go
--   Parsers         engine/sbom: Parsers/Gomod is gomod/parser.go, Parsers/Npm npm/parser.go with
--                   Parsers/Npm/Strategy, which is npm/strategy.go
--   Native          engine/internal/ingestion/native/client.go: Native is the decoding of answers,
--                   Native/Calls the requests and the round trip; Native/Protocol is
--                   schemas/native-ipc.md, what a conforming sidecar does
--   Boot            engine/internal/config/config.go, and New and openStorage of
--                   engine/internal/app/app.go
--   Cases           concrete data, and every theorem applied to it
--
-- Functions keep the source's names in lower case with underscores: forwardMatch is forward_match.
-- A method that changes state takes the state and returns the new one; a Go error is a result value.
-- A method of the in-process store holds its lock until it has read and written what it
-- needs, so a call is one step; `err` stands for
-- what ctx.Err() returns at its end, which for a writing method is after the write. The event bus is
-- a sequence of steps of its methods and of its subscribers' reads, in any order; `none` is a panic.
-- What the code reads from its surroundings (time.Now, ulid.Make, ctx.Err) is an oracle that is asked
-- in sequence. That ULIDs do not repeat is a hypothesis.
--
-- The semver library (github.com/Masterminds/semver/v3) is a parameter, the record Matcher.Semver;
-- so is the ULID of a time in Anomaly/Bridge; Auth.Jwt holds the calls of golang-jwt, encoding/pem
-- and crypto/x509, and what golang-jwt documents of a signed token is a hypothesis of Auth/Issued.
-- fmt.Sscanf and time.ParseDuration are the record Boot.Scan, the postgres package is
-- Boot.Database; JSON decoding is a parameter of Native. A handler takes the decoded body of a
-- request, or none where it does not decode, and returns a status with a reply, or the case of
-- writeError. A detector is a record of functions; the network of Publisher/Httpx is what happens
-- at each attempt; an ingestor is a function of the calls so far. Run is followed over a list of
-- what its select receives.
-- int64 is written out with its wrap-around; 4611686018427387904 is 2 ^ 62. All loops are structural
-- recursion, that of Get over the attempts that are left; the decimal rendering of a number n has
-- fuel n + 1, which its digits never exceed.
--
-- Strings that stand for an enumeration are data types with a constructor for any other string. Go
-- ranges over a map in no fixed order: association lists have an order, and no theorem depends on it
-- beyond what a sort fixes. ToLower and TrimSpace treat the ASCII range.
--
-- Not modelled: the postgres store (SQL), the routing of generated code, server-sent events, the
-- server loop and the logging of app.go, sockets below the bytes that they carry, the registries'
-- response formats, the other lockfile parsers, the command line, the Backstage plugins and the
-- native parser in Rust.
pub mod Base
pub mod Domain
pub mod Matcher
pub mod Store
pub mod Bus
pub mod Anomaly
pub mod Api
pub mod Auth
pub mod Forward
pub mod Orchestrator
pub mod Publisher
pub mod Parsers
pub mod Native
pub mod Boot
pub mod Cases
