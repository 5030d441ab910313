-- ===== src/Cases/Wire.antt =====
-- Witnesses for the client of the sidecar, over sidecars that conform, answer pings or send rubbish.
use rampart.Base.{
  ℕ, ◌≡◌, refl, ap, true, Option, none, some, List, [], ◌∷◌, ◌++◌, arith, Text, bytes, ◌==◌,
  Text-eq, ℕ-eq, if◌then◌else◌,
}
use rampart.Domain.Package.{ParsedSbom}
use rampart.Parsers.Npm.{Lockfile}
use rampart.Parsers.Npm.Strategy.{
  native, Chosen, new_strategy_parser, effective_strategy, strategy_parse,
  effective_strategy-Chosen,
}
use rampart.Native.{
  msg_parse_request, msg_parse_gomod_request, msg_parse_cargo_request, msg_pong, msg_error,
}
use rampart.Native.Calls.{Sidecar, ping, parse_npm_lockfile, parse_go_module, parse_cargo}
use rampart.Native.Slices.{be}
use rampart.Native.Protocol.{
  field, read_request, Answer, parsed, failed, body_of, returned, Conforms,
}
use rampart.Native.Safety.{Returns, calls-Return}
use rampart.Native.Answers.{calls-Answered}

abbrev sbom : ParsedSbom
sbom = record {
  ecosystem = bytes "npm";
  packages = [];
  source_format = bytes "npm-package-lock-v3";
  source_bytes = 2;
}

abbrev unmarshal : Text → Option ParsedSbom
unmarshal json = if json == bytes "{}" then some sbom else none

-- An npm lockfile is parsed, everything else is an empty lockfile.
abbrev answer : ℕ → List Text → Answer
answer opcode parts =
    if opcode == msg_parse_request
    then parsed (bytes "{}")
    else failed (bytes "EMPTY_LOCKFILE") (bytes "nothing here")

abbrev reply : Option (ℕ × List Text) → Text
reply none = []
reply (some (opcode, parts)) = field (body_of (answer opcode parts))

abbrev conforming : Sidecar
conforming = record {
  dials = true;
  takes = λ frame. true;
  answers = λ frame. reply (read_request frame);
}

conforming-Conforms : Conforms answer conforming
conforming-Conforms = record {
  up = refl;
  reads = λ frame. refl;
  replies = λ frame opcode parts read. ap reply read;
}

calls-Answered_example :
    (parse_npm_lockfile unmarshal conforming (bytes "lock")
      ≡ returned unmarshal (answer msg_parse_request (bytes "lock" ∷ [] ∷ [])))
    × (parse_go_module unmarshal conforming (bytes "sum") (bytes "mod")
        ≡ returned unmarshal (answer msg_parse_gomod_request (bytes "sum" ∷ bytes "mod" ∷ [])))
    × (parse_cargo unmarshal conforming []
        ≡ returned unmarshal (answer msg_parse_cargo_request ([] ∷ [])))
calls-Answered_example =
    calls-Answered unmarshal answer conforming conforming-Conforms (bytes "lock") (bytes "sum")
      (bytes "mod") [] (omega arith) (omega arith) (omega arith) (omega arith) (omega arith)
      (omega arith)

-- An error frame whose code claims to be 2 ^ 32 - 1 bytes long.
abbrev pub hostile : Sidecar
hostile = record {
  dials = true;
  takes = λ frame. true;
  answers = λ frame. field (msg_error ∷ be 4294967295 ++ bytes "x");
}

calls-Return_example :
    Returns (ping hostile)
    × Returns (parse_npm_lockfile unmarshal hostile (bytes "lock"))
    × Returns (parse_go_module unmarshal hostile (bytes "lock") (bytes "mod"))
    × Returns (parse_cargo unmarshal hostile (bytes "lock"))
calls-Return_example = calls-Return hostile unmarshal (bytes "lock") (bytes "mod")

-- A sidecar that answers everything with a pong.
abbrev ponging : Sidecar
ponging = record { dials = true; takes = λ frame. true; answers = λ frame. field (msg_pong ∷ []) }

abbrev lockfile_of : Text → Option Lockfile
lockfile_of content = none

effective_strategy-Chosen_example :
    Chosen unmarshal lockfile_of native (some ponging) none (bytes "lock") (
      strategy_parse unmarshal lockfile_of
        (new_strategy_parser (effective_strategy native (some ponging)) (some ponging))
        none
        (bytes "lock"))
effective_strategy-Chosen_example =
    effective_strategy-Chosen unmarshal lockfile_of native (some ponging) none (bytes "lock")
      (λ s e. cc e)
