-- ===== src/Native/Protocol.antt =====
-- The wire protocol of the sidecar, as schemas/native-ipc.md describes it: how a sidecar that conforms
-- reads the requests and writes its answers.
use rampart.Base.{
  ℕ, zero, suc, ◌≡◌, true, Option, none, some, List, [], ◌∷◌, ◌++◌, Text, ◌==◌, Text-eq, ℕ-eq,
  length, take, if◌then◌else◌, leb,
}
use rampart.Domain.Package.{ParsedSbom}
use rampart.Native.{
  Outcome, err, get_uint32, drop, decoded, classify_remote_error, msg_parse_result, msg_error,
  msg_parse_cargo_request,
}
use rampart.Native.Calls.{Sidecar}
use rampart.Native.Slices.{be}

-- A part with its length before it.
abbrev pub field : Text → Text
field s = be (length s) ++ s

-- A field at the front, and what follows it.
abbrev pub read_part : Text → ℕ → Option (Text × Text)
read_part s n = if leb n (length s) then some (take n s, drop n s) else none

unfoldable pub read_field : Text → Option (Text × Text)
read_field s = elim (get_uint32 s) [ none ↦ none | some n ↦ read_part (drop 4 s) n ]

-- So many fields, with nothing behind them.
abbrev pub read_fields : ℕ → Text → Option (List Text)
read_fields zero [] = some []
read_fields zero (c ∷ s) = none
read_fields (suc n) s = elim (read_field s) [
  | none ↦ none
  | some (part, rest) ↦ elim (read_fields n rest) [ none ↦ none | some parts ↦ some (part ∷ parts) ]
]

-- The answers of the sidecar: the JSON of a ParsedSBOM, or an error with its code and its message.
pub data Answer : Type 0 where
  parsed : Text → Answer
  failed : (code message : Text) → Answer

abbrev pub body_of : Answer → Text
body_of (parsed json) = msg_parse_result ∷ field json
body_of (failed code message) = msg_error ∷ field code ++ field message

-- What the caller of the client is to get for an answer.
abbrev pub returned : (Text → Option ParsedSbom) → Answer → Outcome ParsedSbom
returned unmarshal (parsed json) = decoded unmarshal (unmarshal json)
returned unmarshal (failed code message) = err (classify_remote_error code message)

-- How many fields a request has.
abbrev pub field_count : ℕ → ℕ
field_count opcode = if opcode == msg_parse_cargo_request then 1 else 2

abbrev pub read_body : Text → Option (ℕ × List Text)
read_body [] = none
read_body (opcode ∷ rest) = elim (read_fields (field_count opcode) rest) [
  | none ↦ none
  | some parts ↦ some (opcode, parts)
]

-- A request frame: one field, whose first byte is the opcode.
abbrev pub read_request : Text → Option (ℕ × List Text)
read_request frame = elim (read_field frame) [
  | none ↦ none
  | some (body, []) ↦ read_body body
  | some (body, c ∷ s) ↦ none
]

-- The sidecar is up, and answers each request that it can read with what it makes of it.
pub record Conforms (answer : ℕ → List Text → Answer) (sidecar : Sidecar) : Type 0 where
  pub up : sidecar.dials ≡ true
  pub reads : (frame : Text) → sidecar.takes frame ≡ true
  pub replies :
      (frame : Text) (opcode : ℕ) (parts : List Text)
      → read_request frame ≡ some (opcode, parts)
      → sidecar.answers frame ≡ field (body_of (answer opcode parts))
