-- ===== src/Native.antt =====
-- engine/internal/ingestion/native/client.go: the frames that the client writes to the sidecar, and
-- how it reads the answer. A slice out of range is a panic. int is 64 bits wide, so that its sums of
-- lengths are exact; the conversions to uint32 are written out.
pub mod Calls
pub mod Slices
pub mod Protocol
pub mod Requests
pub mod Safety
pub mod Answers
use rampart.Base.{
  ℕ, zero, suc, ◌+◌, ◌-◌, ◌*◌, ◌≤◌, ◌<◌, ◌≡◌, refl, sym, ap, ◌∙◌, ◌≢◌, ◌↔◌, ◌⊎◌, inl, inr, Bool,
  true, false, not, ◌&&◌, ◌||◌, Option, none, some, List, [], ◌∷◌, ◌++◌, map, arith, Text, bytes,
  String, Eq, ◌==◌, eq_iff, eq_refl, eq_false, ne_of_eq_false, Text-eq, ℕ-eq, contains,
  contains_iff, keep_if, In, All, length, take, if◌then◌else◌, ltb, leb, Bool-cases, Option-cases,
}
use Prim.Native.Nat.{◌/◌, ◌%◌}
use rampart.Domain.Package.{ParsedSbom}

-- MaxFrameBytes
abbrev pub max_frame_bytes : ℕ
max_frame_bytes = 104857600

-- The wire opcodes.
abbrev pub msg_parse_request : ℕ
msg_parse_request = 1

abbrev pub msg_parse_result : ℕ
msg_parse_result = 2

abbrev pub msg_error : ℕ
msg_error = 3

abbrev pub msg_parse_gomod_request : ℕ
msg_parse_gomod_request = 6

abbrev pub msg_parse_cargo_request : ℕ
msg_parse_cargo_request = 7

abbrev pub msg_pong : ℕ
msg_pong = 254

abbrev pub msg_ping : ℕ
msg_ping = 255

-- The sentinels that classifyRemoteError wraps around ErrRemoteError.
pub data Sentinel : Type 0 where
  malformed_lockfile unsupported_lockfile_version empty_lockfile no_sentinel : Sentinel

-- The errors of the client. `malformed` is every use of ErrMalformedResponse.
pub data NativeError : Type 0 where
  too_large : ℕ → NativeError
  unavailable write_failed header_failed body_failed malformed : NativeError
  frame_out_of_range : ℕ → NativeError
  remote : (sentinel : Sentinel) (code message : Text) → NativeError

-- What a call returns, or that it panics.
pub data Outcome (A : Type 0) : Type 0 where
  ok : A → Outcome A
  err : NativeError → Outcome A
  panics : Outcome A

-- The conversion to uint32.
abbrev pub uint32 : ℕ → ℕ
uint32 n = n % 4294967296

-- binary.BigEndian.AppendUint32
abbrev pub append_uint32 : Text → ℕ → Text
append_uint32 frame v = frame ++ v / 16777216 % 256 ∷ v / 65536 % 256 ∷ v / 256 % 256 ∷ v % 256 ∷ []

-- binary.BigEndian.Uint32; `none` is its panic on fewer than four bytes.
abbrev pub get_uint32 : Text → Option ℕ
get_uint32 (a ∷ b ∷ c ∷ d ∷ _) = some (a * 16777216 + b * 65536 + c * 256 + d)
get_uint32 _ = none

abbrev pub drop : ℕ → Text → Text
drop zero s = s
drop (suc n) [] = []
drop (suc n) (x ∷ s) = drop n s

-- `s[lo:hi]`
unfoldable pub slice : ℕ → ℕ → Text → Option Text
slice lo hi s = if leb lo hi && leb hi (length s) then some (take (hi - lo) (drop lo s)) else none

module _ {A B : Type 0} where
  -- The use of a slice or of an element, where `none` is the panic.
  abbrev pub at_slice : Option A → (A → Outcome B) → Outcome B
  at_slice none next = panics
  at_slice (some a) next = next a

  -- `if err != nil { return nil, err }`
  abbrev pub and_then : Outcome A → (A → Outcome B) → Outcome B
  and_then (ok a) next = next a
  and_then (err e) next = err e
  and_then panics next = panics

abbrev pub sentinel_of : Text → Sentinel
sentinel_of code =
    if code == bytes "MALFORMED_LOCKFILE"
    then malformed_lockfile
    else if code == bytes "UNSUPPORTED_LOCKFILE_VERSION"
    then unsupported_lockfile_version
    else if code == bytes "EMPTY_LOCKFILE"
    then empty_lockfile
    else no_sentinel

-- classifyRemoteError
unfoldable pub classify_remote_error : Text → Text → NativeError
classify_remote_error code message = remote (sentinel_of code) code message

-- decodeErrorFrame; it returns an error on every path.
module _ {A : Type 0} (rest : Text) where
  abbrev pub error_message : Text → ℕ → ℕ → Outcome A
  error_message code after msg_len =
      if not (after + 4 + msg_len == length rest)
      then err malformed
      else at_slice (slice (after + 4) (after + 4 + msg_len) rest)
          (λ message. err (classify_remote_error code message))

  abbrev pub error_code : ℕ → Text → Outcome A
  error_code after code =
      if ltb (length rest) (after + 4)
      then err malformed
      else at_slice (slice after (after + 4) rest)
          (λ four. at_slice (get_uint32 four) (λ msg_len. error_message code after msg_len))

  abbrev pub error_code_len : ℕ → Outcome A
  error_code_len code_len =
      if ltb (length rest) (4 + code_len)
      then err malformed
      else at_slice (slice 4 (uint32 (4 + code_len)) rest) (λ code. error_code (4 + code_len) code)

  unfoldable pub decode_error_frame : Outcome A
  decode_error_frame =
      if ltb (length rest) 4
      then err malformed
      else at_slice (slice 0 4 rest)
          (λ four. at_slice (get_uint32 four) (λ code_len. error_code_len code_len))

-- json.Unmarshal into a ParsedSBOM; `none` is an error.
module _ (unmarshal : Text → Option ParsedSbom) where
  abbrev pub decoded : Option ParsedSbom → Outcome ParsedSbom
  decoded none = err malformed
  decoded (some sbom) = ok sbom

  abbrev pub result_of_len : Text → ℕ → Outcome ParsedSbom
  result_of_len rest sbom_len =
      if not (sbom_len + 4 == length rest)
      then err malformed
      else at_slice (slice 4 (length rest) rest) (λ json. decoded (unmarshal json))

  -- decodeParseResult
  unfoldable pub decode_parse_result : Text → Outcome ParsedSbom
  decode_parse_result rest =
      if ltb (length rest) 4
      then err malformed
      else at_slice (slice 0 4 rest)
          (λ four. at_slice (get_uint32 four) (λ sbom_len. result_of_len rest sbom_len))

  -- What the client makes of a response's body.
  unfoldable pub after_response : Text → Outcome ParsedSbom
  after_response [] = err malformed
  after_response (opcode ∷ rest) =
      if opcode == msg_parse_result
      then decode_parse_result rest
      else if opcode == msg_error
      then decode_error_frame rest
      else err malformed
