-- ===== src/Native/Calls.antt =====
-- engine/internal/ingestion/native/client.go: the frames of the four calls and the round trip.
use rampart.Base.{
  ℕ, ◌+◌, Bool, not, ◌||◌, Option, [], ◌∷◌, ◌++◌, Text, ◌==◌, Text-eq, ℕ-eq, length, take,
  if◌then◌else◌, ltb,
}
use rampart.Domain.Package.{ParsedSbom}
use rampart.Native.{
  ok, err, unavailable, write_failed, header_failed, body_failed, malformed, frame_out_of_range,
  too_large, after_response, and_then, append_uint32, at_slice, drop, get_uint32, max_frame_bytes,
  msg_parse_cargo_request, msg_parse_gomod_request, msg_parse_request, msg_ping, msg_pong, uint32,
  Outcome,
}

-- The sidecar as the client meets it: the dial, the write of a frame, and the bytes that can be read
-- after it until the connection ends or its deadline passes.
pub record Sidecar : Type 0 where
  pub dials : Bool
  pub takes : Text → Bool
  pub answers : Text → Text

abbrev pub body_of_len : Text → ℕ → Outcome Text
body_of_len stream resp_len =
    if resp_len == 0 || ltb max_frame_bytes resp_len
    then err (frame_out_of_range resp_len)
    else if ltb (length stream) resp_len
    then err body_failed
    else ok (take resp_len stream)

-- The two reads of roundTrip.
unfoldable pub read_response : Text → Outcome Text
read_response stream =
    if ltb (length stream) 4
    then err header_failed
    else at_slice (get_uint32 (take 4 stream)) (λ resp_len. body_of_len (drop 4 stream) resp_len)

-- roundTrip
unfoldable pub round_trip : Sidecar → Text → Outcome Text
round_trip sidecar frame =
    if not sidecar.dials
    then err unavailable
    else if not (sidecar.takes frame)
    then err write_failed
    else read_response (sidecar.answers frame)

abbrev pub ping_frame : Text
ping_frame = append_uint32 [] 1 ++ msg_ping ∷ []

abbrev pub pong_or_malformed : Text → Outcome (Unit {0})
pong_or_malformed resp = if not (resp == msg_pong ∷ []) then err malformed else ok tt

-- Ping
unfoldable pub ping : Sidecar → Outcome (Unit {0})
ping sidecar = and_then (round_trip sidecar ping_frame) pong_or_malformed

abbrev pub npm_body_len : Text → ℕ
npm_body_len content = 1 + 4 + length content + 4

unfoldable pub npm_frame : Text → Text
npm_frame content =
    append_uint32
      (append_uint32 (append_uint32 [] (uint32 (npm_body_len content)) ++ msg_parse_request ∷ [])
          (uint32 (length content))
        ++ content)
      0

abbrev pub gomod_body_len : Text → Text → ℕ
gomod_body_len gosum gomod = 1 + 4 + length gosum + 4 + length gomod

unfoldable pub gomod_frame : Text → Text → Text
gomod_frame gosum gomod =
    append_uint32
      (append_uint32
          (append_uint32 [] (uint32 (gomod_body_len gosum gomod)) ++ msg_parse_gomod_request ∷ [])
          (uint32 (length gosum))
        ++ gosum)
      (uint32 (length gomod))
    ++ gomod

abbrev pub cargo_body_len : Text → ℕ
cargo_body_len content = 1 + 4 + length content

unfoldable pub cargo_frame : Text → Text
cargo_frame content =
    append_uint32
      (append_uint32 [] (uint32 (cargo_body_len content)) ++ msg_parse_cargo_request ∷ [])
      (uint32 (length content))
    ++ content

module _ (unmarshal : Text → Option ParsedSbom) (sidecar : Sidecar) where
  -- parseDispatch
  unfoldable pub parse_dispatch : Text → Outcome ParsedSbom
  parse_dispatch frame = and_then (round_trip sidecar frame) (after_response unmarshal)

  -- ParseNPMLockfile, whose second half is that of parseDispatch. Its test for a negative length is
  -- left out: no length is negative.
  unfoldable pub parse_npm_lockfile : Text → Outcome ParsedSbom
  parse_npm_lockfile content =
      if ltb max_frame_bytes (npm_body_len content)
      then err (too_large (npm_body_len content))
      else and_then (round_trip sidecar (npm_frame content)) (after_response unmarshal)

  -- ParseGoModule
  unfoldable pub parse_go_module : Text → Text → Outcome ParsedSbom
  parse_go_module gosum gomod =
      if ltb max_frame_bytes (gomod_body_len gosum gomod)
      then err (too_large (gomod_body_len gosum gomod))
      else parse_dispatch (gomod_frame gosum gomod)

  -- ParseCargo
  unfoldable pub parse_cargo : Text → Outcome ParsedSbom
  parse_cargo content =
      if ltb max_frame_bytes (cargo_body_len content)
      then err (too_large (cargo_body_len content))
      else parse_dispatch (cargo_frame content)
