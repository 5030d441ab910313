-- ===== src/Native/Answers.antt =====
-- The client of the sidecar against a sidecar that conforms to the wire protocol.
use rampart.Base.{
  ℕ, ◌+◌, ◌≤◌, ◌<◌, ◌≡◌, refl, false, Option, some, List, [], ◌∷◌, ◌++◌, arith, Text, ◌==◌, eq_refl,
  Text-eq, ℕ-eq, length, take, ltb,
}
use mathlib.Core.List.{append_assoc, append-nil}
use rampart.Base.{length-append}
use rampart.Domain.Package.{ParsedSbom}
use rampart.Native.{
  ok, err, slice, max_frame_bytes, and_then, decode_error_frame, decode_parse_result,
  after_response, msg_parse_request, msg_parse_gomod_request, msg_parse_cargo_request,
  classify_remote_error, decoded,
}
use rampart.Native.Calls.{
  Sidecar, read_response, round_trip, npm_body_len, npm_frame, gomod_body_len, gomod_frame,
  cargo_body_len, cargo_frame, parse_dispatch, parse_npm_lockfile, parse_go_module, parse_cargo,
}
use rampart.Native.Slices.{be, IsUint32, uint32_small, slice-append, take-append, be_value}
use rampart.Native.Protocol.{
  field, Answer, parsed, failed, body_of, returned, read_request, Conforms,
}
use rampart.Native.Requests.{npm_frame-read, gomod_frame-read, cargo_frame-read}

ltb_not : (m n : ℕ) → n ≤ m → ltb m n ≡ false
ltb_not m n h = ground arith

-- The length before a part is read.
slice-be :
    (front s rest : Text) (lo : ℕ)
    → lo ≡ length front
    → slice lo (lo + 4) (front ++ (be (length s) ++ rest)) ≡ some (be (length s))
slice-be front s rest lo e =
    slice-append lo (lo + 4) front (be (length s)) rest e (omega (arith, e))

slice-end : (lo : ℕ) (a b : Text) → lo ≡ length a → slice lo (length (a ++ b)) (a ++ b) ≡ some b
slice-end lo a b e =
    rw append-nil at (slice-append lo (length (a ++ b)) a b [] e (length-append a b))

-- The parse result, by what its slices are.
parse_result_at :
    (unmarshal : Text → Option ParsedSbom) (rest json : Text)
    → IsUint32 (length json)
    → length json + 4 ≡ length rest
    → slice 0 4 rest ≡ some (be (length json))
    → slice 4 (length rest) rest ≡ some json
    → decode_parse_result unmarshal rest ≡ decoded unmarshal (unmarshal json)
unfolding decode_parse_result
parse_result_at unmarshal rest json small whole len content =
    rw
      (
        ltb_not (length rest) 4 (omega (arith, whole)),
        len,
        be_value (length json) small,
        whole,
        eq_refl (length rest),
        content,
      )
      refl

decode_parse_result-field :
    (unmarshal : Text → Option ParsedSbom) (json : Text)
    → IsUint32 (length json)
    → decode_parse_result unmarshal (field json) ≡ decoded unmarshal (unmarshal json)
decode_parse_result-field unmarshal json h =
    parse_result_at unmarshal (field json) json h (omega arith) (slice-be [] json json 0 refl)
      (slice-end 4 (be (length json)) json refl)

error_frame_at :
    (rest code message : Text)
    → 8 + length code + length message ≤ max_frame_bytes
    → 4 + length code + 4 + length message ≡ length rest
    → slice 0 4 rest ≡ some (be (length code))
    → slice 4 (4 + length code) rest ≡ some code
    → slice (4 + length code) (4 + length code + 4) rest ≡ some (be (length message))
    → slice (4 + length code + 4) (length rest) rest ≡ some message
    → decode_error_frame {A = ParsedSbom} rest ≡ err (classify_remote_error code message)
unfolding decode_error_frame
error_frame_at rest code message small whole len content len' content' =
    rw
      (
        ltb_not (length rest) 4 (omega (arith, whole)),
        len,
        be_value (length code) (omega (arith, small)),
        ltb_not (length rest) (4 + length code) (omega (arith, whole)),
        uint32_small (4 + length code) (omega (arith, small)),
        content,
        ltb_not (length rest) (4 + length code + 4) (omega (arith, whole)),
        len',
        be_value (length message) (omega (arith, small)),
        whole,
        eq_refl (length rest),
        content',
      )
      refl

decode_error_frame-fields :
    (code message : Text)
    → 8 + length code + length message ≤ max_frame_bytes
    → decode_error_frame {A = ParsedSbom} (field code ++ field message)
      ≡ err (classify_remote_error code message)
decode_error_frame-fields code message h =
    error_frame_at (field code ++ field message) code message h
      (omega (arith, length-append code (field message)))
      (slice-be [] code (code ++ field message) 0 refl)
      (slice-append 4 (4 + length code) (be (length code)) code (field message) refl (omega arith))
      (slice-be (field code) message message (4 + length code) (omega arith))
      (rw (append_assoc code (be (length message)) message) at (
        slice-end (4 + length code + 4) (field code ++ be (length message)) message
          (omega (arith, length-append code (be (length message))))))

module _ (unmarshal : Text → Option ParsedSbom) where
  after_response-body :
      (a : Answer)
      → length (body_of a) ≤ max_frame_bytes
      → after_response unmarshal (body_of a) ≡ returned unmarshal a
  unfolding after_response
  after_response-body (parsed json) h = decode_parse_result-field unmarshal json (omega (arith, h))
  after_response-body (failed code message) h =
      decode_error_frame-fields code message (omega (arith, length-append code (field message), h))

read_response-field :
    (body : Text)
    → 0 < length body
    → length body ≤ max_frame_bytes
    → read_response (field body) ≡ ok body
unfolding read_response
read_response-field body some_body fits =
    rw
      (
        ltb_not (length (field body)) 4 (omega arith),
        be_value (length body) (omega (arith, fits)),
        ltb_not (length body) (length body) (omega arith),
        ltb_not max_frame_bytes (length body) fits,
        not_zero,
        whole,
      )
      refl
  where
    not_zero : length body == 0 ≡ false
    not_zero = ground (arith, some_body)

    whole : take (length body) body ≡ body
    whole = rw append-nil at (take-append body [])

module _ (unmarshal : Text → Option ParsedSbom) (answer : ℕ → List Text → Answer)
    (sidecar : Sidecar) (conforms : Conforms answer sidecar) where
  answered :
      (frame : Text) (opcode : ℕ) (parts : List Text)
      → read_request frame ≡ some (opcode, parts)
      → length (body_of (answer opcode parts)) ≤ max_frame_bytes
      → and_then (round_trip sidecar frame) (after_response unmarshal)
        ≡ returned unmarshal (answer opcode parts)
  unfolding round_trip
  answered frame opcode parts read fits =
      rw
        (
          conforms.up,
          conforms.reads frame,
          conforms.replies frame opcode parts read,
          read_response-field (body_of (answer opcode parts)) (body_some (answer opcode parts))
              fits,
        )
        (after_response-body unmarshal (answer opcode parts) fits)
    where
      body_some : (a : Answer) → 0 < length (body_of a)
      body_some (parsed json) = omega arith
      body_some (failed code message) = omega arith

  -- Against a sidecar that conforms to the protocol each call of the client gives what the sidecar
  -- makes of exactly the bytes that the caller passed: its ParsedSBOM, or its error, classified by the
  -- code. The request and the answer fit in a frame.
  pub calls-Answered :
      (content gosum gomod crate : Text)
      → npm_body_len content ≤ max_frame_bytes
      → gomod_body_len gosum gomod ≤ max_frame_bytes
      → cargo_body_len crate ≤ max_frame_bytes
      → length (body_of (answer msg_parse_request (content ∷ [] ∷ []))) ≤ max_frame_bytes
      → length (body_of (answer msg_parse_gomod_request (gosum ∷ gomod ∷ []))) ≤ max_frame_bytes
      → length (body_of (answer msg_parse_cargo_request (crate ∷ []))) ≤ max_frame_bytes
      → (parse_npm_lockfile unmarshal sidecar content
          ≡ returned unmarshal (answer msg_parse_request (content ∷ [] ∷ [])))
        × (parse_go_module unmarshal sidecar gosum gomod
            ≡ returned unmarshal (answer msg_parse_gomod_request (gosum ∷ gomod ∷ [])))
        × (parse_cargo unmarshal sidecar crate
            ≡ returned unmarshal (answer msg_parse_cargo_request (crate ∷ [])))
  unfolding parse_npm_lockfile parse_go_module parse_cargo parse_dispatch
  calls-Answered content gosum gomod crate n g c fits fits' fits'' = (
    rw (ltb_not max_frame_bytes (npm_body_len content) n)
        (answered (npm_frame content) msg_parse_request _ (npm_frame-read content n) fits),
    rw (ltb_not max_frame_bytes (gomod_body_len gosum gomod) g) (
        answered (gomod_frame gosum gomod) msg_parse_gomod_request _
          (gomod_frame-read gosum gomod g) fits'),
    rw (ltb_not max_frame_bytes (cargo_body_len crate) c)
        (answered (cargo_frame crate) msg_parse_cargo_request _ (cargo_frame-read crate c) fits''),
  )
