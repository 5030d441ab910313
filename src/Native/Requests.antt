-- ===== src/Native/Requests.antt =====
-- The requests of the client of the sidecar, read back as the wire protocol says.
use rampart.Base.{
  ℕ, suc, ◌+◌, ◌≤◌, ◌≡◌, refl, sym, some, List, [], ◌∷◌, ◌++◌, arith, Text, Text-eq, ℕ-eq, length,
}
use mathlib.Core.List.{append_assoc, append-nil}
use rampart.Base.{length-append}
use rampart.Native.{
  max_frame_bytes, msg_parse_request, msg_parse_gomod_request, msg_parse_cargo_request,
}
use rampart.Native.Calls.{
  npm_body_len, npm_frame, gomod_body_len, gomod_frame, cargo_body_len, cargo_frame,
}
use rampart.Native.Slices.{be, IsUint32, uint32_small, be_value, take-append, drop-append, le→leb}
use rampart.Native.Protocol.{field, read_field, read_fields, read_body, read_request, field_count}

pub read_field-field :
    (s rest : Text) → IsUint32 (length s) → read_field (field s ++ rest) ≡ some (s, rest)
unfolding read_field
read_field-field s rest h =
    rw
      (
        be_value (length s) h,
        length-append s rest,
        le→leb (length s) (length s + length rest) (omega arith),
        take-append s rest,
        drop-append s rest,
      )
      refl

npm_frame-field :
    (content : Text)
    → npm_body_len content ≤ max_frame_bytes
    → npm_frame content ≡ field (msg_parse_request ∷ field content ++ field [])
unfolding npm_frame
npm_frame-field content h =
    rw
      (
        uint32_small (npm_body_len content) (omega (arith, h)),
        uint32_small (length content) (omega (arith, h)),
        npm_len,
      )
      refl
  where
    npm_len : npm_body_len content ≡ length (msg_parse_request ∷ field content ++ field [])
    npm_len = omega (arith, length-append content (0 ∷ 0 ∷ 0 ∷ 0 ∷ []))

gomod_frame-field :
    (gosum gomod : Text)
    → gomod_body_len gosum gomod ≤ max_frame_bytes
    → gomod_frame gosum gomod ≡ field (msg_parse_gomod_request ∷ field gosum ++ field gomod)
unfolding gomod_frame
gomod_frame-field gosum gomod h =
    rw
      (
        uint32_small (gomod_body_len gosum gomod) (omega (arith, h)),
        uint32_small (length gosum) (omega (arith, h)),
        uint32_small (length gomod) (omega (arith, h)),
        gomod_len,
        append_assoc gosum (be (length gomod)) gomod,
      )
      refl
  where
    gomod_len :
        gomod_body_len gosum gomod ≡ length (msg_parse_gomod_request ∷ field gosum ++ field gomod)
    gomod_len = omega (arith, length-append gosum (field gomod))

cargo_frame-field :
    (content : Text)
    → cargo_body_len content ≤ max_frame_bytes
    → cargo_frame content ≡ field (msg_parse_cargo_request ∷ field content)
unfolding cargo_frame
cargo_frame-field content h =
    rw
      (
        uint32_small (cargo_body_len content) (omega (arith, h)),
        uint32_small (length content) (omega (arith, h)),
        cargo_len,
      )
      refl
  where
    cargo_len : cargo_body_len content ≡ length (msg_parse_cargo_request ∷ field content)
    cargo_len = omega arith

read_fields-one : (a : Text) → IsUint32 (length a) → read_fields 1 (field a) ≡ some (a ∷ [])
read_fields-one a h = rw (sym (append-nil (field a)), read_fields, read_field-field a [] h) refl

read_fields-two :
    (a b : Text)
    → IsUint32 (length a)
    → IsUint32 (length b)
    → read_fields 2 (field a ++ field b) ≡ some (a ∷ b ∷ [])
read_fields-two a b h k = rw (read_fields, read_field-field a (field b) h, read_fields-one b k) refl

-- A request in its frame is read as its opcode and its fields.
request-read :
    (opcode : ℕ) (rest : Text) (parts : List Text)
    → IsUint32 (suc (length rest))
    → read_fields (field_count opcode) rest ≡ some parts
    → read_request (field (opcode ∷ rest)) ≡ some (opcode, parts)
request-read opcode rest parts h e =
    rw
      (
        sym (append-nil (field (opcode ∷ rest))),
        read_request,
        read_field-field (opcode ∷ rest) [] h,
        read_body,
        e,
      )
      refl

pub npm_frame-read :
    (content : Text)
    → npm_body_len content ≤ max_frame_bytes
    → read_request (npm_frame content) ≡ some (msg_parse_request, content ∷ [] ∷ [])
npm_frame-read content h = rw (npm_frame-field content h) (
    request-read msg_parse_request (field content ++ field []) (content ∷ [] ∷ [])
      (omega (arith, length-append content (field []), h))
      (read_fields-two content [] (omega (arith, h)) (omega arith)))

pub gomod_frame-read :
    (gosum gomod : Text)
    → gomod_body_len gosum gomod ≤ max_frame_bytes
    → read_request (gomod_frame gosum gomod) ≡ some (msg_parse_gomod_request, gosum ∷ gomod ∷ [])
gomod_frame-read gosum gomod h = rw (gomod_frame-field gosum gomod h) (
    request-read msg_parse_gomod_request (field gosum ++ field gomod) (gosum ∷ gomod ∷ [])
      (omega (arith, length-append gosum (field gomod), h))
      (read_fields-two gosum gomod (omega (arith, h)) (omega (arith, h))))

pub cargo_frame-read :
    (content : Text)
    → cargo_body_len content ≤ max_frame_bytes
    → read_request (cargo_frame content) ≡ some (msg_parse_cargo_request, content ∷ [])
cargo_frame-read content h = rw (cargo_frame-field content h) (
    request-read msg_parse_cargo_request (field content) (content ∷ []) (omega (arith, h))
      (read_fields-one content (omega (arith, h))))
