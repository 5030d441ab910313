-- ===== src/Native/Safety.antt =====
-- The client of the sidecar never panics, whatever comes back over the socket.
use rampart.Base.{
  ℕ, ◌+◌, ◌-◌, ◌≤◌, ◌≡◌, refl, inl, inr, Bool, true, false, not, ◌||◌, Option, none, some, [], ◌∷◌,
  arith, Text, ◌==◌, eq_iff, Text-eq, ℕ-eq, length, take, if◌then◌else◌, ltb, Bool-cases,
}
use rampart.Domain.Package.{ParsedSbom}
use rampart.Native.{
  Outcome, ok, err, panics, get_uint32, drop, slice, max_frame_bytes, at_slice, and_then,
  error_code, error_code_len, decode_error_frame, decoded, decode_parse_result, after_response,
  msg_parse_result, msg_error,
}
use rampart.Native.Calls.{
  Sidecar, body_of_len, read_response, round_trip, ping, ping_frame, pong_or_malformed,
  npm_body_len, npm_frame, gomod_body_len, gomod_frame, cargo_body_len, cargo_frame, parse_dispatch,
  parse_npm_lockfile, parse_go_module, parse_cargo,
}
use rampart.Native.Slices.{slice_within, get_four, uint32_small, length-take}

-- An outcome that is no panic, and whose value is good.
abbrev pub Gives : {A : Type 0} → (A → Type 0) → Outcome A → Type 0
Gives Good (ok a) = Good a
Gives Good (err e) = Unit {0}
Gives Good panics = ⊥

-- A call that returns.
abbrev pub Returns : {A : Type 0} → Outcome A → Type 0
Returns o = Gives (λ a. Unit {0}) o

module _ {A : Type 0} (Good : A → Type 0) where
  Gives-if :
      (b : Bool) (x y : Outcome A)
      → (b ≡ true → Gives Good x)
      → (b ≡ false → Gives Good y)
      → Gives Good (if b then x else y)
  Gives-if true x y f g = f refl
  Gives-if false x y f g = g refl

  -- A slice within its length can be used.
  Gives-slice :
      (lo hi : ℕ) (s : Text) (next : Text → Outcome A)
      → lo ≤ hi
      → hi ≤ length s
      → ((m : Text) → length m ≡ hi - lo → Gives Good (next m))
      → Gives Good (at_slice (slice lo hi s) next)
  Gives-slice lo hi s next h k good =
      let (m, cut, size) = slice_within lo hi s h k in rw cut (good m size)

  Gives-four :
      (s : Text) (next : ℕ → Outcome A)
      → 4 ≤ length s
      → ((v : ℕ) → Gives Good (next v))
      → Gives Good (at_slice (get_uint32 s) next)
  Gives-four s next h good = let (v, e) = get_four s h in rw e (good v)

Gives-and_then :
    {A B : Type 0} (Good : A → Type 0) (o : Outcome A) (next : A → Outcome B)
    → Gives Good o
    → ((a : A) → Good a → Returns (next a))
    → Returns (and_then o next)
Gives-and_then Good (ok a) next h good = good a h
Gives-and_then Good (err e) next h good = tt
Gives-and_then Good panics next h good = h

abbrev Free : {A : Type 0} → A → Type 0
Free a = Unit {0}

fits_exactly : (m n : ℕ) → not (m == n) ≡ false → m ≡ n
fits_exactly m n e = elim (Bool-cases (m == n)) [
  | inl same ↦ (eq_iff m n).0 same
  | inr apart ↦ absurd (cc (rw apart at e))
]

at_least : (m n : ℕ) → ltb n m ≡ false → m ≤ n
at_least m n e = ground (arith, e)

in_range : (n : ℕ) → n == 0 || ltb max_frame_bytes n ≡ false → n ≤ max_frame_bytes
in_range n e = ground (arith, e)

module _ (rest : Text) (small : length rest ≤ max_frame_bytes) where
  error_code-Returns :
      (after : ℕ) (code : Text) → Returns (error_code {A = ParsedSbom} rest after code)
  error_code-Returns after code =
      Gives-if Free (ltb (length rest) (after + 4)) _ _ (λ short. tt)
        (λ long.
          Gives-slice Free after (after + 4) rest _ (omega arith)
            (at_least (after + 4) (length rest) long)
            (λ four size. Gives-four Free four _ (omega (arith, size)) (λ msg_len.
              Gives-if Free (not (after + 4 + msg_len == length rest)) _ _ (λ off. tt)
                (λ fits.
                  Gives-slice Free (after + 4) (after + 4 + msg_len) rest _ (omega arith)
                    (omega (arith, fits_exactly (after + 4 + msg_len) (length rest) fits))
                    (λ message size'. tt)))))

  error_code_len-Returns : (code_len : ℕ) → Returns (error_code_len {A = ParsedSbom} rest code_len)
  error_code_len-Returns code_len =
      Gives-if Free (ltb (length rest) (4 + code_len)) _ _ (λ short. tt)
        (λ long.
          let fits = at_least (4 + code_len) (length rest) long in
          rw (uint32_small (4 + code_len) (omega (arith, fits, small))) (
            Gives-slice Free 4 (4 + code_len) rest _ (omega arith) fits
              (λ code size. error_code-Returns (4 + code_len) code)))

  decode_error_frame-Returns : Returns (decode_error_frame {A = ParsedSbom} rest)
  unfolding decode_error_frame
  decode_error_frame-Returns =
      Gives-if Free (ltb (length rest) 4) _ _ (λ short. tt)
        (λ long.
          Gives-slice Free 0 4 rest _ (omega arith) (at_least 4 (length rest) long)
            (λ four size. Gives-four Free four _ (omega (arith, size)) error_code_len-Returns))

module _ (unmarshal : Text → Option ParsedSbom) where
  decoded-Returns : (o : Option ParsedSbom) → Returns (decoded unmarshal o)
  decoded-Returns none = tt
  decoded-Returns (some sbom) = tt

  decode_parse_result-Returns : (rest : Text) → Returns (decode_parse_result unmarshal rest)
  unfolding decode_parse_result
  decode_parse_result-Returns rest =
      Gives-if Free (ltb (length rest) 4) _ _ (λ short. tt)
        (λ long.
          let four_fit = at_least 4 (length rest) long in
          Gives-slice Free 0 4 rest _ (omega arith) four_fit (λ four size.
            Gives-four Free four _ (omega (arith, size)) (λ sbom_len.
              Gives-if Free (not (sbom_len + 4 == length rest)) _ _ (λ off. tt)
                (λ fits.
                  Gives-slice Free 4 (length rest) rest _ four_fit (omega arith)
                    (λ json size'. decoded-Returns (unmarshal json))))))

  after_response-Returns :
      (body : Text) → length body ≤ max_frame_bytes → Returns (after_response unmarshal body)
  unfolding after_response
  after_response-Returns [] small = tt
  after_response-Returns (opcode ∷ rest) small =
      Gives-if Free (opcode == msg_parse_result) _ _ (λ e. decode_parse_result-Returns rest)
        (λ e.
          Gives-if Free (opcode == msg_error) _ _
            (λ e'. decode_error_frame-Returns rest (omega (arith, small))) (λ e'. tt))

abbrev Fits : Text → Type 0
Fits body = length body ≤ max_frame_bytes

body_of_len-Fits : (stream : Text) (n : ℕ) → Gives Fits (body_of_len stream n)
body_of_len-Fits stream n =
    Gives-if Fits (n == 0 || ltb max_frame_bytes n) _ _ (λ out. tt)
      (λ inside.
        Gives-if Fits (ltb (length stream) n) _ _ (λ short. tt)
          (λ long.
            omega
              (arith, length-take n stream (at_least n (length stream) long), in_range n inside)))

read_response-Fits : (stream : Text) → Gives Fits (read_response stream)
unfolding read_response
read_response-Fits stream =
    Gives-if Fits (ltb (length stream) 4) _ _ (λ short. tt)
      (λ long.
        Gives-four Fits (take 4 stream) _
          (omega (arith, length-take 4 stream (at_least 4 (length stream) long)))
          (λ n. body_of_len-Fits (drop 4 stream) n))

module _ (sidecar : Sidecar) where
  round_trip-Fits : (frame : Text) → Gives Fits (round_trip sidecar frame)
  unfolding round_trip
  round_trip-Fits frame =
      Gives-if Fits (not sidecar.dials) _ _ (λ out. tt)
        (λ up.
          Gives-if Fits (not (sidecar.takes frame)) _ _ (λ out. tt)
            (λ sent. read_response-Fits (sidecar.answers frame)))

  pong-Returns : (resp : Text) → Returns (pong_or_malformed resp)
  pong-Returns resp = Gives-if Free (not (resp == 254 ∷ [])) _ _ (λ e. tt) (λ e. tt)

  sent-Returns :
      (unmarshal : Text → Option ParsedSbom) (frame : Text)
      → Returns (and_then (round_trip sidecar frame) (after_response unmarshal))
  sent-Returns unmarshal frame =
      Gives-and_then Fits (round_trip sidecar frame) (after_response unmarshal)
        (round_trip-Fits frame) (after_response-Returns unmarshal)

  -- Whatever the sidecar sends back, a broken or hostile answer included, none of the client's four
  -- calls reads outside of a slice: each returns a value or an error.
  pub calls-Return :
      (unmarshal : Text → Option ParsedSbom) (content gomod : Text)
      → Returns (ping sidecar)
        × Returns (parse_npm_lockfile unmarshal sidecar content)
        × Returns (parse_go_module unmarshal sidecar content gomod)
        × Returns (parse_cargo unmarshal sidecar content)
  unfolding ping parse_npm_lockfile parse_go_module parse_cargo parse_dispatch
  calls-Return unmarshal content gomod = (
    Gives-and_then Fits (round_trip sidecar ping_frame) pong_or_malformed
        (round_trip-Fits ping_frame) (λ resp fits. pong-Returns resp),
    Gives-if Free (ltb max_frame_bytes (npm_body_len content)) _ _ (λ big. tt)
        (λ fits. sent-Returns unmarshal (npm_frame content)),
    Gives-if Free (ltb max_frame_bytes (gomod_body_len content gomod)) _ _ (λ big. tt)
        (λ fits. sent-Returns unmarshal (gomod_frame content gomod)),
    Gives-if Free (ltb max_frame_bytes (cargo_body_len content)) _ _ (λ big. tt)
        (λ fits. sent-Returns unmarshal (cargo_frame content)),
  )
