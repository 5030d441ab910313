-- ===== src/Native/Slices.antt =====
-- Slices of byte sequences and big-endian uint32s, as the client of the sidecar uses them.
use rampart.Base.{
  ℕ, zero, suc, ◌+◌, ◌-◌, ◌*◌, ◌≤◌, ◌<◌, ◌≡◌, refl, ap, true, some, [], ◌∷◌, ◌++◌, arith, Text,
  Text-eq, ℕ-eq, length, take, leb,
}
use Prim.Native.Nat.{◌/◌, ◌%◌}
use rampart.Base.{length-append}
use rampart.Native.{append_uint32, get_uint32, drop, slice, uint32}

-- The four bytes of a uint32.
abbrev pub be : ℕ → Text
be v = append_uint32 [] v

-- Below 2 ^ 32.
abbrev pub IsUint32 : ℕ → Type 0
IsUint32 v = v < 4294967296

pub get-be : (v : ℕ) (rest : Text) → IsUint32 v → get_uint32 (be v ++ rest) ≡ some v
get-be v rest h = ap some (omega (arith, h))

pub be_value :
    (n : ℕ)
    → IsUint32 n
    → n / 16777216 % 256 * 16777216 + n / 65536 % 256 * 65536 + n / 256 % 256 * 256 + n % 256 ≡ n
be_value n h = omega arith

pub uint32_small : (n : ℕ) → IsUint32 n → uint32 n ≡ n
uint32_small n h = omega arith

plus_minus : (m n : ℕ) → m + n - m ≡ n
plus_minus m n = omega arith

pub drop-append : (a b : Text) → drop (length a) (a ++ b) ≡ b
drop-append [] b = refl
drop-append (x ∷ a) b = drop-append a b

pub take-append : (a b : Text) → take (length a) (a ++ b) ≡ a
take-append [] b = refl
take-append (x ∷ a) b = ap (λ (r : Text). x ∷ r) (take-append a b)

pub le→leb : (m n : ℕ) → m ≤ n → leb m n ≡ true
le→leb m n h = ground arith

-- The part between two others.
pub slice-append :
    (lo hi : ℕ) (a b c : Text)
    → lo ≡ length a
    → hi ≡ length a + length b
    → slice lo hi (a ++ (b ++ c)) ≡ some b
unfolding slice
slice-append lo hi a b c el eh =
    rw
      (
        el,
        eh,
        length-append a (b ++ c),
        length-append b c,
        le→leb (length a) (length a + length b) (omega arith),
        le→leb (length a + length b) (length a + (length b + length c)) (omega arith),
        drop-append a (b ++ c),
        plus_minus (length a) (length b),
        take-append b c,
      )
      refl

-- A slice within the length does not panic, and has the length of its bounds.
length-drop : (n : ℕ) (s : Text) → length (drop n s) ≡ length s - n
length-drop zero s = omega arith
length-drop (suc n) [] = omega arith
length-drop (suc n) (x ∷ s) = omega (arith, length-drop n s)

pub length-take : (n : ℕ) (s : Text) → n ≤ length s → length (take n s) ≡ n
length-take zero s h = refl
length-take (suc n) [] h = absurd (omega (arith, h))
length-take (suc n) (x ∷ s) h = omega (arith, length-take n s (omega (arith, h)))

pub slice_within :
    (lo hi : ℕ) (s : Text)
    → lo ≤ hi
    → hi ≤ length s
    → (m : Text) × (slice lo hi s ≡ some m) × (length m ≡ hi - lo)
unfolding slice
slice_within lo hi s h k =
    rw (le→leb lo hi h, le→leb hi (length s) k)
      (
        take (hi - lo) (drop lo s),
        refl,
        length-take (hi - lo) (drop lo s) (omega (arith, length-drop lo s, h, k)),
      )

pub get_four : (s : Text) → 4 ≤ length s → (v : ℕ) × (get_uint32 s ≡ some v)
get_four [] h = absurd (omega (arith, h))
get_four (a ∷ []) h = absurd (omega (arith, h))
get_four (a ∷ b ∷ []) h = absurd (omega (arith, h))
get_four (a ∷ b ∷ c ∷ []) h = absurd (omega (arith, h))
get_four (a ∷ b ∷ c ∷ d ∷ s) h = (_, refl)
