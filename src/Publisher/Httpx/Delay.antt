-- ===== src/Publisher/Httpx/Delay.antt =====
-- backoff of engine/publisher/internal/httpx/httpx.go: how long a retry waits.
use rampart.Base.{
  ℕ, ◌*◌, ◌≤◌, ◌<◌, ◌≡◌, refl, inl, inr, true, not, ◌||◌, arith, Text-eq, ℕ-eq, if◌then◌else◌, ltb,
  Bool-cases,
}
use Prim.Native.Nat.{◌%◌, ◌^◌}
use rampart.Base.Int.{ℤ, pos, negsuc, int64, lt_int, whole, half}
use rampart.Publisher.Httpx.{backoff}

-- The end of backoff, by the product.
abbrev capped : ℕ → ℤ → ℤ
capped max_delay d = if not (lt_int (pos 0) d) || lt_int (pos max_delay) d then pos max_delay else d

abbrev Within : ℕ → ℤ → Type 0
Within max_delay d = (n : ℕ) × (d ≡ pos n) × 0 < n × n ≤ max_delay

capped-Within : (max_delay : ℕ) (d : ℤ) → 0 < max_delay → Within max_delay (capped max_delay d)
capped-Within m (negsuc n) h = (m, refl, h, omega arith)
capped-Within m (pos n) h = elim (Bool-cases (ltb 0 n)) [
  | inr zero_ ↦ rw zero_ (m, refl, h, omega arith)
  | inl some_ ↦ elim (Bool-cases (ltb m n)) [
    | inl over ↦ rw (some_, over) (m, refl, h, omega arith)
    | inr under ↦ rw (some_, under) (n, refl, ground (arith, some_), ground (arith, under))
  ]
]

int64-small : (n : ℕ) → n < half → int64 (n % whole) ≡ pos n
int64-small n h =
    let whole_ : n % 18446744073709551616 ≡ n = omega (arith, h) in
    let low : ltb n half ≡ true = ground (arith, h) in rw (whole_, low) refl

-- Whatever the attempt, also where the shift overflows, backoff waits a positive time and no longer
-- than the largest delay; and while the product fits into an int64 it is the base delay doubled with
-- each attempt, up to the largest delay.
pub backoff-Within :
    (attempt base_delay max_delay : ℕ)
    → 0 < max_delay
    → Within max_delay (backoff attempt base_delay max_delay)
      × (0 < base_delay * 2 ^ attempt
          → base_delay * 2 ^ attempt < half
          → backoff attempt base_delay max_delay ≡ (
              if ltb max_delay (base_delay * 2 ^ attempt)
              then pos max_delay
              else pos (base_delay * 2 ^ attempt)))
unfolding backoff
backoff-Within attempt b m h = (
  capped-Within m (int64 ((b * 2 ^ attempt) % whole)) h,
  λ low high.
      let positive : ltb 0 (b * 2 ^ attempt) ≡ true = ground (arith, low) in
      rw (int64-small (b * 2 ^ attempt) high, positive) refl,
)
