-- ===== src/Anomaly.antt =====
-- engine/anomaly: the detectors that read a package's publisher snapshots, newest first. A detector
-- is a function of the time, the package's reference and its history; none returns an error.
pub mod VersionJump
pub mod Oidc
pub mod Drift
pub mod Bridge
use rampart.Base.{ℕ, zero, suc, ◌+◌, List, [], ◌∷◌, ◌++◌, Text, bytes, if◌then◌else◌, ltb}
use Prim.Native.Nat.{◌/◌, ◌%◌}
use rampart.Base.Int.{ℤ, pos, negsuc}

digits : ℕ → ℕ → Text → Text
digits zero n acc = acc
digits (suc fuel) n acc =
    let rest = digits fuel (n / 10) ((48 + n % 10) ∷ acc) in
    if ltb n 10 then (48 + n % 10) ∷ acc else rest

-- fmt's %d.
unfoldable pub decimal : ℤ → Text
unfolding digits
decimal (pos n) = digits (suc n) n []
decimal (negsuc n) = b'-' ∷ digits (n + 2) (suc n) []
