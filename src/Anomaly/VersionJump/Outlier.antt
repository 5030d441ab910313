-- ===== src/Anomaly/VersionJump/Outlier.antt =====
-- When the version-jump detector reports, and with which confidence.
use rampart.Anomaly.VersionJump.Bounds.{Small, SmallVersion, jumps, jumps-Small}
use rampart.Base.{
  ℕ, zero, suc, ◌+◌, ◌≤◌, ◌<◌, ◌≡◌, refl, ap, ◌↔◌, ◌⊎◌, inl, inr, true, false, not, ◌&&◌, List, [],
  ◌∷◌, ◌++◌, arith, Text, Text-eq, ℕ-eq, All, length, if◌then◌else◌, ltb, Bool-cases, lt→ltb,
}
use rampart.Base.Int.{ℤ, pos, negsuc, half, lt_int, double_int64}
use rampart.Domain.Incident.{Time}
use rampart.Domain.Publisher.{PublisherSnapshot, Anomaly, AnomalyKind, ConfidenceLevel}
use rampart.Matcher.{Semver}
use rampart.Anomaly.VersionJump.{
  last_of, but_last, max_from, max_or_zero, is_unusual_vs_history, zeros, classify, breaking_delta,
  extract_versions_oldest_first, jumps_from, judge, report, detect_versions, detect,
}

-- Twice the jump is less than `l`.
abbrev pub Below : ℕ → ℤ → Type 0
Below l (pos n) = n + n < l
Below l (negsuc n) = Unit

-- The last jump is `l`, at least 2 and more than twice every jump of the history before it.
abbrev pub Outlies : List ℤ → List ℤ → ℕ → Type 0
Outlies jumps historical l = (jumps ≡ historical ++ pos l ∷ []) × (2 ≤ l) × All (Below l) historical

-- The confidence that the code gives to a history and a jump.
abbrev pub Graded : List ℤ → ℕ → ConfidenceLevel → Type 0
Graded historical l ConfidenceLevel.high = (5 ≤ zeros historical) × (5 ≤ l)
Graded historical l ConfidenceLevel.medium =
    ((zeros historical < 5) ⊎ (l < 5)) × (2 ≤ length historical)
Graded historical l ConfidenceLevel.low = length historical < 2
Graded historical l (ConfidenceLevel.other t) = ⊥

max_from_parts :
    (m : ℕ) (xs : List ℤ)
    → m < 4611686018427387904
    → All Small xs
    → (k : ℕ) × (max_from (pos m) xs ≡ pos k)
      × (k < 4611686018427387904)
      × ((l : ℕ) → (k + k < l) ↔ ((m + m < l) × All (Below l) xs))
unfolding max_from
max_from_parts m [] h small = (m, refl, h, λ l. (λ b. (b, tt), λ b. b.0))
max_from_parts m (negsuc n ∷ xs) h small =
    let (k, e, hk, below) = max_from_parts m xs h small.1 in
    (
      k,
      e,
      hk,
      λ l. (λ b. (((below l).0 b).0, (tt, ((below l).0 b).1)), λ b. (below l).1 (b.0, b.1.1)),
    )
max_from_parts m (pos n ∷ xs) h small = elim (Bool-cases (ltb m n)) [
  | inl more ↦
      let (k, e, hk, below) = max_from_parts n xs small.0 small.1 in
      (k, ground (arith, e), hk, λ l. (λ b. ground (arith, below l), λ b. ground (arith, below l)))
  | inr less ↦
      let (k, e, hk, below) = max_from_parts m xs h small.1 in
      (k, ground (arith, e), hk, λ l. (λ b. ground (arith, below l), λ b. ground (arith, below l)))
]

-- The test of isUnusualVsHistory, when the product does not overflow.
unusual_test :
    (n k : ℕ)
    → k < 4611686018427387904
    → ((if lt_int (pos n) (pos 2)
          then false
          else not (lt_int (pos n) (pos 2)) && lt_int (double_int64 (pos k)) (pos n))
        ≡ true)
      ↔ ((2 ≤ n) × (k + k < n))
unusual_test n k h = rw (lt→ltb (k + k) half (omega arith)) (λ t. ground arith, λ t. ground arith)

is_unusual_iff :
    (j : ℤ) (historical : List ℤ)
    → All Small historical
    → (is_unusual_vs_history j historical ≡ true)
      ↔ ((l : ℕ) × (j ≡ pos l) × (2 ≤ l) × All (Below l) historical)
unfolding is_unusual_vs_history max_or_zero
is_unusual_iff (negsuc n) historical small = (λ h. absurd (cc h), λ (l, e, two, all). absurd (cc e))
is_unusual_iff (pos n) historical small =
    let (k, e, hk, below) = max_from_parts 0 historical (omega arith) small in
    rw e (
      λ h. let (two, under) = (unusual_test n k hk).0 h in (n, refl, two, ((below n).0 under).1),
      λ (l, el, two, all).
          let same : n ≡ l = cc el in
          let under : k + k < l = (below l).1 (omega arith, all) in
          (unusual_test n k hk).1 (omega arith, omega arith),
    )

zeros-le : (js : List ℤ) → zeros js ≤ length js
unfolding zeros
zeros-le [] = omega arith
zeros-le (pos zero ∷ js) = omega (arith, zeros-le js)
zeros-le (pos (suc n) ∷ js) = omega (arith, zeros-le js)
zeros-le (negsuc n ∷ js) = omega (arith, zeros-le js)

classify-Graded :
    (l : ℕ) (historical : List ℤ) → 2 ≤ l → Graded historical l (classify (pos l) historical)
unfolding classify
classify-Graded l historical h = ground (arith, zeros-le historical)

parts_of_snoc :
    (x a : ℤ) (ys hist : List ℤ)
    → x ∷ ys ≡ hist ++ a ∷ []
    → (but_last x ys ≡ hist) × (last_of x ys ≡ a)
unfolding but_last last_of
parts_of_snoc x a ys [] h = ground arith
parts_of_snoc x a [] (y ∷ []) h = cc
parts_of_snoc x a [] (y ∷ z ∷ hist) h = cc
parts_of_snoc x a (y ∷ ys) (z ∷ hist) h = ground (arith, parts_of_snoc y a ys hist)

snoc_parts : (x : ℤ) (ys : List ℤ) → x ∷ ys ≡ but_last x ys ++ last_of x ys ∷ []
unfolding but_last last_of
snoc_parts x [] = refl
snoc_parts x (y ∷ ys) = ap (λ zs. x ∷ zs) (snoc_parts y ys)

-- The verdict on a list of jumps.
pub data JumpVerdict (now : Time) (package_ref : Text) (js : List ℤ) : List Anomaly → Type 0 where
  nothing : ((hist : List ℤ) (l : ℕ) → ¬ Outlies js hist l) → JumpVerdict now package_ref js []
  found :
      (hist : List ℤ) (l : ℕ) (a : Anomaly)
      → Outlies js hist l
      → a.kind ≡ AnomalyKind.version_jump
      → a.package_ref ≡ package_ref
      → a.detected_at ≡ now
      → Graded hist l a.confidence
      → JumpVerdict now package_ref js (a ∷ [])

verdict_of :
    (now : Time) (package_ref : Text) (a : Anomaly) (j : ℤ) (js : List ℤ)
    → All Small (but_last j js)
    → a.kind ≡ AnomalyKind.version_jump
    → a.package_ref ≡ package_ref
    → a.detected_at ≡ now
    → a.confidence ≡ classify (last_of j js) (but_last j js)
    → JumpVerdict now package_ref (j ∷ js) (
        if not (lt_int (pos 0) (last_of j js))
        then []
        else if not (is_unusual_vs_history (last_of j js) (but_last j js))
        then []
        else a ∷ [])
verdict_of now package_ref a j js small ek ep et ec =
    let test = is_unusual_iff (last_of j js) (but_last j js) small in
    elim (Bool-cases (is_unusual_vs_history (last_of j js) (but_last j js))) [
      | inl jump ↦
          let (l, el, two, all) = test.0 jump in
          let positive : lt_int (pos 0) (pos l) ≡ true = lt→ltb 0 l (omega arith) in
          let grade : Graded (but_last j js) l a.confidence =
            rw (ec, el) (classify-Graded l (but_last j js) two) in
          rw (jump, el, positive)
            (found (but_last j js) l a (rw el at (snoc_parts j js), two, all) ek ep et grade)
      | inr calm ↦
          let none_here : (hist : List ℤ) (l : ℕ) → ¬ Outlies (j ∷ js) hist l =
            λ hist l (e, two, all).
              let (eh, el) = parts_of_snoc j (pos l) js hist e in
              absurd (cc (calm, test.1 (l, el, two, rw eh all))) in
          rw calm (elim (Bool-cases (lt_int (pos 0) (last_of j js))) [
            | inl up ↦ rw up (nothing none_here)
            | inr down ↦ rw down (nothing none_here)
          ])
    ]

no_jump : (hist : List ℤ) (l : ℕ) → ¬ Outlies [] hist l
no_jump [] l h = cc (h.0)
no_jump (x ∷ hist) l h = cc (h.0)

All-but_last : (x : ℤ) (xs : List ℤ) → All Small (x ∷ xs) → All Small (but_last x xs)
unfolding but_last
All-but_last x [] h = tt
All-but_last x (y ∷ ys) h = (h.0, All-but_last y ys h.1)

module _ (semver : Semver) where
  versions-JumpVerdict :
      (now : Time) (package_ref : Text) (vs : List semver.Version)
      → All Small (jumps semver vs)
      → JumpVerdict now package_ref (jumps semver vs) (detect_versions semver now package_ref vs)
  unfolding detect_versions judge jumps_from
  versions-JumpVerdict now package_ref [] small = nothing no_jump
  versions-JumpVerdict now package_ref (v ∷ []) small = nothing no_jump
  versions-JumpVerdict now package_ref (v ∷ w ∷ vs) small =
      let j = breaking_delta semver v w in
      let js = jumps_from semver w vs in
      verdict_of now package_ref
        (report semver now package_ref (last_of v (but_last w vs)) (last_of w vs) (last_of j js)
          (but_last j js))
        j js (All-but_last j js small) refl refl refl refl

  -- For versions with realistic numbers the detector reports exactly when the last jump is at least
  -- 2 and more than twice every jump before it. Then it raises one version-jump anomaly for the
  -- package, dated now: of high confidence when five earlier jumps are
  -- zero and the last is at least 5, else of medium confidence after two earlier jumps, whatever the
  -- size of the last, else of low confidence. The comment at the head of the source grades otherwise: low
  -- after two earlier jumps, and medium for a last jump of 2 to 4 only.
  pub detect-JumpVerdict :
      (now : Time) (package_ref : Text) (history : List PublisherSnapshot)
      → All (SmallVersion semver) (extract_versions_oldest_first semver history)
      → JumpVerdict now package_ref
          (jumps semver (extract_versions_oldest_first semver history))
          (detect semver now package_ref history)
  unfolding detect
  detect-JumpVerdict now package_ref history h =
      versions-JumpVerdict now package_ref (extract_versions_oldest_first semver history)
        (jumps-Small semver (extract_versions_oldest_first semver history) h)
