-- ===== src/Base/Strings.antt =====
-- Go strings as sequences of bytes, with the functions of package strings that the engine calls.
-- `to_lower` and `trim_space` treat the ASCII range; bytes from 128 on are left as they are.
use Prim.Native.Nat.{ℕ, ◌+◌}
use Prim.Native.Char.{code}
use Prim.Native.String.{String}
use mathlib.Core.Path.{◌≡◌, refl}
use mathlib.Core.Logic.{◌≢◌, inl, inr}
use mathlib.Core.Bool.{Bool, true, false, ◌&&◌, ◌||◌}
use mathlib.Core.Option.{Option, none, some}
use mathlib.Core.List.{List, [], ◌∷◌, ◌++◌, map, reverse}
use native.Mathlib.Omega.{arith}
use rampart.Base.Tests.{Option-cases, Bool-cases, ltb, leb, if◌then◌else◌}
use rampart.Base.Lists.{All}
use rampart.Base.Equality.{Eq, ◌==◌, list_eq, list_eq_iff, ℕ-eq}

abbrev pub Text : Type 0
Text = List ℕ

instance abbrev pub Text-eq : Eq Text
Text-eq = record { same = list_eq; same_iff = list_eq_iff }

-- A string literal of the source.
abbrev pub bytes : String → Text
bytes String.[] = []
bytes (String.◌∷◌ c s) = code c ∷ bytes s

-- Go's `<` on strings: lexicographic by byte.
unfoldable pub text_lt : Text → Text → Bool
text_lt [] [] = false
text_lt [] (y ∷ ys) = true
text_lt (x ∷ xs) [] = false
text_lt (x ∷ xs) (y ∷ ys) =
    let rest = text_lt xs ys in if ltb x y then true else if x == y then rest else false

-- strings.HasPrefix
unfoldable pub has_prefix : Text → Text → Bool
has_prefix s [] = true
has_prefix [] (p ∷ ps) = false
has_prefix (c ∷ s) (p ∷ ps) = c == p && has_prefix s ps

-- strings.Contains
unfoldable pub contains_text : Text → Text → Bool
unfolding has_prefix
contains_text [] q = has_prefix [] q
contains_text (c ∷ s) q = has_prefix (c ∷ s) q || contains_text s q

-- strings.Cut at a separator of one byte: the parts before and after its first occurrence.
unfoldable pub cut : ℕ → Text → Option (Text × Text)
cut sep [] = none
cut sep (c ∷ s) =
    let rest = cut sep s in
    if c == sep
    then some ([], s)
    else elim rest [ none ↦ none | some (head, tail) ↦ some (c ∷ head, tail) ]

abbrev split_cons : ℕ → List Text → List Text
split_cons c [] = (c ∷ []) ∷ []
split_cons c (part ∷ parts) = (c ∷ part) ∷ parts

-- strings.Split at a separator of one byte: never empty.
unfoldable pub split : ℕ → Text → List Text
split sep [] = [] ∷ []
split sep (c ∷ s) = let rest = split sep s in if c == sep then [] ∷ rest else split_cons c rest

lower_byte : ℕ → ℕ
lower_byte c = if leb b'A' c && leb c b'Z' then c + 32 else c

-- strings.ToLower
unfoldable pub to_lower : Text → Text
unfolding lower_byte
to_lower s = map lower_byte s

unfoldable pub is_space : ℕ → Bool
is_space c = c == 32 || (leb 9 c && leb c 13)

trim_left : Text → Text
unfolding is_space
trim_left [] = []
trim_left (c ∷ s) = let rest = trim_left s in if is_space c then rest else c ∷ s

-- strings.TrimSpace
unfoldable pub trim_space : Text → Text
unfolding trim_left
trim_space s = reverse (trim_left (reverse (trim_left s)))

-- A text that does not hold a byte.
abbrev pub Lacks : ℕ → Text → Type 0
Lacks b [] = Unit {0}
Lacks b (c ∷ s) = (c ≢ b) × Lacks b s

-- A text is its two parts with the separator between, and the first part lacks the separator.
pub cut_parts :
    (sep : ℕ) (s head tail : Text)
    → cut sep s ≡ some (head, tail)
    → (s ≡ head ++ sep ∷ tail) × Lacks sep head
unfolding cut
cut_parts sep [] head tail h = cc
cut_parts sep (c ∷ s) head tail h = elim (Option-cases (cut sep s)) [
  | inl e ↦ ground arith
  | inr ((x, y), e) ↦ ground (arith, cut_parts sep s x y e)
]

-- Joining and cutting again gives the parts back.
pub cut-append :
    (sep : ℕ) (head tail : Text) → Lacks sep head → cut sep (head ++ sep ∷ tail) ≡ some (head, tail)
unfolding cut
cut-append sep [] tail l = ground arith
cut-append sep (c ∷ head) tail l = ground (arith, cut-append sep head tail l.1)

-- strings.Join with a separator of one byte.
unfoldable pub join : ℕ → List Text → Text
join sep [] = []
join sep (part ∷ []) = part
join sep (part ∷ next ∷ parts) = part ++ sep ∷ join sep (next ∷ parts)

join-split_cons :
    (sep c : ℕ) (parts : List Text) → join sep (split_cons c parts) ≡ c ∷ join sep parts
unfolding join
join-split_cons sep c [] = refl
join-split_cons sep c (p ∷ []) = refl
join-split_cons sep c (p ∷ q ∷ parts) = refl

join-nil_cons :
    (sep : ℕ) (parts : List Text) → parts ≢ [] → join sep ([] ∷ parts) ≡ sep ∷ join sep parts
unfolding join
join-nil_cons sep [] h = absurd (h refl)
join-nil_cons sep (p ∷ parts) h = refl

split_cons-ne-nil : (c : ℕ) (parts : List Text) → split_cons c parts ≢ []
split_cons-ne-nil c [] h = cc
split_cons-ne-nil c (p ∷ parts) h = cc

split-ne-nil : (sep : ℕ) (s : Text) → split sep s ≢ []
unfolding split
split-ne-nil sep [] h = cc
split-ne-nil sep (c ∷ s) h = elim (Bool-cases (c == sep)) [
  | inl e ↦ ground arith
  | inr e ↦ ground (arith, split_cons-ne-nil c (split sep s))
]

pub join-split : (sep : ℕ) (s : Text) → join sep (split sep s) ≡ s
unfolding split
join-split sep [] = unfold join in refl
join-split sep (c ∷ s) = elim (Bool-cases (c == sep)) [
  | inl e ↦
      rw e (
        rw (join-nil_cons sep (split sep s) (split-ne-nil sep s))
          (ground (arith, join-split sep s)))
  | inr e ↦ rw e (rw (join-split_cons sep c (split sep s)) (ground (arith, join-split sep s)))
]

Lacks-split_cons :
    (sep c : ℕ) (parts : List Text)
    → c ≢ sep
    → All (Lacks sep) parts
    → All (Lacks sep) (split_cons c parts)
Lacks-split_cons sep c [] h l = ((h, tt), tt)
Lacks-split_cons sep c (p ∷ parts) h l = ((h, l.0), l.1)

pub split-Lacks : (sep : ℕ) (s : Text) → All (Lacks sep) (split sep s)
unfolding split
split-Lacks sep [] = (tt, tt)
split-Lacks sep (c ∷ s) = elim (Bool-cases (c == sep)) [
  | inl e ↦ rw e (tt, split-Lacks sep s)
  | inr e ↦ rw e (Lacks-split_cons sep c (split sep s) (ground arith) (split-Lacks sep s))
]

pub split_whole : (sep : ℕ) (s : Text) → Lacks sep s → split sep s ≡ s ∷ []
unfolding split
split_whole sep [] l = refl
split_whole sep (c ∷ s) l = ground (arith, split_whole sep s l.1)

pub split-append :
    (sep : ℕ) (s rest : Text) → Lacks sep s → split sep (s ++ sep ∷ rest) ≡ s ∷ split sep rest
unfolding split
split-append sep [] rest l = ground arith
split-append sep (c ∷ s) rest l = ground (arith, split-append sep s rest l.1)
