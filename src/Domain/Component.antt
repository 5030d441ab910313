-- ===== src/Domain/Component.antt =====
-- engine/internal/domain/component.go: component references "kind:Component/default/web-app".
use rampart.Base.{
  ◌≡◌, sym, ◌∙◌, ◌≢◌, ◌↔◌, inl, inr, ◌||◌, Option, none, some, List, [], ◌∷◌, ◌++◌, arith, Text,
  bytes, ◌==◌, eq_iff, eq_false, Text-eq, ℕ-eq, All, if◌then◌else◌, Bool-cases, Option-cases,
  list_eq,
}
use mathlib.Core.Path.{ap₂}
use rampart.Base.Strings.{
  cut, split, join, Lacks, cut_parts, cut-append, join-split, split-Lacks, split_whole,
  split-append,
}

pub record Component : Type 0 where
  pub ref : Text
  pub kind : Text
  pub namespace : Text
  pub name : Text
  pub owner : Text
  pub system : Text
  pub lifecycle : Text
  pub tags : List Text
  pub annotations : List (Text × Text)

-- The three ways in which ErrInvalidComponentRef is wrapped, with the text that is quoted.
pub data RefError : Type 0 where
  missing_prefix segments empty_segment : Text → RefError

pub data Parsed : Type 0 where
  parsed : (kind namespace name : Text) → Parsed
  failed : RefError → Parsed

check_segments : Text → Text → Text → Text → Parsed
check_segments ref kind namespace name =
    if kind == [] || namespace == [] || name == []
    then failed (empty_segment ref)
    else parsed kind namespace name

check_parts : Text → Text → List Text → Parsed
unfolding check_segments
check_parts ref tail (kind ∷ namespace ∷ name ∷ []) = check_segments ref kind namespace name
check_parts ref tail _ = failed (segments tail)

check_tail : Text → Text → Text → Parsed
unfolding check_parts
check_tail ref head tail =
    if head == bytes "kind"
    then check_parts ref tail (split b'/' tail)
    else failed (missing_prefix ref)

after_cut : Text → Option (Text × Text) → Parsed
unfolding check_tail
after_cut ref none = failed (missing_prefix ref)
after_cut ref (some (head, tail)) = check_tail ref head tail

-- ParseComponentRef
unfoldable pub parse_component_ref : Text → Parsed
unfolding after_cut
parse_component_ref ref = after_cut ref (cut b':' ref)

-- NewComponent: a component with the parts of its ref, or the parser's error.
pub data NewResult : Type 0 where
  created : Component → NewResult
  rejected : RefError → NewResult

unfoldable pub new_component : Text → Text → NewResult
new_component ref owner = elim (parse_component_ref ref) [
  | parsed kind namespace name ↦ created (record {
    ref = ref;
    kind = kind;
    namespace = namespace;
    name = name;
    owner = owner;
    system = [];
    lifecycle = [];
    tags = [];
    annotations = [];
  })
  | failed e ↦ rejected e
]

-- The ref that names three parts.
abbrev pub format_ref : Text → Text → Text → Text
format_ref kind namespace name = bytes "kind" ++ b':' ∷ (kind ++ b'/' ∷ (namespace ++ b'/' ∷ name))

-- A part of a ref: not empty, and with no slash.
abbrev pub IsSegment : Text → Type 0
IsSegment s = (s ≢ []) × Lacks b'/' s

check_parts-parsed :
    (ref tail : Text) (parts : List Text) (k ns n : Text)
    → check_parts ref tail parts ≡ parsed k ns n
    → (parts ≡ k ∷ ns ∷ n ∷ []) × (k ≢ []) × (ns ≢ []) × (n ≢ [])
unfolding check_parts
check_parts-parsed ref tail (a ∷ b ∷ c ∷ []) k ns n h =
    ground (arith, eq_iff a [], eq_iff b [], eq_iff c [])
check_parts-parsed ref tail [] k ns n h = absurd cc
check_parts-parsed ref tail (a ∷ []) k ns n h = absurd cc
check_parts-parsed ref tail (a ∷ b ∷ []) k ns n h = absurd cc
check_parts-parsed ref tail (a ∷ b ∷ c ∷ d ∷ r) k ns n h = absurd cc

split-format :
    (k ns n : Text)
    → IsSegment k
    → IsSegment ns
    → IsSegment n
    → split b'/' (k ++ b'/' ∷ (ns ++ b'/' ∷ n)) ≡ k ∷ ns ∷ n ∷ []
split-format k ns n hk hns hn = rw (
  split-append b'/' k (ns ++ b'/' ∷ n) hk.1,
  split-append b'/' ns n hns.1,
  split_whole b'/' n hn.1,
)

parse-format :
    (k ns n : Text)
    → IsSegment k
    → IsSegment ns
    → IsSegment n
    → parse_component_ref (format_ref k ns n) ≡ parsed k ns n
unfolding parse_component_ref list_eq
parse-format k ns n hk hns hn = ground (
  arith,
  cut-append b':' (bytes "kind") (k ++ b'/' ∷ (ns ++ b'/' ∷ n)) (omega arith),
  split-format k ns n hk hns hn,
  eq_false k [] hk.0,
  eq_false ns [] hns.0,
  eq_false n [] hn.0,
)

parts_of_split :
    (tail k ns n : Text)
    → split b'/' tail ≡ k ∷ ns ∷ n ∷ []
    → (tail ≡ k ++ b'/' ∷ (ns ++ b'/' ∷ n)) × Lacks b'/' k × Lacks b'/' ns × Lacks b'/' n
unfolding join
parts_of_split tail k ns n e =
    let lacks : All (Lacks b'/') (k ∷ ns ∷ n ∷ []) = rw e at (split-Lacks b'/' tail) in
    (sym (rw e at (join-split b'/' tail)), lacks.0, lacks.1.0, lacks.1.1.0)

parse-parts :
    (ref k ns n : Text)
    → parse_component_ref ref ≡ parsed k ns n
    → (ref ≡ format_ref k ns n) × IsSegment k × IsSegment ns × IsSegment n
unfolding parse_component_ref
parse-parts ref k ns n h = elim (Option-cases (cut b':' ref)) [
  | inl miss ↦ absurd (cc (rw (miss, parse_component_ref) at h))
  | inr ((head, tail), hit) ↦ with_tail head tail hit (rw (hit, parse_component_ref) at h)
]
  where
    with_tail :
        (head tail : Text)
        → cut b':' ref ≡ some (head, tail)
        → check_tail ref head tail ≡ parsed k ns n
        → (ref ≡ format_ref k ns n) × IsSegment k × IsSegment ns × IsSegment n
    with_tail head tail hit h = elim (Bool-cases (head == bytes "kind")) [
      | inr other ↦ absurd (cc (rw (other, check_tail) at h))
      | inl is_kind ↦
          let (es, nk, nns, nn) =
            check_parts-parsed ref tail (split b'/' tail) k ns n (rw is_kind at h) in
          let (et, lk, lns, ln) = parts_of_split tail k ns n es in
          (
            (cut_parts b':' ref head tail hit).0
                ∙ ap₂ (λ (a b : Text). a ++ b':' ∷ b) ((eq_iff head (bytes "kind")).0 is_kind) et,
            (nk, lk),
            (nns, lns),
            (nn, ln),
          )
    ]

-- ParseComponentRef accepts exactly the texts "kind:" k "/" ns "/" n whose three parts are not empty
-- and hold no slash, and gives those parts back.
pub parse_component_ref_iff :
    (ref k ns n : Text)
    → (parse_component_ref ref ≡ parsed k ns n)
      ↔ ((ref ≡ format_ref k ns n) × IsSegment k × IsSegment ns × IsSegment n)
parse_component_ref_iff ref k ns n =
    (parse-parts ref k ns n, λ h. rw h.0 (parse-format k ns n h.1 h.2 h.3))
