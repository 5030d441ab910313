-- ===== src/Anomaly/Drift/Emails.antt =====
-- When the maintainer-drift detector reports, and with which confidence.
use rampart.Base.{
  ◌≡◌, refl, sym, ◌∙◌, ◌≢◌, ◌↔◌, ◌⊎◌, inl, inr, not, List, [], ◌∷◌, Text, ◌==◌, eq_iff,
  ne_of_eq_false, Text-eq, ℕ-eq, contains, contains_iff, In, Bool-cases, In-append, In-keep_if,
  In-append_left, In-append_right,
}
use rampart.Domain.Publisher.{Maintainer, PublisherSnapshot}
use rampart.Anomaly.Drift.{add, address, email_from, email_set, seen_from, ever_seen, new_emails}

-- A maintainer of the list has this address.
abbrev pub HasEmail : Text → List Maintainer → Type 0
HasEmail e ms = (m : Maintainer) × In m ms × (address m ≡ e)

-- A snapshot of the list has a maintainer with this address.
abbrev pub EverSeen : Text → List PublisherSnapshot → Type 0
EverSeen e snaps = (snap : PublisherSnapshot) × In snap snaps × HasEmail e snap.maintainers

In-add : (e x : Text) (out : List Text) → In e (add out x) ↔ (In e out ⊎ (e ≡ x))
In-add e x out = elim (Bool-cases (contains out x)) [
  | inl dup ↦
      rw dup
        (λ m. inl m, λ h. elim h [ inl m ↦ m | inr same ↦ rw same ((contains_iff out x).0 dup) ])
  | inr fresh ↦ rw fresh (
    λ m. elim (In-append out (x ∷ []) e m) [
      | inl old ↦ inl old
      | inr n ↦ elim n [ inl same ↦ inr same | inr never ↦ absurd never ]
    ],
    λ h. elim h [
      | inl m ↦ In-append_left out (x ∷ []) e m
      | inr same ↦ In-append_right out (x ∷ []) e (inl same)
    ],
  )
]

In-seen_from :
    (e : Text) (ms : List Maintainer) (out : List Text)
    → In e (seen_from out ms) ↔ (In e out ⊎ HasEmail e ms)
unfolding seen_from
In-seen_from e [] out = (λ m. inl m, λ h. elim h [ inl m ↦ m | inr n ↦ absurd n.1 ])
In-seen_from e (x ∷ ms) out =
    let here = In-add e (address x) out in
    let next = In-seen_from e ms (add out (address x)) in
    (
      λ m. elim (next.0 m) [
        | inl n ↦ elim (here.0 n) [ inl old ↦ inl old | inr same ↦ inr (x, inl refl, sym same) ]
        | inr (y, n, same) ↦ inr (y, inr n, same)
      ],
      λ h. elim h [
        | inl old ↦ next.1 (inl (here.1 (inl old)))
        | inr (y, n, same) ↦ elim n [
          | inl first ↦ next.1 (inl (here.1 (inr (sym (rw first at same)))))
          | inr later ↦ next.1 (inr (y, later, same))
        ]
      ],
    )

pub In-ever_seen :
    (e : Text) (snaps : List PublisherSnapshot) (out : List Text)
    → In e (ever_seen out snaps) ↔ (In e out ⊎ EverSeen e snaps)
unfolding ever_seen
In-ever_seen e [] out = (λ m. inl m, λ h. elim h [ inl m ↦ m | inr n ↦ absurd n.1 ])
In-ever_seen e (x ∷ snaps) out =
    let here = In-seen_from e x.maintainers out in
    let next = In-ever_seen e snaps (seen_from out x.maintainers) in
    (
      λ m. elim (next.0 m) [
        | inl n ↦ elim (here.0 n) [ inl old ↦ inl old | inr has ↦ inr (x, inl refl, has) ]
        | inr (y, n, has) ↦ inr (y, inr n, has)
      ],
      λ h. elim h [
        | inl old ↦ next.1 (inl (here.1 (inl old)))
        | inr (y, n, has) ↦ elim n [
          | inl first ↦ next.1 (inl (here.1 (inr (rw first at has))))
          | inr later ↦ next.1 (inr (y, later, has))
        ]
      ],
    )

In-email_from :
    (e : Text) (ms : List Maintainer) (out : List Text)
    → In e (email_from out ms) ↔ (In e out ⊎ ((e ≢ []) × HasEmail e ms))
unfolding email_from
In-email_from e [] out = (λ m. inl m, λ h. elim h [ inl m ↦ m | inr n ↦ absurd n.1.1 ])
In-email_from e (x ∷ ms) out = elim (Bool-cases (address x == [])) [
  | inl blank ↦
      let next = In-email_from e ms out in
      rw blank (
        λ m. elim (next.0 m) [
          | inl old ↦ inl old
          | inr (ne, (y, n, same)) ↦ inr (ne, (y, inr n, same))
        ],
        λ h. elim h [
          | inl old ↦ next.1 (inl old)
          | inr (ne, (y, n, same)) ↦ elim n [
            | inl first ↦ absurd (ne (sym (rw first at same) ∙ (eq_iff (address x) []).0 blank))
            | inr later ↦ next.1 (inr (ne, (y, later, same)))
          ]
        ],
      )
  | inr filled ↦
      let here = In-add e (address x) out in
      let next = In-email_from e ms (add out (address x)) in
      rw filled (
        λ m. elim (next.0 m) [
          | inl n ↦ elim (here.0 n) [
            | inl old ↦ inl old
            | inr same ↦ inr (
              λ e_nil. ne_of_eq_false (address x) [] filled (sym same ∙ e_nil),
              (x, inl refl, sym same),
            )
          ]
          | inr (ne, (y, n, same)) ↦ inr (ne, (y, inr n, same))
        ],
        λ h. elim h [
          | inl old ↦ next.1 (inl (here.1 (inl old)))
          | inr (ne, (y, n, same)) ↦ elim n [
            | inl first ↦ next.1 (inl (here.1 (inr (sym (rw first at same)))))
            | inr later ↦ next.1 (inr (ne, (y, later, same)))
          ]
        ],
      )
]

pub In-email_set :
    (e : Text) (ms : List Maintainer) → In e (email_set ms) ↔ ((e ≢ []) × HasEmail e ms)
unfolding email_set
In-email_set e ms =
    let all = In-email_from e ms [] in
    (λ m. elim (all.0 m) [ inl never ↦ absurd never | inr h ↦ h ], λ h. all.1 (inr h))

-- The address is on the newest snapshot and not on the one before.
abbrev pub Drifted : Text → List PublisherSnapshot → Type 0
Drifted e [] = ⊥
Drifted e (newest ∷ []) = ⊥
Drifted e (newest ∷ previous ∷ older) =
    (e ≢ []) × HasEmail e newest.maintainers × (¬ HasEmail e previous.maintainers)

pub In-new_emails :
    (e : Text) (newest previous : PublisherSnapshot) (older : List PublisherSnapshot)
    → In e (new_emails newest previous) ↔ Drifted e (newest ∷ previous ∷ older)
In-new_emails e newest previous older =
    let prior = email_set previous.maintainers in
    let kept = In-keep_if (λ x. not (contains prior x)) (email_set newest.maintainers) e in
    let now = In-email_set e newest.maintainers in
    let before = In-email_set e previous.maintainers in
    (
      λ m.
          let (cur, test) = kept.0 m in
          let (ne, has) = now.0 cur in
          (ne, has, λ had. absurd (cc (test, (contains_iff prior e).1 (before.1 (ne, had))))),
      λ (ne, has, hasnt). kept.1 (
        now.1 (ne, has),
        elim (Bool-cases (contains prior e)) [
          | inl dup ↦ absurd (hasnt (before.0 ((contains_iff prior e).0 dup)).1)
          | inr fresh ↦ rw fresh refl
        ],
      ),
    )
