-- ===== src/Bus/Step.antt =====
-- One step of the event bus of engine/internal/events/bus.go: a method or a subscriber's read.
use rampart.Base.{
  ℕ, ◌≡◌, refl, ◌⊎◌, inl, inr, true, false, some, [], ◌∷◌, ◌++◌, arith, Text-eq, ℕ-eq, contains,
  contains_iff, In, Bool-cases, length-append,
}
use mathlib.Core.List.{append_assoc}
use rampart.Base.Assoc.{lookup}
use rampart.Domain.Event.{DomainEvent}
use rampart.Bus.{Bus, empty_chan, subscribe, publish, receive}
use rampart.Bus.Publish.{Live, Published, publish_each_lem, has_room}
use rampart.Bus.Change.{
  Op, subscribes, cancels, publishes, receives, step, Inv, stream, Follows, Stepped, unchanged,
  Live-other, Live-self, stream-insert,
}
use rampart.Bus.Leave.{receive-Stepped, cancel-Stepped}

subscribe-Stepped : (b : Bus) → Inv b → Stepped subscribes b (subscribe b).0
unfolding subscribe
subscribe-Stepped b v = record {
  inv = record {
    distinct = (λ m. absurd (omega (arith, (v.live b.next_id m).numbered)), v.distinct);
    live = λ j m. elim m [
      | inl e ↦ rw e (
          Live-self (subscribe b).0 b.next_id empty_chan b.chans refl refl (omega arith)
            (omega arith))
      | inr k ↦
          Live-other b (subscribe b).0 b.next_id j empty_chan refl (omega arith) refl
            (λ e. absurd (omega (arith, (v.live j k).numbered))) (v.live j k)
    ];
  };
  known = λ j h. omega arith;
  follows = λ j h.
      unchanged j b (subscribe b).0 subscribes refl
        (λ m. elim m [ inl e ↦ absurd (omega arith) | inr k ↦ k ])
        (stream-insert b (subscribe b).0 b.next_id j empty_chan refl (λ e. absurd (omega arith)));
}

module _ (e : DomainEvent) (b b' : Bus) (p : Published e b.subs b b') where
  -- A subscriber that is still there had room, and its channel has the event at its end.
  still-Live : (j : ℕ) → Live b j → In j b'.subs → Live b' j
  still-Live j l m =
      let (before, room) = (p.live_ids j).0 m in
      let has = room before in
      record {
        chan = record l.chan { buffer = l.chan.buffer ++ e ∷ [] };
        found = ground (arith, p.channels j, l.found, has, (contains_iff b.subs j).1 before);
        is_open = l.is_open;
        fits = ground (arith, l.found, has, p.same_size, length-append l.chan.buffer (e ∷ []));
        numbered = omega (arith, l.numbered, p.same_next);
      }

  publish-Follows : (j : ℕ) → (In j b.subs → Live b j) → Follows (publishes e) j b b'
  publish-Follows j live = elim (Bool-cases (contains b'.subs j)) [
    | inl there ↦
        let m = (contains_iff b'.subs j).0 there in
        let (before, room) = (p.live_ids j).0 m in
        inl (m, before, kept (live before) (room before) ((contains_iff b.subs j).1 before))
    | inr gone ↦ inr (
      λ m. cc (gone, (contains_iff b'.subs j).1 m),
      lost (Bool-cases (contains b.subs j)) (λ m. cc (gone, (contains_iff b'.subs j).1 m)),
    )
  ]
    where
      lost :
          (contains b.subs j ≡ true) ⊎ (contains b.subs j ≡ false)
          → ¬ In j b'.subs
          → stream b' j ≡ stream b j
      lost (inr never) gone = ground (arith, p.channels j, never)
      lost (inl before) gone =
          let mb = (contains_iff b.subs j).0 before in
          elim (Bool-cases (has_room b.buffer_size (lookup j b.chans))) [
            | inl room ↦ absurd (gone ((p.live_ids j).1 (mb, λ k. room)))
            | inr full ↦ ground (arith, p.channels j, (live mb).found, full, before)
          ]

      kept :
          Live b j
          → has_room b.buffer_size (lookup j b.chans) ≡ true
          → contains b.subs j ≡ true
          → stream b' j ≡ stream b j ++ e ∷ []
      kept l room before = ground (
        arith,
        p.channels j,
        l.found,
        room,
        before,
        append_assoc l.chan.received l.chan.buffer (e ∷ []),
      )

publish-Stepped :
    (e : DomainEvent) (b : Bus)
    → Inv b
    → (b' : Bus) × (publish e b ≡ some b') × Stepped (publishes e) b b'
unfolding publish
publish-Stepped e b v =
    let (b', done, p) = publish_each_lem e b.subs b v.distinct v.live in
    (
      b',
      done,
      record {
        inv = record {
          distinct = p.distinct_ids v.distinct;
          live = λ j m. still-Live e b b' p j (v.live j ((p.live_ids j).0 m).0) m;
        };
        known = λ j h. omega (arith, p.same_next);
        follows = λ j h. publish-Follows e b b' p j (v.live j);
      },
    )

-- No step of a bus in a valid state panics, and the next state is valid again.
pub step-Stepped :
    (op : Op) (b : Bus) → Inv b → (b' : Bus) × (step op b ≡ some b') × Stepped op b b'
unfolding step
step-Stepped subscribes b v = ((subscribe b).0, refl, subscribe-Stepped b v)
step-Stepped (cancels id) b v = cancel-Stepped id b v
step-Stepped (publishes e) b v = publish-Stepped e b v
step-Stepped (receives id) b v = (receive id b, refl, receive-Stepped id b v)
