-- ===== src/Bus/Publish.antt =====
-- What Publish of engine/internal/events/bus.go does to each channel.
use rampart.Base.{
  ℕ, ◌≤◌, ◌<◌, ◌≡◌, refl, sym, ◌∙◌, ◌↔◌, inl, inr, Bool, true, false, not, Option, none, some, List,
  [], ◌∷◌, ◌++◌, arith, ◌==◌, eq_iff, Text-eq, ℕ-eq, contains, contains_iff, keep_if, In, length,
  if◌then◌else◌, ltb, Bool-cases, In-keep_if,
}
use rampart.Base.Assoc.{lookup, insert, lookup-insert}
use rampart.Domain.Event.{DomainEvent}
use rampart.Bus.{Chan, Bus, without, drop_sub, deliver, publish_each}

-- The subscriptions are distinct, were numbered by the bus, and their channels are open and hold no
-- more than the buffer size.
pub record Live (b : Bus) (id : ℕ) : Type 0 where
  pub chan : Chan
  pub found : lookup id b.chans ≡ some chan
  pub is_open : chan.closed ≡ false
  pub fits : length chan.buffer ≤ b.buffer_size
  pub numbered : id < b.next_id

abbrev pub DistinctIds : List ℕ → Type 0
DistinctIds [] = Unit
DistinctIds (id ∷ ids) = (¬ In id ids) × DistinctIds ids

-- What one publication does to one open channel: the event is added, or the channel is closed
-- because it is full.
abbrev pub after_event : DomainEvent → ℕ → Chan → Chan
after_event e size c =
    if ltb (length c.buffer) size
    then record c { buffer = c.buffer ++ e ∷ [] }
    else record c { closed = true }

abbrev pub has_room : ℕ → Option Chan → Bool
has_room size none = false
has_room size (some c) = ltb (length c.buffer) size

abbrev pub map_chan : (Chan → Chan) → Option Chan → Option Chan
map_chan f none = none
map_chan f (some c) = some (f c)

pub record Published (e : DomainEvent) (ids : List ℕ) (b b' : Bus) : Type 0 where
  pub channels :
      (j : ℕ)
      → lookup j b'.chans ≡ (
          if contains ids j
          then map_chan (after_event e b.buffer_size) (lookup j b.chans)
          else lookup j b.chans)
  pub live_ids :
      (j : ℕ)
      → In j b'.subs ↔ (In j b.subs × (In j ids → has_room b.buffer_size (lookup j b.chans) ≡ true))
  pub distinct_ids : DistinctIds b.subs → DistinctIds b'.subs
  pub same_fired : b'.fired ≡ b.fired
  pub same_next : b'.next_id ≡ b.next_id
  pub same_size : b'.buffer_size ≡ b.buffer_size

pub without-DistinctIds : (id : ℕ) (ids : List ℕ) → DistinctIds ids → DistinctIds (without id ids)
unfolding keep_if
without-DistinctIds id [] d = tt
without-DistinctIds id (x ∷ ids) d = ground (
  arith,
  without-DistinctIds id ids d.1,
  λ (m : In x (without id ids)). (In-keep_if (λ k. not (k == id)) ids x).0 m,
)

room_after : (e : DomainEvent) (id : ℕ) (b : Bus) → Live b id → Bus
room_after e id b l = record b {
  chans = insert id (record l.chan { buffer = l.chan.buffer ++ e ∷ [] }) b.chans;
}

room_Published :
    (e : DomainEvent) (id : ℕ) (b : Bus) (l : Live b id)
    → ltb (length l.chan.buffer) b.buffer_size ≡ true
    → Published e (id ∷ []) b (room_after e id b l)
unfolding contains room_after
room_Published e id b l room = record {
  channels = λ j. ground (
    arith,
    room,
    l.found,
    lookup-insert id j (record l.chan { buffer = l.chan.buffer ++ e ∷ [] }) b.chans,
  );
  live_ids = λ j. (λ m. (m, λ h. ground (arith, l.found, room, h)), λ h. h.0);
  distinct_ids = λ d. d;
  same_fired = refl;
  same_next = refl;
  same_size = refl;
}

full_after : (id : ℕ) (b : Bus) → Live b id → Bus
full_after id b l = record b {
  subs = without id b.subs;
  chans = insert id (record l.chan { closed = true }) b.chans;
}

full_Published :
    (e : DomainEvent) (id : ℕ) (b : Bus) (l : Live b id)
    → ltb (length l.chan.buffer) b.buffer_size ≡ false
    → Published e (id ∷ []) b (full_after id b l)
unfolding contains full_after
full_Published e id b l full = record {
  channels = λ j.
      ground (arith, full, l.found, lookup-insert id j (record l.chan { closed = true }) b.chans);
  live_ids = λ j. (
    λ m. ground (arith, (In-keep_if (λ k. not (k == id)) b.subs j).0 m),
    λ h. (In-keep_if (λ k. not (k == id)) b.subs j).1 (h.0, ground (arith, full, l.found, h.1)),
  );
  distinct_ids = without-DistinctIds id b.subs;
  same_fired = refl;
  same_next = refl;
  same_size = refl;
}

deliver_lem :
    (e : DomainEvent) (id : ℕ) (b : Bus)
    → Live b id
    → (b' : Bus) × (deliver e id b ≡ some b') × Published e (id ∷ []) b b'
unfolding deliver drop_sub room_after full_after
deliver_lem e id b l = elim (Bool-cases (ltb (length l.chan.buffer) b.buffer_size)) [
  | inl room ↦
      (room_after e id b l, ground (arith, l.found, l.is_open), room_Published e id b l room)
  | inr full ↦ (full_after id b l, ground (arith, l.found, l.is_open), full_Published e id b l full)
]

-- A delivery to another subscriber does not touch the channel of `j`.
elsewhere :
    (e : DomainEvent) (id : ℕ) (ids : List ℕ) (b b' : Bus) (j : ℕ)
    → ¬ In id ids
    → Published e (id ∷ []) b b'
    → In j ids
    → has_room b'.buffer_size (lookup j b'.chans) ≡ has_room b.buffer_size (lookup j b.chans)
unfolding contains
elsewhere e id ids b b' j fresh p m = elim (Bool-cases (id == j)) [
  | inl same ↦ absurd (fresh (rw ((eq_iff id j).0 same) m))
  | inr other ↦ ground (arith, p.channels j, p.same_size)
]

Published-trans :
    (e : DomainEvent) (id : ℕ) (ids : List ℕ) (b b' b'' : Bus)
    → ¬ In id ids
    → Published e (id ∷ []) b b'
    → Published e ids b' b''
    → Published e (id ∷ ids) b b''
unfolding contains
Published-trans e id ids b b' b'' fresh p q = record {
  channels = λ j. ground (arith, p.channels j, q.channels j, p.same_size, contains_iff ids j);
  live_ids = λ j. (
    λ m.
        let (m', h') = (q.live_ids j).0 m in
        let (m'', h'') = (p.live_ids j).0 m' in
        (
          m'',
          λ k. elim k [
            | inl same ↦ h'' (inl same)
            | inr later ↦ sym (elsewhere e id ids b b' j fresh p later) ∙ h' later
          ],
        ),
    λ h. (q.live_ids j).1 (
      (p.live_ids j).1 (h.0, λ k. elim k [ inl same ↦ h.1 (inl same) | inr none_ ↦ absurd none_ ]),
      λ later. elsewhere e id ids b b' j fresh p later ∙ h.1 (inr later),
    ),
  );
  distinct_ids = λ d. q.distinct_ids (p.distinct_ids d);
  same_fired = q.same_fired ∙ p.same_fired;
  same_next = q.same_next ∙ p.same_next;
  same_size = q.same_size ∙ p.same_size;
}

Live-later :
    (e : DomainEvent) (id : ℕ) (ids : List ℕ) (b b' : Bus)
    → ¬ In id ids
    → Published e (id ∷ []) b b'
    → ((j : ℕ) → In j ids → Live b j)
    → (j : ℕ) → In j ids
    → Live b' j
Live-later e id ids b b' fresh p live j m = elim (Bool-cases (id == j)) [
  | inl same ↦ absurd (fresh (rw ((eq_iff id j).0 same) m))
  | inr other ↦ record {
    chan = (live j m).chan;
    found = unfold contains in ground (arith, p.channels j, (live j m).found, other);
    is_open = (live j m).is_open;
    fits = ground (arith, p.same_size, (live j m).fits);
    numbered = ground (arith, p.same_next, (live j m).numbered);
  }
]

pub publish_each_lem :
    (e : DomainEvent) (ids : List ℕ) (b : Bus)
    → DistinctIds ids
    → ((j : ℕ) → In j ids → Live b j)
    → (b' : Bus) × (publish_each e ids b ≡ some b') × Published e ids b b'
unfolding publish_each
publish_each_lem e [] b d live = (
  b,
  refl,
  record {
    channels = λ j. unfold contains in refl;
    live_ids = λ j. (λ m. (m, λ k. absurd k), λ h. h.0);
    distinct_ids = λ d. d;
    same_fired = refl;
    same_next = refl;
    same_size = refl;
  },
)
publish_each_lem e (id ∷ ids) b d live =
    let (b', step, p) = deliver_lem e id b (live id (inl refl)) in
    let (b'', rest, q) =
      publish_each_lem e ids b' d.1 (Live-later e id ids b b' d.0 p (λ j m. live j (inr m))) in
    (b'', rw step rest, Published-trans e id ids b b' b'' d.0 p q)
