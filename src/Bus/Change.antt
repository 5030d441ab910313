-- ===== src/Bus/Change.antt =====
-- What one step of the event bus of engine/internal/events/bus.go does: a method or a subscriber's
-- read.
use rampart.Base.{
  ℕ, ◌≤◌, ◌<◌, ◌≡◌, sym, ◌∙◌, ◌≢◌, ◌⊎◌, inl, inr, false, Option, none, some, List, [], ◌∷◌, ◌++◌,
  arith, ◌==◌, eq_iff, Text-eq, ℕ-eq, contains, contains_iff, In, length, Bool-cases,
}
use mathlib.Core.List.{append-nil}
use rampart.Base.Assoc.{Assoc, lookup, insert, lookup-insert}
use rampart.Domain.Event.{DomainEvent}
use rampart.Bus.{Chan, Bus, subscribe, cancel, publish, receive}
use rampart.Bus.Publish.{Live, DistinctIds}

pub data Op : Type 0 where
  subscribes : Op
  cancels : ℕ → Op
  publishes : DomainEvent → Op
  receives : ℕ → Op

unfoldable pub step : Op → Bus → Option Bus
step subscribes b = some (subscribe b).0
step (cancels id) b = cancel id b
step (publishes e) b = publish e b
step (receives id) b = some (receive id b)

pub record Inv (b : Bus) : Type 0 where
  pub distinct : DistinctIds b.subs
  pub live : (j : ℕ) → In j b.subs → Live b j

-- What a subscriber has read, and then what waits for it.
abbrev pub stream_of : Option Chan → List DomainEvent
stream_of none = []
stream_of (some c) = c.received ++ c.buffer

abbrev pub stream : Bus → ℕ → List DomainEvent
stream b j = stream_of (lookup j b.chans)

abbrev pub published : Op → List DomainEvent
published (publishes e) = e ∷ []
published _ = []

-- After a step a subscriber is still there with the step's event added, or it is gone with nothing
-- added.
abbrev pub Follows : Op → ℕ → Bus → Bus → Type 0
Follows op j b b' =
    (In j b'.subs × In j b.subs × (stream b' j ≡ stream b j ++ published op))
    ⊎ ((¬ In j b'.subs) × (stream b' j ≡ stream b j))

pub record Stepped (op : Op) (b b' : Bus) : Type 0 where
  pub inv : Inv b'
  pub known : (j : ℕ) → j < b.next_id → j < b'.next_id
  pub follows : (j : ℕ) → j < b.next_id → Follows op j b b'

pub unchanged :
    (j : ℕ) (b b' : Bus) (op : Op)
    → published op ≡ []
    → (In j b'.subs → In j b.subs)
    → stream b' j ≡ stream b j
    → Follows op j b b'
unchanged j b b' op quiet subs same = elim (Bool-cases (contains b'.subs j)) [
  | inl there ↦
      let m = (contains_iff b'.subs j).0 there in
      inl (m, subs m, same ∙ sym (rw quiet (append-nil (stream b j))))
  | inr gone ↦ inr (λ m. cc (gone, (contains_iff b'.subs j).1 m), same)
]

-- A write to another channel, and one to the channel itself, that keep a subscriber alive.
pub Live-other :
    (b b' : Bus) (id j : ℕ) (c : Chan)
    → b'.chans ≡ insert id c b.chans
    → b.next_id ≤ b'.next_id
    → b'.buffer_size ≡ b.buffer_size
    → id ≢ j
    → Live b j
    → Live b' j
Live-other b b' id j c e n z other l = record {
  chan = l.chan;
  found = ground (arith, lookup-insert id j c b.chans, l.found);
  is_open = l.is_open;
  fits = omega (arith, l.fits, z);
  numbered = omega (arith, l.numbered, n);
}

pub Live-self :
    (b : Bus) (id : ℕ) (c : Chan) (rest : Assoc ℕ Chan)
    → b.chans ≡ insert id c rest
    → c.closed ≡ false
    → length c.buffer ≤ b.buffer_size
    → id < b.next_id
    → Live b id
Live-self b id c rest e is_open fits numbered = record {
  chan = c;
  found = ground (arith, lookup-insert id id c rest, e);
  is_open = is_open;
  fits = fits;
  numbered = numbered;
}

-- The channel of `j` is not written, or is written with the same stream.
pub stream-insert :
    (b b' : Bus) (id j : ℕ) (c : Chan)
    → b'.chans ≡ insert id c b.chans
    → (id ≡ j → stream_of (some c) ≡ stream b j)
    → stream b' j ≡ stream b j
stream-insert b b' id j c e same = elim (Bool-cases (id == j)) [
  | inl hit ↦ ground (arith, lookup-insert id j c b.chans, same ((eq_iff id j).0 hit), e)
  | inr miss ↦ ground (arith, lookup-insert id j c b.chans, e)
]
