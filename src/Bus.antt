-- ===== src/Bus.antt =====
-- engine/internal/events/bus.go: the process-local event bus. Every method holds the bus's mutex, so
-- a call is one step; the subscribers' own reads are steps between them. A channel is named by the
-- id of its subscription. `none` is a Go panic: a send on a closed channel, or a second close.
pub mod Publish
pub mod Change
pub mod Leave
pub mod Step
pub mod Run
use rampart.Base.{
  ℕ, zero, suc, ◌+◌, ◌-◌, ◌*◌, ◌≤◌, ◌<◌, ◌≡◌, refl, sym, ap, ◌∙◌, ◌≢◌, ◌↔◌, ◌⊎◌, inl, inr, Bool,
  true, false, not, ◌&&◌, ◌||◌, Option, none, some, List, [], ◌∷◌, ◌++◌, map, arith, Text, bytes,
  String, Eq, ◌==◌, eq_iff, eq_refl, eq_false, ne_of_eq_false, Text-eq, ℕ-eq, contains,
  contains_iff, keep_if, In, All, length, take, if◌then◌else◌, ltb, leb, Bool-cases, Option-cases,
}
use rampart.Base.Assoc.{Assoc, lookup, insert}
use rampart.Domain.Event.{DomainEvent}

-- `received` is what the subscriber has read so far: no code of the bus looks at it.
pub record Chan : Type 0 where
  pub buffer : List DomainEvent
  pub closed : Bool
  pub received : List DomainEvent

-- `subs` holds the keys of the map; `fired` the subscriptions whose sync.Once has run.
pub record Bus : Type 0 where
  pub chans : Assoc ℕ Chan
  pub subs : List ℕ
  pub fired : List ℕ
  pub next_id : ℕ
  pub buffer_size : ℕ

-- NewBus
unfoldable pub new_bus : ℕ → Bus
new_bus buffer_size = record {
  chans = [];
  subs = [];
  fired = [];
  next_id = 0;
  buffer_size = if ltb buffer_size 1 then 256 else buffer_size;
}

abbrev pub empty_chan : Chan
empty_chan = record { buffer = []; closed = false; received = [] }

-- Subscribe: the bus afterwards, and the id of the new channel.
unfoldable pub subscribe : Bus → Bus × ℕ
subscribe b = (
  record b {
    chans = insert b.next_id empty_chan b.chans;
    subs = b.next_id ∷ b.subs;
    next_id = b.next_id + 1;
  },
  b.next_id,
)

-- `delete(b.subs, id)`
abbrev pub without : ℕ → List ℕ → List ℕ
without id ids = keep_if (λ j. not (j == id)) ids

close_found : ℕ → Bus → Option Chan → Option Bus
close_found id b none = none
close_found id b (some c) =
    if c.closed
    then none
    else some (record b {
      subs = without id b.subs;
      chans = insert id (record c { closed = true }) b.chans;
    })

-- `delete(b.subs, id); close(ch)`
unfoldable pub drop_sub : ℕ → Bus → Option Bus
unfolding close_found
drop_sub id b = close_found id b (lookup id b.chans)

-- The cancel function that Subscribe returns, also run when the context ends.
unfoldable pub cancel : ℕ → Bus → Option Bus
cancel id b =
    if contains b.fired id
    then some b
    else let b' = record b { fired = id ∷ b.fired } in
      if contains b'.subs id then drop_sub id b' else some b'

send_found : DomainEvent → ℕ → Bus → Option Chan → Option Bus
send_found e id b none = none
send_found e id b (some c) =
    if c.closed
    then none
    else if ltb (length c.buffer) b.buffer_size
    then some (record b { chans = insert id (record c { buffer = c.buffer ++ e ∷ [] }) b.chans })
    else drop_sub id b

-- The `select` of Publish for one subscriber: a send if the buffer has room, a drop if not.
unfoldable pub deliver : DomainEvent → ℕ → Bus → Option Bus
unfolding send_found
deliver e id b = send_found e id b (lookup id b.chans)

abbrev pub and_then : Option Bus → (Bus → Option Bus) → Option Bus
and_then none k = none
and_then (some b) k = k b

-- The loop of Publish.
unfoldable pub publish_each : DomainEvent → List ℕ → Bus → Option Bus
publish_each e [] b = some b
publish_each e (id ∷ ids) b = and_then (deliver e id b) (publish_each e ids)

-- Publish
unfoldable pub publish : DomainEvent → Bus → Option Bus
publish e b = publish_each e b.subs b

-- SubscriberCount
unfoldable pub subscriber_count : Bus → ℕ
subscriber_count b = length b.subs

read_chan : ℕ → Bus → Chan → List DomainEvent → Bus
read_chan id b c [] = b
read_chan id b c (e ∷ rest) = record b {
  chans = insert id (record c { buffer = rest; received = c.received ++ e ∷ [] }) b.chans;
}

read_found : ℕ → Bus → Option Chan → Bus
unfolding read_chan
read_found id b none = b
read_found id b (some c) = read_chan id b c c.buffer

-- A subscriber takes the oldest event from its channel; with an empty buffer it waits.
unfoldable pub receive : ℕ → Bus → Bus
unfolding read_found
receive id b = read_found id b (lookup id b.chans)
