-- ===== src/Bus/Run.antt =====
-- Runs of the event bus of engine/internal/events/bus.go: any interleaving of its methods with the
-- subscribers' reads.
use rampart.Base.{
  ℕ, ◌<◌, ◌≡◌, refl, sym, ◌∙◌, inl, inr, Option, some, List, [], ◌∷◌, ◌++◌, Text-eq, ℕ-eq, In,
}
use mathlib.Core.List.{append_assoc, append-nil}
use rampart.Domain.Event.{DomainEvent}
use rampart.Bus.{Bus, new_bus, and_then}
use rampart.Bus.Change.{Op, step, Inv, stream, published, Follows}
use rampart.Bus.Step.{step-Stepped}

unfoldable pub run : List Op → Bus → Option Bus
run [] b = some b
run (op ∷ ops) b = and_then (step op b) (run ops)

abbrev pub all_published : List Op → List DomainEvent
all_published [] = []
all_published (op ∷ ops) = published op ++ all_published ops

-- A subscriber has been given a first part of what was published, without a gap, and all of it if
-- it is still subscribed.
abbrev pub GivenPrefix : List DomainEvent → ℕ → Bus → Bus → Type 0
GivenPrefix events j b b' =
    (given missed : List DomainEvent) × (events ≡ given ++ missed)
    × (stream b' j ≡ stream b j ++ given)
    × (In j b'.subs → missed ≡ [])

follow_prefix :
    (op : Op) (ops : List Op) (j : ℕ) (b b' b'' : Bus)
    → Follows op j b b'
    → (¬ In j b'.subs → (stream b'' j ≡ stream b' j) × (¬ In j b''.subs))
    → GivenPrefix (all_published ops) j b' b''
    → GivenPrefix (published op ++ all_published ops) j b b''
follow_prefix op ops j b b' b'' (inl (m, before, grown)) frozen (given, missed, split, eq, all) = (
  published op ++ given,
  missed,
  rw split (sym (append_assoc (published op) given missed)),
  eq ∙ rw grown (append_assoc (stream b j) (published op) given),
  all,
)
follow_prefix op ops j b b' b'' (inr (gone, same)) frozen g = (
  [],
  published op ++ all_published ops,
  refl,
  (frozen gone).0 ∙ same ∙ sym (append-nil (stream b j)),
  λ m. absurd ((frozen gone).1 m),
)

pub record Ran (ops : List Op) (b b' : Bus) : Type 0 where
  pub inv : Inv b'
  pub known : (j : ℕ) → j < b.next_id → j < b'.next_id
  pub frozen :
      (j : ℕ) → j < b.next_id → ¬ In j b.subs → (stream b' j ≡ stream b j) × (¬ In j b'.subs)
  pub gives : (j : ℕ) → j < b.next_id → GivenPrefix (all_published ops) j b b'

frozen_step :
    (op : Op) (j : ℕ) (b b' : Bus)
    → Follows op j b b'
    → ¬ In j b.subs
    → (stream b' j ≡ stream b j) × (¬ In j b'.subs)
frozen_step op j b b' (inl (m, before, grown)) gone = absurd (gone before)
frozen_step op j b b' (inr (gone', same)) gone = (same, gone')

run-Ran : (ops : List Op) (b : Bus) → Inv b → (b' : Bus) × (run ops b ≡ some b') × Ran ops b b'
unfolding run
run-Ran [] b v = (
  b,
  refl,
  record {
    inv = v;
    known = λ j h. h;
    frozen = λ j h gone. (refl, gone);
    gives = λ j h. ([], [], refl, sym (append-nil (stream b j)), λ m. refl);
  },
)
run-Ran (op ∷ ops) b v =
    let (b', one, st) = step-Stepped op b v in
    let (b'', rest, ran) = run-Ran ops b' st.inv in
    (
      b'',
      rw one rest,
      record {
        inv = ran.inv;
        known = λ j h. ran.known j (st.known j h);
        frozen = λ j h gone.
            let (same, gone') = frozen_step op j b b' (st.follows j h) gone in
            let (same', gone'') = ran.frozen j (st.known j h) gone' in (same' ∙ same, gone'');
        gives = λ j h.
            follow_prefix op ops j b b' b'' (st.follows j h) (ran.frozen j (st.known j h))
              (ran.gives j (st.known j h));
      },
    )

new_bus-Inv : (size : ℕ) → Inv (new_bus size)
unfolding new_bus
new_bus-Inv size = record { distinct = tt; live = λ j m. absurd m }

-- From a new bus, no sequence of subscriptions, cancellations, publications and reads ever sends on
-- a closed channel or closes one twice, and no subscriber's buffer holds more than the bus's size.
pub run_total : (size : ℕ) (ops : List Op) → (b : Bus) × (run ops (new_bus size) ≡ some b) × Inv b
run_total size ops =
    let (b, done, ran) = run-Ran ops (new_bus size) (new_bus-Inv size) in (b, done, ran.inv)

-- Whatever happens after a subscription, the subscriber is given a first part of the events that are
-- published, in their order and with none left out, and all of them if it
-- is still subscribed at the end.
pub delivery :
    (ops : List Op) (b : Bus) (j : ℕ)
    → Inv b
    → j < b.next_id
    → (b' : Bus) × (run ops b ≡ some b') × GivenPrefix (all_published ops) j b b'
delivery ops b j v h = let (b', done, ran) = run-Ran ops b v in (b', done, ran.gives j h)
