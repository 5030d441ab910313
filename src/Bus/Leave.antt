-- ===== src/Bus/Leave.antt =====
-- The steps of the event bus that read from a channel or end a subscription.
use rampart.Base.{
  ℕ, ◌≡◌, refl, sym, ◌≢◌, ◌⊎◌, inl, inr, true, false, not, Option, none, some, List, [], ◌∷◌, ◌++◌,
  arith, ◌==◌, eq_iff, ne_of_eq_false, Text-eq, ℕ-eq, contains, contains_iff, In, Bool-cases,
  In-keep_if,
}
use mathlib.Core.List.{append_assoc}
use rampart.Base.Assoc.{lookup, insert}
use rampart.Domain.Event.{DomainEvent}
use rampart.Bus.{Chan, Bus, cancel, receive, read_found, read_chan, without, drop_sub}
use rampart.Bus.Publish.{without-DistinctIds, Live}
use rampart.Bus.Change.{
  Op, cancels, receives, Inv, published, Stepped, unchanged, Live-other, Live-self, stream-insert,
}

-- A step that touches no channel and no subscription.
quiet-Stepped :
    (op : Op) (b : Bus) (fired : List ℕ)
    → published op ≡ []
    → Inv b
    → Stepped op b (record b { fired = fired })
quiet-Stepped op b fired quiet v = record {
  inv = record {
    distinct = v.distinct;
    live = λ j m. record {
      chan = (v.live j m).chan;
      found = (v.live j m).found;
      is_open = (v.live j m).is_open;
      fits = (v.live j m).fits;
      numbered = (v.live j m).numbered;
    };
  };
  known = λ j h. h;
  follows = λ j h. unchanged j b (record b { fired = fired }) op quiet (λ m. m) refl;
}

read-Stepped :
    (id : ℕ) (b : Bus) (c : Chan) (e : DomainEvent) (rest : List DomainEvent)
    → lookup id b.chans ≡ some c
    → c.buffer ≡ e ∷ rest
    → Inv b
    → Stepped (receives id) b (read_chan id b c (e ∷ rest))
unfolding read_chan
read-Stepped id b c e rest found front v = record {
  inv = record { distinct = v.distinct; live = λ j m. live j m (Bool-cases (id == j)) };
  known = λ j h. h;
  follows = λ j h.
      unchanged j b b' (receives id) refl (λ m. m)
        (stream-insert b b' id j c' refl
          (λ same. ground (arith, append_assoc c.received (e ∷ []) rest, found, front, same)));
}
  where
    c' : Chan
    c' = record c { buffer = rest; received = c.received ++ e ∷ [] }

    b' : Bus
    b' = record b { chans = insert id c' b.chans }

    live : (j : ℕ) → In j b.subs → ((id == j) ≡ true) ⊎ ((id == j) ≡ false) → Live b' j
    live j m (inr other) =
        Live-other b b' id j c' refl (omega arith) refl (ne_of_eq_false id j other) (v.live j m)
    live j m (inl same) = rw (← (eq_iff id j).0 same) (
        Live-self b' id c' b.chans refl
          (ground (arith, v.live j m, (v.live j m).found, (v.live j m).is_open, found, same))
          (ground (arith, (v.live j m).found, (v.live j m).fits, found, front, same))
          (ground (arith, (v.live j m).numbered, same)))

pub receive-Stepped : (id : ℕ) (b : Bus) → Inv b → Stepped (receives id) b (receive id b)
unfolding receive
receive-Stepped id b v = go (lookup id b.chans) refl
  where
    with_buffer :
        (c : Chan) (buffer : List DomainEvent)
        → lookup id b.chans ≡ some c
        → c.buffer ≡ buffer
        → Stepped (receives id) b (read_chan id b c buffer)
    with_buffer c [] found front = quiet-Stepped (receives id) b b.fired refl v
    with_buffer c (e ∷ rest) found front = read-Stepped id b c e rest found front v

    go : (o : Option Chan) → lookup id b.chans ≡ o → Stepped (receives id) b (read_found id b o)
    go none found = quiet-Stepped (receives id) b b.fired refl v
    go (some c) found = with_buffer c c.buffer found refl

drop_sub-Stepped :
    (id : ℕ) (b : Bus)
    → Inv b
    → In id b.subs
    → (b' : Bus) × (drop_sub id b ≡ some b') × Stepped (cancels id) b b'
unfolding drop_sub
drop_sub-Stepped id b v m = (
  b',
  ground (arith, l.found, l.is_open),
  record {
    inv = record {
      distinct = without-DistinctIds id b.subs v.distinct;
      live = λ j k.
          let (before, other) = kept j k in
          Live-other b b' id j closed_chan refl (omega arith) refl (λ e. other (sym e))
            (v.live j before);
    };
    known = λ j h. h;
    follows = λ j h.
        unchanged j b b' (cancels id) refl (λ k. (kept j k).0)
          (stream-insert b b' id j closed_chan refl (λ same. ground (arith, l.found, same)));
  },
)
  where
    l : Live b id
    l = v.live id m

    closed_chan : Chan
    closed_chan = record l.chan { closed = true }

    b' : Bus
    b' = record b { subs = without id b.subs; chans = insert id closed_chan b.chans }

    kept : (j : ℕ) → In j (without id b.subs) → In j b.subs × (j ≢ id)
    kept j k =
        let (before, test) = (In-keep_if (λ i. not (i == id)) b.subs j).0 k in
        (before, λ e. absurd (ground (arith, test, e)))

pub cancel-Stepped :
    (id : ℕ) (b : Bus) → Inv b → (b' : Bus) × (cancel id b ≡ some b') × Stepped (cancels id) b b'
unfolding cancel
cancel-Stepped id b v = elim (Bool-cases (contains b.fired id)) [
  | inl again ↦ (b, rw again, quiet-Stepped (cancels id) b b.fired refl v)
  | inr first ↦ elim (Bool-cases (contains b.subs id)) [
    | inl there ↦
        let (b', done, st) = drop_sub-Stepped id fired_once v' ((contains_iff b.subs id).0 there) in
        (
          b',
          rw (first, there) done,
          record { inv = st.inv; known = st.known; follows = st.follows },
        )
    | inr gone ↦ (fired_once, rw (first, gone), quiet-Stepped (cancels id) b (id ∷ b.fired) refl v)
  ]
]
  where
    fired_once : Bus
    fired_once = record b { fired = id ∷ b.fired }

    v' : Inv fired_once
    v' = (quiet-Stepped (cancels id) b (id ∷ b.fired) refl v).inv
