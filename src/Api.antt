-- ===== src/Api.antt =====
-- engine/internal/api: the HTTP handlers' logic over the store and the event bus. What the code reads
-- from its surroundings is an oracle: the n-th call of time.Now(), of ulid.Make() and of ctx.Err().
-- `outbox` holds the calls of Bus.Publish in their order.
pub mod Matching
pub mod Wire
pub mod Handlers
pub mod Lookup
pub mod Transition
use rampart.Base.{
  ℕ, zero, suc, ◌+◌, ◌-◌, ◌*◌, ◌≤◌, ◌<◌, ◌≡◌, refl, sym, ap, ◌∙◌, ◌≢◌, ◌↔◌, ◌⊎◌, inl, inr, Bool,
  true, false, not, ◌&&◌, ◌||◌, Option, none, some, List, [], ◌∷◌, ◌++◌, map, arith, Text, bytes,
  String, Eq, ◌==◌, eq_iff, eq_refl, eq_false, ne_of_eq_false, Text-eq, ℕ-eq, contains,
  contains_iff, keep_if, In, All, length, take, if◌then◌else◌, ltb, leb, Bool-cases, Option-cases,
}
use rampart.Domain.Incident.{Time}
use rampart.Domain.Event.{DomainEvent}
use rampart.Store.{Store, StorageError}

pub record Env : Type 0 where
  pub now : ℕ → Time
  pub new_ulid : ℕ → Text
  pub ctx_err : ℕ → Option StorageError

-- The server's state, with how often each oracle has been asked.
pub record World : Type 0 where
  pub store : Store
  pub outbox : List DomainEvent
  pub clock : ℕ
  pub minted : ℕ
  pub polls : ℕ

-- Bus.Publish, as a call.
abbrev pub emit : DomainEvent → World → World
emit e w = record w { outbox = w.outbox ++ e ∷ [] }
