-- ===== src/Api/Wire/Laws.antt =====
-- What the conversions of engine/internal/api between the domain's types and the JSON types keep.
use rampart.Base.{
  ◌≡◌, refl, sym, inl, inr, Option, none, some, List, [], ◌∷◌, Text, ◌==◌, eq_iff, Text-eq, ℕ-eq,
  Bool-cases,
}
use rampart.Domain.Incident.{Time}
use rampart.Domain.Publisher.{Anomaly}
use rampart.Domain.Component.{Component}
use rampart.Domain.Ioc.{Ioc, IocPublisherAnomaly, validate, bodies_set}
use rampart.Anomaly.Bridge.{emitted_ioc}
use rampart.Api.Wire.{
  optional_non_empty, text_or_zero, optional_list, list_or_nil, from_gen_ioc, to_gen_ioc,
  from_gen_publisher, to_gen_publisher, to_gen_component, from_gen_component,
}

pub text_or_zero-optional_non_empty : (s : Text) → text_or_zero (optional_non_empty s) ≡ s
unfolding optional_non_empty
text_or_zero-optional_non_empty s = elim (Bool-cases (s == [])) [
  | inl e ↦ rw e (sym ((eq_iff s []).0 e))
  | inr e ↦ rw e refl
]

pub list_or_nil-optional_list {ℓ} : {A : Type ℓ} (xs : List A) → list_or_nil (optional_list xs) ≡ xs
list_or_nil-optional_list [] = refl
list_or_nil-optional_list (x ∷ xs) = refl

-- A component that is written as JSON is read back as it was.
pub from_gen_component-to_gen_component :
    (c : Component) → from_gen_component (to_gen_component c) ≡ c
unfolding from_gen_component to_gen_component
from_gen_component-to_gen_component c =
    rw
      (
        text_or_zero-optional_non_empty c.owner,
        text_or_zero-optional_non_empty c.system,
        text_or_zero-optional_non_empty c.lifecycle,
        list_or_nil-optional_list c.tags,
        list_or_nil-optional_list c.annotations,
      )
      refl

-- An IoC without the parts that JSON does not carry.
abbrev pub on_the_wire : Option IocPublisherAnomaly → Option IocPublisherAnomaly
on_the_wire none = none
on_the_wire (some b) = some (record b { signals = [] })

from_gen_publisher-to_gen_publisher :
    (b : Option IocPublisherAnomaly) → from_gen_publisher (to_gen_publisher b) ≡ on_the_wire b
from_gen_publisher-to_gen_publisher none = refl
from_gen_publisher-to_gen_publisher (some b) = refl

-- An IoC that is written as JSON is read back as it was, but for the body of an anomaly and the signals
-- of a publisher's, which are lost.
pub from_gen_ioc-to_gen_ioc :
    (i : Ioc)
    → from_gen_ioc (to_gen_ioc i)
      ≡ record i { publisher_body = on_the_wire i.publisher_body; anomaly_body = none }
unfolding from_gen_ioc to_gen_ioc
from_gen_ioc-to_gen_ioc i =
    rw
      (
        text_or_zero-optional_non_empty i.source,
        text_or_zero-optional_non_empty i.description,
        from_gen_publisher-to_gen_publisher i.publisher_body,
      )
      refl

-- The IoC of the orchestrator does not survive the API: read back from what the API writes of it, it
-- has no body, and Validate refuses it.
pub emitted_ioc-lost :
    (id_at : Time → Text) (a : Anomaly) (ref : Text) (tick : Time)
    → validate (from_gen_ioc (to_gen_ioc (emitted_ioc id_at a ref tick))) ≡ some (bodies_set 0)
unfolding from_gen_ioc to_gen_ioc emitted_ioc validate
emitted_ioc-lost id_at a ref tick = refl
