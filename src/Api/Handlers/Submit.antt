-- ===== src/Api/Handlers/Submit.antt =====
-- engine/internal/api/handlers_ioc.go: SubmitIoC and ListIoCs.
pub mod Covers
use rampart.Base.{
  ℕ, zero, suc, ◌+◌, ◌-◌, ◌*◌, ◌≤◌, ◌<◌, ◌≡◌, refl, sym, ap, ◌∙◌, ◌≢◌, ◌↔◌, ◌⊎◌, inl, inr, Bool,
  true, false, not, ◌&&◌, ◌||◌, Option, none, some, List, [], ◌∷◌, ◌++◌, map, arith, Text, bytes,
  String, Eq, ◌==◌, eq_iff, eq_refl, eq_false, ne_of_eq_false, Text-eq, ℕ-eq, contains,
  contains_iff, keep_if, In, All, length, take, if◌then◌else◌, ltb, leb, Bool-cases, Option-cases,
}
use rampart.Domain.Ioc.{Ioc, IocKind, IocError, IocPackageRange, validate}
use rampart.Domain.Publisher.{Severity}
use rampart.Matcher.{Semver}
use rampart.Store.{Store, StorageError, Result, ok, err}
use rampart.Store.Catalog.{upsert_ioc, list_iocs}
use rampart.Api.{Env, World}
use rampart.Api.Wire.{GenIoc, from_gen_ioc, to_gen_ioc}
use rampart.Api.Matching.{MatchPair, Opened, open_incidents_for_matches}
use rampart.Api.Lookup.{ioc_lookup_key, forward_match}
use rampart.Api.Handlers.{
  Failure, invalid_payload, invalid_ioc, invalid_constraint, storage_failed, match_failed,
  incident_open_failed, Response, refused, replied,
}
use rampart.Forward.{announce_match}

-- A look at the context is one call of the storage; forwardMatch calls it only for an IoC with a key.
abbrev pub calls_for : Option (Text × Text) → ℕ
calls_for none = 0
calls_for (some key) = 1

module _ (semver : Semver) where
  range_constraint : Option IocPackageRange → Option Text
  range_constraint none = none
  range_constraint (some b) = elim (semver.new_constraint b.constraint) [
    | none ↦ some b.constraint
    | some c ↦ none
  ]

  -- The constraint that does not parse, if the IoC is a range with one.
  unfoldable pub bad_constraint : IocKind → Ioc → Option Text
  unfolding range_constraint
  bad_constraint IocKind.package_range i = range_constraint i.range_body
  bad_constraint _ i = none

  module _ (env : Env) where
    -- The statements after openIncidentsForMatches.
    unfoldable pub ioc_opened :
        Ioc → List Text → Opened → Option StorageError → World × Response GenIoc
    ioc_opened i matched o (some e) = (o.world, refused (incident_open_failed e))
    ioc_opened i matched o none =
        (announce_match true env i matched o.world, replied 201 (to_gen_ioc i))

    -- The statements after forwardMatch.
    unfoldable pub ioc_matched :
        Ioc → World → Result (List MatchPair × List Text) → World × Response GenIoc
    ioc_matched i w (err e) = (w, refused (match_failed e))
    ioc_matched i w (ok (pairs, matched)) =
        let o = open_incidents_for_matches env pairs w in ioc_opened i matched o o.error

    -- The statements after UpsertIoC.
    unfoldable pub ioc_upserted : Ioc → World → Option StorageError → World × Response GenIoc
    ioc_upserted i w (some e) = (w, refused (storage_failed e))
    ioc_upserted i w none =
        ioc_matched i (record w { polls = w.polls + calls_for (ioc_lookup_key i) })
          (forward_match semver w.store (env.ctx_err w.polls) i)

    -- The statements after the check of the constraint.
    unfoldable pub ioc_checked : Ioc → World → Option Text → World × Response GenIoc
    ioc_checked i w (some c) = (w, refused (invalid_constraint c))
    ioc_checked i w none =
        let (store, e) = upsert_ioc w.store (env.ctx_err w.polls) i in
        ioc_upserted i (record w { store = store; polls = w.polls + 1 }) e

    -- The statements after Validate.
    unfoldable pub ioc_validated : Ioc → World → Option IocError → World × Response GenIoc
    ioc_validated i w (some e) = (w, refused (invalid_ioc e))
    ioc_validated i w none = ioc_checked i w (bad_constraint i.kind i)

    -- SubmitIoC; `none` is a body that does not decode.
    unfoldable pub submit_ioc : Option GenIoc → World → World × Response GenIoc
    submit_ioc none w = (w, refused invalid_payload)
    submit_ioc (some body) w = let i = from_gen_ioc body in ioc_validated i w (validate i)

-- ListIoCsParams, less the parameters that are ignored. The enumeration Severity is compared by `==`.
pub record ListIocsParams : Type 0 where
  pub ecosystem : Option Text
  pub severity : Option Severity

unfoldable pub severity_same : Severity → Severity → Bool
severity_same Severity.low Severity.low = true
severity_same Severity.medium Severity.medium = true
severity_same Severity.high Severity.high = true
severity_same Severity.critical Severity.critical = true
severity_same (Severity.other a) (Severity.other b) = a == b
severity_same _ _ = false

abbrev of_ecosystem : Option Text → Text → Bool
of_ecosystem none ecosystem = true
of_ecosystem (some e) ecosystem = e == [] || ecosystem == e

abbrev of_severity : Option Severity → Severity → Bool
of_severity none s = true
of_severity (some t) s = severity_same t s

-- The two tests of the loop.
unfoldable pub kept_ioc : ListIocsParams → Ioc → Bool
kept_ioc params i =
    of_ecosystem params.ecosystem i.ecosystem && of_severity params.severity i.severity

-- ListIoCs, by what the storage returns.
unfoldable pub iocs_page : ListIocsParams → Result (List Ioc) → Response (List GenIoc)
iocs_page params (err e) = refused (storage_failed e)
iocs_page params (ok iocs) = replied 200 (map to_gen_ioc (keep_if (kept_ioc params) iocs))

-- ListIoCs
unfoldable pub list_iocs_handler : Env → ListIocsParams → World → World × Response (List GenIoc)
list_iocs_handler env params w =
    (record w { polls = w.polls + 1 }, iocs_page params (list_iocs w.store (env.ctx_err w.polls)))
