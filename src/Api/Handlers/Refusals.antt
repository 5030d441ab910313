-- ===== src/Api/Handlers/Refusals.antt =====
-- engine/internal/api: the four handlers that write, on the requests that they refuse.
use rampart.Base.{
  ℕ, ◌≡◌, refl, inl, inr, Option, none, some, List, [], arith, Text, bytes, ◌==◌, Text-eq, ℕ-eq,
  Bool-cases,
}
use rampart.Domain.Package.{ParsedSbom, Sbom}
use rampart.Domain.Component.{Component, Parsed, parsed, failed, parse_component_ref}
use rampart.Domain.Incident.{Incident, RemediationError, Remediation, Time}
use rampart.Domain.Ioc.{Ioc, IocError, validate}
use rampart.Matcher.{Semver}
use rampart.Store.{StorageError, not_found, context_error, Result, ok, err}
use rampart.Api.{Env, World}
use rampart.Api.Wire.{GenIoc, from_gen_ioc, GenComponent, GenRemediation}
use rampart.Api.Matching.{MatchPair, Opened, open_incidents_for_matches}
use rampart.Api.Handlers.{status_of, Response, ClientError}
use rampart.Api.Handlers.Submit.{
  bad_constraint, ioc_opened, ioc_matched, ioc_upserted, ioc_checked, ioc_validated, submit_ioc,
}
use rampart.Api.Handlers.Sbom.{
  SbomSubmission, sbom_opened, sbom_matched, sbom_stored, sbom_parsed, sbom_for, submit_sbom,
}
use rampart.Api.Handlers.Catalog.{
  component_stored, component_saved, component_known, component_parsed, upsert_component_handler,
}
use rampart.Api.Handlers.Incidents.{
  remediation_stored, remediation_validated, remediation_for, add_remediation,
}

-- A response that blames the client comes with the store and the events as they were.
abbrev pub Harmless {ℓ} : {A : Type ℓ} → World → World × Response A → Type 0
Harmless w r = ClientError r.1 → (r.0.store ≡ w.store) × (r.0.outbox ≡ w.outbox)

module _ (semver : Semver) (env : Env) where
  ioc_opened-Harmless :
      (i : Ioc) (matched : List Text) (v : World) (o : Opened) (e : Option StorageError)
      → Harmless v (ioc_opened semver env i matched o e)
  unfolding ioc_opened status_of
  ioc_opened-Harmless i matched v o none = λ h. absurd h
  ioc_opened-Harmless i matched v o (some e) = λ h. absurd (omega (arith, h))

  ioc_matched-Harmless :
      (i : Ioc) (v w : World) (r : Result (List MatchPair × List Text))
      → Harmless v (ioc_matched semver env i w r)
  unfolding ioc_matched status_of
  ioc_matched-Harmless i v w (err e) = λ h. absurd (omega (arith, h))
  ioc_matched-Harmless i v w (ok (pairs, matched)) =
      ioc_opened-Harmless i matched v (open_incidents_for_matches env pairs w)
        (open_incidents_for_matches env pairs w).error

  ioc_upserted-Harmless :
      (i : Ioc) (v w : World) (e : Option StorageError) → Harmless v (ioc_upserted semver env i w e)
  unfolding ioc_upserted status_of
  ioc_upserted-Harmless i v w (some e) = λ h. absurd (omega (arith, h))
  ioc_upserted-Harmless i v w none = ioc_matched-Harmless i v _ _

  ioc_checked-Harmless :
      (i : Ioc) (w : World) (c : Option Text) → Harmless w (ioc_checked semver env i w c)
  unfolding ioc_checked
  ioc_checked-Harmless i w (some c) = λ h. (refl, refl)
  ioc_checked-Harmless i w none = ioc_upserted-Harmless i w _ _

  ioc_validated-Harmless :
      (i : Ioc) (w : World) (e : Option IocError) → Harmless w (ioc_validated semver env i w e)
  unfolding ioc_validated
  ioc_validated-Harmless i w (some e) = λ h. (refl, refl)
  ioc_validated-Harmless i w none = ioc_checked-Harmless i w (bad_constraint semver i.kind i)

  submit_ioc-Harmless :
      (body : Option GenIoc) (w : World) → Harmless w (submit_ioc semver env body w)
  unfolding submit_ioc
  submit_ioc-Harmless none w = λ h. (refl, refl)
  submit_ioc-Harmless (some body) w =
      ioc_validated-Harmless (from_gen_ioc body) w (validate (from_gen_ioc body))

  module _ (parse : Text → Option ParsedSbom) where
    sbom_opened-Harmless :
        (b : Sbom) (ids : List Text) (v : World) (o : Opened) (e : Option StorageError)
        → Harmless v (sbom_opened semver env parse b ids o e)
    unfolding sbom_opened status_of
    sbom_opened-Harmless b ids v o none = λ h. absurd h
    sbom_opened-Harmless b ids v o (some e) = λ h. absurd (omega (arith, h))

    sbom_matched-Harmless :
        (b : Sbom) (v w : World) (r : Result (List MatchPair × List Text))
        → Harmless v (sbom_matched semver env parse b w r)
    unfolding sbom_matched status_of
    sbom_matched-Harmless b v w (err e) = λ h. absurd (omega (arith, h))
    sbom_matched-Harmless b v w (ok (pairs, ids)) =
        sbom_opened-Harmless b ids v (open_incidents_for_matches env pairs w)
          (open_incidents_for_matches env pairs w).error

    sbom_stored-Harmless :
        (b : Sbom) (v w : World) (e : Option StorageError)
        → Harmless v (sbom_stored semver env parse b w e)
    unfolding sbom_stored status_of
    sbom_stored-Harmless b v w (some e) = λ h. absurd (omega (arith, h))
    sbom_stored-Harmless b v w none = sbom_matched-Harmless b v _ _

    sbom_parsed-Harmless :
        (ref : Text) (body : SbomSubmission) (v w : World) (r : Option ParsedSbom)
        → w.store ≡ v.store
        → w.outbox ≡ v.outbox
        → Harmless v (sbom_parsed semver env parse ref body w r)
    unfolding sbom_parsed
    sbom_parsed-Harmless ref body v w none es eo = λ h. (es, eo)
    sbom_parsed-Harmless ref body v w (some content) es eo = sbom_stored-Harmless _ v _ _

    sbom_for-Harmless :
        (ref : Text) (body : Option SbomSubmission) (v w : World) (r : Result Component)
        → w.store ≡ v.store
        → w.outbox ≡ v.outbox
        → Harmless v (sbom_for semver env parse ref body w r)
    unfolding sbom_for
    sbom_for-Harmless ref body v w (err not_found) es eo = λ h. (es, eo)
    sbom_for-Harmless ref body v w (err (context_error t)) es eo = λ h. (es, eo)
    sbom_for-Harmless ref none v w (ok c) es eo = λ h. (es, eo)
    sbom_for-Harmless ref (some body) v w (ok c) es eo =
        elim (Bool-cases (body.ecosystem == bytes "npm")) [
          | inr other ↦ rw other (λ h. (es, eo))
          | inl npm ↦ elim (Bool-cases (body.source_format == bytes "npm-package-lock-v3")) [
            | inr other ↦ rw (npm, other) (λ h. (es, eo))
            | inl format ↦
                rw (npm, format) (sbom_parsed-Harmless ref body v w (parse body.content) es eo)
          ]
        ]

    submit_sbom-Harmless :
        (ref : Text) (body : Option SbomSubmission) (w : World)
        → Harmless w (submit_sbom semver env parse ref body w)
    unfolding submit_sbom
    submit_sbom-Harmless ref body w = sbom_for-Harmless ref body w _ _ refl refl

  component_stored-Harmless :
      (status : ℕ) (c : Component) (v w : World) (e : Option StorageError)
      → Harmless v (component_stored status c w e)
  unfolding component_stored status_of
  component_stored-Harmless status c v w (some e) = λ h. absurd (omega (arith, h))
  component_stored-Harmless status c v w none = λ h. absurd h

  component_known-Harmless :
      (c : Component) (v w : World) (r : Result Component) → Harmless v (component_known env c w r)
  unfolding component_known component_saved status_of
  component_known-Harmless c v w (ok old) = component_stored-Harmless _ c v _ _
  component_known-Harmless c v w (err not_found) = component_stored-Harmless _ c v _ _
  component_known-Harmless c v w (err (context_error t)) = λ h. absurd (omega (arith, h))

  component_parsed-Harmless :
      (body : GenComponent) (w : World) (p : Parsed) → Harmless w (component_parsed env body w p)
  unfolding component_parsed
  component_parsed-Harmless body w (failed e) = λ h. (refl, refl)
  component_parsed-Harmless body w (parsed kind namespace name) = component_known-Harmless _ w _ _

  upsert_component_handler-Harmless :
      (body : Option GenComponent) (w : World) → Harmless w (upsert_component_handler env body w)
  unfolding upsert_component_handler
  upsert_component_handler-Harmless none w = λ h. (refl, refl)
  upsert_component_handler-Harmless (some body) w = elim (Bool-cases (body.ref == [])) [
    | inl empty ↦ rw empty (λ h. (refl, refl))
    | inr named ↦ rw named (component_parsed-Harmless body w (parse_component_ref body.ref))
  ]

  remediation_stored-Harmless :
      (id : Text) (now : Time) (rem : Remediation) (v w : World) (e : Option StorageError)
      → Harmless v (remediation_stored id now rem w e)
  unfolding remediation_stored status_of
  remediation_stored-Harmless id now rem v w (some e) = λ h. absurd (omega (arith, h))
  remediation_stored-Harmless id now rem v w none = λ h. absurd h

  remediation_validated-Harmless :
      (id : Text) (now : Time) (rem : Remediation) (v w : World) (e : Option RemediationError)
      → w.store ≡ v.store
      → w.outbox ≡ v.outbox
      → Harmless v (remediation_validated env id now rem w e)
  unfolding remediation_validated
  remediation_validated-Harmless id now rem v w (some e) es eo = λ h. (es, eo)
  remediation_validated-Harmless id now rem v w none es eo =
      remediation_stored-Harmless id now rem v _ _

  remediation_for-Harmless :
      (id : Text) (body : Option GenRemediation) (v w : World) (r : Result Incident)
      → w.store ≡ v.store
      → w.outbox ≡ v.outbox
      → Harmless v (remediation_for env id body w r)
  unfolding remediation_for
  remediation_for-Harmless id body v w (err not_found) es eo = λ h. (es, eo)
  remediation_for-Harmless id body v w (err (context_error t)) es eo = λ h. (es, eo)
  remediation_for-Harmless id none v w (ok inc) es eo = λ h. (es, eo)
  remediation_for-Harmless id (some body) v w (ok inc) es eo =
      remediation_validated-Harmless id _ _ v _ _ es eo

  add_remediation-Harmless :
      (id : Text) (body : Option GenRemediation) (w : World)
      → Harmless w (add_remediation env id body w)
  unfolding add_remediation
  add_remediation-Harmless id body w = remediation_for-Harmless id body w _ _ refl refl

-- A request that SubmitIoC, SubmitSBOM, UpsertComponent or AddRemediation refuses with a status below
-- 500, be it malformed, invalid, unsupported or about something unknown, has changed nothing in the store and
-- published no event.
pub ClientError-Harmless :
    (semver : Semver) (env : Env) (parse : Text → Option ParsedSbom) (ioc : Option GenIoc)
    (ref : Text) (sbom : Option SbomSubmission) (component : Option GenComponent) (id : Text)
    (remediation : Option GenRemediation) (w : World)
    → Harmless w (submit_ioc semver env ioc w)
      × Harmless w (submit_sbom semver env parse ref sbom w)
      × Harmless w (upsert_component_handler env component w)
      × Harmless w (add_remediation env id remediation w)
ClientError-Harmless semver env parse ioc ref sbom component id remediation w = (
  submit_ioc-Harmless semver env ioc w,
  submit_sbom-Harmless semver env parse ref sbom w,
  upsert_component_handler-Harmless semver env component w,
  add_remediation-Harmless semver env id remediation w,
)
