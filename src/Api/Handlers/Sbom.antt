-- ===== src/Api/Handlers/Sbom.antt =====
-- engine/internal/api/handlers_sbom.go and engine/ingestion/ingestion.go: SubmitSBOM and the reading of
-- SBOMs. The parser of the server (SBOMParser) is a parameter.
pub mod Covers
use rampart.Base.{
  ℕ, zero, suc, ◌+◌, ◌-◌, ◌*◌, ◌≤◌, ◌<◌, ◌≡◌, refl, sym, ap, ◌∙◌, ◌≢◌, ◌↔◌, ◌⊎◌, inl, inr, Bool,
  true, false, not, ◌&&◌, ◌||◌, Option, none, some, List, [], ◌∷◌, ◌++◌, map, arith, Text, bytes,
  String, Eq, ◌==◌, eq_iff, eq_refl, eq_false, ne_of_eq_false, Text-eq, ℕ-eq, contains,
  contains_iff, keep_if, In, All, length, take, if◌then◌else◌, ltb, leb, Bool-cases, Option-cases,
}
use rampart.Domain.Package.{Sbom, ParsedSbom}
use rampart.Domain.Incident.{Time}
use rampart.Domain.Component.{Component}
use rampart.Domain.Event.{sbom_ingested, ioc_matched}
use rampart.Matcher.{Semver}
use rampart.Store.{Store, StorageError, not_found, context_error, Result, ok, err}
use rampart.Store.Catalog.{get_component, upsert_sbom, get_sbom, list_sboms_by_component}
use rampart.Api.{Env, World, emit}
use rampart.Api.Wire.{GenSbom, to_gen_sbom, text_or_zero}
use rampart.Api.Matching.{MatchPair, Opened, open_incidents_for_matches}
use rampart.Api.Lookup.{retroactive_match}
use rampart.Api.Handlers.{
  Failure, invalid_payload, unsupported_ecosystem, unsupported_source_format, parse_failed,
  component_not_found, sbom_not_found, storage_failed, match_failed, incident_open_failed, Response,
  refused, replied,
}

-- SBOMSubmission; its source format is a string.
pub record SbomSubmission : Type 0 where
  pub commit_sha : Option Text
  pub content : Text
  pub ecosystem : Text
  pub source_format : Text

-- Ingest, with the ULID and the time that it takes.
unfoldable pub ingest : ParsedSbom → Text → Text → Text → Time → Sbom
ingest parsed component_ref commit_sha id now = record {
  id = id;
  component_ref = component_ref;
  commit_sha = commit_sha;
  ecosystem = parsed.ecosystem;
  generated_at = now;
  packages = parsed.packages;
  source_format = parsed.source_format;
  source_bytes = parsed.source_bytes;
}

module _ (semver : Semver) (env : Env) (parse : Text → Option ParsedSbom) where
  -- The loop over the matched IoCs.
  unfoldable pub announce_each : Text → List Text → World → World
  announce_each ref [] w = w
  announce_each ref (id ∷ ids) w =
      announce_each ref ids
        (emit (ioc_matched id (ref ∷ []) (env.now w.clock)) (record w { clock = w.clock + 1 }))

  unfoldable pub sbom_opened :
      Sbom → List Text → Opened → Option StorageError → World × Response GenSbom
  sbom_opened b ids o (some e) = (o.world, refused (incident_open_failed e))
  sbom_opened b ids o none =
      (announce_each b.component_ref ids o.world, replied 201 (to_gen_sbom b))

  unfoldable pub sbom_matched :
      Sbom → World → Result (List MatchPair × List Text) → World × Response GenSbom
  sbom_matched b w (err e) = (w, refused (match_failed e))
  sbom_matched b w (ok (pairs, ids)) =
      let o = open_incidents_for_matches env pairs w in sbom_opened b ids o o.error

  -- The statements after UpsertSBOM.
  unfoldable pub sbom_stored : Sbom → World → Option StorageError → World × Response GenSbom
  sbom_stored b w (some e) = (w, refused (storage_failed e))
  sbom_stored b w none =
      let w' = emit (sbom_ingested b.id b.component_ref b.generated_at) w in
      sbom_matched b (record w' { polls = w'.polls + 1 })
        (retroactive_match semver w'.store (env.ctx_err w'.polls) b)

  -- The SBOM that Ingest makes of what was parsed.
  abbrev pub ingested : Text → SbomSubmission → ParsedSbom → World → Sbom
  ingested ref body parsed w =
      ingest parsed ref (text_or_zero body.commit_sha) (env.new_ulid w.minted) (env.now w.clock)

  -- The statements after Parse.
  unfoldable pub sbom_parsed :
      Text → SbomSubmission → World → Option ParsedSbom → World × Response GenSbom
  sbom_parsed ref body w none = (w, refused parse_failed)
  sbom_parsed ref body w (some parsed) =
      let b = ingested ref body parsed w in
      let (store, e) = upsert_sbom w.store (env.ctx_err w.polls) b in
      sbom_stored b
        (record w {
          store = store;
          polls = w.polls + 1;
          minted = w.minted + 1;
          clock = w.clock + 1;
        })
        e

  -- The statements after GetComponent; `none` is a body that does not decode.
  unfoldable pub sbom_for :
      Text → Option SbomSubmission → World → Result Component → World × Response GenSbom
  sbom_for ref body w (err not_found) = (w, refused (component_not_found ref))
  sbom_for ref body w (err (context_error t)) = (w, refused (storage_failed (context_error t)))
  sbom_for ref none w (ok c) = (w, refused invalid_payload)
  sbom_for ref (some body) w (ok c) =
      if not (body.ecosystem == bytes "npm")
      then (w, refused (unsupported_ecosystem body.ecosystem))
      else if not (body.source_format == bytes "npm-package-lock-v3")
      then (w, refused (unsupported_source_format body.source_format))
      else sbom_parsed ref body w (parse body.content)

  -- SubmitSBOM
  unfoldable pub submit_sbom : Text → Option SbomSubmission → World → World × Response GenSbom
  submit_sbom ref body w =
      sbom_for ref body (record w { polls = w.polls + 1 })
        (get_component w.store (env.ctx_err w.polls) ref)

unfoldable pub sboms_page : Result (List Sbom) → Response (List GenSbom)
sboms_page (err e) = refused (storage_failed e)
sboms_page (ok sboms) = replied 200 (map to_gen_sbom sboms)

-- ListSBOMsByComponent
unfoldable pub list_sboms_handler : Env → Text → World → World × Response (List GenSbom)
list_sboms_handler env ref w = (
  record w { polls = w.polls + 1 },
  sboms_page (list_sboms_by_component w.store (env.ctx_err w.polls) ref),
)

unfoldable pub sbom_or_missing : Text → Result Sbom → Response GenSbom
sbom_or_missing id (err not_found) = refused (sbom_not_found id)
sbom_or_missing id (err (context_error t)) = refused (storage_failed (context_error t))
sbom_or_missing id (ok b) = replied 200 (to_gen_sbom b)

-- GetSBOM
unfoldable pub get_sbom_handler : Env → Text → World → World × Response GenSbom
get_sbom_handler env id w = (
  record w { polls = w.polls + 1 },
  sbom_or_missing id (get_sbom w.store (env.ctx_err w.polls) id),
)
