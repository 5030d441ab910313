-- ===== src/Cases/Web.antt =====
-- The theorems on the HTTP handlers, applied to the data of Cases.
use rampart.Base.{
  ◌≡◌, refl, ◌≢◌, ◌↔◌, inl, inr, Option, none, some, List, [], ◌∷◌, Text, bytes, Text-eq, ℕ-eq, In,
}
use rampart.Base.{list_eq}
use rampart.Base.Assoc.{lookup}
use rampart.Domain.Package.{ParsedSbom}
use rampart.Domain.Ioc.{validate}
use rampart.Store.{PublisherKey-eq}
use rampart.Api.Wire.{GenIoc, from_gen_ioc, to_gen_ioc, to_gen_component}
use rampart.Api.Handlers.{replied}
use rampart.Api.Handlers.Submit.{bad_constraint, submit_ioc}
use rampart.Api.Handlers.Submit.Covers.{Accepted, submit_ioc-Accepted}
use rampart.Api.Handlers.Sbom.{SbomSubmission, ingested, submit_sbom}
use rampart.Api.Handlers.Sbom.Covers.{Ingested, submit_sbom-Ingested}
use rampart.Api.Handlers.Catalog.{upsert_component_handler}
use rampart.Api.Handlers.Incidents.{add_remediation}
use rampart.Api.Handlers.Refusals.{Harmless, ClientError-Harmless}
use rampart.Api.Handlers.BlastRadius.{blast_radius}
use rampart.Api.Handlers.BlastRadius.Exact.{Proper, AffectedBy, blast_radius-AffectedBy}
use rampart.Cases.{short_semver, axios, web_ref, web, axios_ioc, store, env, world}
use rampart.Cases.Engine.{world-Fresh, web-WellFormed}

abbrev axios_body : GenIoc
axios_body = to_gen_ioc axios_ioc

body-valid : validate (from_gen_ioc axios_body) ≡ none
unfolding validate from_gen_ioc to_gen_ioc
body-valid = refl

body-parses :
    bad_constraint short_semver (from_gen_ioc axios_body).kind (from_gen_ioc axios_body) ≡ none
unfolding bad_constraint from_gen_ioc to_gen_ioc
body-parses = refl

body-named : (from_gen_ioc axios_body).ecosystem ≢ []
unfolding from_gen_ioc to_gen_ioc
body-named e = cc e

submit_ioc-Accepted_example :
    Accepted short_semver
      (from_gen_ioc axios_body)
      world
      (submit_ioc short_semver env (some axios_body) world)
submit_ioc-Accepted_example =
    submit_ioc-Accepted short_semver env axios_body world (λ n. refl) world-Fresh body-valid
      body-parses body-named web-WellFormed

abbrev parsed_lock : ParsedSbom
parsed_lock = record {
  ecosystem = bytes "npm";
  packages = axios ∷ [];
  source_format = bytes "npm-package-lock-v3";
  source_bytes = 2;
}

-- A parser that knows one lockfile.
abbrev parse_one : Text → Option ParsedSbom
parse_one (c ∷ s) = some parsed_lock
parse_one [] = none

abbrev submission : SbomSubmission
submission = record {
  commit_sha = none;
  content = bytes "{}";
  ecosystem = bytes "npm";
  source_format = bytes "npm-package-lock-v3";
}

web-registered : lookup web_ref store.components ≡ some web
unfolding lookup list_eq
web-registered = refl

submit_sbom-Ingested_example :
    Ingested short_semver
      (ingested short_semver env parse_one web_ref submission parsed_lock world)
      world
      (submit_sbom short_semver env parse_one web_ref (some submission) world)
submit_sbom-Ingested_example =
    submit_sbom-Ingested short_semver env parse_one web_ref submission parsed_lock web world
      (λ n. refl) world-Fresh web-registered refl refl refl

ClientError-Harmless_example :
    Harmless world (submit_ioc short_semver env none world)
    × Harmless world (submit_sbom short_semver env parse_one (bytes "web") (some submission) world)
    × Harmless world (upsert_component_handler env (some (to_gen_component web)) world)
    × Harmless world (add_remediation env (bytes "Y") none world)
ClientError-Harmless_example =
    ClientError-Harmless short_semver env parse_one none (bytes "web") (some submission)
      (some (to_gen_component web)) (bytes "Y") none world

axios-Proper : (g : GenIoc) → In g (axios_body ∷ []) → Proper short_semver env (λ n. refl) store g
axios-Proper g m = elim m [ inl e ↦ rw e (body-valid, body-named) | inr never ↦ absurd never ]

blast_radius-AffectedBy_example :
    let r = blast_radius short_semver env (some (axios_body ∷ [])) world in
    (refs : List Text) × (r.0.store ≡ store)
    × (r.1 ≡ replied 200 (record { affected_component_refs = refs; computed_at = 100 }))
    × ((x : Text) → In x refs ↔ AffectedBy short_semver env (λ n. refl) store (axios_body ∷ []) x)
blast_radius-AffectedBy_example =
    blast_radius-AffectedBy short_semver env world axios_body [] (λ n. refl) web-WellFormed
      axios-Proper
