-- ===== src/Api/Handlers/Sbom/Covers.antt =====
-- SubmitSBOM of engine/internal/api/handlers_sbom.go, from the body to the opened incidents.
use rampart.Base.{
  ◌+◌, ◌≡◌, refl, true, Option, some, List, [], ◌∷◌, map, arith, Text, bytes, eq_refl, Text-eq,
  ℕ-eq, In,
}
use rampart.Base.{In-map_intro}
use rampart.Base.Assoc.{lookup, insert, values, lookup-insert_self}
use rampart.Domain.Incident.{Incident}
use rampart.Domain.Package.{Sbom, ParsedSbom}
use rampart.Domain.Component.{Component}
use rampart.Domain.Event.{sbom_ingested}
use rampart.Domain.Ioc.{Ioc}
use rampart.Matcher.{Semver, evaluate}
use rampart.Store.{Store, ok}
use rampart.Store.Catalog.{get_component, upsert_sbom}
use rampart.Api.{Env, World, emit}
use rampart.Api.Wire.{GenSbom, to_gen_sbom}
use rampart.Api.Matching.{open_incidents_for_matches}
use rampart.Api.Matching.Open.{Covered, Fresh}
use rampart.Api.Matching.Unique.{AtMostOne}
use rampart.Api.Matching.Contract.{
  open_incidents_for_matches-Kept, open_incidents_for_matches-AtMostOne,
  open_incidents_for_matches-Covered,
}
use rampart.Api.Lookup.{pair_for}
use rampart.Api.Lookup.Retroactive.{retroactive_match-exact}
use rampart.Api.Handlers.{Response, replied}
use rampart.Api.Handlers.Sbom.{
  SbomSubmission, ingested, announce_each, sbom_opened, sbom_matched, sbom_stored, sbom_parsed,
  sbom_for, submit_sbom,
}
use rampart.Forward.Calm.{
  Calm, open_incidents_for_matches-Calm, open_incidents_for_matches-SameCatalog,
}

-- What an accepted request has done.
pub record Ingested (semver : Semver) (b : Sbom) (w : World) (r : World × Response GenSbom)
    : Type 0 where
  pub reply : r.1 ≡ replied 201 (to_gen_sbom b)
  pub stored : lookup b.id r.0.store.sboms ≡ some b
  pub covered :
      (i : Ioc)
      → In i (values w.store.iocs)
      → (evaluate semver i b).matched ≡ true
      → Covered r.0.store (i.id, b.component_ref)
  pub kept : (a : Text × Incident) → In a w.store.incidents → In a r.0.store.incidents
  pub unique : AtMostOne w.store → AtMostOne r.0.store

module _ (semver : Semver) (env : Env) (parse : Text → Option ParsedSbom) (calm : Calm env) where
  announce_each-store :
      (ref : Text) (ids : List Text) (w : World)
      → (announce_each semver env parse ref ids w).store ≡ w.store
  unfolding announce_each
  announce_each-store ref [] w = refl
  announce_each-store ref (id ∷ ids) w = announce_each-store ref ids _

  sbom_matched-Ingested :
      (b : Sbom) (v w : World) (ids returned : List Text)
      → Fresh env w
      → w.store ≡ record v.store { sboms = insert b.id b v.store.sboms }
      → ((i : Ioc)
          → In i (values v.store.iocs)
          → (evaluate semver i b).matched ≡ true
          → In i.id ids)
      → Ingested semver b v (
          sbom_matched semver env parse b w
            (ok (map (λ id. pair_for semver id b.component_ref) ids, returned)))
  unfolding sbom_matched sbom_opened
  sbom_matched-Ingested b v w ids returned fresh same found =
      let pairs = map (λ id. pair_for semver id b.component_ref) ids in
      let o = open_incidents_for_matches env pairs w in
      let fine = open_incidents_for_matches-Calm env pairs w calm in
      let stays = announce_each-store b.component_ref returned o.world in
      rw (fine, sbom_opened)
        (record {
          reply = refl;
          stored =
              rw (stays, open_incidents_for_matches-SameCatalog env pairs w, same)
                (lookup-insert_self b.id b v.store.sboms);
          covered = λ i m hit. rw stays (
              open_incidents_for_matches-Covered env pairs w fresh fine
                (pair_for semver i.id b.component_ref)
                (In-map_intro (λ id. pair_for semver id b.component_ref) ids i.id (found i m hit)));
          kept = λ a m.
              rw stays ((open_incidents_for_matches-Kept env pairs w fresh).kept a (rw same m));
          unique = λ one.
              rw stays (open_incidents_for_matches-AtMostOne env pairs w fresh (rw same one));
        })

-- While the request is not cancelled and ULIDs do not repeat, SubmitSBOM accepts an npm lockfile that
-- the parser reads, for a registered component: it replies 201 with the SBOM that Ingest makes and
-- stores it; every stored IoC that matches it has an open incident for the component afterwards; and
-- incidents that were stored are kept, at most one open for each IoC and component.
pub submit_sbom-Ingested :
    (semver : Semver) (env : Env) (parse : Text → Option ParsedSbom) (ref : Text)
    (body : SbomSubmission) (parsed : ParsedSbom) (c : Component) (w : World)
    → Calm env
    → Fresh env w
    → lookup ref w.store.components ≡ some c
    → body.ecosystem ≡ bytes "npm"
    → body.source_format ≡ bytes "npm-package-lock-v3"
    → parse body.content ≡ some parsed
    → Ingested semver
        (ingested semver env parse ref body parsed w)
        w
        (submit_sbom semver env parse ref (some body) w)
unfolding submit_sbom get_component sbom_for sbom_parsed upsert_sbom sbom_stored
submit_sbom-Ingested semver env parse ref body parsed c w calm fresh registered npm format parses =
    let b = ingested semver env parse ref body parsed w in
    let stored : Store = record w.store { sboms = insert b.id b w.store.sboms } in
    let (ids, returned, e, distinct, same, exact) = retroactive_match-exact semver stored b in
    let ends = emit (sbom_ingested b.id b.component_ref b.generated_at) (record w {
      store = stored;
      polls = w.polls + 1 + 1 + 1;
      minted = w.minted + 1;
      clock = w.clock + 1;
    }) in
    let fresh' : Fresh env ends = record {
      unused = λ n le. fresh.unused n (omega (arith, le));
      injective = fresh.injective;
    } in
    rw
      (
        registered,
        calm w.polls,
        sbom_for,
        npm,
        format,
        eq_refl (bytes "npm"),
        eq_refl (bytes "npm-package-lock-v3"),
        parses,
        sbom_parsed,
        calm (w.polls + 1),
        sbom_stored,
        calm (w.polls + 1 + 1),
        e,
      )
      (sbom_matched-Ingested semver env parse calm b w ends ids returned fresh' refl
        (λ i m hit. (exact i.id).1 (i, m, refl, hit)))
