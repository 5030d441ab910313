-- ===== src/Api/Handlers/Submit/Covers.antt =====
-- SubmitIoC of engine/internal/api/handlers_ioc.go, from the body to the opened incidents.
use rampart.Base.{◌+◌, ◌≡◌, refl, ◌≢◌, true, none, some, List, [], map, Text, Text-eq, ℕ-eq, In}
use rampart.Base.{In-map_intro}
use rampart.Base.Assoc.{lookup, insert, values, lookup-insert_self}
use rampart.Domain.Incident.{Incident}
use rampart.Domain.Package.{Sbom}
use rampart.Domain.Ioc.{Ioc, validate}
use rampart.Matcher.{Semver}
use rampart.Store.{Store, ok}
use rampart.Store.Catalog.{upsert_ioc}
use rampart.Api.{Env, World}
use rampart.Api.Wire.{GenIoc, from_gen_ioc, to_gen_ioc}
use rampart.Api.Matching.{open_incidents_for_matches}
use rampart.Api.Matching.Open.{Covered, Fresh}
use rampart.Api.Matching.Unique.{AtMostOne}
use rampart.Api.Matching.Contract.{
  open_incidents_for_matches-Kept, open_incidents_for_matches-AtMostOne,
  open_incidents_for_matches-Covered,
}
use rampart.Api.Lookup.{pair_for, ioc_lookup_key}
use rampart.Api.Lookup.Forward.{WellFormed, Affected, forward_match-exact}
use rampart.Api.Handlers.{Response, replied}
use rampart.Api.Handlers.Submit.{
  bad_constraint, calls_for, ioc_opened, ioc_matched, ioc_upserted, ioc_checked, ioc_validated,
  submit_ioc,
}
use rampart.Forward.Calm.{
  Calm, open_incidents_for_matches-Calm, open_incidents_for_matches-SameCatalog,
}
use rampart.Forward.Submit.{announce_match-store}

-- What an accepted request has done.
pub record Accepted (semver : Semver) (i : Ioc) (w : World) (r : World × Response GenIoc)
    : Type 0 where
  pub reply : r.1 ≡ replied 201 (to_gen_ioc i)
  pub stored : lookup i.id r.0.store.iocs ≡ some i
  pub covered : (ref : Text) → Affected semver w.store i ref → Covered r.0.store (i.id, ref)
  pub kept : (a : Text × Incident) → In a w.store.incidents → In a r.0.store.incidents
  pub unique : AtMostOne w.store → AtMostOne r.0.store

module _ (semver : Semver) (env : Env) (calm : Calm env) where
  ioc_matched-Accepted :
      (i : Ioc) (v w : World) (refs : List Text)
      → Fresh env w
      → w.store ≡ record v.store { iocs = insert i.id i v.store.iocs }
      → ((ref : Text) → Affected semver v.store i ref → In ref refs)
      → Accepted semver i v
          (ioc_matched semver env i w (ok (map (pair_for semver i.id) refs, refs)))
  unfolding ioc_matched ioc_opened
  ioc_matched-Accepted i v w refs fresh same found =
      let pairs = map (pair_for semver i.id) refs in
      let o = open_incidents_for_matches env pairs w in
      let fine = open_incidents_for_matches-Calm env pairs w calm in
      let stays = announce_match-store true env i refs o.world in
      rw (fine, ioc_opened)
        (record {
          reply = refl;
          stored =
              rw (stays, open_incidents_for_matches-SameCatalog env pairs w, same)
                (lookup-insert_self i.id i v.store.iocs);
          covered = λ ref a. rw stays (
              open_incidents_for_matches-Covered env pairs w fresh fine (pair_for semver i.id ref)
                (In-map_intro (pair_for semver i.id) refs ref (found ref a)));
          kept = λ a m.
              rw stays ((open_incidents_for_matches-Kept env pairs w fresh).kept a (rw same m));
          unique = λ one.
              rw stays (open_incidents_for_matches-AtMostOne env pairs w fresh (rw same one));
        })

-- While the request is not cancelled and ULIDs do not repeat, and with well-formed SBOMs in the store,
-- SubmitIoC accepts an IoC that passes its two checks and names an ecosystem: it replies 201 with the
-- IoC and stores it; every component with a stored SBOM that the IoC matches has an open incident for it
-- afterwards; and incidents that were stored are kept, at most one open for each IoC and component.
pub submit_ioc-Accepted :
    (semver : Semver) (env : Env) (body : GenIoc) (w : World)
    → Calm env
    → Fresh env w
    → validate (from_gen_ioc body) ≡ none
    → bad_constraint semver (from_gen_ioc body).kind (from_gen_ioc body) ≡ none
    → (from_gen_ioc body).ecosystem ≢ []
    → ((b : Sbom) → In b (values w.store.sboms) → WellFormed b)
    → Accepted semver (from_gen_ioc body) w (submit_ioc semver env (some body) w)
unfolding submit_ioc ioc_validated ioc_checked upsert_ioc ioc_upserted
submit_ioc-Accepted semver env body w calm fresh valid parses named wf =
    let i = from_gen_ioc body in
    let stored : Store = record w.store { iocs = insert i.id i w.store.iocs } in
    let (refs, e, distinct, exact) = forward_match-exact semver stored i named wf in
    let w' : World = record w {
      store = stored;
      polls = w.polls + 1 + calls_for (ioc_lookup_key i);
    } in
    rw
      (valid, ioc_validated, parses, ioc_checked, calm w.polls, ioc_upserted, calm (w.polls + 1), e)
      (ioc_matched-Accepted semver env calm i w w' refs
        (record { unused = fresh.unused; injective = fresh.injective }) refl
        (λ ref a. (exact ref).1 a))
