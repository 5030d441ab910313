-- ===== src/Api/Handlers/BlastRadius.antt =====
-- BlastRadius of engine/internal/api/handlers_incident.go: the components that IoCs affect, from the
-- incidents of those that are stored and from the SBOMs for those that are not.
pub mod Exact
use rampart.Base.{
  ℕ, zero, suc, ◌+◌, ◌-◌, ◌*◌, ◌≤◌, ◌<◌, ◌≡◌, refl, sym, ap, ◌∙◌, ◌≢◌, ◌↔◌, ◌⊎◌, inl, inr, Bool,
  true, false, not, ◌&&◌, ◌||◌, Option, none, some, List, [], ◌∷◌, ◌++◌, map, arith, Text, bytes,
  String, Eq, ◌==◌, eq_iff, eq_refl, eq_false, ne_of_eq_false, Text-eq, ℕ-eq, contains,
  contains_iff, keep_if, In, All, length, take, if◌then◌else◌, ltb, leb, Bool-cases, Option-cases,
}
use rampart.Base.Sort.{sort_by}
use rampart.Base.Strings.{text_lt}
use rampart.Domain.Incident.{Time}
use rampart.Domain.Package.{SbomPackageRef}
use rampart.Domain.Ioc.{Ioc, IocError, validate}
use rampart.Matcher.{Semver}
use rampart.Store.{Store, StorageError, not_found, context_error, Result, ok, err}
use rampart.Store.Catalog.{get_ioc, list_sbom_packages}
use rampart.Store.Incidents.{matched_component_refs_by_ioc}
use rampart.Api.{Env, World}
use rampart.Api.Wire.{GenIoc, from_gen_ioc}
use rampart.Api.Lookup.{ioc_lookup_key, match_packages_against_ioc}
use rampart.Api.Handlers.{
  Failure, invalid_payload, iocs_required, invalid_ioc, storage_failed, Response, refused, replied,
}

-- The map `affected`, with how often the storage has looked at the context, and an error that has
-- ended the loop.
pub record Blast : Type 0 where
  pub affected : List Text
  pub polls : ℕ
  pub failure : Option Failure

-- `for _, ref := range refs { affected[ref] = struct{}{} }`
unfoldable pub add_refs : List Text → List Text → List Text
add_refs [] affected = affected
add_refs (ref ∷ refs) affected =
    add_refs refs (if contains affected ref then affected else ref ∷ affected)

module _ (semver : Semver) (env : Env) (s : Store) where
  -- What a call of the storage returned.
  unfoldable pub add_result : Result (List Text) → Blast → Blast
  add_result (err e) b = record b { failure = some (storage_failed e) }
  add_result (ok refs) b = record b { affected = add_refs refs b.affected }

  abbrev pub matching : Ioc → Text → Result (List SbomPackageRef) → Result (List Text)
  matching i ecosystem (err e) = err e
  matching i ecosystem (ok rows) = ok (match_packages_against_ioc semver i ecosystem rows)

  -- The live path, by what iocLookupKey returns.
  unfoldable pub live : Ioc → Option (Text × Text) → Blast → Blast
  live i none b = b
  live i (some (ecosystem, name)) b =
      add_result (matching i ecosystem (list_sbom_packages s (env.ctx_err b.polls) ecosystem name))
        (record b { polls = b.polls + 1 })

  -- The switch on what GetIoC returns.
  unfoldable pub cached_or_live : Ioc → Result Ioc → Blast → Blast
  cached_or_live i (ok stored) b =
      add_result (matched_component_refs_by_ioc s (env.ctx_err b.polls) i.id)
        (record b { polls = b.polls + 1 })
  cached_or_live i (err not_found) b = live i (ioc_lookup_key i) b
  cached_or_live i (err (context_error t)) b = record b {
    failure = some (storage_failed (context_error t));
  }

  unfoldable pub blast_valid : Ioc → Option IocError → Blast → Blast
  blast_valid i (some e) b = record b { failure = some (invalid_ioc e) }
  blast_valid i none b =
      cached_or_live i (get_ioc s (env.ctx_err b.polls) i.id) (record b { polls = b.polls + 1 })

  -- The body of the loop over the IoCs.
  unfoldable pub blast_one : GenIoc → Blast → Blast
  blast_one g b = let i = from_gen_ioc g in blast_valid i (validate i) b

  abbrev pub unless_failed : Option Failure → Blast → Blast → Blast
  unless_failed none stopped rest = rest
  unless_failed (some f) stopped rest = stopped

  unfoldable pub blast_each : List GenIoc → Blast → Blast
  blast_each [] b = b
  blast_each (g ∷ gs) b =
      let b' = blast_one g b in let rest = blast_each gs b' in unless_failed b'.failure b' rest

-- BlastRadiusResponse
pub record GenBlastRadius : Type 0 where
  pub affected_component_refs : List Text
  pub computed_at : Time

unfoldable pub blast_reply : Env → World → Blast → Option Failure → World × Response GenBlastRadius
blast_reply env w b (some f) = (record w { polls = b.polls }, refused f)
blast_reply env w b none = (
  record w { polls = b.polls; clock = w.clock + 1 },
  replied 200 (record {
    affected_component_refs = sort_by text_lt b.affected;
    computed_at = env.now w.clock;
  }),
)

-- BlastRadius; `none` is a body that does not decode.
unfoldable pub blast_radius :
    Semver → Env → Option (List GenIoc) → World → World × Response GenBlastRadius
blast_radius semver env none w = (w, refused invalid_payload)
blast_radius semver env (some []) w = (w, refused iocs_required)
blast_radius semver env (some (g ∷ gs)) w =
    let b =
      blast_each semver env w.store (g ∷ gs)
        (record { affected = []; polls = w.polls; failure = none }) in
    blast_reply env w b b.failure
