-- ===== src/Store/Catalog.antt =====
-- Components, SBOMs and IoCs in the in-process store of engine/internal/storage/memory/memory.go.
use rampart.Base.{
  Bool, not, Option, none, some, List, [], ◌∷◌, ◌++◌, Text, ◌==◌, Text-eq, ℕ-eq, keep_if,
  if◌then◌else◌, ltb,
}
use rampart.Base.Assoc.{lookup, insert, values}
use rampart.Base.Strings.{text_lt}
use rampart.Base.Sort.{sort_by}
use rampart.Domain.Incident.{IncidentState-eq}
use rampart.Domain.Package.{PackageVersion, Sbom, SbomPackageRef}
use rampart.Domain.Component.{Component}
use rampart.Domain.Ioc.{Ioc}
use rampart.Store.{
  Store, StorageError, not_found, Result, err, finish, PublisherKey-eq, DedupKey-eq,
}

-- `v, ok := m[k]; if !ok { return nil, ErrNotFound }; return &v, ctx.Err()`
abbrev pub get_or_not_found {ℓ} : {A : Type ℓ} → Option StorageError → Option A → Result A
get_or_not_found e none = err not_found
get_or_not_found e (some a) = finish e a

-- UpsertComponent
unfoldable pub upsert_component :
    Store → Option StorageError → Component → Store × Option StorageError
upsert_component s e c = (record s { components = insert c.ref c s.components }, e)

-- GetComponent
unfoldable pub get_component : Store → Option StorageError → Text → Result Component
get_component s e ref = get_or_not_found e (lookup ref s.components)

-- ListComponents
unfoldable pub list_components : Store → Option StorageError → Result (List Component)
list_components s e = finish e (sort_by (λ a b. text_lt a.ref b.ref) (values s.components))

-- UpsertSBOM
unfoldable pub upsert_sbom : Store → Option StorageError → Sbom → Store × Option StorageError
upsert_sbom s e b = (record s { sboms = insert b.id b s.sboms }, e)

-- GetSBOM
unfoldable pub get_sbom : Store → Option StorageError → Text → Result Sbom
get_sbom s e id = get_or_not_found e (lookup id s.sboms)

-- ListSBOMsByComponent
unfoldable pub list_sboms_by_component : Store → Option StorageError → Text → Result (List Sbom)
list_sboms_by_component s e ref = finish e (
    sort_by (λ a b. ltb a.generated_at b.generated_at)
      (keep_if (λ b. b.component_ref == ref) (values s.sboms)))

-- The inner loop of ListSBOMPackages, over the packages of one SBOM.
unfoldable pub rows_of : Text → Text → List PackageVersion → List SbomPackageRef
rows_of component name [] = []
rows_of component name (p ∷ ps) =
    let rest = rows_of component name ps in
    if not (p.name == name) then rest else record { component_ref = component; pkg = p } ∷ rest

-- The outer loop, over the stored SBOMs.
unfoldable pub package_rows : Text → Text → List Sbom → List SbomPackageRef
package_rows ecosystem name [] = []
package_rows ecosystem name (b ∷ bs) =
    let rest = package_rows ecosystem name bs in
    if not (b.ecosystem == ecosystem) then rest else rows_of b.component_ref name b.packages ++ rest

abbrev pub row_less : SbomPackageRef → SbomPackageRef → Bool
row_less a b =
    if not (a.component_ref == b.component_ref)
    then text_lt a.component_ref b.component_ref
    else text_lt a.pkg.version b.pkg.version

-- ListSBOMPackages
unfoldable pub list_sbom_packages :
    Store → Option StorageError → Text → Text → Result (List SbomPackageRef)
list_sbom_packages s e ecosystem name =
    finish e (sort_by row_less (package_rows ecosystem name (values s.sboms)))

-- UpsertIoC
unfoldable pub upsert_ioc : Store → Option StorageError → Ioc → Store × Option StorageError
upsert_ioc s e i = (record s { iocs = insert i.id i s.iocs }, e)

-- GetIoC
unfoldable pub get_ioc : Store → Option StorageError → Text → Result Ioc
get_ioc s e id = get_or_not_found e (lookup id s.iocs)

-- ListIoCs
unfoldable pub list_iocs : Store → Option StorageError → Result (List Ioc)
list_iocs s e = finish e (sort_by (λ a b. ltb a.published_at b.published_at) (values s.iocs))
