-- ===== src/Store/Incidents/Page.antt =====
-- The pages of incidents that ListIncidentsFiltered returns.
use rampart.Base.{
  ℕ, zero, suc, ◌≤◌, ◌<◌, ◌≡◌, refl, ◌↔◌, inl, inr, ◌&&◌, none, List, [], ◌∷◌, arith, Text-eq, ℕ-eq,
  keep_if, In, length, take, ltb, Bool-cases, In-take, length-take-le, ap,
}
use rampart.Base.Assoc.{values}
use rampart.Base.Sort.{sort_by, In-sort_by, IsSorted, sort_by-IsSorted, AllGe}
use rampart.Domain.Incident.{Incident, IncidentState-eq}
use rampart.Store.{Store, ok}
use rampart.Store.Incidents.{
  IncidentFilter, matches_indexed_filter, cap_at, newest_first, joined_filter,
  list_incidents_filtered,
}
use rampart.Store.Incidents.Filtered.{Selected, Selected-iff}

take_before :
    (n : ℕ) (xs : List Incident) (x y : Incident)
    → IsSorted newest_first xs
    → In x (take n xs)
    → In y xs
    → ¬ In y (take n xs)
    → y.opened_at ≤ x.opened_at
take_before zero xs x y sorted mx my out = absurd mx
take_before (suc n) [] x y sorted mx my out = absurd my
take_before (suc n) (z ∷ zs) x y sorted mx my out = elim my [
  | inl e ↦ absurd (out (inl e))
  | inr later ↦ elim mx [
    | inl here ↦ first_newest z zs x y sorted.0 here later
    | inr deeper ↦ take_before n zs x y sorted.1 deeper later (λ m. out (inr m))
  ]
]
  where
    first_newest :
        (z : Incident) (zs : List Incident) (x y : Incident)
        → AllGe newest_first z zs
        → x ≡ z
        → In y zs
        → y.opened_at ≤ x.opened_at
    first_newest z [] x y ge e m = absurd m
    first_newest z (w ∷ zs) x y ge e (inl same) = rw (e, same) (ground (arith, ge.0))
    first_newest z (w ∷ zs) x y ge e (inr m) = first_newest z zs x y ge.1 e m

AllGe-take :
    (z : Incident) (n : ℕ) (xs : List Incident)
    → AllGe newest_first z xs
    → AllGe newest_first z (take n xs)
AllGe-take z zero xs h = tt
AllGe-take z (suc n) [] h = tt
AllGe-take z (suc n) (x ∷ xs) h = (h.0, AllGe-take z n xs h.1)

IsSorted-take :
    (n : ℕ) (xs : List Incident) → IsSorted newest_first xs → IsSorted newest_first (take n xs)
IsSorted-take zero xs h = tt
IsSorted-take (suc n) [] h = tt
IsSorted-take (suc n) (x ∷ xs) h = (AllGe-take x n xs h.0, IsSorted-take n xs h.1)

newest_first-IsSorted : (xs : List Incident) → IsSorted newest_first (sort_by newest_first xs)
newest_first-IsSorted xs =
    sort_by-IsSorted newest_first (λ a b h. ground arith) (λ a b c h g. ground arith) xs

length-take-eq : (n : ℕ) (xs : List Incident) → n ≤ length xs → length (take n xs) ≡ n
length-take-eq zero xs h = refl
length-take-eq (suc n) [] h = absurd (omega (arith, h))
length-take-eq (suc n) (x ∷ xs) h = ap suc (length-take-eq n xs (omega (arith, h)))

-- A page of incidents: newest first, at most `limit` of them if that is positive, each stored and
-- selected by the filter; what it leaves out although it is selected is not newer than what it
-- shows, and it leaves out nothing unless it holds `limit` incidents, and nothing without a limit.
pub record Page (s : Store) (f : IncidentFilter) (xs : List Incident) : Type 0 where
  pub sound : (inc : Incident) → In inc xs → In inc (values s.incidents) × Selected s f inc
  pub order : IsSorted newest_first xs
  pub bounded : 0 < f.limit → length xs ≤ f.limit
  pub newest :
      (x y : Incident)
      → In x xs
      → In y (values s.incidents)
      → Selected s f y
      → ¬ In y xs
      → y.opened_at ≤ x.opened_at
  pub full :
      (y : Incident) → In y (values s.incidents) → Selected s f y → ¬ In y xs → length xs ≡ f.limit
  pub complete :
      f.limit ≡ 0 → (inc : Incident) → In inc (values s.incidents) → Selected s f inc → In inc xs

Page-cap_at :
    (s : Store) (f : IncidentFilter) (found : List Incident)
    → ((inc : Incident) → In inc found ↔ (In inc (values s.incidents) × Selected s f inc))
    → Page s f (cap_at f.limit (sort_by newest_first found))
Page-cap_at s f found exact =
    let sorted = sort_by newest_first found in
    let inside = λ (inc : Incident). In-sort_by newest_first inc found in
    elim (Bool-cases (ltb 0 f.limit && ltb f.limit (length sorted))) [
      | inl cut ↦ rw cut (record {
        sound = λ inc m. (exact inc).0 ((inside inc).0 (In-take f.limit sorted inc m));
        order = IsSorted-take f.limit sorted (newest_first-IsSorted found);
        bounded = λ h. length-take-le f.limit sorted;
        newest = λ x y mx my sel out.
            take_before f.limit sorted x y (newest_first-IsSorted found) mx
              ((inside y).1 ((exact y).1 (my, sel))) out;
        full = λ y my sel out. length-take-eq f.limit sorted (ground (arith, cut));
        complete = λ h. absurd (ground (arith, cut, h));
      })
      | inr whole ↦ rw whole (record {
        sound = λ inc m. (exact inc).0 ((inside inc).0 m);
        order = newest_first-IsSorted found;
        bounded = λ h. ground (arith, whole);
        newest = λ x y mx my sel out. absurd (out ((inside y).1 ((exact y).1 (my, sel))));
        full = λ y my sel out. absurd (out ((inside y).1 ((exact y).1 (my, sel))));
        complete = λ h inc m sel. (inside inc).1 ((exact inc).1 (m, sel));
      })
    ]

-- While the request is not cancelled ListIncidentsFiltered returns a page of incidents: newest
-- first, at most `limit` of them if that is positive, each stored and selected by the filter; a
-- selected incident that it leaves out is not newer than any that it shows. One is left out only if
-- there is a limit and the page holds exactly that many.
pub list_incidents_filtered-Page :
    (s : Store) (f : IncidentFilter)
    → (xs : List Incident) × (list_incidents_filtered s none f ≡ ok xs) × Page s f xs
unfolding list_incidents_filtered
list_incidents_filtered-Page s f =
    let found =
      keep_if (joined_filter s f)
        (keep_if (λ i. matches_indexed_filter i f) (values s.incidents)) in
    (cap_at f.limit (sort_by newest_first found), refl, Page-cap_at s f found (Selected-iff s f))
