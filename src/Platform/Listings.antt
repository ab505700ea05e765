-- ===== src/Platform/Listings.antt =====
-- The methods of the stores that walk a map and collect entries: ListByOrganization of
-- services/match-tournament and services/camera-calibration, ListByMatch of
-- services/match-tournament and services/media-ingest-gateway, internal/memstore. Go walks a map in
-- a random order, and a listing comes in that order.
use cricket_drs_system.Prelude.{
  String, ◌≡◌, refl, ◌↔◌, inl, inr, Bool, true, Bool-cases, some, List, [], ◌∷◌, ◌==◌, ◌&&◌, arith,
  eq_iff, string_eq, pair_eq, Comparable,
}
use mathlib.Core.Logic.Or
use mathlib.Core.Logic.{∥∥₁_prop, ∥∥₁_map, ∥∥₁_elim}
use mathlib.Core.List.{Perm, Mem, Mem-prop, mem-cons, not-mem-nil, mem-cons_self, mem-cons_of_mem}
use cricket_drs_system.Table.{Table, lookup}
use cricket_drs_system.Table.Order.{Distinct, SameMap, picked, picked-Perm}
use cricket_drs_system.CameraCalibration.Store.{CameraStore, cameras_of}
use cricket_drs_system.MatchTournament.Domain.{OrganizationId, MatchId}
use cricket_drs_system.MatchTournament.Store.{RosterStore, list_by_organization, list_by_match}
use cricket_drs_system.MediaIngest.Store.{ClipStore, list_clips_by_match}

list_by_organization-picked :
    {V : Type 0} (o : OrganizationId) (m : Table (OrganizationId × OrganizationId) V)
    → list_by_organization o m ≡ picked (λ k. k.0 == o) m
unfolding list_by_organization picked
list_by_organization-picked o [] = refl
list_by_organization-picked o ((k, v) ∷ m) = rw (list_by_organization-picked o m) refl

list_by_match-picked :
    (o : OrganizationId) (i : MatchId) (m : RosterStore)
    → list_by_match o i m ≡ picked (λ k. k.0 == o && k.1.0 == i) m
unfolding list_by_match picked
list_by_match-picked o i [] = refl
list_by_match-picked o i ((k, v) ∷ m) = rw (list_by_match-picked o i m) refl

list_clips_by_match-picked :
    {Score : Type 0} (o : OrganizationId) (i : MatchId) (m : ClipStore Score)
    → list_clips_by_match o i m ≡ picked (λ k. k.0 == o && k.1.0 == i) m
unfolding list_clips_by_match picked
list_clips_by_match-picked o i [] = refl
list_clips_by_match-picked o i ((k, v) ∷ m) = rw (list_clips_by_match-picked o i m) refl

cameras_of-picked :
    (o : OrganizationId) (m : CameraStore) → cameras_of o m ≡ picked (λ k. k.0 == o) m
unfolding cameras_of picked
cameras_of-picked o [] = refl
cameras_of-picked o ((k, v) ∷ m) = rw (cameras_of-picked o m) refl

-- What a walk of a map collects, in one order and in another: exactly the values under the keys of
-- the sort asked for, and in either order the same, each as often.
abbrev pub Collects :
    {K V : Type 0} ⦃e : Comparable K⦄ → (K → Type 0) → Table K V → List V → List V → Type 0
Collects {K} {V} wanted m vs ws =
    ((v : V) → Mem v vs ↔ ∥ ((k : K) × (lookup k m ≡ some v) × wanted k) ∥₁) × Perm vs ws

module _ {K V : Type 0} ⦃e : Comparable K⦄ (wanted : K → Type 0) (test : K → Bool)
    (exact : (k : K) → (test k ≡ true) ↔ wanted k) where
  picked_found :
      (m : Table K V) (v : V)
      → Distinct m
      → Mem v (picked test m)
      → ∥ ((k : K) × (lookup k m ≡ some v) × wanted k) ∥₁
  unfolding picked lookup
  picked_found [] v h member = absurd (not-mem-nil member)
  picked_found ((j, w) ∷ m) v h member =
      let later : Mem v (picked test m)
          → ∥ ((k : K) × (lookup k ((j, w) ∷ m) ≡ some v) × wanted k) ∥₁ =
        λ rest.
          ∥∥₁_map (picked_found m v h.1 rest) (λ (f : (k : K) × (lookup k m ≡ some v) × wanted k).
            (f.0, ground (arith, e.equal_iff j f.0, h.0, f.1), f.2)) in
      elim (Bool-cases (test j)) [
        | inr other ↦ later (rw other at member)
        | inl taken ↦
            Or.elim ∥∥₁_prop (mem-cons.0 (rw taken at member))
              (λ same. ∣ (j, ground (arith, e.equal_iff j j, same), (exact j).0 taken) ∣₁) later
      ]

  found_picked :
      (m : Table K V) (k : K) (v : V) → lookup k m ≡ some v → wanted k → Mem v (picked test m)
  unfolding picked lookup
  found_picked [] k v found h = cc
  found_picked ((j, w) ∷ m) k v found h = elim (Bool-cases (j == k)) [
    | inl same ↦
        let key : j ≡ k = (e.equal_iff j k).0 same in
        let value : w ≡ v = ground (arith, same) in
        let taken : test j ≡ true = rw key ((exact k).1 h) in rw (taken, value) mem-cons_self
    | inr other ↦
        let rest = found_picked m k v (ground (arith, other)) h in
        elim (Bool-cases (test j)) [
          | inl taken ↦ rw taken (mem-cons_of_mem w rest)
          | inr left ↦ rw left rest
        ]
  ]

  picked-Collects :
      (m m' : Table K V)
      → Distinct m × (Distinct m' × SameMap m m')
      → Collects wanted m (picked test m) (picked test m')
  picked-Collects m m' h = (
    λ v. (
      picked_found m v h.0,
      λ found. ∥∥₁_elim found Mem-prop (λ f. found_picked m f.0 v f.1 f.2),
    ),
    picked-Perm test m m' h.0 h.1.0 h.1.1,
  )

of_tenant :
    (o : OrganizationId) (k : OrganizationId × OrganizationId) → ((k.0 == o) ≡ true) ↔ (k.0 ≡ o)
of_tenant o k = eq_iff k.0 o

of_match :
    (o : OrganizationId) (i : MatchId) (k : OrganizationId × (MatchId × String))
    → ((k.0 == o && k.1.0 == i) ≡ true) ↔ ((k.0 ≡ o) × (k.1.0 ≡ i))
of_match o i k = (
  λ h. (ground (arith, eq_iff k.0 o), ground (arith, eq_iff k.1.0 i)),
  λ h. ground (arith, eq_iff k.0 o, eq_iff k.1.0 i),
)

-- Whatever the order in which a map is walked, with each key once: the listings of a tenant's
-- tournaments, teams or matches and of its cameras hold exactly the entries whose key is of the
-- tenant, and those of a match's roster and clips exactly the entries whose key is of the tenant and
-- the match; and in two orders of one map they hold the same entries, each as often.
pub listings-Collects :
    {V Score : Type 0} (o : OrganizationId) (i : MatchId)
    (m m' : Table (OrganizationId × OrganizationId) V) (r r' : RosterStore) (c c' : ClipStore Score)
    (d d' : CameraStore)
    → Distinct m × (Distinct m' × SameMap m m')
    → Distinct r × (Distinct r' × SameMap r r')
    → Distinct c × (Distinct c' × SameMap c c')
    → Distinct d × (Distinct d' × SameMap d d')
    → Collects (λ k. k.0 ≡ o) m (list_by_organization o m) (list_by_organization o m')
      × Collects (λ k. (k.0 ≡ o) × (k.1.0 ≡ i)) r (list_by_match o i r) (list_by_match o i r')
      × Collects
          (λ k. (k.0 ≡ o) × (k.1.0 ≡ i))
          c
          (list_clips_by_match o i c)
          (list_clips_by_match o i c')
      × Collects (λ k. k.0 ≡ o) d (cameras_of o d) (cameras_of o d')
listings-Collects o i m m' r r' c c' d d' tables rosters clips cameras = (
  rw (list_by_organization-picked o m, list_by_organization-picked o m')
      (picked-Collects (λ k. k.0 ≡ o) (λ k. k.0 == o) (of_tenant o) m m' tables),
  rw (list_by_match-picked o i r, list_by_match-picked o i r')
      (picked-Collects (λ k. (k.0 ≡ o) × (k.1.0 ≡ i)) (λ k. k.0 == o && k.1.0 == i) (of_match o i) r
        r' rosters),
  rw (list_clips_by_match-picked o i c, list_clips_by_match-picked o i c')
      (picked-Collects (λ k. (k.0 ≡ o) × (k.1.0 ≡ i)) (λ k. k.0 == o && k.1.0 == i) (of_match o i) c
        c' clips),
  rw (cameras_of-picked o d, cameras_of-picked o d')
      (picked-Collects (λ k. k.0 ≡ o) (λ k. k.0 == o) (of_tenant o) d d' cameras),
)
