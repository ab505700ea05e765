-- ===== src/IdentityAccess/Store.antt =====
-- services/identity-access/internal/memstore: the three repositories. Each method runs under the
-- store's lock, so it is one step; a key combines the tenant with the identifier.
use cricket_drs_system.Prelude.{
  String, ◌&&◌, Option, none, some, List, [], ◌∷◌, ◌==◌, string_eq, pair_eq, if◌then◌else◌,
}
use cricket_drs_system.Exec.{Result, ok, err, Exec}
use cricket_drs_system.Table.{Table, lookup, contains, put}
use cricket_drs_system.IdentityAccess.Domain.{
  OrganizationId, UserId, Organization, User, ConsentRecord, Error, organization_not_found,
  user_not_found, user_exists, consent_not_found, entries,
}

abbrev pub OrganizationStore : Type 0
OrganizationStore = Table OrganizationId Organization

-- `OrganizationStore.Create`
unfoldable pub create_organization : Organization → Exec Error OrganizationStore (Unit {0})
create_organization org s = (ok tt, put org.id org s)

-- `OrganizationStore.Get`
unfoldable pub get_organization : OrganizationId → OrganizationStore → Result Error Organization
get_organization id s = elim (lookup id s) [ none ↦ err organization_not_found | some org ↦ ok org ]

-- `userKey`
abbrev pub UserKey : Type 0
UserKey = OrganizationId × UserId

abbrev pub UserStore : Type 0
UserStore = Table UserKey User

abbrev pub user_key : User → UserKey
user_key u = (u.organization_id, u.id)

-- `UserStore.Create`
unfoldable pub create_user : User → Exec Error UserStore (Unit {0})
create_user u s =
    if contains (user_key u) s then (err user_exists, s) else (ok tt, put (user_key u) u s)

-- `UserStore.Get`
unfoldable pub get_user : OrganizationId → UserId → UserStore → Result Error User
get_user org_id user_id s = elim (lookup (org_id, user_id) s) [
  | none ↦ err user_not_found
  | some u ↦ ok u
]

-- The loop of `GetByEmail`: the first entry, in the map's order, that matches.
unfoldable pub find_email : OrganizationId → String → UserStore → Option User
find_email org_id email [] = none
find_email org_id email ((k, u) ∷ s) =
    if k.0 == org_id && u.email == email then some u else find_email org_id email s

-- `UserStore.GetByEmail`
unfoldable pub get_by_email : OrganizationId → String → UserStore → Result Error User
get_by_email org_id email s = elim (find_email org_id email s) [
  | none ↦ err user_not_found
  | some u ↦ ok u
]

-- `UserStore.Update`
unfoldable pub update_user : User → Exec Error UserStore (Unit {0})
update_user u s =
    if contains (user_key u) s then (ok tt, put (user_key u) u s) else (err user_not_found, s)

-- `UserStore.ListByOrganization`
unfoldable pub list_users : OrganizationId → UserStore → List User
list_users org_id [] = []
list_users org_id ((k, u) ∷ s) =
    let rest = list_users org_id s in if k.0 == org_id then u ∷ rest else rest

-- `consentKey`
abbrev pub ConsentKey : Type 0
ConsentKey = OrganizationId × UserId

abbrev pub ConsentStore : Type 0
ConsentStore = Table ConsentKey ConsentRecord

-- `cloneConsentRecord`: the copy has a map of its own, with the same entries.
unfoldable pub clone_consent_record : ConsentRecord → ConsentRecord
clone_consent_record rec = record rec { grants = some (entries rec.grants) }

-- `ConsentStore.Get`
unfoldable pub get_consent : OrganizationId → UserId → ConsentStore → Result Error ConsentRecord
unfolding clone_consent_record
get_consent org_id user_id s = elim (lookup (org_id, user_id) s) [
  | none ↦ err consent_not_found
  | some rec ↦ ok (clone_consent_record rec)
]

-- `ConsentStore.Upsert`
unfoldable pub upsert_consent : ConsentRecord → Exec Error ConsentStore (Unit {0})
unfolding clone_consent_record
upsert_consent rec s = (ok tt, put (rec.organization_id, rec.user_id) (clone_consent_record rec) s)
