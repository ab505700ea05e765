-- ===== src/IdentityAccess/Isolation.antt =====
-- Tenant isolation: what a caller does and sees is decided by the caller's own tenant alone.
pub mod Own
pub mod Others
use cricket_drs_system.Prelude.{
  String, ◌≡◌, ◌≢◌, refl, Bool, [], ◌∷◌, arith, eq_iff, eq_refl, ◌==◌, string_eq, pair_eq,
}
use cricket_drs_system.Table.Select.{select, lookup-select, select-put_in, select-put_out}
use cricket_drs_system.IdentityAccess.Domain.{OrganizationId, UserId, User, ConsentRecord}
use cricket_drs_system.IdentityAccess.Store
use cricket_drs_system.IdentityAccess.Store.{OrganizationStore, UserStore, ConsentStore, UserKey}
use cricket_drs_system.IdentityAccess.Service.{State}

abbrev pub in_tenant : OrganizationId → UserKey → Bool
in_tenant o k = k.0 == o

abbrev pub is_org : OrganizationId → OrganizationId → Bool
is_org o k = k == o

-- The part of the service's data that belongs to one tenant.
abbrev pub tenant : OrganizationId → State → State
tenant o s = record {
  orgs = select (is_org o) s.orgs;
  users = select (in_tenant o) s.users;
  consents = select (in_tenant o) s.consents;
}

module _ (o : OrganizationId) where
  pub find_email-tenant :
      (email : String) (s : UserStore)
      → Store.find_email o email (select (in_tenant o) s) ≡ Store.find_email o email s
  unfolding Store.find_email select
  find_email-tenant email [] = refl
  find_email-tenant email ((k, u) ∷ s) = ground (arith, find_email-tenant email s)

  pub get_organization-tenant :
      (s : OrganizationStore)
      → Store.get_organization o (select (is_org o) s) ≡ Store.get_organization o s
  unfolding Store.get_organization
  get_organization-tenant s = ground (arith, lookup-select (is_org o) o s (eq_refl o))

  pub get_by_email-tenant :
      (email : String) (s : UserStore)
      → Store.get_by_email o email (select (in_tenant o) s) ≡ Store.get_by_email o email s
  unfolding Store.get_by_email
  get_by_email-tenant email s = ground (arith, find_email-tenant email s)

  pub get_user-tenant :
      (u : UserId) (s : UserStore)
      → Store.get_user o u (select (in_tenant o) s) ≡ Store.get_user o u s
  unfolding Store.get_user
  get_user-tenant u s = ground (arith, lookup-select (in_tenant o) (o, u) s (eq_refl o))

  pub get_consent-tenant :
      (u : UserId) (s : ConsentStore)
      → Store.get_consent o u (select (in_tenant o) s) ≡ Store.get_consent o u s
  unfolding Store.get_consent
  get_consent-tenant u s = ground (arith, lookup-select (in_tenant o) (o, u) s (eq_refl o))

  pub create_user-tenant :
      (u : User) (s : UserStore)
      → u.organization_id ≡ o
      → Store.create_user u (select (in_tenant o) s)
        ≡ ((Store.create_user u s).0, select (in_tenant o) (Store.create_user u s).1)
  unfolding Store.create_user
  create_user-tenant u s h = ground (
    arith,
    eq_iff u.organization_id o,
    lookup-select (in_tenant o) (u.organization_id, u.id) s,
    select-put_in (in_tenant o) (u.organization_id, u.id) u s,
  )

  pub update_user-tenant :
      (u : User) (s : UserStore)
      → u.organization_id ≡ o
      → Store.update_user u (select (in_tenant o) s)
        ≡ ((Store.update_user u s).0, select (in_tenant o) (Store.update_user u s).1)
  unfolding Store.update_user
  update_user-tenant u s h = ground (
    arith,
    eq_iff u.organization_id o,
    lookup-select (in_tenant o) (u.organization_id, u.id) s,
    select-put_in (in_tenant o) (u.organization_id, u.id) u s,
  )

  pub upsert_consent-tenant :
      (c : ConsentRecord) (s : ConsentStore)
      → c.organization_id ≡ o
      → Store.upsert_consent c (select (in_tenant o) s)
        ≡ ((Store.upsert_consent c s).0, select (in_tenant o) (Store.upsert_consent c s).1)
  unfolding Store.upsert_consent
  upsert_consent-tenant c s h = ground (
    arith,
    eq_iff c.organization_id o,
    select-put_in (in_tenant o) (c.organization_id, c.user_id) (Store.clone_consent_record c) s,
  )

  -- A write for another tenant is not seen.
  pub create_user-other :
      (u : User) (s : UserStore)
      → u.organization_id ≢ o
      → select (in_tenant o) (Store.create_user u s).1 ≡ select (in_tenant o) s
  unfolding Store.create_user
  create_user-other u s h = ground (
    arith,
    eq_iff u.organization_id o,
    select-put_out (in_tenant o) (u.organization_id, u.id) u s,
  )

  pub update_user-other :
      (u : User) (s : UserStore)
      → u.organization_id ≢ o
      → select (in_tenant o) (Store.update_user u s).1 ≡ select (in_tenant o) s
  unfolding Store.update_user
  update_user-other u s h = ground (
    arith,
    eq_iff u.organization_id o,
    select-put_out (in_tenant o) (u.organization_id, u.id) u s,
  )

  pub upsert_consent-other :
      (c : ConsentRecord) (s : ConsentStore)
      → c.organization_id ≢ o
      → select (in_tenant o) (Store.upsert_consent c s).1 ≡ select (in_tenant o) s
  unfolding Store.upsert_consent
  upsert_consent-other c s h = ground (
    arith,
    eq_iff c.organization_id o,
    select-put_out (in_tenant o) (c.organization_id, c.user_id) (Store.clone_consent_record c) s,
  )
