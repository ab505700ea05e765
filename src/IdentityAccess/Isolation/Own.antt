-- ===== src/IdentityAccess/Isolation/Own.antt =====
-- A caller's request runs on the data of the caller's tenant alone: on that part of the store it
-- has the same result, and leaves that part of what it leaves on the whole.
use cricket_drs_system.Prelude.{
  String, ◌≡◌, refl, Bool, Option, some, none, inl, inr, arith, eq_iff, string_eq,
}
use cricket_drs_system.Prelude.Int.{Time}
use cricket_drs_system.Exec.{Result-cases}
use cricket_drs_system.Platformauth.{Role}
use cricket_drs_system.IdentityAccess.Domain.{
  OrganizationId, UserId, User, ConsentType, new_user, new_consent_record, grant_consent,
  revoke_consent,
}
use cricket_drs_system.IdentityAccess.Store
use cricket_drs_system.IdentityAccess.Service
use cricket_drs_system.IdentityAccess.Service.{
  State, Caller, Ports, invite_user, assign_role, capture_consent,
}
use cricket_drs_system.IdentityAccess.Invariant.{
  IsValid, get_user-UserEntry, get_consent-ConsentEntry,
}
use cricket_drs_system.IdentityAccess.Http
use cricket_drs_system.IdentityAccess.Http.{Inputs, Route, Response, handle}
use cricket_drs_system.IdentityAccess.Isolation.{
  tenant, get_organization-tenant, get_by_email-tenant, get_user-tenant, get_consent-tenant,
  create_user-tenant, update_user-tenant, upsert_consent-tenant,
}

module _ (o : OrganizationId) (caller : Caller) (member : caller.organization_id ≡ o) where
  invite_user-tenant :
      (ports : Ports) (org : OrganizationId) (email password : String) (role : Role)
      (fresh : String) (s : State)
      → invite_user ports caller org email password role fresh (tenant o s) ≡ (
          let (r, s') = invite_user ports caller org email password role fresh s in
          (r, tenant o s'))
  unfolding invite_user new_user
  invite_user-tenant ports org email password role fresh s =
      grind (arith, eq_iff, get_organization-tenant, get_by_email-tenant, create_user-tenant)

  assign_role-tenant :
      (org : OrganizationId) (user_id : UserId) (role : Role) (s : State)
      → IsValid s
      → assign_role caller org user_id role (tenant o s)
        ≡ (let (r, s') = assign_role caller org user_id role s in (r, tenant o s'))
  unfolding assign_role
  assign_role-tenant org user_id role s h =
      elim (Result-cases (Store.get_user org user_id s.users)) [
        | inl (u, found) ↦
            let entry = get_user-UserEntry org user_id s.users u h.users found in
            let changed : User = record u { role = role } in
            ground (
              arith,
              eq_iff caller.organization_id org,
              get_user-tenant o user_id s.users,
              update_user-tenant o changed s.users,
            )
        | inr (e, failed) ↦
            ground (arith, eq_iff caller.organization_id org, get_user-tenant o user_id s.users)
      ]

  capture_consent-tenant :
      (org : OrganizationId) (user_id : UserId) (is_minor : Bool) (guardian : Option UserId)
      (t : ConsentType) (grant : Bool) (created now : Time) (s : State)
      → IsValid s
      → capture_consent caller org user_id is_minor guardian t grant created now (tenant o s) ≡ (
          let (r, s') =
            capture_consent caller org user_id is_minor guardian t grant created now s in
          (r, tenant o s'))
  unfolding capture_consent Service.on_file_or_new new_consent_record grant_consent revoke_consent
  capture_consent-tenant org user_id is_minor guardian t grant created now s h =
      grind (arith, eq_iff, get_consent-tenant, get_consent-ConsentEntry, upsert_consent-tenant)

-- In valid stores, every authenticated request, of any kind and with any body, answers on the whole
-- store what it answers on the caller's tenant's part, and changes that part in the same way.
pub handle-tenant :
    (ports : Ports) (inputs : Inputs) (caller : Caller) (route : Route) (s : State)
    → IsValid s
    → handle ports inputs caller route (tenant caller.organization_id s)
      ≡ (let (r, s') = handle ports inputs caller route s in (r, tenant caller.organization_id s'))
unfolding handle Service.get_user Service.get_consent
handle-tenant ports inputs caller (Http.invite_user org none) s h = refl
handle-tenant ports inputs caller (Http.invite_user org (some req)) s h = ground (
  arith,
  invite_user-tenant caller.organization_id caller refl ports org req.email req.password req.role
      inputs.fresh_user s,
)
handle-tenant ports inputs caller (Http.get_user org user_id) s h = ground (
  arith,
  eq_iff caller.organization_id org,
  get_user-tenant caller.organization_id user_id s.users,
)
handle-tenant ports inputs caller (Http.assign_role org user_id none) s h = refl
handle-tenant ports inputs caller (Http.assign_role org user_id (some role)) s h =
    ground (arith, assign_role-tenant caller.organization_id caller refl org user_id role s h)
handle-tenant ports inputs caller (Http.capture_consent user_id none) s h = refl
handle-tenant ports inputs caller (Http.capture_consent user_id (some req)) s h = ground (
  arith,
  capture_consent-tenant caller.organization_id caller refl caller.organization_id user_id
      req.is_minor req.guardian_user_id req.consent_type req.grant inputs.created inputs.now s h,
)
handle-tenant ports inputs caller (Http.get_consent user_id) s h =
    ground (arith, get_consent-tenant caller.organization_id user_id s.consents)
