-- ===== src/IdentityAccess/Isolation/Others.antt =====
-- A caller's request leaves the data of every other tenant as it was.
use cricket_drs_system.Prelude.{
  String, ◌≡◌, ◌≢◌, refl, Bool, Option, some, none, inl, inr, arith, eq_iff, string_eq,
}
use cricket_drs_system.Prelude.Int.{Time}
use cricket_drs_system.Exec.{Result-cases}
use cricket_drs_system.Platformauth.{Role}
use cricket_drs_system.IdentityAccess.Domain.{
  OrganizationId, UserId, User, ConsentType, new_user, new_consent_record, grant_consent,
  revoke_consent,
}
use cricket_drs_system.IdentityAccess.Store
use cricket_drs_system.IdentityAccess.Service
use cricket_drs_system.IdentityAccess.Service.{
  State, Caller, Ports, invite_user, assign_role, capture_consent,
}
use cricket_drs_system.IdentityAccess.Invariant.{
  IsValid, get_user-UserEntry, get_consent-ConsentEntry,
}
use cricket_drs_system.IdentityAccess.Http
use cricket_drs_system.IdentityAccess.Http.{Inputs, Route, Response, handle}
use cricket_drs_system.IdentityAccess.Isolation.{
  tenant, create_user-other, update_user-other, upsert_consent-other,
}

module _ (o : OrganizationId) (caller : Caller) (stranger : caller.organization_id ≢ o) where
  invite_user-other :
      (ports : Ports) (org : OrganizationId) (email password : String) (role : Role)
      (fresh : String) (s : State)
      → tenant o (invite_user ports caller org email password role fresh s).1 ≡ tenant o s
  unfolding invite_user new_user
  invite_user-other ports org email password role fresh s = grind (arith, eq_iff, create_user-other)

  assign_role-other :
      (org : OrganizationId) (user_id : UserId) (role : Role) (s : State)
      → IsValid s
      → tenant o (assign_role caller org user_id role s).1 ≡ tenant o s
  unfolding assign_role
  assign_role-other org user_id role s h =
      elim (Result-cases (Store.get_user org user_id s.users)) [
        | inl (u, found) ↦
            let entry = get_user-UserEntry org user_id s.users u h.users found in
            let changed : User = record u { role = role } in
            ground (arith, eq_iff caller.organization_id org, update_user-other o changed s.users)
        | inr (e, failed) ↦ ground arith
      ]

  capture_consent-other :
      (org : OrganizationId) (user_id : UserId) (is_minor : Bool) (guardian : Option UserId)
      (t : ConsentType) (grant : Bool) (created now : Time) (s : State)
      → IsValid s
      → tenant o (capture_consent caller org user_id is_minor guardian t grant created now s).1
        ≡ tenant o s
  unfolding capture_consent Service.on_file_or_new new_consent_record grant_consent revoke_consent
  capture_consent-other org user_id is_minor guardian t grant created now s h =
      grind (arith, eq_iff, get_consent-ConsentEntry, upsert_consent-other)

-- In valid stores, no authenticated request, of any kind and with any body, changes what is stored
-- of a tenant that is not the caller's.
pub handle-other :
    (ports : Ports) (inputs : Inputs) (o : OrganizationId) (caller : Caller) (route : Route)
    (s : State)
    → caller.organization_id ≢ o
    → IsValid s
    → tenant o (handle ports inputs caller route s).1 ≡ tenant o s
unfolding handle Service.get_user Service.get_consent
handle-other ports inputs o caller (Http.invite_user org none) s ne h = refl
handle-other ports inputs o caller (Http.invite_user org (some req)) s ne h = ground (
  arith,
  invite_user-other o caller ne ports org req.email req.password req.role inputs.fresh_user s,
)
handle-other ports inputs o caller (Http.get_user org user_id) s ne h = ground arith
handle-other ports inputs o caller (Http.assign_role org user_id none) s ne h = refl
handle-other ports inputs o caller (Http.assign_role org user_id (some role)) s ne h =
    ground (arith, assign_role-other o caller ne org user_id role s h)
handle-other ports inputs o caller (Http.capture_consent user_id none) s ne h = refl
handle-other ports inputs o caller (Http.capture_consent user_id (some req)) s ne h = ground (
  arith,
  capture_consent-other o caller ne caller.organization_id user_id req.is_minor req.guardian_user_id
      req.consent_type req.grant inputs.created inputs.now s h,
)
handle-other ports inputs o caller (Http.get_consent user_id) s ne h = ground arith
