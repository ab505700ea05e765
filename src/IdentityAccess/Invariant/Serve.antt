-- ===== src/IdentityAccess/Invariant/Serve.antt =====
-- The invariant over requests: whatever is asked, with whatever token and body.
use cricket_drs_system.Prelude.{String, some, none, arith}
use cricket_drs_system.IdentityAccess.Service
use cricket_drs_system.IdentityAccess.Service.{State, Caller, Ports}
use cricket_drs_system.IdentityAccess.Http.{
  Inputs, Route, invite_user, get_user, assign_role, capture_consent, get_consent, Request, healthz,
  login, create_organization, behind_auth, handle, require_auth, serve,
}
use cricket_drs_system.IdentityAccess.Invariant.{IsValid}
use cricket_drs_system.IdentityAccess.Invariant.Operations.{
  invite_user-IsValid, assign_role-IsValid, capture_consent-IsValid, create_organization-IsValid,
  IsFresh,
}

module _ (ports : Ports) (inputs : Inputs) where
  handle-IsValid :
      (caller : Caller) (route : Route) (s : State)
      → IsValid s
      → IsValid (handle ports inputs caller route s).1
  unfolding handle Service.get_user Service.get_consent
  handle-IsValid caller (invite_user org none) s h = h
  handle-IsValid caller (invite_user org (some req)) s h = ground (
    arith,
    invite_user-IsValid ports caller org req.email req.password req.role inputs.fresh_user s h,
  )
  handle-IsValid caller (get_user org user_id) s h = ground arith
  handle-IsValid caller (assign_role org user_id none) s h = h
  handle-IsValid caller (assign_role org user_id (some role)) s h =
      ground (arith, assign_role-IsValid caller org user_id role s h)
  handle-IsValid caller (capture_consent user_id none) s h = h
  handle-IsValid caller (capture_consent user_id (some req)) s h = ground (
    arith,
    capture_consent-IsValid caller caller.organization_id user_id req.is_minor req.guardian_user_id
        req.consent_type req.grant inputs.created inputs.now s h,
  )
  handle-IsValid caller (get_consent user_id) s h = ground arith

  pub require_auth-IsValid :
      (header : String) (route : Route) (s : State)
      → IsValid s
      → IsValid (require_auth ports inputs header route s).1
  unfolding require_auth
  require_auth-IsValid header route s h = grind (arith, handle-IsValid)

  -- Every request, authenticated or not, with any header and any body, keeps the stores valid, when
  -- no user stands yet under the identifier that is drawn for a new organization.
  pub serve-IsValid :
      (req : Request) (s : State)
      → IsFresh inputs.fresh_org s
      → IsValid s
      → IsValid (serve ports inputs req s).1
  unfolding serve Service.login
  serve-IsValid healthz s fresh h = h
  serve-IsValid (login none) s fresh h = h
  serve-IsValid (login (some req)) s fresh h = ground arith
  serve-IsValid (create_organization none) s fresh h = h
  serve-IsValid (create_organization (some req)) s fresh h = ground (
    arith,
    create_organization-IsValid ports req.name req.admin_email req.admin_password inputs.fresh_org
        inputs.fresh_user s fresh h,
  )
  serve-IsValid (behind_auth header route) s fresh h = require_auth-IsValid header route s h
