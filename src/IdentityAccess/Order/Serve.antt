-- ===== src/IdentityAccess/Order/Serve.antt =====
-- Whole requests on the same stores in two orders.
use cricket_drs_system.Prelude.{String, ◌≡◌, refl, ℕ, some, none, inl, inr, Option-cases}
use cricket_drs_system.Exec.{Result, ok, err, Result-cases}
use cricket_drs_system.Exec.Related.{Related}
use cricket_drs_system.Bearer.{after_bearer}
use cricket_drs_system.IdentityAccess.Domain.{Error}
use cricket_drs_system.IdentityAccess.Service
use cricket_drs_system.IdentityAccess.Service.{State, Caller, Ports, Action}
use cricket_drs_system.IdentityAccess.Invariant.Emails.{UniqueEmails}
use cricket_drs_system.IdentityAccess.Http
use cricket_drs_system.IdentityAccess.Http.{
  Inputs, Route, Response, Request, Body, respond, handle, require_auth, serve,
}
use cricket_drs_system.IdentityAccess.Order.{SameState}
use cricket_drs_system.IdentityAccess.Order.Operations.{
  Walked, get_user-Related, get_consent-Related, assign_role-Related, capture_consent-Related,
  login-Related, invite_user-Related, create_organization-Related,
}

-- The same response, and the same stores after it.
abbrev pub Agree : Response × State → Response × State → Type 0
Agree x y = (x.0 ≡ y.0) × SameState x.1 y.1

respond_result :
    {A : Type 0} (status : ℕ) (body : A → Body) (r : Result Error A) (s t : State)
    → SameState s t
    → Agree (respond status body (r, s)) (respond status body (r, t))
respond_result status body (ok a) s t same = (refl, same)
respond_result status body (err e) s t same = (refl, same)

respond-Agree :
    {A : Type 0} (status : ℕ) (body : A → Body) (m : Action A) (s t : State)
    → Related Walked SameState m
    → Walked s t
    → Agree (respond status body (m s)) (respond status body (m t))
respond-Agree status body m s t related w =
    let (equal, same) = related.agrees s t w in
    rw equal (respond_result status body (m t).0 (m s).1 (m t).1 same)

module _ (ports : Ports) (inputs : Inputs) where
  handle-Agree :
      (caller : Caller) (route : Route) (s t : State)
      → Walked s t
      → Agree (handle ports inputs caller route s) (handle ports inputs caller route t)
  unfolding handle
  handle-Agree caller (Http.invite_user org none) s t w = (refl, w.0)
  handle-Agree caller (Http.invite_user org (some req)) s t w =
      respond-Agree 201 _
        (Service.invite_user ports caller org req.email req.password req.role inputs.fresh_user) s t
        (invite_user-Related ports caller org req.email req.password req.role inputs.fresh_user) w
  handle-Agree caller (Http.get_user org id) s t w =
      respond-Agree 200 _ (Service.get_user caller org id) s t (get_user-Related caller org id) w
  handle-Agree caller (Http.assign_role org id none) s t w = (refl, w.0)
  handle-Agree caller (Http.assign_role org id (some role)) s t w =
      respond-Agree 200 _ (Service.assign_role caller org id role) s t
        (assign_role-Related caller org id role) w
  handle-Agree caller (Http.capture_consent id none) s t w = (refl, w.0)
  handle-Agree caller (Http.capture_consent id (some req)) s t w =
      respond-Agree 200 _
        (Service.capture_consent caller caller.organization_id id req.is_minor req.guardian_user_id
          req.consent_type req.grant inputs.created inputs.now)
        s t
        (capture_consent-Related caller caller.organization_id id req.is_minor req.guardian_user_id
          req.consent_type req.grant inputs.created inputs.now)
        w
  handle-Agree caller (Http.get_consent id) s t w =
      respond-Agree 200 _ (Service.get_consent caller caller.organization_id id) s t
        (get_consent-Related caller caller.organization_id id) w

  pub require_auth-Agree :
      (header : String) (route : Route) (s t : State)
      → Walked s t
      → Agree (require_auth ports inputs header route s) (require_auth ports inputs header route t)
  unfolding require_auth
  require_auth-Agree header route s t w = elim (Option-cases (after_bearer header)) [
    | inl missing ↦ rw (missing, require_auth) (refl, w.0)
    | inr (token, given) ↦ elim (Result-cases (Service.authenticate ports token)) [
      | inl (caller, known) ↦ rw (given, known, require_auth) (handle-Agree caller route s t w)
      | inr (e, refused) ↦ rw (given, refused, require_auth) (refl, w.0)
    ]
  ]

  pub serve-Agree :
      (req : Request) (s t : State)
      → UniqueEmails s.users
      → UniqueEmails t.users
      → SameState s t
      → Agree (serve ports inputs req s) (serve ports inputs req t)
  unfolding serve
  serve-Agree Http.healthz s t us ut same = (refl, same)
  serve-Agree (Http.login none) s t us ut same = (refl, same)
  serve-Agree (Http.login (some req)) s t us ut same =
      respond-Agree 200 _ (Service.login ports req.organization_id req.email req.password) s t
        (login-Related ports req.organization_id req.email req.password) (same, (us, ut))
  serve-Agree (Http.create_organization none) s t us ut same = (refl, same)
  serve-Agree (Http.create_organization (some req)) s t us ut same =
      respond-Agree 201 _
        (Service.create_organization ports req.name req.admin_email req.admin_password
          inputs.fresh_org inputs.fresh_user)
        s t
        (create_organization-Related ports req.name req.admin_email req.admin_password
          inputs.fresh_org inputs.fresh_user)
        (same, (us, ut))
  serve-Agree (Http.behind_auth header route) s t us ut same =
      require_auth-Agree header route s t (same, (us, ut))
