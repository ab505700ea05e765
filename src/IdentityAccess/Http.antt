-- ===== src/IdentityAccess/Http.antt =====
-- services/identity-access/internal/httpapi: the routes, authentication, the handlers and the
-- mapping of errors to statuses. A request's body is `none` where its JSON does not decode; the
-- middleware around the routes is modelled in Observability.
use cricket_drs_system.Prelude.{ℕ, String, Bool, Option, none, some, string_eq}
use cricket_drs_system.Prelude.Int.{Time}
use cricket_drs_system.Exec.{Result, ok, err}
use cricket_drs_system.Bearer.{after_bearer}
use cricket_drs_system.Table.{Table}
use cricket_drs_system.Platformauth.{Role}
use cricket_drs_system.IdentityAccess.Domain.{
  OrganizationId, UserId, ConsentType, Organization, User, ConsentRecord, Error, entries,
  organization_not_found, organization_name_empty, user_not_found, user_exists, user_email_empty,
  invalid_credentials, invalid_role, permission_denied, cross_tenant_access, consent_not_found,
  guardian_consent_required, dependency,
}
use cricket_drs_system.IdentityAccess.Service
use cricket_drs_system.IdentityAccess.Service.{State, Caller, Ports}

-- The request bodies of dto.go.
pub record CreateOrganizationRequest : Type 0 where
  pub name : String
  pub admin_email : String
  pub admin_password : String

pub record InviteUserRequest : Type 0 where
  pub email : String
  pub password : String
  pub role : Role

pub record LoginRequest : Type 0 where
  pub organization_id : OrganizationId
  pub email : String
  pub password : String

pub record ConsentRequest : Type 0 where
  pub consent_type : ConsentType
  pub grant : Bool
  pub is_minor : Bool
  pub guardian_user_id : Option UserId

-- The response bodies of dto.go.
pub record UserResponse : Type 0 where
  pub id : String
  pub organization_id : String
  pub email : String
  pub role : String

pub record ConsentResponse : Type 0 where
  pub user_id : String
  pub organization_id : String
  pub grants : Table String Bool
  pub is_minor : Bool
  pub guardian_user_id : Option String

pub data Body : Type 0 where
  error text token : String → Body
  user : UserResponse → Body
  organization : Organization → UserResponse → Body
  consent : ConsentResponse → Body

pub record Response : Type 0 where
  pub status : ℕ
  pub body : Body

-- `toUserResponse`
unfoldable pub to_user_response : User → UserResponse
to_user_response u = record {
  id = u.id;
  organization_id = u.organization_id;
  email = u.email;
  role = u.role;
}

-- `toConsentResponse`
unfoldable pub to_consent_response : ConsentRecord → ConsentResponse
to_consent_response rec = record {
  user_id = rec.user_id;
  organization_id = rec.organization_id;
  grants = entries rec.grants;
  is_minor = rec.is_minor;
  guardian_user_id = rec.guardian_user_id;
}

-- `err.Error()`
abbrev pub message : Error → String
message organization_not_found = "organization not found"
message organization_name_empty = "organization name must not be empty"
message user_not_found = "user not found"
message user_exists = "user already exists"
message user_email_empty = "user email must not be empty"
message invalid_credentials = "invalid credentials"
message invalid_role = "invalid role"
message permission_denied = "permission denied"
message cross_tenant_access = "cross-tenant access denied"
message consent_not_found = "consent record not found"
message guardian_consent_required = "guardian consent is required for a minor"
message (dependency what) = what

abbrev pub status_of : Error → ℕ
status_of organization_not_found = 404
status_of user_not_found = 404
status_of consent_not_found = 404
status_of user_exists = 409
status_of organization_name_empty = 400
status_of user_email_empty = 400
status_of invalid_role = 400
status_of guardian_consent_required = 400
status_of invalid_credentials = 401
status_of permission_denied = 403
status_of cross_tenant_access = 403
status_of (dependency what) = 500

abbrev pub write_error : ℕ → String → Response
write_error status what = record { status = status; body = error what }

-- `writeServiceError`
unfoldable pub write_service_error : Error → Response
write_service_error (dependency what) = write_error 500 "internal error"
write_service_error e = write_error (status_of e) (message e)

-- `if err != nil { writeServiceError } else { writeJSON(status, …) }`
abbrev pub respond : {A : Type 0} → ℕ → (A → Body) → Result Error A × State → Response × State
respond status body (ok a, s) = (record { status = status; body = body a }, s)
respond status body (err e, s) = (write_service_error e, s)

abbrev pub bad_body : State → Response × State
bad_body s = (write_error 400 "invalid request body", s)

-- What the environment supplies to one request: random texts for identifiers, and clock readings.
pub record Inputs : Type 0 where
  pub fresh_org : String
  pub fresh_user : String
  pub created : Time
  pub now : Time

-- The routes behind `requireAuth`, with their path parameters.
pub data Route : Type 0 where
  invite_user : OrganizationId → Option InviteUserRequest → Route
  get_user : OrganizationId → UserId → Route
  assign_role : OrganizationId → UserId → Option Role → Route
  capture_consent : UserId → Option ConsentRequest → Route
  get_consent : UserId → Route

pub data Request : Type 0 where
  healthz : Request
  login : Option LoginRequest → Request
  create_organization : Option CreateOrganizationRequest → Request
  -- the `Authorization` header, and the route
  behind_auth : String → Route → Request

module _ (ports : Ports) (inputs : Inputs) where
  -- `handleInviteUser`, `handleGetUser`, `handleAssignRole`, `handleCaptureConsent` and
  -- `handleGetConsent`; the last two take the tenant from the caller
  unfoldable pub handle : Caller → Route → State → Response × State
  handle caller (invite_user org_id none) s = bad_body s
  handle caller (invite_user org_id (some req)) s =
      respond 201 (λ u. user (to_user_response u))
        (Service.invite_user ports caller org_id req.email req.password req.role inputs.fresh_user
          s)
  handle caller (get_user org_id user_id) s =
      respond 200 (λ u. user (to_user_response u)) (Service.get_user caller org_id user_id s)
  handle caller (assign_role org_id user_id none) s = bad_body s
  handle caller (assign_role org_id user_id (some role)) s =
      respond 200 (λ u. user (to_user_response u))
        (Service.assign_role caller org_id user_id role s)
  handle caller (capture_consent user_id none) s = bad_body s
  handle caller (capture_consent user_id (some req)) s =
      respond 200 (λ rec. consent (to_consent_response rec))
        (Service.capture_consent caller caller.organization_id user_id req.is_minor
          req.guardian_user_id req.consent_type req.grant inputs.created inputs.now s)
  handle caller (get_consent user_id) s =
      respond 200 (λ rec. consent (to_consent_response rec))
        (Service.get_consent caller caller.organization_id user_id s)

  authorized : Result Error Caller → Route → State → Response × State
  authorized (ok caller) route s = handle caller route s
  authorized (err e) route s = (write_error 401 "invalid or expired token", s)

  -- `requireAuth` around the handlers
  unfoldable pub require_auth : String → Route → State → Response × State
  unfolding authorized
  require_auth header route s = elim (after_bearer header) [
    | none ↦ (write_error 401 "missing bearer token", s)
    | some t ↦ authorized (Service.authenticate ports t) route s
  ]

  -- `Router`, `handleHealthz`, `handleLogin` and `handleCreateOrganization`
  unfoldable pub serve : Request → State → Response × State
  unfolding handle require_auth
  serve healthz s = (record { status = 200; body = text "ok" }, s)
  serve (login none) s = bad_body s
  serve (login (some req)) s =
      respond 200 token (Service.login ports req.organization_id req.email req.password s)
  serve (create_organization none) s = bad_body s
  serve (create_organization (some req)) s =
      respond 201 (λ p. organization p.0 (to_user_response p.1))
        (Service.create_organization ports req.name req.admin_email req.admin_password
          inputs.fresh_org inputs.fresh_user s)
  serve (behind_auth header route) s = require_auth header route s
