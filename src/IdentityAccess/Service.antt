-- ===== src/IdentityAccess/Service.antt =====
-- services/identity-access/internal/service: the use-cases. The hasher and the token issuer are the
-- ports that the constructor is given; `fresh` is the random text of an identifier and `now` what
-- the clock reads.
use Prim.Native.String.{◌++◌ as text_append}
use cricket_drs_system.Prelude.{
  String, Bool, false, not, ◌||◌, Option, none, some, ◌==◌, string_eq, if◌then◌else◌,
}
use cricket_drs_system.Prelude.Int.{Time}
use cricket_drs_system.Exec.{Result, ok, err, Exec, pure, lift, ◌>>=◌, ◌>>◌, raise_if, zoom, reads}
use cricket_drs_system.Platformauth.{Role, organizer_admin, board_admin, valid}
use cricket_drs_system.Platformauth.Tokens.{Claims}
use cricket_drs_system.IdentityAccess.Domain.{
  OrganizationId, UserId, ConsentType, Organization, User, ConsentRecord, Error, dependency,
  cross_tenant_access, permission_denied, user_exists, user_not_found, invalid_role,
  invalid_credentials, consent_not_found, manage_users, has_permission, new_organization, new_user,
  new_consent_record, grant_consent, revoke_consent,
}
use cricket_drs_system.IdentityAccess.Store
use cricket_drs_system.IdentityAccess.Store.{OrganizationStore, UserStore, ConsentStore}

-- What the three repositories hold.
pub record State : Type 0 where
  pub orgs : OrganizationStore
  pub users : UserStore
  pub consents : ConsentStore

abbrev pub Action : Type 0 → Type 0
Action A = Exec Error State A

pub record Caller : Type 0 where
  pub organization_id : OrganizationId
  pub user_id : UserId
  pub role : Role

-- `PasswordHasher` and `TokenIssuer`; an error of a library is `none`, or `false` of `Compare`.
pub record Ports : Type 0 where
  pub hash : String → Option String
  pub compare : String → String → Bool
  pub issue : UserId → OrganizationId → Role → Option String
  pub verify : String → Option Claims

abbrev pub on_orgs : {A : Type 0} → Exec Error OrganizationStore A → Action A
on_orgs = zoom (λ s. s.orgs) (λ t s. record s { orgs = t })

abbrev pub on_users : {A : Type 0} → Exec Error UserStore A → Action A
on_users = zoom (λ s. s.users) (λ t s. record s { users = t })

abbrev pub on_consents : {A : Type 0} → Exec Error ConsentStore A → Action A
on_consents = zoom (λ s. s.consents) (λ t s. record s { consents = t })

abbrev pub or_dependency : {A : Type 0} → Option A → String → Result Error A
or_dependency none what = err (dependency what)
or_dependency (some a) what = ok a

-- `newID`
unfoldable pub new_id : String → String → String
new_id prefix fresh = text_append prefix (text_append "_" fresh)

-- The test on the error of `GetByEmail`: only "not found" lets the invitation go on.
abbrev pub absent : Result Error User → Result Error (Unit {0})
absent (ok u) = err user_exists
absent (err user_not_found) = ok tt
absent (err e) = err e

-- The test on the error of `GetByEmail` in `Login`.
abbrev pub or_invalid : Result Error User → Result Error User
or_invalid (ok u) = ok u
or_invalid (err user_not_found) = err invalid_credentials
or_invalid (err e) = err e

-- `GetUser`
unfoldable pub get_user : Caller → OrganizationId → UserId → Action User
get_user caller org_id user_id = do
  raise_if (not (caller.organization_id == org_id)) cross_tenant_access
  reads (λ s. Store.get_user org_id user_id s.users)

-- `AssignRole`
unfoldable pub assign_role : Caller → OrganizationId → UserId → Role → Action User
assign_role caller org_id user_id new_role = do
  raise_if (not (caller.organization_id == org_id)) cross_tenant_access
  raise_if (not (has_permission caller.role manage_users)) permission_denied
  raise_if (not (valid new_role)) invalid_role
  u ← reads (λ s. Store.get_user org_id user_id s.users)
  on_users (Store.update_user (record u { role = new_role }))
  pure (record u { role = new_role })

-- The record that `CaptureConsent` goes on with: the one on file, or a new one.
unfoldable pub on_file_or_new :
    Result Error ConsentRecord → Result Error ConsentRecord → Result Error ConsentRecord
on_file_or_new (ok rec) fresh = ok rec
on_file_or_new (err consent_not_found) fresh = fresh
on_file_or_new (err e) fresh = err e

abbrev pub is_user : UserId → Option UserId → Bool
is_user u none = false
is_user u (some v) = u == v

-- `CaptureConsent`; the clock reads `created` for a new record and `now` for the change.
unfoldable pub capture_consent :
    Caller
    → OrganizationId
    → UserId
    → Bool
    → Option UserId
    → ConsentType
    → Bool
    → Time
    → Time
    → Action ConsentRecord
capture_consent caller org_id user_id is_minor guardian consent_type grant created now = do
  raise_if (not (caller.organization_id == org_id)) cross_tenant_access
  raise_if
      (not (
        caller.user_id == user_id
        || caller.role == organizer_admin
        || is_user caller.user_id guardian))
      permission_denied
  rec ← reads (λ s.
      on_file_or_new (Store.get_consent org_id user_id s.consents)
        (new_consent_record user_id org_id is_minor guardian caller.user_id created))
  let changed =
      if grant
      then grant_consent consent_type caller.user_id now rec
      else revoke_consent consent_type caller.user_id now rec
  on_consents (Store.upsert_consent changed)
  pure changed

-- What `GetConsent` returns of a record, or of its absence.
abbrev pub visible_consent :
    Caller → UserId → Result Error ConsentRecord → Result Error ConsentRecord
visible_consent caller user_id (ok rec) =
    if caller.user_id == user_id
      || caller.role == organizer_admin
      || caller.role == board_admin
      || is_user caller.user_id rec.guardian_user_id
    then ok rec
    else err permission_denied
visible_consent caller user_id (err consent_not_found) =
    if caller.user_id == user_id || caller.role == organizer_admin || caller.role == board_admin
    then err consent_not_found
    else err permission_denied
visible_consent caller user_id (err e) = err e

-- `GetConsent`
unfoldable pub get_consent : Caller → OrganizationId → UserId → Action ConsentRecord
get_consent caller org_id user_id = do
  raise_if (not (caller.organization_id == org_id)) cross_tenant_access
  reads (λ s. visible_consent caller user_id (Store.get_consent org_id user_id s.consents))

module _ (ports : Ports) where
  -- `CreateOrganization`, with the random texts of its two identifiers
  unfoldable pub create_organization :
      String → String → String → String → String → Action (Organization × User)
  create_organization name admin_email admin_password org_fresh user_fresh = do
    org ← lift (new_organization (new_id "org" org_fresh) name)
    on_orgs (Store.create_organization org)
    hash ← lift (or_dependency (ports.hash admin_password) "hash")
    admin ← lift (new_user (new_id "user" user_fresh) org.id admin_email hash organizer_admin)
    on_users (Store.create_user admin)
    pure (org, admin)

  -- `InviteUser`
  unfoldable pub invite_user :
      Caller → OrganizationId → String → String → Role → String → Action User
  invite_user caller org_id email password role fresh = do
    raise_if (not (caller.organization_id == org_id)) cross_tenant_access
    raise_if (not (has_permission caller.role manage_users)) permission_denied
    reads (λ s. Store.get_organization org_id s.orgs)
    reads (λ s. absent (Store.get_by_email org_id email s.users))
    hash ← lift (or_dependency (ports.hash password) "hash")
    u ← lift (new_user (new_id "user" fresh) org_id email hash role)
    on_users (Store.create_user u)
    pure u

  -- `Login`
  unfoldable pub login : OrganizationId → String → String → Action String
  login org_id email password = do
    u ← reads (λ s. or_invalid (Store.get_by_email org_id email s.users))
    raise_if (not (ports.compare u.password_hash password)) invalid_credentials
    lift (or_dependency (ports.issue u.id u.organization_id u.role) "issue")

  -- `Authenticate`
  unfoldable pub authenticate : String → Result Error Caller
  authenticate token = elim (ports.verify token) [
    | none ↦ err invalid_credentials
    | some c ↦
        ok (record { organization_id = c.organization_id; user_id = c.user_id; role = c.role })
  ]
