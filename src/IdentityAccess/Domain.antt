-- ===== src/IdentityAccess/Domain.antt =====
-- services/identity-access/internal/domain: the types, the constructors with their checks, the
-- permission table and the consent record.
use cricket_drs_system.Prelude.{
  String, Bool, true, false, not, ◌&&◌, ◌||◌, Option, none, some, List, [], ◌∷◌, ◌==◌, string_eq,
  if◌then◌else◌,
}
use cricket_drs_system.Prelude.Int.{Time}
use cricket_drs_system.Exec.{Result, ok, err}
use cricket_drs_system.Table.{Table, lookup, put}
use cricket_drs_system.Platformauth.{
  Role, player, coach, umpire, organizer_admin, board_admin, fan, valid,
}

abbrev pub OrganizationId : Type 0
OrganizationId = String

abbrev pub UserId : Type 0
UserId = String

-- The sentinel errors; `dependency` is an error that a library returned and that is passed on.
pub data Error : Type 0 where
  organization_not_found organization_name_empty user_not_found user_exists : Error
  user_email_empty invalid_credentials invalid_role permission_denied : Error
  cross_tenant_access consent_not_found guardian_consent_required : Error
  dependency : String → Error

pub record Organization : Type 0 where
  pub id : OrganizationId
  pub name : String

-- `NewOrganization`
unfoldable pub new_organization : OrganizationId → String → Result Error Organization
new_organization id name =
    if name == "" then err organization_name_empty else ok (record { id = id; name = name })

pub record User : Type 0 where
  pub id : UserId
  pub organization_id : OrganizationId
  pub email : String
  pub password_hash : String
  pub role : Role

-- `NewUser`
unfoldable pub new_user : UserId → OrganizationId → String → String → Role → Result Error User
unfolding valid
new_user id org_id email password_hash role =
    if email == ""
    then err user_email_empty
    else if not (valid role)
    then err invalid_role
    else ok (record {
      id = id;
      organization_id = org_id;
      email = email;
      password_hash = password_hash;
      role = role;
    })

abbrev pub Permission : Type 0
Permission = String

abbrev pub manage_users : Permission
manage_users = "manage_users"

abbrev pub manage_matches : Permission
manage_matches = "manage_matches"

abbrev pub trigger_review : Permission
trigger_review = "trigger_review"

abbrev pub confirm_decision : Permission
confirm_decision = "confirm_decision"

abbrev pub view_analytics : Permission
view_analytics = "view_analytics"

abbrev pub view_governance : Permission
view_governance = "view_governance"

abbrev pub manage_consent : Permission
manage_consent = "manage_consent"

-- `rolePermissions`
unfoldable pub role_permissions : Table Role (List Permission)
role_permissions =
    (player, view_analytics ∷ manage_consent ∷ [])
    ∷ (coach, view_analytics ∷ manage_consent ∷ [])
    ∷ (umpire, trigger_review ∷ confirm_decision ∷ manage_consent ∷ [])
    ∷ (organizer_admin, manage_users ∷ manage_matches ∷ view_analytics ∷ manage_consent ∷ [])
    ∷ (board_admin, view_governance ∷ view_analytics ∷ manage_users ∷ [])
    ∷ (fan, view_analytics ∷ [])
    ∷ []

unfoldable pub mentions : Permission → List Permission → Bool
mentions p [] = false
mentions p (q ∷ qs) = q == p || mentions p qs

-- `HasPermission`
unfoldable pub has_permission : Role → Permission → Bool
unfolding lookup role_permissions mentions
has_permission role p = elim (lookup role role_permissions) [
  | none ↦ false
  | some perms ↦ mentions p perms
]

abbrev pub ConsentType : Type 0
ConsentType = String

abbrev pub video_capture : ConsentType
video_capture = "video_capture"

abbrev pub ai_analysis : ConsentType
ai_analysis = "ai_analysis"

abbrev pub footage_reuse : ConsentType
footage_reuse = "footage_reuse"

-- `grants` is `none` for Go's nil map, which reads as empty.
pub record ConsentRecord : Type 0 where
  pub user_id : UserId
  pub organization_id : OrganizationId
  pub grants : Option (Table ConsentType Bool)
  pub is_minor : Bool
  pub guardian_user_id : Option UserId
  pub updated_at : Time
  pub updated_by : UserId

abbrev pub entries : Option (Table ConsentType Bool) → Table ConsentType Bool
entries none = []
entries (some g) = g

-- `c.Grants[t]`: false for a type that was never set
unfoldable pub granted : ConsentRecord → ConsentType → Bool
granted c t = elim (lookup t (entries c.grants)) [ none ↦ false | some b ↦ b ]

-- `NewConsentRecord`
unfoldable pub new_consent_record :
    UserId → OrganizationId → Bool → Option UserId → UserId → Time → Result Error ConsentRecord
new_consent_record user_id org_id true none updated_by now = err guardian_consent_required
new_consent_record user_id org_id is_minor guardian updated_by now = ok (record {
  user_id = user_id;
  organization_id = org_id;
  grants = some [];
  is_minor = is_minor;
  guardian_user_id = guardian;
  updated_at = now;
  updated_by = updated_by;
})

-- `ConsentRecord.Grant`
unfoldable pub grant_consent : ConsentType → UserId → Time → ConsentRecord → ConsentRecord
grant_consent t updated_by now c = record c {
  grants = some (put t true (entries c.grants));
  updated_at = now;
  updated_by = updated_by;
}

-- `ConsentRecord.Revoke`
unfoldable pub revoke_consent : ConsentType → UserId → Time → ConsentRecord → ConsentRecord
revoke_consent t updated_by now c = record c {
  grants = some (put t false (entries c.grants));
  updated_at = now;
  updated_by = updated_by;
}

-- `ConsentRecord.EligibleForDRS`
unfoldable pub eligible_for_drs : ConsentRecord → Bool
unfolding granted
eligible_for_drs c = granted c video_capture && granted c ai_analysis
