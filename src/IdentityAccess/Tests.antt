-- ===== src/IdentityAccess/Tests.antt =====
-- The theorems of identity-access at concrete inputs: a club with an admin, who invites a coach.
mod Interleaving
mod Captures
mod Order
use Prim.Native.String.{◌++◌ as text_append}
use cricket_drs_system.Prelude.{
  String, ◌≡◌, refl, ◌⊎◌, ◌↔◌, true, false, Option, some, none, [], ◌∷◌, arith, eq_iff, ◌==◌,
  string_eq, ◌&&◌, if◌then◌else◌, texts_differ,
}
use cricket_drs_system.Prelude.Int.{pos}
use cricket_drs_system.Exec.{ok, err}
use cricket_drs_system.Table.{put, lookup}
use cricket_drs_system.Platformauth.{valid, organizer_admin, board_admin, coach, fan}
use cricket_drs_system.IdentityAccess.Domain.{
  User, Organization, ConsentRecord, user_email_empty, video_capture, ai_analysis, has_permission,
  manage_users, new_user, grant_consent,
}
use cricket_drs_system.IdentityAccess.Store
use cricket_drs_system.IdentityAccess.Service.{
  State, Caller, Ports, new_id, create_organization, invite_user, login, authenticate,
  capture_consent, on_file_or_new,
}
use cricket_drs_system.IdentityAccess.Http.{Inputs, Route, Request, handle, serve}
use cricket_drs_system.IdentityAccess.Invariant.{IsValid}
use cricket_drs_system.IdentityAccess.Invariant.Serve.{serve-IsValid}
use cricket_drs_system.IdentityAccess.Isolation.{tenant}
use cricket_drs_system.IdentityAccess.Isolation.Own.{handle-tenant}
use cricket_drs_system.IdentityAccess.Isolation.Others.{handle-other}
use cricket_drs_system.IdentityAccess.Consent.{
  on_file, capture_consent-on_file, capture_consent_caller, capture_consent-claimed_guardian,
}
use cricket_drs_system.IdentityAccess.Accounts.{PortLaws, invite-login, create_organization-orphan}

-- A hasher that marks the password, and an issuer with one token.
abbrev pub ports : Ports
ports = record {
  hash = λ p. some (text_append "#" p);
  compare = λ h p. h == text_append "#" p;
  issue = λ u o r. if u == "user_1" && o == "club" && r == coach then some "t" else none;
  verify = λ t.
      if t == "t"
      then some (record { user_id = "user_1"; organization_id = "club"; role = coach })
      else none;
}

ports-PortLaws : PortLaws ports
ports-PortLaws = record {
  compare-hash = λ p h e. ground (arith, eq_iff h (text_append "#" p));
  verify-issue =
      λ u o r t e. ground (arith, eq_iff u "user_1", eq_iff o "club", eq_iff r coach, eq_iff t "t");
}

abbrev admin : User
admin = record {
  id = "user_0";
  organization_id = "club";
  email = "a@club";
  password_hash = "#x";
  role = organizer_admin;
}

abbrev minor_record : ConsentRecord
minor_record = record {
  user_id = "kid";
  organization_id = "club";
  grants = some ((ai_analysis, true) ∷ []);
  is_minor = true;
  guardian_user_id = some "parent";
  updated_at = pos 0;
  updated_by = "parent";
}

abbrev pub club : State
club = record {
  orgs = ("club", record { id = "club"; name = "Club" }) ∷ [];
  users = (("club", "user_0"), admin) ∷ [];
  consents = (("club", "kid"), minor_record) ∷ [];
}

pub club-IsValid : IsValid club
unfolding valid Store.find_email
club-IsValid = record {
  orgs = (record { keyed = refl; has_name = texts_differ "Club" "" refl }, tt);
  users =
      (record { keyed = refl; role_valid = refl; has_email = texts_differ "a@club" "" refl }, tt);
  emails = (refl, tt);
  consents = (record { keyed = refl; guarded = ground arith }, tt);
}

abbrev pub caller : Caller
caller = record { organization_id = "club"; user_id = "user_0"; role = organizer_admin }

abbrev stranger : Caller
stranger = record { organization_id = "club"; user_id = "nobody"; role = fan }

abbrev inputs : Inputs
inputs = record { fresh_org = "1"; fresh_user = "1"; created = pos 1; now = pos 2 }

abbrev invitation : Route
invitation =
    Route.invite_user "club" (some (record { email = "c@club"; password = "pw"; role = coach }))

serve-IsValid_example :
    IsValid (serve ports inputs (Request.behind_auth "Bearer t" invitation) club).1
unfolding new_id
serve-IsValid_example =
    serve-IsValid ports inputs (Request.behind_auth "Bearer t" invitation) club
      (unfold Store.find_email in λ email. refl) club-IsValid

handle-tenant_example :
    handle ports inputs caller invitation (tenant "club" club)
    ≡ (let (r, s') = handle ports inputs caller invitation club in (r, tenant "club" s'))
handle-tenant_example = handle-tenant ports inputs caller invitation club club-IsValid

handle-other_example :
    tenant "rival" (handle ports inputs caller invitation club).1 ≡ tenant "rival" club
handle-other_example =
    handle-other ports inputs "rival" caller invitation club (texts_differ "club" "rival" refl)
      club-IsValid

invited :
    (invite_user ports caller "club" "c@club" "pw" coach "1" club).0
    ≡ ok (record {
      id = "user_1";
      organization_id = "club";
      email = "c@club";
      password_hash = "#pw";
      role = coach;
    })
unfolding invite_user has_permission new_user new_id Store.get_organization Store.get_by_email
    Store.find_email Store.create_user lookup put
invited = refl

invite-login_example :
    let s' = (invite_user ports caller "club" "c@club" "pw" coach "1" club).1 in
    (login ports "club" "c@club" "pw" s' ≡ (ok "t", s'))
    × (authenticate ports "t"
        ≡ ok (record { organization_id = "club"; user_id = "user_1"; role = coach }))
invite-login_example =
    invite-login ports caller "club" "c@club" "pw" coach "1" club
      (record {
        id = "user_1";
        organization_id = "club";
        email = "c@club";
        password_hash = "#pw";
        role = coach;
      })
      "t" ports-PortLaws club-IsValid invited refl

capture_succeeds :
    (capture_consent caller "club" "kid" false none video_capture true (pos 1) (pos 2) club).0
    ≡ ok (record minor_record {
      grants = some ((ai_analysis, true) ∷ (video_capture, true) ∷ []);
      updated_at = pos 2;
      updated_by = "user_0";
    })
unfolding capture_consent on_file_or_new grant_consent Store.get_consent Store.upsert_consent lookup
    put
capture_succeeds = refl

capture_consent-on_file_example :
    on_file
      (capture_consent caller "club" "kid" false none video_capture true (pos 1) (pos 2) club).1
      "club"
      "kid"
      ai_analysis
    ≡ on_file club "club" "kid" ai_analysis
capture_consent-on_file_example =
    capture_consent-on_file caller "club" "kid" false none video_capture true (pos 1) (pos 2) club
      (record minor_record {
        grants = some ((ai_analysis, true) ∷ (video_capture, true) ∷ []);
        updated_at = pos 2;
        updated_by = "user_0";
      })
      "club" "kid" ai_analysis club-IsValid capture_succeeds

capture_consent-claimed_guardian_example :
    let (r, s') =
      capture_consent stranger "club" "kid" false
        (some "nobody")
        ai_analysis
        false
        (pos 1)
        (pos 2)
        club in
    ((rec : ConsentRecord) × (r ≡ ok rec) × (rec.guardian_user_id ≡ some "parent"))
    × (on_file s' "club" "kid" ai_analysis ≡ false)
capture_consent-claimed_guardian_example =
    capture_consent-claimed_guardian stranger "kid" false ai_analysis false (pos 1) (pos 2) club
      minor_record club-IsValid (unfold Store.get_consent lookup in refl)
