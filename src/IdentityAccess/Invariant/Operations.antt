-- ===== src/IdentityAccess/Invariant/Operations.antt =====
-- Every use-case of the service keeps the invariant, whether it returns or fails.
use cricket_drs_system.Prelude.{
  String, ◌≡◌, ◌≢◌, Bool, true, inl, inr, Option, Option-cases, none, All, arith, eq_iff, string_eq,
  pair_eq,
}
use cricket_drs_system.Prelude.Int.{Time}
use cricket_drs_system.Exec.{ok, Result-cases}
use cricket_drs_system.Table.Select.{All-put}
use cricket_drs_system.Platformauth.{Role, valid, organizer_admin}
use cricket_drs_system.IdentityAccess.Domain.{
  User, UserId, ConsentRecord, ConsentType, Organization, OrganizationId, new_user,
  new_organization, new_consent_record, grant_consent, revoke_consent,
}
use cricket_drs_system.IdentityAccess.Store
use cricket_drs_system.IdentityAccess.Store.{OrganizationStore, UserStore, ConsentStore, user_key}
use cricket_drs_system.IdentityAccess.Service.{
  State, Caller, Ports, new_id, assign_role, capture_consent, invite_user, create_organization,
  on_file_or_new,
}
use cricket_drs_system.IdentityAccess.Invariant.{
  UserEntry, ConsentEntry, OrganizationEntry, IsValid, get_user-UserEntry, get_consent-ConsentEntry,
}
use cricket_drs_system.IdentityAccess.Invariant.Emails.{
  UniqueEmails, put_new-UniqueEmails, put_same-UniqueEmails,
}

pub create_user-UserEntry :
    (u : User) (s : UserStore)
    → All UserEntry s
    → valid u.role ≡ true
    → u.email ≢ ""
    → All UserEntry (Store.create_user u s).1
unfolding Store.create_user
create_user-UserEntry u s h role email = ground (arith, All-put UserEntry (user_key u) u s h)

create_user-UniqueEmails :
    (u : User) (s : UserStore)
    → Store.find_email u.organization_id u.email s ≡ none
    → UniqueEmails s
    → UniqueEmails (Store.create_user u s).1
unfolding Store.create_user
create_user-UniqueEmails u s absent h = ground (arith, put_new-UniqueEmails (user_key u) u s)

update_user-UserEntry :
    (u : User) (s : UserStore)
    → All UserEntry s
    → valid u.role ≡ true
    → u.email ≢ ""
    → All UserEntry (Store.update_user u s).1
unfolding Store.update_user
update_user-UserEntry u s h role email = ground (arith, All-put UserEntry (user_key u) u s h)

update_user-UniqueEmails :
    (u old : User) (s : UserStore)
    → Store.get_user u.organization_id u.id s ≡ ok old
    → old.email ≡ u.email
    → UniqueEmails s
    → UniqueEmails (Store.update_user u s).1
unfolding Store.update_user Store.get_user
update_user-UniqueEmails u old s found same h =
    ground (arith, put_same-UniqueEmails (user_key u) u old s)

pub upsert_consent-ConsentEntry :
    (c : ConsentRecord) (s : ConsentStore)
    → All ConsentEntry s
    → (c.is_minor ≡ true → c.guardian_user_id ≢ none)
    → All ConsentEntry (Store.upsert_consent c s).1
unfolding Store.upsert_consent
upsert_consent-ConsentEntry c s h guarded =
    ground (
      arith,
      All-put ConsentEntry (c.organization_id, c.user_id) (Store.clone_consent_record c) s h,
    )

-- What `NewUser` guarantees of the user that it returns.
pub new_user_ok :
    (id : UserId) (org : OrganizationId) (email hash : String) (role : Role) (u : User)
    → new_user id org email hash role ≡ ok u
    → (u.organization_id ≡ org)
      × (u.email ≡ email)
      × (valid u.role ≡ true)
      × (u.email ≢ "")
      × (u.role ≡ role)
      × (u.password_hash ≡ hash)
unfolding new_user
new_user_ok id org email hash role u made = ground (arith, eq_iff email "")

pub invite_user-IsValid :
    (ports : Ports) (caller : Caller) (org : OrganizationId) (email password : String) (role : Role)
    (fresh : String) (s : State)
    → IsValid s
    → IsValid (invite_user ports caller org email password role fresh s).1
unfolding invite_user Store.get_by_email
invite_user-IsValid ports caller org email password role fresh s h =
    elim (Option-cases (ports.hash password)) [
      | inl failed ↦ ground arith
      | inr (hash, hashed) ↦
          elim (Result-cases (new_user (new_id "user" fresh) org email hash role)) [
            | inr (e, refused) ↦ ground arith
            | inl (u, made) ↦ elim (Option-cases (Store.find_email org email s.users)) [
              | inr (v, taken) ↦ ground arith
              | inl free ↦
                  let facts = new_user_ok (new_id "user" fresh) org email hash role u made in
                  record {
                    orgs = ground arith;
                    users = ground (arith, create_user-UserEntry u s.users h.users);
                    emails = ground (arith, create_user-UniqueEmails u s.users);
                    consents = ground arith;
                  }
            ]
          ]
    ]

pub assign_role-IsValid :
    (caller : Caller) (org : OrganizationId) (user_id : UserId) (role : Role) (s : State)
    → IsValid s
    → IsValid (assign_role caller org user_id role s).1
unfolding assign_role
assign_role-IsValid caller org user_id role s h =
    elim (Result-cases (Store.get_user org user_id s.users)) [
      | inl (u, found) ↦
          let entry = get_user-UserEntry org user_id s.users u h.users found in
          let changed : User = record u { role = role } in
          record {
            orgs = ground arith;
            users = ground (arith, update_user-UserEntry changed s.users h.users);
            emails = ground (arith, update_user-UniqueEmails changed u s.users);
            consents = ground arith;
          }
      | inr (e, failed) ↦ ground arith
    ]

pub capture_consent-IsValid :
    (caller : Caller) (org : OrganizationId) (user_id : UserId) (is_minor : Bool)
    (guardian : Option UserId) (t : ConsentType) (grant : Bool) (created now : Time) (s : State)
    → IsValid s
    → IsValid (capture_consent caller org user_id is_minor guardian t grant created now s).1
unfolding capture_consent on_file_or_new new_consent_record grant_consent revoke_consent
capture_consent-IsValid caller org user_id is_minor guardian t grant created now s h =
    grind (arith, get_consent-ConsentEntry, upsert_consent-ConsentEntry)

new_organization_ok :
    (id : OrganizationId) (name : String) (org : Organization)
    → new_organization id name ≡ ok org
    → (org.id ≡ id) × (org.name ≢ "")
unfolding new_organization
new_organization_ok id name org made = ground (arith, eq_iff name "")

create_organization-OrganizationEntry :
    (org : Organization) (s : OrganizationStore)
    → All OrganizationEntry s
    → org.name ≢ ""
    → All OrganizationEntry (Store.create_organization org s).1
unfolding Store.create_organization
create_organization-OrganizationEntry org s h named =
    ground (arith, All-put OrganizationEntry org.id org s h)

-- The random identifier of a new organization is one under which no user stands yet.
abbrev pub IsFresh : String → State → Type 0
IsFresh fresh s = (email : String) → Store.find_email (new_id "org" fresh) email s.users ≡ none

pub create_organization-IsValid :
    (ports : Ports) (name email password fresh_org fresh_user : String) (s : State)
    → IsFresh fresh_org s
    → IsValid s
    → IsValid (create_organization ports name email password fresh_org fresh_user s).1
unfolding create_organization
create_organization-IsValid ports name email password fresh_org fresh_user s fresh h =
    elim (Result-cases (new_organization (new_id "org" fresh_org) name)) [
      | inr (e, refused) ↦ ground arith
      | inl (org, made_org) ↦
          let named = new_organization_ok (new_id "org" fresh_org) name org made_org in
          let orgs_valid = create_organization-OrganizationEntry org s.orgs h.orgs named.1 in
          elim (Option-cases (ports.hash password)) [
            | inl failed ↦ ground arith
            | inr (hash, hashed) ↦
                elim (Result-cases
                  (new_user (new_id "user" fresh_user) org.id email hash organizer_admin)) [
                    | inr (e, refused) ↦ ground arith
                    | inl (u, made) ↦
                        let facts =
                          new_user_ok (new_id "user" fresh_user) org.id email hash organizer_admin u
                            made in
                        record {
                          orgs = ground arith;
                          users = ground (arith, create_user-UserEntry u s.users h.users);
                          emails = ground (arith, create_user-UniqueEmails u s.users, fresh email);
                          consents = ground arith;
                        }
                  ]
          ]
    ]
