-- ===== src/IdentityAccess/Accounts.antt =====
-- Accounts: what an email finds, who may invite, and that an invited user can log in.
use cricket_drs_system.Prelude.{
  String, ◌≡◌, ◌≢◌, refl, sym, ap, ◌∙◌, ◌⊎◌, ◌↔◌, inl, inr, true, some, none, Option-cases, [], ◌∷◌,
  All, arith, eq_iff, eq_refl, string_eq, pair_eq,
}
use cricket_drs_system.Exec.{ok, err, Result-cases}
use cricket_drs_system.Table.{lookup, put, lookup-put}
use cricket_drs_system.Platformauth.{
  Role, valid, player, coach, umpire, organizer_admin, board_admin, fan,
}
use cricket_drs_system.IdentityAccess.Domain.{
  OrganizationId, UserId, User, Organization, new_user, user_email_empty, has_permission,
  manage_users, new_organization,
}
use cricket_drs_system.IdentityAccess.Store
use cricket_drs_system.IdentityAccess.Store.{UserKey, UserStore, user_key}
use cricket_drs_system.IdentityAccess.Service.{
  State, Caller, Ports, new_id, invite_user, login, authenticate, create_organization,
}
use cricket_drs_system.IdentityAccess.Invariant.{IsValid, UserEntry}
use cricket_drs_system.IdentityAccess.Invariant.Emails.{UniqueEmails}
use cricket_drs_system.IdentityAccess.Invariant.Operations.{invite_user-IsValid, new_user_ok}

-- What is found by an email has that email and stands in that tenant.
pub find_email_entry :
    (o : OrganizationId) (email : String) (s : UserStore) (u : User)
    → All UserEntry s
    → Store.find_email o email s ≡ some u
    → (u.organization_id ≡ o) × (u.email ≡ email)
unfolding Store.find_email
find_email_entry o email [] u h found = cc
find_email_entry o email ((k, w) ∷ s) u h found =
    ground (arith, eq_iff k.0 o, eq_iff w.email email, find_email_entry o email s u h.1)

-- A user that is stored is what its email finds, wherever Go's walk over the map begins.
pub find_email-lookup :
    (o : OrganizationId) (email : String) (k : UserKey) (u : User) (s : UserStore)
    → UniqueEmails s
    → lookup k s ≡ some u
    → k.0 ≡ o
    → u.email ≡ email
    → Store.find_email o email s ≡ some u
unfolding Store.find_email lookup
find_email-lookup o email k u [] unique stored here same = cc
find_email-lookup o email k u ((j, w) ∷ s) unique stored here same = ground (
  arith,
  eq_iff j.0 k.0,
  eq_iff j.1 k.1,
  eq_iff j.0 o,
  eq_iff w.email email,
  find_email-lookup o email k u s unique.1,
)

-- The laws that the hasher and the token issuer are relied on for.
pub record PortLaws (ports : Ports) : Type 0 where
  pub compare-hash :
      (password hash : String)
      → ports.hash password ≡ some hash
      → ports.compare hash password ≡ true
  pub verify-issue :
      (u : UserId) (o : OrganizationId) (r : Role) (t : String)
      → ports.issue u o r ≡ some t
      → ports.verify t ≡ some (record { user_id = u; organization_id = o; role = r })

create_user_ok :
    (u : User) (s : UserStore)
    → (Store.create_user u s).0 ≡ ok tt
    → lookup (user_key u) (Store.create_user u s).1 ≡ some u
unfolding Store.create_user
create_user_ok u s done =
    ground
      (arith, eq_refl u.organization_id, eq_refl u.id, lookup-put (user_key u) (user_key u) u s)

-- What an invitation that succeeds has done.
pub invite_user_ok :
    (ports : Ports) (caller : Caller) (org : OrganizationId) (email password : String) (role : Role)
    (fresh : String) (s : State) (u : User)
    → (invite_user ports caller org email password role fresh s).0 ≡ ok u
    → (caller.organization_id ≡ org)
      × (has_permission caller.role manage_users ≡ true)
      × (Store.find_email org email s.users ≡ none)
      × (u.organization_id ≡ org)
      × (u.email ≡ email)
      × (u.role ≡ role)
      × (valid role ≡ true)
      × (ports.hash password ≡ some u.password_hash)
      × (lookup (user_key u) (invite_user ports caller org email password role fresh s).1.users
          ≡ some u)
unfolding invite_user Store.get_by_email
invite_user_ok ports caller org email password role fresh s u done =
    elim (Option-cases (ports.hash password)) [
      | inl failed ↦ absurd (ground arith)
      | inr (hash, hashed) ↦ elim (Option-cases (Store.find_email org email s.users)) [
        | inr (v, taken) ↦ absurd (ground arith)
        | inl free ↦ elim (Result-cases (new_user (new_id "user" fresh) org email hash role)) [
          | inr (e, refused) ↦ absurd (ground arith)
          | inl (v, made) ↦
              let facts = new_user_ok (new_id "user" fresh) org email hash role v made in
              let here : caller.organization_id ≡ org =
                ground (arith, eq_iff caller.organization_id org) in
              let may : has_permission caller.role manage_users ≡ true = ground arith in
              let same : v ≡ u = ground arith in
              let stored : (Store.create_user u s.users).0 ≡ ok tt = ground arith in
              let after : (invite_user ports caller org email password role fresh s).1.users
                  ≡ (Store.create_user u s.users).1 =
                ground arith in
              (
                here,
                may,
                free,
                ap (λ w. w.organization_id) (sym same) ∙ facts.0,
                ap (λ w. w.email) (sym same) ∙ facts.1,
                ap (λ w. w.role) (sym same) ∙ facts.4,
                ap valid (sym facts.4) ∙ facts.2,
                hashed ∙ ap some (sym facts.5 ∙ ap (λ w. w.password_hash) same),
                ap (lookup (user_key u)) after ∙ create_user_ok u s.users stored,
              )
        ]
      ]
    ]

-- In valid stores, with a hasher and an issuer that keep their laws, a user who was invited and for
-- whom a token can be issued logs in with the password of the invitation, and the token that this
-- gives authenticates exactly that user, with the role of the invitation.
pub invite-login :
    (ports : Ports) (caller : Caller) (org : OrganizationId) (email password : String) (role : Role)
    (fresh : String) (s : State) (u : User) (t : String)
    → PortLaws ports
    → IsValid s
    → (invite_user ports caller org email password role fresh s).0 ≡ ok u
    → ports.issue u.id org role ≡ some t
    → let s' = (invite_user ports caller org email password role fresh s).1 in
      (login ports org email password s' ≡ (ok t, s'))
      × (authenticate ports t ≡ ok (record { organization_id = org; user_id = u.id; role = role }))
unfolding login authenticate Store.get_by_email
invite-login ports caller org email password role fresh s u t laws h done issued =
    let facts = invite_user_ok ports caller org email password role fresh s u done in
    let after = invite_user-IsValid ports caller org email password role fresh s h in
    let found =
      find_email-lookup org email (user_key u) u
        (invite_user ports caller org email password role fresh s).1.users after.emails facts.8
        facts.3 facts.4 in
    (
      ground (arith, laws.compare-hash password u.password_hash),
      ground (arith, laws.verify-issue u.id org role t),
    )

-- The roles that may manage users are the organizer admin and the board admin, and no other text.
pub manage_users_iff :
    (r : Role)
    → (has_permission r manage_users ≡ true) ↔ ((r ≡ organizer_admin) ⊎ (r ≡ board_admin))
unfolding has_permission
manage_users_iff r = (
  λ h. ground (
    arith,
    eq_iff player r,
    eq_iff coach r,
    eq_iff umpire r,
    eq_iff organizer_admin r,
    eq_iff board_admin r,
    eq_iff fan r,
  ),
  λ h. elim h [ inl e ↦ rw e refl | inr e ↦ rw e refl ],
)

-- Creating an organization is not atomic: with a name, a password that can be hashed and no admin
-- email it fails, and the organization stays behind with no user.
pub create_organization-orphan :
    (ports : Ports) (name password hash fresh_org fresh_user : String) (s : State)
    → name ≢ ""
    → ports.hash password ≡ some hash
    → (org : Organization) × (create_organization ports name "" password fresh_org fresh_user s
        ≡ (err user_email_empty, record s { orgs = put org.id org s.orgs }))
      × (org.name ≡ name)
      × (org.id ≡ new_id "org" fresh_org)
unfolding create_organization new_organization new_user Store.create_organization
create_organization-orphan ports name password hash fresh_org fresh_user s named hashed = (
  record { id = new_id "org" fresh_org; name = name },
  ground (arith, eq_iff name ""),
  refl,
  refl,
)
