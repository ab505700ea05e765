-- ===== src/IdentityAccess/Interleaving.antt =====
-- Two invitations at the same time: `InviteUser` of
-- services/identity-access/internal/service/user.go, cut at its calls of the repositories, which are
-- what a lock makes one step.
pub mod Kept
pub mod Race
use cricket_drs_system.Prelude.{
  ℕ, String, ◌≡◌, refl, Bool, true, false, not, Option, some, none, List, [], ◌∷◌, arith, ◌==◌,
  string_eq, if◌then◌else◌, Option-cases, Bool-cases, inl, inr, eq_iff,
}
use cricket_drs_system.Exec.{Result, ok, err, Result-cases}
use cricket_drs_system.Platformauth.{Role}
use cricket_drs_system.IdentityAccess.Domain.{
  OrganizationId, User, Organization, Error, cross_tenant_access, permission_denied, dependency,
  has_permission, manage_users, new_user,
}
use cricket_drs_system.IdentityAccess.Store
use cricket_drs_system.IdentityAccess.Service.{
  State, Caller, Ports, new_id, absent, or_dependency, invite_user,
}

-- The arguments of one invitation, with the random text of the new identifier.
pub record Invitation : Type 0 where
  pub caller : Caller
  pub org_id : OrganizationId
  pub email : String
  pub password : String
  pub role : Role
  pub fresh : String

-- Where an invitation stands: before one of its three calls, or at its end.
pub data Thread : Type 0 where
  asks_organization : Invitation → Thread
  asks_email : Invitation → Thread
  creates : User → Thread
  returns : Result Error User → Thread

-- The checks before the first call
unfoldable pub begins : Invitation → Thread
begins i =
    if not (i.caller.organization_id == i.org_id)
    then returns (err cross_tenant_access)
    else if not (has_permission i.caller.role manage_users)
    then returns (err permission_denied)
    else asks_organization i

-- What comes of each call, up to the next one.
unfoldable pub after_organization : Invitation → Result Error Organization → Thread
after_organization i (ok o) = asks_email i
after_organization i (err e) = returns (err e)

unfoldable pub after_new_user : Result Error User → Thread
after_new_user (ok u) = creates u
after_new_user (err e) = returns (err e)

unfoldable pub after_hash : Invitation → Result Error String → Thread
unfolding after_new_user
after_hash i (ok hash) =
    after_new_user (new_user (new_id "user" i.fresh) i.org_id i.email hash i.role)
after_hash i (err e) = returns (err e)

unfoldable pub after_create : User → Result Error (Unit {0}) → Thread
after_create u (ok x) = returns (ok u)
after_create u (err e) = returns (err e)

module _ (ports : Ports) where
  unfoldable pub after_email : Invitation → Result Error (Unit {0}) → Thread
  unfolding after_hash
  after_email i (ok x) = after_hash i (or_dependency (ports.hash i.password) "hash")
  after_email i (err e) = returns (err e)

  -- One call of a repository, with what follows it.
  unfoldable pub advance : Thread → State → Thread × State
  unfolding after_organization after_email after_create
  advance (asks_organization i) s =
      (after_organization i (Store.get_organization i.org_id s.orgs), s)
  advance (asks_email i) s =
      (after_email i (absent (Store.get_by_email i.org_id i.email s.users)), s)
  advance (creates u) s =
      let (created, users) = Store.create_user u s.users in
      (after_create u created, record s { users = users })
  advance (returns r) s = (returns r, s)

  -- One invitation alone, from its first call to its last
  unfoldable pub alone : Invitation → State → Thread × State
  unfolding advance begins
  alone i s = let (t1, s1) = advance (begins i) s in let (t2, s2) = advance t1 s1 in advance t2 s2

  -- An invitation that nothing comes in between does just what `InviteUser` does.
  pub alone-invite_user :
      (i : Invitation) (s : State)
      → let r = invite_user ports i.caller i.org_id i.email i.password i.role i.fresh s in
        alone i s ≡ (returns r.0, r.1)
  unfolding alone advance begins invite_user after_organization after_email after_hash
      after_new_user after_create
  alone-invite_user i s = elim (Result-cases (Store.get_organization i.org_id s.orgs)) [
    | inr (e, missing) ↦ ground arith
    | inl (o, found) ↦ elim (Result-cases (absent (Store.get_by_email i.org_id i.email s.users))) [
      | inr (e, taken) ↦ ground arith
      | inl (x, free) ↦ elim (Result-cases (or_dependency (ports.hash i.password) "hash")) [
        | inr (e, failed) ↦ ground arith
        | inl (hash, hashed) ↦
            elim (Result-cases (new_user (new_id "user" i.fresh) i.org_id i.email hash i.role)) [
              | inr (e, refused) ↦ ground arith
              | inl (u, made) ↦ elim (Result-cases (Store.create_user u s.users).0) [
                | inr (e, refused) ↦ ground arith
                | inl (y, done) ↦ ground arith
              ]
            ]
      ]
    ]
  ]

-- Two invitations and the stores that they share.
pub record Both : Type 0 where
  pub left : Thread
  pub right : Thread
  pub state : State

-- A schedule says at each step whether it is the left invitation that goes on.
unfoldable pub run : Ports → List Bool → Both → Both
run ports [] b = b
run ports (true ∷ turns) b =
    let (t, s) = advance ports b.left b.state in
    run ports turns (record { left = t; right = b.right; state = s })
run ports (false ∷ turns) b =
    let (t, s) = advance ports b.right b.state in
    run ports turns (record { left = b.left; right = t; state = s })

abbrev pub started : Invitation → Invitation → State → Both
started i j s = record { left = begins i; right = begins j; state = s }
