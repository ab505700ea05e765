-- ===== src/IdentityAccess/Interleaving/Race.antt =====
-- Two invitations of one email at the same time.
use cricket_drs_system.Prelude.{
  String, ◌≡◌, ◌≢◌, refl, ap, ◌∙◌, Bool, true, false, some, none, List, [], ◌∷◌, arith, string_eq,
  pair_eq, eq_iff, eq_refl,
}
use cricket_drs_system.Exec.{ok}
use cricket_drs_system.Table.{lookup, put, lookup-put}
use cricket_drs_system.Platformauth.{valid}
use cricket_drs_system.IdentityAccess.Domain.{
  User, Organization, has_permission, manage_users, new_user,
}
use cricket_drs_system.IdentityAccess.Store
use cricket_drs_system.IdentityAccess.Store.{user_key}
use cricket_drs_system.IdentityAccess.Service.{State, Ports, new_id}
use cricket_drs_system.IdentityAccess.Interleaving.{
  Invitation, asks_email, creates, returns, begins, after_organization, after_new_user, after_hash,
  after_create, after_email, advance, run, started,
}

-- An invitation that would succeed alone.
pub record Possible (ports : Ports) (s : State) (i : Invitation) : Type 0 where
  pub own_tenant : i.caller.organization_id ≡ i.org_id
  pub may_invite : has_permission i.caller.role manage_users ≡ true
  pub organization : Organization
  pub held : lookup i.org_id s.orgs ≡ some organization
  pub not_taken : Store.find_email i.org_id i.email s.users ≡ none
  pub hash : String
  pub hashed : ports.hash i.password ≡ some hash
  pub has_email : i.email ≢ ""
  pub role_valid : valid i.role ≡ true
  pub unused : lookup (i.org_id, new_id "user" i.fresh) s.users ≡ none

abbrev user_of : Invitation → String → User
user_of i hash = record {
  id = new_id "user" i.fresh;
  organization_id = i.org_id;
  email = i.email;
  password_hash = hash;
  role = i.role;
}

-- Both ask for the email before either stores its user.
abbrev pub both_ask_first : List Bool
both_ask_first = true ∷ true ∷ false ∷ false ∷ true ∷ false ∷ []

module _ (ports : Ports) where
  -- The first two steps of a possible invitation.
  asked :
      (i : Invitation) (s : State) (p : Possible ports s i)
      → (advance ports (begins i) s ≡ (asks_email i, s))
        × (advance ports (asks_email i) s ≡ (creates (user_of i p.hash), s))
  unfolding advance begins after_organization after_email after_hash after_new_user
      Store.get_organization Store.get_by_email new_user
  asked i s p = (
    ground (arith, p.own_tenant, p.may_invite, p.held, eq_refl i.org_id),
    ground (arith, p.not_taken, p.hashed, p.role_valid, eq_iff i.email "", p.has_email),
  )

  stored :
      (u : User) (s : State)
      → lookup (user_key u) s.users ≡ none
      → advance ports (creates u) s
        ≡ (returns (ok u), record s { users = put (user_key u) u s.users })
  unfolding advance after_create Store.create_user
  stored u s unused = ground arith

  -- Two invitations of the same email into the same tenant, each of which would succeed alone, both
  -- succeed when each looks for the email before the other stores its user; the tenant then has two
  -- users with that email.
  pub both-invited :
      (i j : Invitation) (s : State)
      → Possible ports s i
      → Possible ports s j
      → i.org_id ≡ j.org_id
      → i.email ≡ j.email
      → new_id "user" i.fresh ≢ new_id "user" j.fresh
      → let b = run ports both_ask_first (started i j s) in
        (u : User) × (v : User) × ((b.left ≡ returns (ok u))
          × (b.right ≡ returns (ok v))
          × (lookup (user_key u) b.state.users ≡ some u)
          × (lookup (user_key v) b.state.users ≡ some v)
          × (u.organization_id ≡ v.organization_id)
          × (u.email ≡ v.email)
          × (u.id ≢ v.id))
  unfolding run
  both-invited i j s p q same_tenant same_email different =
      let u = user_of i p.hash in
      let v = user_of j q.hash in
      let (i1, i2) = asked i s p in
      let (j1, j2) = asked j s q in
      let with_u : State = record s { users = put (user_key u) u s.users } in
      let with_both : State = record s { users = put (user_key v) v with_u.users } in
      let put_u = lookup-put (user_key u) (user_key v) u s.users in
      let free : lookup (user_key v) with_u.users ≡ none =
        ground (arith, put_u, q.unused, different, eq_iff u.id v.id) in
      let here : lookup (user_key u) with_both.users ≡ some u = ground (
        arith,
        lookup-put (user_key v) (user_key u) v with_u.users,
        lookup-put (user_key u) (user_key u) u s.users,
        different,
        eq_iff v.id u.id,
        eq_refl u.id,
        eq_refl u.organization_id,
      ) in
      let there : lookup (user_key v) with_both.users ≡ some v = ground (
        arith,
        lookup-put (user_key v) (user_key v) v with_u.users,
        eq_refl v.id,
        eq_refl v.organization_id,
      ) in
      let su = stored u s p.unused in
      let sv = stored v with_u free in
      let reached : run ports both_ask_first (started i j s)
          ≡ record { left = returns (ok u); right = returns (ok v); state = with_both } =
        rw (i1, i2, j1, j2, su, sv) refl in
      (
        u,
        v,
        (
          ap (λ b. b.left) reached,
          ap (λ b. b.right) reached,
          ap (λ b. lookup (user_key u) b.state.users) reached ∙ here,
          ap (λ b. lookup (user_key v) b.state.users) reached ∙ there,
          same_tenant,
          same_email,
          different,
        ),
      )
