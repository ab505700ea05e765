-- ===== src/IdentityAccess/Interleaving/Kept.antt =====
-- What two invitations at the same time keep, however their steps interleave.
use cricket_drs_system.Prelude.{
  String, ◌≡◌, ◌≢◌, Bool, true, false, some, List, [], ◌∷◌, All, arith, string_eq, pair_eq, eq_iff,
  eq_refl, Option-cases, inl, inr,
}
use cricket_drs_system.Exec.{Result, ok, err, Result-cases}
use cricket_drs_system.Table.{lookup, lookup-put}
use cricket_drs_system.Platformauth.{valid}
use cricket_drs_system.IdentityAccess.Domain.{User, Error, Organization, new_user}
use cricket_drs_system.IdentityAccess.Store
use cricket_drs_system.IdentityAccess.Store.{UserStore, user_key}
use cricket_drs_system.IdentityAccess.Service.{State, Ports, new_id, or_dependency}
use cricket_drs_system.IdentityAccess.Invariant.{UserEntry}
use cricket_drs_system.IdentityAccess.Invariant.Operations.{new_user_ok, create_user-UserEntry}
use cricket_drs_system.IdentityAccess.Interleaving.{
  Invitation, Thread, asks_organization, asks_email, creates, returns, begins, after_organization,
  after_new_user, after_hash, after_create, after_email, advance, Both, run, started,
}

-- What is true of an invitation that stands there: a user that is about to be stored passes the
-- checks, and one that was returned is in the store.
abbrev pub Sound : Thread → State → Type 0
Sound (asks_organization i) s = Unit
Sound (asks_email i) s = Unit
Sound (creates u) s = (valid u.role ≡ true) × (u.email ≢ "")
Sound (returns (ok u)) s = lookup (user_key u) s.users ≡ some u
Sound (returns (err e)) s = Unit

pub record Kept (b : Both) : Type 0 where
  pub users : All UserEntry b.state.users
  pub left : Sound b.left b.state
  pub right : Sound b.right b.state

-- A stored user stays stored.
abbrev Grows : State → State → Type 0
Grows s s' =
    (v : User) → lookup (user_key v) s.users ≡ some v → lookup (user_key v) s'.users ≡ some v

Sound-Grows : (t : Thread) (s s' : State) → Grows s s' → Sound t s → Sound t s'
Sound-Grows (asks_organization i) s s' g h = tt
Sound-Grows (asks_email i) s s' g h = tt
Sound-Grows (creates u) s s' g h = h
Sound-Grows (returns (ok u)) s s' g h = g u h
Sound-Grows (returns (err e)) s s' g h = tt

begins-Sound : (i : Invitation) (s : State) → Sound (begins i) s
unfolding begins
begins-Sound i s = ground arith

after_new_user-Sound :
    (i : Invitation) (hash : String) (s : State)
    → Sound (after_new_user (new_user (new_id "user" i.fresh) i.org_id i.email hash i.role)) s
unfolding after_new_user
after_new_user-Sound i hash s =
    elim (Result-cases (new_user (new_id "user" i.fresh) i.org_id i.email hash i.role)) [
      | inl (u, made) ↦
          let facts = new_user_ok (new_id "user" i.fresh) i.org_id i.email hash i.role u made in
          rw made (facts.2, facts.3)
      | inr (e, refused) ↦ rw refused tt
    ]

after_hash-Sound : (i : Invitation) (h : Result Error String) (s : State) → Sound (after_hash i h) s
unfolding after_hash
after_hash-Sound i (ok hash) s = after_new_user-Sound i hash s
after_hash-Sound i (err e) s = tt

module _ (ports : Ports) where
  after_email-Sound :
      (i : Invitation) (r : Result Error (Unit {0})) (s : State) → Sound (after_email ports i r) s
  unfolding after_email
  after_email-Sound i (ok x) s = after_hash-Sound i (or_dependency (ports.hash i.password) "hash") s
  after_email-Sound i (err e) s = tt

  after_organization-Sound :
      (i : Invitation) (r : Result Error Organization) (s : State)
      → Sound (after_organization i r) s
  unfolding after_organization
  after_organization-Sound i (ok o) s = tt
  after_organization-Sound i (err e) s = tt

  advance-Grows : (t : Thread) (s : State) → Grows s (advance ports t s).1
  unfolding advance Store.create_user
  advance-Grows (asks_organization i) s v h = h
  advance-Grows (asks_email i) s v h = h
  advance-Grows (creates u) s v h = ground (
    arith,
    h,
    lookup-put (user_key u) (user_key v) u s.users,
    eq_iff u.organization_id v.organization_id,
    eq_iff u.id v.id,
  )
  advance-Grows (returns r) s v h = h

  advance-users :
      (t : Thread) (s : State)
      → All UserEntry s.users
      → Sound t s
      → All UserEntry (advance ports t s).1.users
  unfolding advance
  advance-users (asks_organization i) s h sound = h
  advance-users (asks_email i) s h sound = h
  advance-users (creates u) s h sound = create_user-UserEntry u s.users h sound.0 sound.1
  advance-users (returns r) s h sound = h

  advance-Sound :
      (t : Thread) (s : State) → Sound t s → Sound (advance ports t s).0 (advance ports t s).1
  unfolding advance after_create Store.create_user
  advance-Sound (asks_organization i) s sound =
      after_organization-Sound i (Store.get_organization i.org_id s.orgs) s
  advance-Sound (asks_email i) s sound = after_email-Sound i _ s
  advance-Sound (creates u) s sound = elim (Option-cases (lookup (user_key u) s.users)) [
    | inl free ↦ ground (
      arith,
      lookup-put (user_key u) (user_key u) u s.users,
      eq_refl u.organization_id,
      eq_refl u.id,
    )
    | inr (v, taken) ↦ ground arith
  ]
  advance-Sound (returns r) s sound = sound

  Kept-run : (turns : List Bool) (b : Both) → Kept b → Kept (run ports turns b)
  unfolding run
  Kept-run [] b h = h
  Kept-run (true ∷ turns) b h = Kept-run turns _ (record {
    users = advance-users b.left b.state h.users h.left;
    left = advance-Sound b.left b.state h.left;
    right = Sound-Grows b.right b.state _ (advance-Grows b.left b.state) h.right;
  })
  Kept-run (false ∷ turns) b h = Kept-run turns _ (record {
    users = advance-users b.right b.state h.users h.right;
    left = Sound-Grows b.left b.state _ (advance-Grows b.right b.state) h.left;
    right = advance-Sound b.right b.state h.right;
  })

  -- However the steps of two invitations interleave, and wherever they stop: every stored user is
  -- under its own key, with a valid role and an email, and where an invitation has returned a user,
  -- the store holds just that user under its key. This is for a store that was well keyed before.
  pub run-Kept :
      (turns : List Bool) (i j : Invitation) (s : State)
      → All UserEntry s.users
      → Kept (run ports turns (started i j s))
  run-Kept turns i j s h =
      Kept-run turns (started i j s)
        (record { users = h; left = begins-Sound i s; right = begins-Sound j s })
