-- ===== src/IdentityAccess/Order.antt =====
-- The order in which Go walks a map is random, and `GetByEmail` of
-- services/identity-access/internal/memstore/users.go returns the first user that it meets. What
-- identity-access answers does not depend on it.
pub mod Operations
pub mod Serve
pub mod View
use cricket_drs_system.Prelude.{
  String, ◌≡◌, refl, sym, ◌∙◌, Option, some, none, List, [], ◌∷◌, arith, ◌==◌, ◌&&◌, string_eq,
  pair_eq, eq_iff, eq_refl, inl, inr, Option-cases, Bool-cases,
}
use cricket_drs_system.Exec.{Result, ok, err}
use cricket_drs_system.Table.{lookup, put, contains}
use cricket_drs_system.Table.Order.{Distinct, SameMap, put-SameMap, put-Distinct}
use cricket_drs_system.IdentityAccess.Domain.{
  OrganizationId, UserId, Organization, User, ConsentRecord,
}
use cricket_drs_system.IdentityAccess.Store
use cricket_drs_system.IdentityAccess.Store.{
  OrganizationStore, UserStore, ConsentStore, UserKey, user_key,
}
use cricket_drs_system.IdentityAccess.Service.{State}
use cricket_drs_system.IdentityAccess.Invariant.Emails.{UniqueEmails}

-- The same stores, each in an order of its own, with each user's key once.
pub record SameState (s t : State) : Type 0 where
  pub orgs : SameMap s.orgs t.orgs
  pub users : SameMap s.users t.users
  pub consents : SameMap s.consents t.consents
  pub distinct_left : Distinct s.users
  pub distinct_right : Distinct t.users

-- A map of users, in which no two of a tenant share an email.
abbrev pub Keyed : UserStore → Type 0
Keyed s = Distinct s × UniqueEmails s

find_email-found :
    (o : OrganizationId) (email : String) (s : UserStore) (u : User)
    → Distinct s
    → Store.find_email o email s ≡ some u
    → (k : UserKey) × (lookup k s ≡ some u) × (k.0 ≡ o) × (u.email ≡ email)
unfolding Store.find_email lookup
find_email-found o email [] u h found = absurd (cc)
find_email-found o email ((j, w) ∷ s) u h found = elim (Bool-cases (j.0 == o && w.email == email)) [
  | inl here ↦ (
    j,
    ground (arith, eq_refl j.0, eq_refl j.1),
    ground (arith, eq_iff j.0 o),
    ground (arith, eq_iff w.email email),
  )
  | inr there ↦
      let (k, stored, org, same) = find_email-found o email s u h.1 (ground (arith, there)) in
      (k, ground (arith, h.0, eq_iff j.0 k.0, eq_iff j.1 k.1), org, same)
]

find_email-lookup :
    (o : OrganizationId) (email : String) (s : UserStore) (k : UserKey) (u : User)
    → UniqueEmails s
    → lookup k s ≡ some u
    → k.0 ≡ o
    → u.email ≡ email
    → Store.find_email o email s ≡ some u
unfolding Store.find_email lookup
find_email-lookup o email [] k u h found org same = absurd (cc)
find_email-lookup o email ((j, w) ∷ s) k u h found org same = ground (
  arith,
  h.0,
  find_email-lookup o email s k u h.1,
  eq_iff j.0 k.0,
  eq_iff j.1 k.1,
  eq_iff j.0 o,
  eq_iff w.email email,
)

find_email-some :
    (o : OrganizationId) (email : String) (s t : UserStore) (u : User)
    → Keyed s
    → Keyed t
    → SameMap s t
    → Store.find_email o email s ≡ some u
    → Store.find_email o email t ≡ some u
find_email-some o email s t u hs ht same found =
    let (k, stored, org, mail) = find_email-found o email s u hs.0 found in
    find_email-lookup o email t k u ht.1 (sym (same k) ∙ stored) org mail

-- The user whom an email finds is the same in every order.
pub find_email-SameMap :
    (o : OrganizationId) (email : String) (s t : UserStore)
    → Keyed s
    → Keyed t
    → SameMap s t
    → Store.find_email o email s ≡ Store.find_email o email t
find_email-SameMap o email s t hs ht same = elim (Option-cases (Store.find_email o email s)) [
  | inr (u, found) ↦ found ∙ sym (find_email-some o email s t u hs ht same found)
  | inl missing ↦ elim (Option-cases (Store.find_email o email t)) [
    | inl absent ↦ missing ∙ sym absent
    | inr (u, found) ↦
        absurd (ground (arith, find_email-some o email t s u ht hs (λ k. sym (same k)) found))
  ]
]

-- What the methods of the stores answer, and the maps that they leave.
pub get_organization-SameMap :
    (o : OrganizationId) (s t : OrganizationStore)
    → SameMap s t
    → Store.get_organization o s ≡ Store.get_organization o t
unfolding Store.get_organization
get_organization-SameMap o s t same = ground (arith, same o)

pub get_by_email-SameMap :
    (o : OrganizationId) (email : String) (s t : UserStore)
    → Keyed s
    → Keyed t
    → SameMap s t
    → Store.get_by_email o email s ≡ Store.get_by_email o email t
unfolding Store.get_by_email
get_by_email-SameMap o email s t hs ht same =
    ground (arith, find_email-SameMap o email s t hs ht same)

pub get_user-SameMap :
    (o : OrganizationId) (i : UserId) (s t : UserStore)
    → SameMap s t
    → Store.get_user o i s ≡ Store.get_user o i t
unfolding Store.get_user
get_user-SameMap o i s t same = ground (arith, same (o, i))

pub get_consent-SameMap :
    (o : OrganizationId) (i : UserId) (s t : ConsentStore)
    → SameMap s t
    → Store.get_consent o i s ≡ Store.get_consent o i t
unfolding Store.get_consent
get_consent-SameMap o i s t same = ground (arith, same (o, i))

pub create_user-SameMap :
    (u : User) (s t : UserStore)
    → SameMap s t
    → ((Store.create_user u s).0 ≡ (Store.create_user u t).0)
      × SameMap (Store.create_user u s).1 (Store.create_user u t).1
unfolding Store.create_user
create_user-SameMap u s t same = (
  ground (arith, same (user_key u)),
  λ k. ground (arith, same (user_key u), same k, put-SameMap (user_key u) u s t same k),
)

pub update_user-SameMap :
    (u : User) (s t : UserStore)
    → SameMap s t
    → ((Store.update_user u s).0 ≡ (Store.update_user u t).0)
      × SameMap (Store.update_user u s).1 (Store.update_user u t).1
unfolding Store.update_user
update_user-SameMap u s t same = (
  ground (arith, same (user_key u)),
  λ k. ground (arith, same (user_key u), same k, put-SameMap (user_key u) u s t same k),
)

pub create_user-Distinct :
    (u : User) (s : UserStore) → Distinct s → Distinct (Store.create_user u s).1
unfolding Store.create_user
create_user-Distinct u s h = ground (arith, put-Distinct (user_key u) u s h)

pub update_user-Distinct :
    (u : User) (s : UserStore) → Distinct s → Distinct (Store.update_user u s).1
unfolding Store.update_user
update_user-Distinct u s h = ground (arith, put-Distinct (user_key u) u s h)
