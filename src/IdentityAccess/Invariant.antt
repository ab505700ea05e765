-- ===== src/IdentityAccess/Invariant.antt =====
-- What the stores hold at every moment: each entry stands under the key of its own fields, passes
-- the checks of its constructor, and no two users of a tenant share an email.
pub mod Emails
pub mod Operations
pub mod Serve
use cricket_drs_system.Prelude.{
  ◌≡◌, ◌≢◌, Bool, true, false, some, none, All, arith, eq_iff, ◌==◌, string_eq, pair_eq, inl, inr,
  Option-cases,
}
use cricket_drs_system.Prelude.Int.{Time}
use cricket_drs_system.Exec.{Result, ok, err}
use cricket_drs_system.Table.{lookup}
use cricket_drs_system.Table.Select.{All-put, All-lookup}
use cricket_drs_system.Platformauth.{valid}
use cricket_drs_system.IdentityAccess.Domain.{
  User, UserId, ConsentRecord, Organization, OrganizationId, Error, new_user, new_consent_record,
  grant_consent, revoke_consent,
}
use cricket_drs_system.IdentityAccess.Store
use cricket_drs_system.IdentityAccess.Store.{
  UserKey, ConsentKey, OrganizationStore, UserStore, ConsentStore, user_key,
}
use cricket_drs_system.IdentityAccess.Service.{State}
use Emails.{UniqueEmails}

-- A user that `NewUser` lets through, under its own key.
pub record UserEntry (e : UserKey × User) : Type 0 where
  pub keyed : e.0 ≡ user_key e.1
  pub role_valid : valid e.1.role ≡ true
  pub has_email : e.1.email ≢ ""

-- A record under its own key, with a map, and a guardian if it is a minor's.
pub record ConsentEntry (e : ConsentKey × ConsentRecord) : Type 0 where
  pub keyed : e.0 ≡ (e.1.organization_id, e.1.user_id)
  pub guarded : e.1.is_minor ≡ true → e.1.guardian_user_id ≢ none

pub record OrganizationEntry (e : OrganizationId × Organization) : Type 0 where
  pub keyed : e.0 ≡ e.1.id
  pub has_name : e.1.name ≢ ""

pub record IsValid (s : State) : Type 0 where
  pub orgs : All OrganizationEntry s.orgs
  pub users : All UserEntry s.users
  pub emails : UniqueEmails s.users
  pub consents : All ConsentEntry s.consents

-- What the stores find is keyed as it was asked for.
pub get_user-UserEntry :
    (o : OrganizationId) (i : UserId) (s : UserStore) (u : User)
    → All UserEntry s
    → Store.get_user o i s ≡ ok u
    → UserEntry ((o, i), u)
unfolding Store.get_user
get_user-UserEntry o i s u h found = All-lookup UserEntry (o, i) u s h (ground arith)

pub get_consent-ConsentEntry :
    (o : OrganizationId) (i : UserId) (s : ConsentStore) (c : ConsentRecord)
    → All ConsentEntry s
    → Store.get_consent o i s ≡ ok c
    → ConsentEntry ((o, i), c)
unfolding Store.get_consent
get_consent-ConsentEntry o i s c h found = elim (Option-cases (lookup (o, i) s)) [
  | inl absent ↦ absurd (ground arith)
  | inr (rec, stored) ↦ ground (arith, All-lookup ConsentEntry (o, i) rec s h stored)
]
