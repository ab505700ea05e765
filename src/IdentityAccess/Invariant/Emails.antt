-- ===== src/IdentityAccess/Invariant/Emails.antt =====
-- No two users of a tenant share an email, so the order in which Go walks a map does not show.
use cricket_drs_system.Prelude.{
  String, ◌≡◌, ◌≢◌, none, some, [], ◌∷◌, arith, eq_iff, string_eq, pair_eq,
}
use cricket_drs_system.Table.{lookup, put}
use cricket_drs_system.IdentityAccess.Domain.{User, OrganizationId}
use cricket_drs_system.IdentityAccess.Store
use cricket_drs_system.IdentityAccess.Store.{UserKey, UserStore}

abbrev pub UniqueEmails : UserStore → Type 0
UniqueEmails [] = Unit
UniqueEmails ((k, u) ∷ s) = (Store.find_email k.0 u.email s ≡ none) × UniqueEmails s

-- After a new entry: an email is found where it was before, or it is the new one.
pub find_email-put_new :
    (o : OrganizationId) (email : String) (k : UserKey) (u : User) (s : UserStore)
    → lookup k s ≡ none
    → Store.find_email o email s ≡ none
    → (k.0 ≡ o → u.email ≢ email)
    → Store.find_email o email (put k u s) ≡ none
unfolding Store.find_email put lookup
find_email-put_new o email k u [] fresh absent other =
    ground (arith, eq_iff k.0 o, eq_iff u.email email)
find_email-put_new o email k u ((j, w) ∷ s) fresh absent other =
    ground (arith, find_email-put_new o email k u s)

pub put_new-UniqueEmails :
    (k : UserKey) (u : User) (s : UserStore)
    → lookup k s ≡ none
    → Store.find_email k.0 u.email s ≡ none
    → UniqueEmails s
    → UniqueEmails (put k u s)
unfolding Store.find_email put lookup
put_new-UniqueEmails k u [] fresh absent h = ground arith
put_new-UniqueEmails k u ((j, w) ∷ s) fresh absent h = ground (
  arith,
  put_new-UniqueEmails k u s,
  find_email-put_new j.0 w.email k u s,
  eq_iff j.0 k.0,
  eq_iff w.email u.email,
)

-- After a rewrite that keeps the email: nothing new is found.
pub find_email-put_same :
    (o : OrganizationId) (email : String) (k : UserKey) (u old : User) (s : UserStore)
    → lookup k s ≡ some old
    → old.email ≡ u.email
    → Store.find_email o email s ≡ none
    → Store.find_email o email (put k u s) ≡ none
unfolding Store.find_email put lookup
find_email-put_same o email k u old [] found same absent = cc
find_email-put_same o email k u old ((j, w) ∷ s) found same absent =
    ground (arith, eq_iff j.0 k.0, eq_iff j.1 k.1, find_email-put_same o email k u old s)

pub put_same-UniqueEmails :
    (k : UserKey) (u old : User) (s : UserStore)
    → lookup k s ≡ some old
    → old.email ≡ u.email
    → UniqueEmails s
    → UniqueEmails (put k u s)
unfolding put lookup
put_same-UniqueEmails k u old [] found same h = cc
put_same-UniqueEmails k u old ((j, w) ∷ s) found same h = ground (
  arith,
  eq_iff j.0 k.0,
  eq_iff j.1 k.1,
  put_same-UniqueEmails k u old s,
  find_email-put_same j.0 w.email k u old s,
)
