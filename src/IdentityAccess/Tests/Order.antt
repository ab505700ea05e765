-- ===== src/IdentityAccess/Tests/Order.antt =====
-- A club with two users in two orders: a login.
use cricket_drs_system.Prelude.{
  String, ◌≡◌, refl, some, List, [], ◌∷◌, arith, string_eq, pair_eq, eq_iff, texts_differ,
}
use cricket_drs_system.Prelude.Int.{pos}
use cricket_drs_system.Table.{lookup}
use cricket_drs_system.Platformauth.{valid, coach}
use cricket_drs_system.IdentityAccess.Domain.{User}
use cricket_drs_system.IdentityAccess.Store
use cricket_drs_system.IdentityAccess.Store.{UserStore}
use cricket_drs_system.IdentityAccess.Service.{State}
use cricket_drs_system.IdentityAccess.Http.{Inputs, Response}
use cricket_drs_system.IdentityAccess.Invariant.{IsValid}
use cricket_drs_system.IdentityAccess.Order.{SameState}
use cricket_drs_system.IdentityAccess.Order.View.{
  Stores, Asked, Call, SameStores, Walks, done, reorder, call, stores_after, response,
  Walks-determined,
}
use cricket_drs_system.IdentityAccess.Tests.{ports, club}

abbrev player : String → User
player id = record {
  id = id;
  organization_id = "club";
  email = id;
  password_hash = "#x";
  role = coach;
}

abbrev with_users : UserStore → State
with_users us = record { orgs = club.orgs; users = us; consents = [] }

abbrev one_order : State
one_order = with_users ((("club", "a"), player "a") ∷ (("club", "b"), player "b") ∷ [])

abbrev other_order : State
other_order = with_users ((("club", "b"), player "b") ∷ (("club", "a"), player "a") ∷ [])

same : SameState one_order other_order
unfolding lookup
same = record {
  orgs = λ k. refl;
  users = λ k. ground (arith, eq_iff "a" k.1, eq_iff "b" k.1);
  consents = λ k. refl;
  distinct_left = (refl, (refl, tt));
  distinct_right = (refl, (refl, tt));
}

abbrev inputs : Inputs
inputs = record { fresh_org = "1"; fresh_user = "1"; created = pos 1; now = pos 2 }

one_order-IsValid : IsValid one_order
unfolding valid Store.find_email
one_order-IsValid = record {
  orgs = (record { keyed = refl; has_name = texts_differ "Club" "" refl }, tt);
  users = (
    record { keyed = refl; role_valid = refl; has_email = texts_differ "a" "" refl },
    (record { keyed = refl; role_valid = refl; has_email = texts_differ "b" "" refl }, tt),
  );
  emails = (refl, (refl, tt));
  consents = tt;
}

other_order-IsValid : IsValid other_order
unfolding valid Store.find_email
other_order-IsValid = record {
  orgs = (record { keyed = refl; has_name = texts_differ "Club" "" refl }, tt);
  users = (
    record { keyed = refl; role_valid = refl; has_email = texts_differ "b" "" refl },
    (record { keyed = refl; role_valid = refl; has_email = texts_differ "a" "" refl }, tt),
  );
  emails = (refl, (refl, tt));
  consents = tt;
}

abbrev first : Stores
first = record { state = one_order; valid = one_order-IsValid; distinct = same.distinct_left }

abbrev second : Stores
second = record { state = other_order; valid = other_order-IsValid; distinct = same.distinct_right }

abbrev logs_in : Call
logs_in = record {
  asked = Asked.login (some (record { organization_id = "club"; email = "b"; password = "x" }));
  inputs = inputs;
}

-- The same request with the users walked in one order and in the other.
straight :
    Walks ports
      (logs_in ∷ [])
      first
      (response ports logs_in first ∷ [])
      (stores_after ports logs_in first)
straight = call logs_in [] [] first _ (done _)

reordered :
    Walks ports
      (logs_in ∷ [])
      first
      (response ports logs_in second ∷ [])
      (stores_after ports logs_in second)
reordered = reorder (logs_in ∷ []) _ first second _ same (call logs_in [] [] second _ (done _))

Walks-determined_example :
    (◌≡◌ {A = List Response}
      (response ports logs_in first ∷ [])
      (response ports logs_in second ∷ []))
    × SameStores (stores_after ports logs_in first) (stores_after ports logs_in second)
Walks-determined_example = Walks-determined ports (logs_in ∷ []) first _ _ _ _ straight reordered
