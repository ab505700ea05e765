-- ===== src/IdentityAccess/Tests/Interleaving.antt =====
-- Two admins of a club who invite the same coach at the same time.
use cricket_drs_system.Prelude.{
  ◌≡◌, ◌≢◌, refl, true, false, some, [], ◌∷◌, texts_differ, string_eq, pair_eq,
}
use cricket_drs_system.Exec.{ok}
use cricket_drs_system.Table.{lookup}
use cricket_drs_system.Platformauth.{valid, coach, fan}
use cricket_drs_system.IdentityAccess.Domain.{User, has_permission}
use cricket_drs_system.IdentityAccess.Store
use cricket_drs_system.IdentityAccess.Store.{user_key}
use cricket_drs_system.IdentityAccess.Service.{new_id}
use cricket_drs_system.IdentityAccess.Interleaving.{Invitation, run, started, returns}
use cricket_drs_system.IdentityAccess.Interleaving.Kept.{Kept, run-Kept}
use cricket_drs_system.IdentityAccess.Interleaving.Race.{Possible, both_ask_first, both-invited}
use cricket_drs_system.IdentityAccess.Tests.{ports, caller, club, club-IsValid}

abbrev first : Invitation
first = record {
  caller = caller;
  org_id = "club";
  email = "c@club";
  password = "pw";
  role = coach;
  fresh = "1";
}

abbrev second : Invitation
second = record {
  caller = caller;
  org_id = "club";
  email = "c@club";
  password = "other";
  role = fan;
  fresh = "2";
}

first-Possible : Possible ports club first
unfolding has_permission lookup Store.find_email valid new_id
first-Possible = record {
  own_tenant = refl;
  may_invite = refl;
  organization = record { id = "club"; name = "Club" };
  held = refl;
  not_taken = refl;
  hash = "#pw";
  hashed = refl;
  has_email = texts_differ "c@club" "" refl;
  role_valid = refl;
  unused = refl;
}

second-Possible : Possible ports club second
unfolding has_permission lookup Store.find_email valid new_id
second-Possible = record {
  own_tenant = refl;
  may_invite = refl;
  organization = record { id = "club"; name = "Club" };
  held = refl;
  not_taken = refl;
  hash = "#other";
  hashed = refl;
  has_email = texts_differ "c@club" "" refl;
  role_valid = refl;
  unused = refl;
}

ids_differ : new_id "user" "1" ≢ new_id "user" "2"
unfolding new_id
ids_differ = texts_differ "user_1" "user_2" refl

both-invited_example :
    let b = run ports both_ask_first (started first second club) in
    (u : User) × (v : User) × ((b.left ≡ returns (ok u))
      × (b.right ≡ returns (ok v))
      × (lookup (user_key u) b.state.users ≡ some u)
      × (lookup (user_key v) b.state.users ≡ some v)
      × (u.organization_id ≡ v.organization_id)
      × (u.email ≡ v.email)
      × (u.id ≢ v.id))
both-invited_example =
    both-invited ports first second club first-Possible second-Possible refl refl ids_differ

run-Kept_example : Kept (run ports (true ∷ false ∷ true ∷ []) (started first second club))
run-Kept_example = run-Kept ports (true ∷ false ∷ true ∷ []) first second club club-IsValid.users
