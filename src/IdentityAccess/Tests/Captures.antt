-- ===== src/IdentityAccess/Tests/Captures.antt =====
-- A guardian withdraws a player's consent while an admin grants another.
use cricket_drs_system.Prelude.{
  ◌≡◌, refl, true, false, some, none, texts_differ, string_eq, pair_eq, ◌==◌, if◌then◌else◌,
}
use cricket_drs_system.Prelude.Int.{pos}
use cricket_drs_system.Exec.{ok}
use cricket_drs_system.Table.{lookup}
use cricket_drs_system.Platformauth.{fan}
use cricket_drs_system.IdentityAccess.Domain.{
  ConsentType, ConsentRecord, ai_analysis, footage_reuse, granted,
}
use cricket_drs_system.IdentityAccess.Store
use cricket_drs_system.IdentityAccess.Service.{on_file_or_new}
use cricket_drs_system.IdentityAccess.Consent.{on_file}
use cricket_drs_system.IdentityAccess.Captures.{
  Capture, returned, authorized, start_from, run_captures, both_begin,
}
use cricket_drs_system.IdentityAccess.Captures.Entries.{Explained, run_captures-Explained}
use cricket_drs_system.IdentityAccess.Captures.Lost.{Possible, both_read_first, capture-Lost}
use cricket_drs_system.IdentityAccess.Tests.{caller, club, club-IsValid}

abbrev withdrawal : Capture
withdrawal = record {
  caller = record { organization_id = "club"; user_id = "parent"; role = fan };
  org_id = "club";
  user_id = "kid";
  is_minor = true;
  guardian = some "parent";
  consent_type = ai_analysis;
  grant = false;
  created = pos 1;
  now = pos 2;
}

abbrev permission : Capture
permission = record {
  caller = caller;
  org_id = "club";
  user_id = "kid";
  is_minor = true;
  guardian = none;
  consent_type = footage_reuse;
  grant = true;
  created = pos 1;
  now = pos 3;
}

withdrawal-Possible : Possible withdrawal club
unfolding authorized start_from Store.get_consent lookup on_file_or_new
withdrawal-Possible = record { allowed = (refl, refl); base = _; starts = refl }

permission-Possible : Possible permission club
unfolding authorized start_from Store.get_consent lookup on_file_or_new
permission-Possible = record { allowed = (refl, refl); base = _; starts = refl }

run_captures-Explained_example :
    let b = run_captures both_read_first (both_begin withdrawal permission club) in
    Explained withdrawal permission club "club" "kid" ai_analysis
      (on_file b.state "club" "kid" ai_analysis)
run_captures-Explained_example =
    run_captures-Explained both_read_first withdrawal permission club "club" "kid" ai_analysis
      club-IsValid.consents

capture-Lost_example :
    let b = run_captures both_read_first (both_begin withdrawal permission club) in
    ((rec : ConsentRecord) × ((b.left ≡ returned (ok rec)) × (granted rec ai_analysis ≡ false)))
    × ((rec : ConsentRecord) × ((b.right ≡ returned (ok rec)) × (granted rec footage_reuse ≡ true)))
    × ((t : ConsentType)
        → on_file b.state "club" "kid" t
          ≡ (if footage_reuse == t then true else on_file club "club" "kid" t))
    × (on_file b.state "club" "kid" ai_analysis ≡ on_file club "club" "kid" ai_analysis)
capture-Lost_example =
    capture-Lost withdrawal permission club club-IsValid.consents withdrawal-Possible
      permission-Possible refl refl (texts_differ ai_analysis footage_reuse refl)

-- The consent that was withdrawn was on file, so it still is.
was_granted : on_file club "club" "kid" ai_analysis ≡ true
unfolding on_file Store.get_consent lookup granted
was_granted = refl
