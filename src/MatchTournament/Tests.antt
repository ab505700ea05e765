-- ===== src/MatchTournament/Tests.antt =====
-- The theorems of match-tournament at a club with two teams and a match, whose admin adds a player.
use cricket_drs_system.Prelude.{
  String, ◌≡◌, refl, ◌⊎◌, ◌↔◌, true, Option, some, none, [], ◌∷◌, string_eq, pair_eq, texts_differ,
  ◌≢◌, arith,
}
use cricket_drs_system.Prelude.Int.{pos}
use cricket_drs_system.Exec.{ok}
use cricket_drs_system.Table.{lookup, put}
use cricket_drs_system.Platformauth.{organizer_admin}
use cricket_drs_system.MatchTournament.Domain.{
  Team, Match, RosterEntry, zero_conditions, new_match, new_roster_entry, can_manage_matches,
}
use cricket_drs_system.MatchTournament.Store
use cricket_drs_system.MatchTournament.Service.{
  State, Caller, PlayingConditionsInput, create_match, inherited, resolved, new_id,
  add_player_to_roster, remove_player_from_roster, authenticate,
}
use cricket_drs_system.MatchTournament.Http.{Environment, Route, handle, serve, bearer_token}
use cricket_drs_system.Bearer.{after_bearer}
use cricket_drs_system.MatchTournament.Invariant.{Coherent, ConditionsValid}
use cricket_drs_system.MatchTournament.Invariant.Serve.{serve-Coherent}
use cricket_drs_system.MatchTournament.Conditions.{create_match-ConditionsValid}
use cricket_drs_system.MatchTournament.Roster.Change.{
  remove_player_from_roster-add_player_to_roster,
}
use cricket_drs_system.MatchTournament.Roster.Gate.{AdmittedIn, run, run-AdmittedIn}

abbrev team_of : String → Team
team_of id = record { id = id; organization_id = "club"; name = "Eleven" }

abbrev final : Match
final = record {
  id = "final";
  organization_id = "club";
  tournament_id = none;
  home_team_id = "h";
  away_team_id = "a";
  venue = "Oval";
  scheduled_at = pos 0;
  playing_conditions = zero_conditions;
}

abbrev pub club : State
club = record {
  tournaments = [];
  teams = (("club", "h"), team_of "h") ∷ (("club", "a"), team_of "a") ∷ [];
  matches = (("club", "final"), final) ∷ [];
  rosters = [];
}

present : {A : Type 0} (a : A) → some a ≢ none
present a e = ground arith

club-Coherent : Coherent club
unfolding lookup
club-Coherent = record {
  tournaments = tt;
  teams = (
    record { keyed = refl; named = texts_differ "Eleven" "" refl },
    (record { keyed = refl; named = texts_differ "Eleven" "" refl }, tt),
  );
  matches = (
    record {
      keyed = refl;
      at_venue = texts_differ "Oval" "" refl;
      different = texts_differ "h" "a" refl;
      home = present (team_of "h");
      away = present (team_of "a");
    },
    tt,
  );
  rosters = tt;
}

-- Every token is that of the club's admin, and every player is eligible.
abbrev env : Environment
env = record {
  fresh = "1";
  now = pos 5;
  verify =
      λ t. some (record { user_id = "user_0"; organization_id = "club"; role = organizer_admin });
  check = λ t u. ok true;
}

abbrev pub addition : Route
addition = Route.add_roster_entry "club" "final" (some (record { team_id = "h"; user_id = "p" }))

abbrev pub added : RosterEntry
added = record {
  organization_id = "club";
  match_id = "final";
  team_id = "h";
  user_id = "p";
  added_at = pos 5;
  added_by = "user_0";
}

serve-Coherent_example : Coherent (serve env "Bearer t" addition club).1
serve-Coherent_example = serve-Coherent env "Bearer t" addition club club-Coherent

run-AdmittedIn_example :
    (lookup ("club", ("final", "p")) club.rosters ≡ some added)
    ⊎ AdmittedIn ((env, ("Bearer t", addition)) ∷ []) added
unfolding run serve handle bearer_token after_bearer add_player_to_roster new_roster_entry
    can_manage_matches Store.get_match Store.get_team Store.add_entry lookup put authenticate
run-AdmittedIn_example =
    run-AdmittedIn ((env, ("Bearer t", addition)) ∷ []) club ("club", ("final", "p")) added refl

abbrev created : Match
created = record final { id = "match_1" }

abbrev caller : Caller
caller = record { organization_id = "club"; user_id = "user_0"; role = organizer_admin }

-- Without a tournament and without conditions, the match gets conditions that no check lets pass.
create_match-ConditionsValid_example :
    ConditionsValid zero_conditions
    ↔ ((◌≢◌ {A = Option PlayingConditionsInput} none none) ⊎ (◌≢◌ {A = Option String} none none))
unfolding create_match new_match new_id inherited resolved can_manage_matches Store.get_team
    Store.create_match lookup put
create_match-ConditionsValid_example =
    create_match-ConditionsValid caller "club" none "h" "a" "Oval" (pos 0) none "1" club created
      club-Coherent refl

remove_player_from_roster-add_player_to_roster_example :
    let (r, s') = add_player_to_roster env.check caller "t" "club" "final" "h" "p" (pos 5) club in
    let (r', s'') = remove_player_from_roster caller "club" "final" "p" s' in
    (r ≡ ok added)
    × (lookup ("club", ("final", "p")) s'.rosters ≡ some added)
    × (r' ≡ ok tt)
    × (lookup ("club", ("final", "p")) s''.rosters ≡ none)
remove_player_from_roster-add_player_to_roster_example =
    remove_player_from_roster-add_player_to_roster caller "club" "final" "p" refl refl env.check "t"
      "h" (pos 5) club (unfold lookup in present final) (unfold lookup in present (team_of "h"))
      refl (texts_differ "p" "" refl) (unfold lookup in refl)
