-- ===== src/Platform/Tests/Deployment.antt =====
-- A season from empty stores: two teams, a match, and a player with both consents on its roster.
use Prim.Native.String.{◌++◌ as text_append}
use cricket_drs_system.Prelude.{
  String, ◌≡◌, refl, true, Option, some, none, List, [], ◌∷◌, ◌==◌, string_eq, pair_eq,
  if◌then◌else◌,
}
use cricket_drs_system.Prelude.Int.{pos}
use cricket_drs_system.Table.{lookup, put}
use cricket_drs_system.Bearer.{after, after-append, after_bearer}
use cricket_drs_system.Startup.{Environment}
use cricket_drs_system.Platformauth.Tokens
use cricket_drs_system.IdentityAccess.Http
use cricket_drs_system.IdentityAccess.Service as Accounts
use cricket_drs_system.IdentityAccess.Store as AccountsStore
use cricket_drs_system.IdentityAccess.Security.{ports_at, verify_token}
use cricket_drs_system.IdentityAccess.Main as AccountsMain
use cricket_drs_system.MatchTournament.Client.{Get, consent_url, is_eligible_for_drs}
use cricket_drs_system.MatchTournament.Domain.{
  RosterEntry, new_roster_entry, can_manage_matches, new_team, new_match,
}
use cricket_drs_system.MatchTournament.Store as MatchesStore
use cricket_drs_system.MatchTournament.Service as Matches
use cricket_drs_system.MatchTournament.Http as MatchesHttp
use cricket_drs_system.MatchTournament.Security as MatchesSecurity
use cricket_drs_system.MatchTournament.Main as MatchesMain
use cricket_drs_system.Platform.{reply_of}
use cricket_drs_system.Platform.Url.{is_plain, but_eight}
use cricket_drs_system.Platform.Deployment.{
  Moment, Connected, serve_all, Consented, rosters-Consented,
}
use cricket_drs_system.Platform.Tests.{player_of, player_of_path, routed, inputs, consents}
use cricket_drs_system.Platform.Tests.Identity.{one_identity, bcrypt}

abbrev environment : Environment
environment name = if name == "JWT_SIGNING_KEY" then "k" else ""

abbrev accounts : AccountsMain.Program
accounts = record {
  port = "8080";
  signing_key = "k";
  state = record { orgs = []; users = []; consents = [] };
}

abbrev matches : MatchesMain.Program
matches = record {
  port = "8080";
  signing_key = "k";
  identity_access_url = "http://localhost:8080";
  state = record { tournaments = []; teams = []; matches = []; rosters = [] };
}

-- The player of a URL of the host.
abbrev player_at : Option String → Option String
player_at none = none
player_at (some path) = player_of path

get : Get
get url header =
    routed
      (λ u.
        reply_of
          (Http.serve (ports_at one_identity "k" bcrypt 1000) inputs
            (Http.Request.behind_auth header (Http.Route.get_consent u)) consents).0)
      (player_at (after "http://localhost:8080" url))

abbrev moment : String → MatchesHttp.Route → Moment
moment fresh route = record {
  header = "Bearer t";
  route = route;
  fresh = fresh;
  now = pos 5;
  seconds = 1000;
  get = get;
  inputs = inputs;
  accounts = consents;
}

moment-Connected :
    (fresh : String) (route : MatchesHttp.Route)
    → Connected one_identity bcrypt accounts matches (moment fresh route)
unfolding get
moment-Connected fresh route u plain =
    rw
      (
        after-append "http://localhost:8080" (text_append "/v1/users/" (text_append u "/consent")),
        player_of_path u plain,
      )
      refl

abbrev home : MatchesHttp.Route
home = MatchesHttp.create_team "club" (some "Home")

abbrev away : MatchesHttp.Route
away = MatchesHttp.create_team "club" (some "Away")

abbrev final : MatchesHttp.Route
final = MatchesHttp.create_match "club" (
    some (record {
      tournament_id = none;
      home_team_id = "team_1";
      away_team_id = "team_2";
      venue = "Ground";
      scheduled_at = pos 9;
      playing_conditions = none;
    }))

abbrev addition : MatchesHttp.Route
addition =
    MatchesHttp.add_roster_entry "club" "match_3"
      (some (record { team_id = "team_1"; user_id = "p" }))

abbrev history : List Moment
history = moment "1" home ∷ moment "2" away ∷ moment "3" final ∷ moment "4" addition ∷ []

abbrev added : RosterEntry
added = record {
  organization_id = "club";
  match_id = "match_3";
  team_id = "team_1";
  user_id = "p";
  added_at = pos 5;
  added_by = "user_0";
}

on_roster :
    lookup
      ("club", ("match_3", "p"))
      (serve_all one_identity bcrypt accounts matches history matches.state).rosters
    ≡ some added
unfolding serve_all get is_eligible_for_drs consent_url player_of is_plain but_eight after
    MatchesHttp.serve MatchesHttp.handle MatchesHttp.bearer_token after_bearer
    Matches.add_player_to_roster Matches.create_team Matches.create_match Matches.new_id
    Matches.inherited Matches.resolved new_team new_match new_roster_entry can_manage_matches
    MatchesStore.create_team MatchesStore.create_match MatchesStore.get_match MatchesStore.get_team
    MatchesStore.add_entry MatchesSecurity.verify_token Tokens.verify lookup put
    Matches.authenticate Http.serve Accounts.authenticate Accounts.get_consent
    AccountsStore.get_consent Http.to_consent_response ports_at verify_token Tokens.key_for
on_roster = refl

rosters-Consented_example : Consented one_identity bcrypt accounts matches history added
unfolding AccountsMain.main MatchesMain.main
rosters-Consented_example =
    rosters-Consented one_identity bcrypt environment environment true true accounts matches history
      ("club", ("match_3", "p")) added refl refl refl
      (
        moment-Connected "1" home,
        (
          moment-Connected "2" away,
          (moment-Connected "3" final, (moment-Connected "4" addition, tt)),
        ),
      )
      (unfold is_plain in refl) on_roster
