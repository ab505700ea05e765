-- ===== src/MatchTournament/Domain.antt =====
-- services/match-tournament/internal/domain: the types and their constructors' checks.
use cricket_drs_system.Prelude.{
  String, Bool, true, false, not, ◌||◌, Option, List, [], ◌∷◌, ◌==◌, string_eq, if◌then◌else◌,
}
use cricket_drs_system.Prelude.Int.{ℤ, pos, Time, ltb_ℤ}
use cricket_drs_system.Exec.{Result, ok, err}
use cricket_drs_system.Platformauth.{Role, organizer_admin}

abbrev pub OrganizationId : Type 0
OrganizationId = String

abbrev pub UserId : Type 0
UserId = String

abbrev pub TournamentId : Type 0
TournamentId = String

abbrev pub TeamId : Type 0
TeamId = String

abbrev pub MatchId : Type 0
MatchId = String

-- The sentinel errors; `dependency` is an error that the consent checker returned.
pub data Error : Type 0 where
  tournament_not_found team_not_found match_not_found name_empty venue_empty user_id_empty : Error
  invalid_role permission_denied cross_tenant_access roster_entry_exists : Error
  roster_entry_not_found consent_required invalid_decision_type invalid_camera_tier : Error
  invalid_review_quota invalid_team_pairing invalid_token : Error
  dependency : String → Error

-- `CanManageMatches`
unfoldable pub can_manage_matches : Role → Bool
can_manage_matches role = role == organizer_admin

abbrev pub DecisionType : Type 0
DecisionType = String

abbrev pub CameraTier : Type 0
CameraTier = String

-- `DecisionType.Valid`
unfoldable pub valid_decision_type : DecisionType → Bool
valid_decision_type d = d == "lbw" || d == "edge" || d == "run_out" || d == "stumping"

-- `CameraTier.Valid`
unfoldable pub valid_camera_tier : CameraTier → Bool
valid_camera_tier c = c == "accessible" || c == "broadcast"

pub record PlayingConditions : Type 0 where
  pub review_quota_per_innings : ℤ
  pub decision_types_enabled : List DecisionType
  pub camera_tier : CameraTier

-- Go's zero value of the struct
abbrev pub zero_conditions : PlayingConditions
zero_conditions = record {
  review_quota_per_innings = pos 0;
  decision_types_enabled = [];
  camera_tier = "";
}

-- The loop of `NewPlayingConditions` over the decision types.
unfoldable pub all_valid : List DecisionType → Bool
unfolding valid_decision_type
all_valid [] = true
all_valid (d ∷ ds) = let rest = all_valid ds in if valid_decision_type d then rest else false

-- `NewPlayingConditions`
unfoldable pub new_playing_conditions :
    ℤ → List DecisionType → CameraTier → Result Error PlayingConditions
new_playing_conditions quota types tier =
    if ltb_ℤ quota (pos 0)
    then err invalid_review_quota
    else if not (valid_camera_tier tier)
    then err invalid_camera_tier
    else if not (all_valid types)
    then err invalid_decision_type
    else ok (record {
      review_quota_per_innings = quota;
      decision_types_enabled = types;
      camera_tier = tier;
    })

pub record Tournament : Type 0 where
  pub id : TournamentId
  pub organization_id : OrganizationId
  pub name : String
  pub default_conditions : PlayingConditions

-- `NewTournament`
unfoldable pub new_tournament :
    TournamentId → OrganizationId → String → PlayingConditions → Result Error Tournament
new_tournament id org_id name defaults =
    if name == ""
    then err name_empty
    else ok
        (record { id = id; organization_id = org_id; name = name; default_conditions = defaults })

pub record Team : Type 0 where
  pub id : TeamId
  pub organization_id : OrganizationId
  pub name : String

-- `NewTeam`
unfoldable pub new_team : TeamId → OrganizationId → String → Result Error Team
new_team id org_id name =
    if name == ""
    then err name_empty
    else ok (record { id = id; organization_id = org_id; name = name })

pub record Match : Type 0 where
  pub id : MatchId
  pub organization_id : OrganizationId
  pub tournament_id : Option TournamentId
  pub home_team_id : TeamId
  pub away_team_id : TeamId
  pub venue : String
  pub scheduled_at : Time
  pub playing_conditions : PlayingConditions

-- `NewMatch`
unfoldable pub new_match :
    MatchId
    → OrganizationId
    → Option TournamentId
    → TeamId
    → TeamId
    → String
    → Time
    → PlayingConditions
    → Result Error Match
new_match id org_id tournament_id home away venue scheduled_at conditions =
    if venue == ""
    then err venue_empty
    else if home == "" || away == "" || home == away
    then err invalid_team_pairing
    else ok (record {
      id = id;
      organization_id = org_id;
      tournament_id = tournament_id;
      home_team_id = home;
      away_team_id = away;
      venue = venue;
      scheduled_at = scheduled_at;
      playing_conditions = conditions;
    })

pub record RosterEntry : Type 0 where
  pub organization_id : OrganizationId
  pub match_id : MatchId
  pub team_id : TeamId
  pub user_id : UserId
  pub added_at : Time
  pub added_by : UserId

-- `NewRosterEntry`
unfoldable pub new_roster_entry :
    OrganizationId → MatchId → TeamId → UserId → UserId → Time → Result Error RosterEntry
new_roster_entry org_id match_id team_id user_id added_by now =
    if user_id == ""
    then err user_id_empty
    else ok (record {
      organization_id = org_id;
      match_id = match_id;
      team_id = team_id;
      user_id = user_id;
      added_at = now;
      added_by = added_by;
    })
