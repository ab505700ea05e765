-- ===== src/MatchTournament/Http/Dto.antt =====
-- services/match-tournament/internal/httpapi/dto.go: what requests and responses hold.
use cricket_drs_system.Prelude.{String, Option, List, map}
use cricket_drs_system.Prelude.Int.{ℤ, Time}
use cricket_drs_system.MatchTournament.Domain.{PlayingConditions, Tournament, Match, RosterEntry}
use cricket_drs_system.MatchTournament.Service.{PlayingConditionsInput}

-- `playingConditionsDTO`, in requests and in responses
pub record PlayingConditionsDto : Type 0 where
  pub review_quota_per_innings : ℤ
  pub decision_types_enabled : List String
  pub camera_tier : String

-- `toPlayingConditionsDTO`: the texts are copied one by one
unfoldable pub to_playing_conditions_dto : PlayingConditions → PlayingConditionsDto
to_playing_conditions_dto pc = record {
  review_quota_per_innings = pc.review_quota_per_innings;
  decision_types_enabled = map (λ d. d) pc.decision_types_enabled;
  camera_tier = pc.camera_tier;
}

-- `toDomain`, with the input that the handlers build from it
unfoldable pub to_input : PlayingConditionsDto → PlayingConditionsInput
to_input d = record {
  review_quota_per_innings = d.review_quota_per_innings;
  decision_types_enabled = map (λ t. t) d.decision_types_enabled;
  camera_tier = d.camera_tier;
}

pub record CreateTournamentRequest : Type 0 where
  pub name : String
  pub default_conditions : PlayingConditionsDto

pub record CreateMatchRequest : Type 0 where
  pub tournament_id : Option String
  pub home_team_id : String
  pub away_team_id : String
  pub venue : String
  pub scheduled_at : Time
  pub playing_conditions : Option PlayingConditionsDto

pub record AddRosterEntryRequest : Type 0 where
  pub team_id : String
  pub user_id : String

pub record TournamentResponse : Type 0 where
  pub id : String
  pub organization_id : String
  pub name : String
  pub default_conditions : PlayingConditionsDto

pub record MatchResponse : Type 0 where
  pub id : String
  pub organization_id : String
  pub tournament_id : Option String
  pub home_team_id : String
  pub away_team_id : String
  pub venue : String
  pub scheduled_at : Time
  pub playing_conditions : PlayingConditionsDto

pub record RosterEntryResponse : Type 0 where
  pub match_id : String
  pub team_id : String
  pub user_id : String
  pub added_at : Time
  pub added_by : String

-- `toTournamentResponse`
unfoldable pub to_tournament_response : Tournament → TournamentResponse
to_tournament_response t = record {
  id = t.id;
  organization_id = t.organization_id;
  name = t.name;
  default_conditions = to_playing_conditions_dto t.default_conditions;
}

-- `toMatchResponse`
unfoldable pub to_match_response : Match → MatchResponse
to_match_response m = record {
  id = m.id;
  organization_id = m.organization_id;
  tournament_id = m.tournament_id;
  home_team_id = m.home_team_id;
  away_team_id = m.away_team_id;
  venue = m.venue;
  scheduled_at = m.scheduled_at;
  playing_conditions = to_playing_conditions_dto m.playing_conditions;
}

-- `toRosterEntryResponse`
unfoldable pub to_roster_entry_response : RosterEntry → RosterEntryResponse
to_roster_entry_response e = record {
  match_id = e.match_id;
  team_id = e.team_id;
  user_id = e.user_id;
  added_at = e.added_at;
  added_by = e.added_by;
}
