-- ===== src/MatchTournament/Invariant.antt =====
-- What the stores hold at every moment: entries under their own keys that pass the checks, matches
-- between two different teams of their tenant, rosters of matches and teams that exist.
pub mod Entries
pub mod Operations
pub mod Serve
use cricket_drs_system.Prelude.{
  ◌≡◌, ◌≢◌, true, some, none, All, ◌==◌, string_eq, pair_eq, arith, [], ◌∷◌, List, Bool,
}
use cricket_drs_system.Prelude.Int.{pos, ◌≤ℤ◌}
use cricket_drs_system.Table.{lookup, put, lookup-put}
use cricket_drs_system.MatchTournament.Domain.{
  OrganizationId, UserId, TournamentId, TeamId, MatchId, PlayingConditions, Tournament, Team, Match,
  RosterEntry, valid_camera_tier, all_valid,
}
use cricket_drs_system.MatchTournament.Store.{
  TournamentStore, TeamStore, MatchStore, RosterKey, roster_key,
}
use cricket_drs_system.MatchTournament.Service.{State}

pub record ConditionsValid (c : PlayingConditions) : Type 0 where
  pub quota : pos 0 ≤ℤ c.review_quota_per_innings
  pub tier : valid_camera_tier c.camera_tier ≡ true
  pub types : all_valid c.decision_types_enabled ≡ true

pub record TournamentEntry (e : (OrganizationId × TournamentId) × Tournament) : Type 0 where
  pub keyed : e.0 ≡ (e.1.organization_id, e.1.id)
  pub named : e.1.name ≢ ""
  pub conditions : ConditionsValid e.1.default_conditions

pub record TeamEntry (e : (OrganizationId × TeamId) × Team) : Type 0 where
  pub keyed : e.0 ≡ (e.1.organization_id, e.1.id)
  pub named : e.1.name ≢ ""

-- A match of two different teams of its tenant, at a venue.
pub record MatchEntry (teams : TeamStore) (e : (OrganizationId × MatchId) × Match) : Type 0 where
  pub keyed : e.0 ≡ (e.1.organization_id, e.1.id)
  pub at_venue : e.1.venue ≢ ""
  pub different : e.1.home_team_id ≢ e.1.away_team_id
  pub home : lookup (e.1.organization_id, e.1.home_team_id) teams ≢ none
  pub away : lookup (e.1.organization_id, e.1.away_team_id) teams ≢ none

-- A player on a roster, of a match and a team of the same tenant.
pub record RosterValid (teams : TeamStore) (matches : MatchStore) (e : RosterKey × RosterEntry)
    : Type 0 where
  pub keyed : e.0 ≡ roster_key e.1
  pub player : e.1.user_id ≢ ""
  pub team : lookup (e.1.organization_id, e.1.team_id) teams ≢ none
  pub of_match : lookup (e.1.organization_id, e.1.match_id) matches ≢ none

pub record Coherent (s : State) : Type 0 where
  pub tournaments : All TournamentEntry s.tournaments
  pub teams : All TeamEntry s.teams
  pub matches : All (MatchEntry s.teams) s.matches
  pub rosters : All (RosterValid s.teams s.matches) s.rosters
