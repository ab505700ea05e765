-- ===== src/MatchTournament/Service.antt =====
-- services/match-tournament/internal/service: the use-cases. `check` is the consent checker port:
-- what asking identity-access about a player gives, with the caller's own token.
use Prim.Native.String.{◌++◌ as text_append}
use cricket_drs_system.Prelude.{String, Bool, not, Option, none, some, List, ◌==◌, string_eq}
use cricket_drs_system.Prelude.Int.{ℤ, Time}
use cricket_drs_system.Exec.{Result, ok, err, Exec, pure, lift, ◌>>=◌, ◌>>◌, raise_if, zoom, reads}
use cricket_drs_system.Platformauth.{Role}
use cricket_drs_system.Platformauth.Tokens.{Claims}
use cricket_drs_system.MatchTournament.Domain.{
  OrganizationId, UserId, TournamentId, TeamId, MatchId, DecisionType, CameraTier,
  PlayingConditions, zero_conditions, Tournament, Team, Match, RosterEntry, Error,
  cross_tenant_access, permission_denied, consent_required, invalid_token, can_manage_matches,
  new_playing_conditions, new_tournament, new_team, new_match, new_roster_entry,
}
use cricket_drs_system.MatchTournament.Store
use cricket_drs_system.MatchTournament.Store.{TournamentStore, TeamStore, MatchStore, RosterStore}

-- What the four repositories hold.
pub record State : Type 0 where
  pub tournaments : TournamentStore
  pub teams : TeamStore
  pub matches : MatchStore
  pub rosters : RosterStore

abbrev pub Action : Type 0 → Type 0
Action A = Exec Error State A

pub record Caller : Type 0 where
  pub organization_id : OrganizationId
  pub user_id : UserId
  pub role : Role

pub record PlayingConditionsInput : Type 0 where
  pub review_quota_per_innings : ℤ
  pub decision_types_enabled : List DecisionType
  pub camera_tier : CameraTier

-- `ConsentChecker.IsEligibleForDRS`, of a token and a player
abbrev pub ConsentChecker : Type 0
ConsentChecker = String → UserId → Result Error Bool

-- `newID`
unfoldable pub new_id : String → String → String
new_id prefix fresh = text_append prefix (text_append "_" fresh)

-- `Authenticate`, over what the verifier says of the token
unfoldable pub authenticate : Option Claims → Result Error Caller
authenticate none = err invalid_token
authenticate (some c) =
    ok (record { organization_id = c.organization_id; user_id = c.user_id; role = c.role })

-- The test that begins every use-case, and the one that follows it where something is written.
abbrev own_tenant : Caller → OrganizationId → Action (Unit {0})
own_tenant caller org_id = raise_if (not (caller.organization_id == org_id)) cross_tenant_access

abbrev may_manage : Caller → Action (Unit {0})
may_manage caller = raise_if (not (can_manage_matches caller.role)) permission_denied

-- `NewPlayingConditions` of an input
abbrev pub conditions_of : PlayingConditionsInput → Result Error PlayingConditions
conditions_of i =
    new_playing_conditions i.review_quota_per_innings i.decision_types_enabled i.camera_tier

-- `CreateTournament`
unfoldable pub create_tournament :
    Caller → OrganizationId → String → PlayingConditionsInput → String → Action Tournament
create_tournament caller org_id name defaults fresh = do
  own_tenant caller org_id
  may_manage caller
  conditions ← lift (conditions_of defaults)
  t ← lift (new_tournament (new_id "tournament" fresh) org_id name conditions)
  zoom (λ s. s.tournaments) (λ x s. record s { tournaments = x }) (Store.create_tournament t)
  pure t

-- `GetTournament`
unfoldable pub get_tournament : Caller → OrganizationId → TournamentId → Action Tournament
get_tournament caller org_id id = do
  own_tenant caller org_id
  reads (λ s. Store.get_tournament org_id id s.tournaments)

-- `ListTournaments`
unfoldable pub list_tournaments : Caller → OrganizationId → Action (List Tournament)
list_tournaments caller org_id = do
  own_tenant caller org_id
  reads (λ s. ok (Store.list_by_organization org_id s.tournaments))

-- `CreateTeam`
unfoldable pub create_team : Caller → OrganizationId → String → String → Action Team
create_team caller org_id name fresh = do
  own_tenant caller org_id
  may_manage caller
  t ← lift (new_team (new_id "team" fresh) org_id name)
  zoom (λ s. s.teams) (λ x s. record s { teams = x }) (Store.create_team t)
  pure t

-- `GetTeam`
unfoldable pub get_team : Caller → OrganizationId → TeamId → Action Team
get_team caller org_id id = do
  own_tenant caller org_id
  reads (λ s. Store.get_team org_id id s.teams)

-- `ListTeams`
unfoldable pub list_teams : Caller → OrganizationId → Action (List Team)
list_teams caller org_id = do
  own_tenant caller org_id
  reads (λ s. ok (Store.list_by_organization org_id s.teams))

-- The conditions that a tournament lends to its match, and Go's zero value without one.
unfoldable pub inherited :
    OrganizationId → Option TournamentId → TournamentStore → Result Error PlayingConditions
inherited org_id none s = ok zero_conditions
inherited org_id (some id) s = elim (Store.get_tournament org_id id s) [
  | ok t ↦ ok t.default_conditions
  | err e ↦ err e
]

-- Conditions that the request gives win over the inherited ones.
unfoldable pub resolved :
    Option PlayingConditionsInput → PlayingConditions → Result Error PlayingConditions
resolved none base = ok base
resolved (some i) base = conditions_of i

-- `CreateMatch`
unfoldable pub create_match :
    Caller
    → OrganizationId
    → Option TournamentId
    → TeamId
    → TeamId
    → String
    → Time
    → Option PlayingConditionsInput
    → String
    → Action Match
create_match caller org_id tournament_id home away venue scheduled_at input fresh = do
  own_tenant caller org_id
  may_manage caller
  reads (λ s. Store.get_team org_id home s.teams)
  reads (λ s. Store.get_team org_id away s.teams)
  base ← reads (λ s. inherited org_id tournament_id s.tournaments)
  conditions ← lift (resolved input base)
  m ← lift (
      new_match (new_id "match" fresh) org_id tournament_id home away venue scheduled_at conditions)
  zoom (λ s. s.matches) (λ x s. record s { matches = x }) (Store.create_match m)
  pure m

-- `GetMatch`
unfoldable pub get_match : Caller → OrganizationId → MatchId → Action Match
get_match caller org_id id = do
  own_tenant caller org_id
  reads (λ s. Store.get_match org_id id s.matches)

-- `ListMatches`
unfoldable pub list_matches : Caller → OrganizationId → Action (List Match)
list_matches caller org_id = do
  own_tenant caller org_id
  reads (λ s. ok (Store.list_by_organization org_id s.matches))

-- `AddPlayerToRoster`
unfoldable pub add_player_to_roster :
    ConsentChecker
    → Caller
    → String
    → OrganizationId
    → MatchId
    → TeamId
    → UserId
    → Time
    → Action RosterEntry
add_player_to_roster check caller token org_id match_id team_id user_id now = do
  own_tenant caller org_id
  may_manage caller
  reads (λ s. Store.get_match org_id match_id s.matches)
  reads (λ s. Store.get_team org_id team_id s.teams)
  eligible ← lift (check token user_id)
  raise_if (not eligible) consent_required
  entry ← lift (new_roster_entry org_id match_id team_id user_id caller.user_id now)
  zoom (λ s. s.rosters) (λ x s. record s { rosters = x }) (Store.add_entry entry)
  pure entry

-- `RemovePlayerFromRoster`
unfoldable pub remove_player_from_roster :
    Caller → OrganizationId → MatchId → UserId → Action (Unit {0})
remove_player_from_roster caller org_id match_id user_id = do
  own_tenant caller org_id
  may_manage caller
  zoom (λ s. s.rosters) (λ x s. record s { rosters = x })
      (Store.remove_entry org_id match_id user_id)

-- `ListRoster`
unfoldable pub list_roster : Caller → OrganizationId → MatchId → Action (List RosterEntry)
list_roster caller org_id match_id = do
  own_tenant caller org_id
  reads (λ s. ok (Store.list_by_match org_id match_id s.rosters))
