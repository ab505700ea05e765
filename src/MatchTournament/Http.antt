-- ===== src/MatchTournament/Http.antt =====
-- services/match-tournament/internal/httpapi: authentication, the handlers, and the mapping of
-- errors to statuses. A body is `none` where its JSON does not decode.
mod Dto
unfoldable pub use Dto.*
use Prim.Native.Nat.{ℕ}
use cricket_drs_system.Prelude.{
  String, Option, none, some, List, map, ◌==◌, string_eq, if◌then◌else◌,
}
use mathlib.Core.Option
use cricket_drs_system.Prelude.Int.{ℤ, Time}
use cricket_drs_system.Bearer.{after_bearer}
use cricket_drs_system.Exec.{Result, ok, err}
use cricket_drs_system.Platformauth.Tokens.{Claims}
use cricket_drs_system.MatchTournament.Domain.{
  OrganizationId, UserId, TournamentId, TeamId, MatchId, PlayingConditions, Tournament, Team, Match,
  RosterEntry, Error, tournament_not_found, team_not_found, match_not_found, name_empty,
  venue_empty, user_id_empty, invalid_role, permission_denied, cross_tenant_access,
  roster_entry_exists, roster_entry_not_found, consent_required, invalid_decision_type,
  invalid_camera_tier, invalid_review_quota, invalid_team_pairing, invalid_token, dependency,
}
use cricket_drs_system.MatchTournament.Service
use cricket_drs_system.MatchTournament.Service.{
  State, Caller, PlayingConditionsInput, ConsentChecker,
}

pub data Body : Type 0 where
  error : String → Body
  no_content : Body
  tournament : TournamentResponse → Body
  tournaments : List TournamentResponse → Body
  team : Team → Body
  teams : List Team → Body
  match : MatchResponse → Body
  matches : List MatchResponse → Body
  roster_entry : RosterEntryResponse → Body
  roster : List RosterEntryResponse → Body

pub record Response : Type 0 where
  pub status : ℕ
  pub body : Body

-- `err.Error()`
abbrev pub message : Error → String
message tournament_not_found = "tournament not found"
message team_not_found = "team not found"
message match_not_found = "match not found"
message name_empty = "name must not be empty"
message venue_empty = "venue must not be empty"
message user_id_empty = "user id must not be empty"
message invalid_role = "invalid role"
message permission_denied = "permission denied"
message cross_tenant_access = "cross-tenant access denied"
message roster_entry_exists = "player already on roster"
message roster_entry_not_found = "roster entry not found"
message consent_required = "player has not granted required DRS consent"
message invalid_decision_type = "invalid decision type"
message invalid_camera_tier = "invalid camera tier"
message invalid_review_quota = "review quota per innings must not be negative"
message invalid_team_pairing = "home and away teams must both be set and different"
message invalid_token = "invalid or expired token"
message (dependency what) = what

abbrev pub status_of : Error → ℕ
status_of tournament_not_found = 404
status_of team_not_found = 404
status_of match_not_found = 404
status_of roster_entry_not_found = 404
status_of roster_entry_exists = 409
status_of name_empty = 400
status_of venue_empty = 400
status_of user_id_empty = 400
status_of invalid_role = 400
status_of invalid_decision_type = 400
status_of invalid_camera_tier = 400
status_of invalid_review_quota = 400
status_of invalid_team_pairing = 400
status_of invalid_token = 401
status_of permission_denied = 403
status_of cross_tenant_access = 403
status_of consent_required = 403
status_of (dependency what) = 500

abbrev pub write_error : ℕ → String → Response
write_error status what = record { status = status; body = error what }

-- `writeServiceError`
unfoldable pub write_service_error : Error → Response
write_service_error (dependency what) = write_error 500 "internal error"
write_service_error e = write_error (status_of e) (message e)

abbrev pub respond : {A : Type 0} → ℕ → (A → Body) → Result Error A × State → Response × State
respond status body (ok a, s) = (record { status = status; body = body a }, s)
respond status body (err e, s) = (write_service_error e, s)

abbrev pub bad_body : State → Response × State
bad_body s = (write_error 400 "invalid request body", s)

-- What stands around one request: the random text of an identifier, the clock, the token verifier
-- and what identity-access answers about a player's consent at that moment.
pub record Environment : Type 0 where
  pub fresh : String
  pub now : Time
  pub verify : String → Option Claims
  pub check : ConsentChecker

-- The routes, all behind `requireAuth`, with the tenant of the path.
pub data Route : Type 0 where
  create_tournament : OrganizationId → Option CreateTournamentRequest → Route
  get_tournament : OrganizationId → TournamentId → Route
  list_tournaments : OrganizationId → Route
  create_team : OrganizationId → Option String → Route
  get_team : OrganizationId → TeamId → Route
  list_teams : OrganizationId → Route
  create_match : OrganizationId → Option CreateMatchRequest → Route
  get_match : OrganizationId → MatchId → Route
  list_matches : OrganizationId → Route
  add_roster_entry : OrganizationId → MatchId → Option AddRosterEntryRequest → Route
  remove_roster_entry : OrganizationId → MatchId → UserId → Route
  list_roster : OrganizationId → MatchId → Route

-- `bearerToken`
unfoldable pub bearer_token : String → String
bearer_token header = elim (after_bearer header) [ none ↦ "" | some t ↦ t ]

module _ (env : Environment) where
  -- `handleListMatches`
  abbrev pub handle_list_matches : Caller → OrganizationId → State → Response × State
  handle_list_matches caller org s =
      respond 200 (λ ms. matches (map to_match_response ms)) (Service.list_matches caller org s)

  -- `handleAddRosterEntry`, with the caller's raw token for the consent check
  abbrev pub handle_add_roster_entry :
      Caller
      → String
      → OrganizationId
      → MatchId
      → Option AddRosterEntryRequest
      → State
      → Response × State
  handle_add_roster_entry caller token org match_id none s = bad_body s
  handle_add_roster_entry caller token org match_id (some req) s =
      respond 201 (λ e. roster_entry (to_roster_entry_response e))
        (Service.add_player_to_roster env.check caller token org match_id req.team_id req.user_id
          env.now s)

  -- `handleRemoveRosterEntry`
  abbrev pub handle_remove_roster_entry :
      Caller → OrganizationId → MatchId → UserId → State → Response × State
  handle_remove_roster_entry caller org match_id user_id s =
      respond 204 (λ _. no_content)
        (Service.remove_player_from_roster caller org match_id user_id s)

  -- `handleListRoster`
  abbrev pub handle_list_roster : Caller → OrganizationId → MatchId → State → Response × State
  handle_list_roster caller org match_id s =
      respond 200 (λ es. roster (map to_roster_entry_response es))
        (Service.list_roster caller org match_id s)

  -- The handlers, of an authenticated caller and the caller's raw token.
  unfoldable pub handle : Caller → String → Route → State → Response × State
  handle caller token (create_tournament org none) s = bad_body s
  handle caller token (create_tournament org (some req)) s =
      respond 201 (λ t. tournament (to_tournament_response t))
        (Service.create_tournament caller org req.name (to_input req.default_conditions) env.fresh
          s)
  handle caller token (get_tournament org id) s =
      respond 200 (λ t. tournament (to_tournament_response t))
        (Service.get_tournament caller org id s)
  handle caller token (list_tournaments org) s =
      respond 200 (λ ts. tournaments (map to_tournament_response ts))
        (Service.list_tournaments caller org s)
  handle caller token (create_team org none) s = bad_body s
  handle caller token (create_team org (some name)) s =
      respond 201 team (Service.create_team caller org name env.fresh s)
  handle caller token (get_team org id) s = respond 200 team (Service.get_team caller org id s)
  handle caller token (list_teams org) s = respond 200 teams (Service.list_teams caller org s)
  handle caller token (create_match org none) s = bad_body s
  handle caller token (create_match org (some req)) s =
      respond 201 (λ m. match (to_match_response m))
        (Service.create_match caller org req.tournament_id req.home_team_id req.away_team_id
          req.venue req.scheduled_at (Option.map to_input req.playing_conditions) env.fresh s)
  handle caller token (get_match org id) s =
      respond 200 (λ m. match (to_match_response m)) (Service.get_match caller org id s)
  handle caller token (list_matches org) s = handle_list_matches caller org s
  handle caller token (add_roster_entry org match_id req) s =
      handle_add_roster_entry caller token org match_id req s
  handle caller token (remove_roster_entry org match_id user_id) s =
      handle_remove_roster_entry caller org match_id user_id s
  handle caller token (list_roster org match_id) s = handle_list_roster caller org match_id s

  authorized : Result Error Caller → String → Route → State → Response × State
  authorized (ok caller) token route s = handle caller token route s
  authorized (err e) token route s = (write_error 401 "invalid or expired token", s)

  -- `requireAuth` around the handlers, of the `Authorization` header
  unfoldable pub serve : String → Route → State → Response × State
  unfolding handle authorized bearer_token
  serve header route s =
      let token = bearer_token header in
      if token == ""
      then (write_error 401 "missing bearer token", s)
      else authorized (Service.authenticate (env.verify token)) token route s
