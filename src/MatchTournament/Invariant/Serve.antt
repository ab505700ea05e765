-- ===== src/MatchTournament/Invariant/Serve.antt =====
-- The invariant over requests and over whole histories of them.
use cricket_drs_system.Prelude.{String, some, none, arith, string_eq}
use mathlib.Core.Option
use cricket_drs_system.MatchTournament.Service
use cricket_drs_system.MatchTournament.Service.{State, Caller}
use cricket_drs_system.MatchTournament.Http.{
  Environment, Route, create_tournament, get_tournament, list_tournaments, create_team, get_team,
  list_teams, create_match, get_match, list_matches, add_roster_entry, remove_roster_entry,
  list_roster, to_input, handle, serve,
}
use cricket_drs_system.MatchTournament.Invariant.{Coherent}
use cricket_drs_system.MatchTournament.Invariant.Operations.{
  create_tournament-Coherent, create_team-Coherent, create_match-Coherent,
  add_player_to_roster-Coherent, remove_player_from_roster-Coherent,
}

handle-Coherent :
    (env : Environment) (caller : Caller) (token : String) (route : Route) (s : State)
    → Coherent s
    → Coherent (handle env caller token route s).1
unfolding handle Service.get_tournament Service.list_tournaments Service.get_team Service.list_teams
    Service.get_match Service.list_matches Service.list_roster
handle-Coherent env caller token (create_tournament org none) s h = h
handle-Coherent env caller token (create_tournament org (some req)) s h = ground (
  arith,
  create_tournament-Coherent caller org req.name (to_input req.default_conditions) env.fresh s h,
)
handle-Coherent env caller token (create_team org none) s h = h
handle-Coherent env caller token (create_team org (some name)) s h =
    ground (arith, create_team-Coherent caller org name env.fresh s h)
handle-Coherent env caller token (create_match org none) s h = h
handle-Coherent env caller token (create_match org (some req)) s h = ground (
  arith,
  create_match-Coherent caller org req.tournament_id req.home_team_id req.away_team_id req.venue
      req.scheduled_at (Option.map to_input req.playing_conditions) env.fresh s h,
)
handle-Coherent env caller token (add_roster_entry org match_id none) s h = h
handle-Coherent env caller token (add_roster_entry org match_id (some req)) s h = ground (
  arith,
  add_player_to_roster-Coherent env.check caller token org match_id req.team_id req.user_id env.now
      s h,
)
handle-Coherent env caller token (remove_roster_entry org match_id user_id) s h =
    ground (arith, remove_player_from_roster-Coherent caller org match_id user_id s h)
handle-Coherent env caller token (get_tournament org id) s h = ground arith
handle-Coherent env caller token (list_tournaments org) s h = ground arith
handle-Coherent env caller token (get_team org id) s h = ground arith
handle-Coherent env caller token (list_teams org) s h = ground arith
handle-Coherent env caller token (get_match org id) s h = ground arith
handle-Coherent env caller token (list_matches org) s h = ground arith
handle-Coherent env caller token (list_roster org match_id) s h = ground arith

-- Every request, with any header and any body, keeps the stores coherent.
pub serve-Coherent :
    (env : Environment) (header : String) (route : Route) (s : State)
    → Coherent s
    → Coherent (serve env header route s).1
unfolding serve
serve-Coherent env header route s h = grind (arith, handle-Coherent)
