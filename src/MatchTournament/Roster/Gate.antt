-- ===== src/MatchTournament/Roster/Gate.antt =====
-- The consent gate over requests and whole histories of them.
use cricket_drs_system.Prelude.{
  String, ◌≡◌, ◌⊎◌, inl, inr, true, some, none, List, [], ◌∷◌, ◌==◌, string_eq, pair_eq, arith,
  Bool-cases, Option-cases,
}
use cricket_drs_system.Exec.{ok}
use cricket_drs_system.Table.{lookup}
use cricket_drs_system.Platformauth.{organizer_admin}
use cricket_drs_system.Platformauth.Tokens.{Claims}
use cricket_drs_system.MatchTournament.Domain.{RosterEntry}
use cricket_drs_system.MatchTournament.Store.{RosterKey}
use cricket_drs_system.MatchTournament.Service
use cricket_drs_system.MatchTournament.Service.{State, Caller, authenticate}
use cricket_drs_system.MatchTournament.Http.{
  Environment, Route, create_tournament, get_tournament, list_tournaments, create_team, get_team,
  list_teams, create_match, get_match, list_matches, add_roster_entry, remove_roster_entry,
  list_roster, bearer_token, handle, serve,
}
use cricket_drs_system.MatchTournament.Roster.{
  Added, add_player_to_roster-lookup, remove_entry-lookup,
}

-- How an entry that one request has left on a roster came there: it was there, or the request was
-- an addition of just that player, by an organizer admin of the tenant whose token the service
-- verified, and identity-access had answered that token that the player is eligible.
pub record Admitted (env : Environment) (header : String) (route : Route) (e : RosterEntry)
    : Type 0 where
  pub claims : Claims
  pub verified : env.verify (bearer_token header) ≡ some claims
  pub own_tenant : claims.organization_id ≡ e.organization_id
  pub manager : claims.role ≡ organizer_admin
  pub consenting : env.check (bearer_token header) e.user_id ≡ ok true
  pub by_caller : e.added_by ≡ claims.user_id
  pub asked :
      route
      ≡ Route.add_roster_entry e.organization_id e.match_id
          (some (record { team_id = e.team_id; user_id = e.user_id }))

-- The same behind authentication.
record Handled (env : Environment) (caller : Caller) (token : String) (route : Route)
    (e : RosterEntry) : Type 0 where
  added : Added env.check caller token env.now e
  asked :
      route
      ≡ add_roster_entry e.organization_id e.match_id
          (some (record { team_id = e.team_id; user_id = e.user_id }))

handle-lookup :
    (env : Environment) (caller : Caller) (token : String) (route : Route) (s : State)
    (k : RosterKey) (e : RosterEntry)
    → lookup k (handle env caller token route s).1.rosters ≡ some e
    → (lookup k s.rosters ≡ some e) ⊎ Handled env caller token route e
unfolding handle Service.create_tournament Service.get_tournament Service.list_tournaments
    Service.create_team Service.get_team Service.list_teams Service.create_match Service.get_match
    Service.list_matches Service.remove_player_from_roster Service.list_roster
handle-lookup env caller token (add_roster_entry org match_id none) s k e found = inl found
handle-lookup env caller token (add_roster_entry org match_id (some req)) s k e found =
    elim (add_player_to_roster-lookup env.check caller token org match_id req.team_id req.user_id
      env.now s k e (ground arith)) [
        | inl old ↦ inl old
        | inr (added, o, m, t, u) ↦ inr (record { added = added; asked = ground arith })
      ]
handle-lookup env caller token (remove_roster_entry org match_id user_id) s k e found =
    inl (ground (arith, remove_entry-lookup org match_id user_id k e s.rosters))
handle-lookup env caller token (create_tournament org none) s k e found = inl found
handle-lookup env caller token (create_tournament org (some req)) s k e found = inl (ground arith)
handle-lookup env caller token (create_team org none) s k e found = inl found
handle-lookup env caller token (create_team org (some name)) s k e found = inl (ground arith)
handle-lookup env caller token (create_match org none) s k e found = inl found
handle-lookup env caller token (create_match org (some req)) s k e found = inl (ground arith)
handle-lookup env caller token (get_tournament org id) s k e found = inl (ground arith)
handle-lookup env caller token (list_tournaments org) s k e found = inl (ground arith)
handle-lookup env caller token (get_team org id) s k e found = inl (ground arith)
handle-lookup env caller token (list_teams org) s k e found = inl (ground arith)
handle-lookup env caller token (get_match org id) s k e found = inl (ground arith)
handle-lookup env caller token (list_matches org) s k e found = inl (ground arith)
handle-lookup env caller token (list_roster org match_id) s k e found = inl (ground arith)

-- An entry that stands on a roster after a request stood there before, or the request admitted it.
pub serve-Admitted :
    (env : Environment) (header : String) (route : Route) (s : State) (k : RosterKey)
    (e : RosterEntry)
    → lookup k (serve env header route s).1.rosters ≡ some e
    → (lookup k s.rosters ≡ some e) ⊎ Admitted env header route e
unfolding serve authenticate
serve-Admitted env header route s k e found = elim (Bool-cases (bearer_token header == "")) [
  | inl missing ↦ inl (ground arith)
  | inr present ↦ elim (Option-cases (env.verify (bearer_token header))) [
    | inl invalid ↦ inl (ground arith)
    | inr (c, verified) ↦
        let caller : Caller = record {
          organization_id = c.organization_id;
          user_id = c.user_id;
          role = c.role;
        } in
        elim (handle-lookup env caller (bearer_token header) route s k e (ground arith)) [
          | inl old ↦ inl old
          | inr h ↦ inr (record {
            claims = c;
            verified = verified;
            own_tenant = h.added.own_tenant;
            manager = h.added.manager;
            consenting = h.added.consenting;
            by_caller = h.added.by_caller;
            asked = h.asked;
          })
        ]
  ]
]

-- A request, with what stands around it.
abbrev pub Event : Type 0
Event = Environment × (String × Route)

-- The service over a history, oldest request first.
unfoldable pub run : List Event → State → State
run [] s = s
run ((env, (header, route)) ∷ events) s = run events (serve env header route s).1

-- One request of a history admitted the entry.
abbrev pub AdmittedIn : List Event → RosterEntry → Type 0
AdmittedIn [] e = ⊥
AdmittedIn ((env, (header, route)) ∷ events) e = Admitted env header route e ⊎ AdmittedIn events e

-- Whatever is asked of the service, an entry on a roster at the end stood there at the beginning, or
-- some request of the history admitted it through the consent gate.
pub run-AdmittedIn :
    (events : List Event) (s : State) (k : RosterKey) (e : RosterEntry)
    → lookup k (run events s).rosters ≡ some e
    → (lookup k s.rosters ≡ some e) ⊎ AdmittedIn events e
unfolding run
run-AdmittedIn [] s k e found = inl found
run-AdmittedIn ((env, (header, route)) ∷ events) s k e found =
    elim (run-AdmittedIn events (serve env header route s).1 k e found) [
      | inr later ↦ inr (inr later)
      | inl now ↦ elim (serve-Admitted env header route s k e now) [
        | inl old ↦ inl old
        | inr admitted ↦ inr (inl admitted)
      ]
    ]
