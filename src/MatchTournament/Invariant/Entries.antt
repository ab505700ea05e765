-- ===== src/MatchTournament/Invariant/Entries.antt =====
-- What the constructors guarantee, and what each write to a store leaves valid.
use cricket_drs_system.Prelude.{
  String, ◌≡◌, ◌≢◌, Option, none, All, All-imp, string_eq, pair_eq, arith, eq_iff, List,
}
use cricket_drs_system.Prelude.Int.{ℤ, Time}
use cricket_drs_system.Exec.{ok}
use cricket_drs_system.Table.{lookup, put}
use cricket_drs_system.Table.Select.{All-put, All-delete, put_keeps}
use cricket_drs_system.MatchTournament.Domain.{
  OrganizationId, UserId, TournamentId, TeamId, MatchId, DecisionType, CameraTier,
  PlayingConditions, Tournament, Team, Match, RosterEntry, new_playing_conditions, new_tournament,
  new_team, new_match, new_roster_entry,
}
use cricket_drs_system.MatchTournament.Store
use cricket_drs_system.MatchTournament.Store.{TeamStore, MatchStore, RosterStore, roster_key}
use cricket_drs_system.MatchTournament.Service.{State}
use cricket_drs_system.MatchTournament.Invariant.{
  ConditionsValid, TournamentEntry, TeamEntry, MatchEntry, RosterValid, Coherent,
}

-- What the constructors guarantee of what they return.
pub new_playing_conditions_ok :
    (quota : ℤ) (types : List DecisionType) (tier : CameraTier) (c : PlayingConditions)
    → new_playing_conditions quota types tier ≡ ok c
    → ConditionsValid c
unfolding new_playing_conditions
new_playing_conditions_ok quota types tier c made = ground arith

pub new_tournament_ok :
    (id : TournamentId) (org : OrganizationId) (name : String) (c : PlayingConditions)
    (t : Tournament)
    → new_tournament id org name c ≡ ok t
    → ConditionsValid c
    → TournamentEntry ((t.organization_id, t.id), t)
unfolding new_tournament
new_tournament_ok id org name c t made valid = ground (arith, eq_iff name "")

pub new_team_ok :
    (id : TeamId) (org : OrganizationId) (name : String) (t : Team)
    → new_team id org name ≡ ok t
    → TeamEntry ((t.organization_id, t.id), t)
unfolding new_team
new_team_ok id org name t made = ground (arith, eq_iff name "")

pub new_match_ok :
    (teams : TeamStore) (id : MatchId) (org : OrganizationId) (tour : Option TournamentId)
    (home away : TeamId) (venue : String) (at : Time) (c : PlayingConditions) (m : Match)
    → new_match id org tour home away venue at c ≡ ok m
    → lookup (org, home) teams ≢ none
    → lookup (org, away) teams ≢ none
    → MatchEntry teams ((m.organization_id, m.id), m)
unfolding new_match
new_match_ok teams id org tour home away venue at c m made h a =
    ground (arith, eq_iff venue "", eq_iff home away)

pub new_roster_entry_ok :
    (teams : TeamStore) (matches : MatchStore) (org : OrganizationId) (match_id : MatchId)
    (team_id : TeamId) (user_id by : UserId) (now : Time) (e : RosterEntry)
    → new_roster_entry org match_id team_id user_id by now ≡ ok e
    → lookup (org, team_id) teams ≢ none
    → lookup (org, match_id) matches ≢ none
    → RosterValid teams matches (roster_key e, e)
unfolding new_roster_entry
new_roster_entry_ok teams matches org match_id team_id user_id by now e made t m =
    ground (arith, eq_iff user_id "")

-- What is found is there.
pub get_team_found :
    (org : OrganizationId) (id : TeamId) (s : TeamStore) (t : Team)
    → Store.get_team org id s ≡ ok t
    → lookup (org, id) s ≢ none
unfolding Store.get_team
get_team_found org id s t found = ground arith

pub get_match_found :
    (org : OrganizationId) (id : MatchId) (s : MatchStore) (m : Match)
    → Store.get_match org id s ≡ ok m
    → lookup (org, id) s ≢ none
unfolding Store.get_match
get_match_found org id s m found = ground arith

-- More teams, or more matches, leave what refers to them valid.
pub create_team-MatchEntry :
    (t : Team) (s : State) → Coherent s → All (MatchEntry (Store.create_team t s.teams).1) s.matches
unfolding Store.create_team
create_team-MatchEntry t s h =
    All-imp (MatchEntry s.teams) (MatchEntry (put (t.organization_id, t.id) t s.teams)) s.matches
      (λ e m. record {
        keyed = m.keyed;
        at_venue = m.at_venue;
        different = m.different;
        home = put_keeps _ _ t s.teams m.home;
        away = put_keeps _ _ t s.teams m.away;
      })
      h.matches

pub create_team-RosterValid :
    (t : Team) (s : State)
    → Coherent s
    → All (RosterValid (Store.create_team t s.teams).1 s.matches) s.rosters
unfolding Store.create_team
create_team-RosterValid t s h =
    All-imp (RosterValid s.teams s.matches)
      (RosterValid (put (t.organization_id, t.id) t s.teams) s.matches) s.rosters
      (λ e r. record {
        keyed = r.keyed;
        player = r.player;
        team = put_keeps _ _ t s.teams r.team;
        of_match = r.of_match;
      })
      h.rosters

pub create_match-RosterValid :
    (m : Match) (s : State)
    → Coherent s
    → All (RosterValid s.teams (Store.create_match m s.matches).1) s.rosters
unfolding Store.create_match
create_match-RosterValid m s h =
    All-imp (RosterValid s.teams s.matches)
      (RosterValid s.teams (put (m.organization_id, m.id) m s.matches)) s.rosters
      (λ e r. record {
        keyed = r.keyed;
        player = r.player;
        team = r.team;
        of_match = put_keeps _ _ m s.matches r.of_match;
      })
      h.rosters

pub create_team-TeamEntry :
    (t : Team) (s : State)
    → Coherent s
    → TeamEntry ((t.organization_id, t.id), t)
    → All TeamEntry (Store.create_team t s.teams).1
unfolding Store.create_team
create_team-TeamEntry t s h entry =
    All-put TeamEntry (t.organization_id, t.id) t s.teams h.teams entry

pub create_match-MatchEntry :
    (m : Match) (s : State)
    → Coherent s
    → MatchEntry s.teams ((m.organization_id, m.id), m)
    → All (MatchEntry s.teams) (Store.create_match m s.matches).1
unfolding Store.create_match
create_match-MatchEntry m s h entry =
    All-put (MatchEntry s.teams) (m.organization_id, m.id) m s.matches h.matches entry

pub add_entry-RosterValid :
    (e : RosterEntry) (s : State)
    → Coherent s
    → RosterValid s.teams s.matches (roster_key e, e)
    → All (RosterValid s.teams s.matches) (Store.add_entry e s.rosters).1
unfolding Store.add_entry
add_entry-RosterValid e s h entry =
    ground
      (arith, All-put (RosterValid s.teams s.matches) (roster_key e) e s.rosters h.rosters entry)

pub remove_entry-RosterValid :
    (org : OrganizationId) (match_id : MatchId) (user_id : UserId) (s : State)
    → Coherent s
    → All (RosterValid s.teams s.matches) (Store.remove_entry org match_id user_id s.rosters).1
unfolding Store.remove_entry
remove_entry-RosterValid org match_id user_id s h = ground (
  arith,
  All-delete (RosterValid s.teams s.matches) (org, (match_id, user_id)) s.rosters h.rosters,
)
