-- ===== src/MatchTournament/Store.antt =====
-- services/match-tournament/internal/memstore: four maps whose keys begin with the tenant.
use cricket_drs_system.Prelude.{
  none, some, List, [], ◌∷◌, ◌&&◌, ◌==◌, string_eq, pair_eq, if◌then◌else◌,
}
use cricket_drs_system.Exec.{Result, ok, err, Exec}
use cricket_drs_system.Table.{Table, lookup, contains, put, delete}
use cricket_drs_system.MatchTournament.Domain.{
  OrganizationId, UserId, TournamentId, TeamId, MatchId, Tournament, Team, Match, RosterEntry,
  Error, tournament_not_found, team_not_found, match_not_found, roster_entry_exists,
  roster_entry_not_found,
}

abbrev pub TournamentStore : Type 0
TournamentStore = Table (OrganizationId × TournamentId) Tournament

abbrev pub TeamStore : Type 0
TeamStore = Table (OrganizationId × TeamId) Team

abbrev pub MatchStore : Type 0
MatchStore = Table (OrganizationId × MatchId) Match

-- `rosterKey`
abbrev pub RosterKey : Type 0
RosterKey = OrganizationId × (MatchId × UserId)

abbrev pub RosterStore : Type 0
RosterStore = Table RosterKey RosterEntry

-- `ListByOrganization` of the three stores whose keys are a tenant and an identifier
unfoldable pub list_by_organization :
    {I V : Type 0} → OrganizationId → Table (OrganizationId × I) V → List V
list_by_organization org_id [] = []
list_by_organization org_id ((k, v) ∷ s) =
    let rest = list_by_organization org_id s in if k.0 == org_id then v ∷ rest else rest

-- `TournamentStore.Create`
unfoldable pub create_tournament : Tournament → Exec Error TournamentStore (Unit {0})
create_tournament t s = (ok tt, put (t.organization_id, t.id) t s)

-- `TournamentStore.Get`
unfoldable pub get_tournament :
    OrganizationId → TournamentId → TournamentStore → Result Error Tournament
get_tournament org_id id s = elim (lookup (org_id, id) s) [
  | none ↦ err tournament_not_found
  | some t ↦ ok t
]

-- `TeamStore.Create`
unfoldable pub create_team : Team → Exec Error TeamStore (Unit {0})
create_team t s = (ok tt, put (t.organization_id, t.id) t s)

-- `TeamStore.Get`
unfoldable pub get_team : OrganizationId → TeamId → TeamStore → Result Error Team
get_team org_id id s = elim (lookup (org_id, id) s) [ none ↦ err team_not_found | some t ↦ ok t ]

-- `MatchStore.Create`
unfoldable pub create_match : Match → Exec Error MatchStore (Unit {0})
create_match m s = (ok tt, put (m.organization_id, m.id) m s)

-- `MatchStore.Get`
unfoldable pub get_match : OrganizationId → MatchId → MatchStore → Result Error Match
get_match org_id id s = elim (lookup (org_id, id) s) [ none ↦ err match_not_found | some m ↦ ok m ]

abbrev pub roster_key : RosterEntry → RosterKey
roster_key e = (e.organization_id, (e.match_id, e.user_id))

-- `RosterStore.Add`
unfoldable pub add_entry : RosterEntry → Exec Error RosterStore (Unit {0})
add_entry e s =
    if contains (roster_key e) s
    then (err roster_entry_exists, s)
    else (ok tt, put (roster_key e) e s)

-- `RosterStore.Remove`
unfoldable pub remove_entry : OrganizationId → MatchId → UserId → Exec Error RosterStore (Unit {0})
remove_entry org_id match_id user_id s =
    if contains (org_id, (match_id, user_id)) s
    then (ok tt, delete (org_id, (match_id, user_id)) s)
    else (err roster_entry_not_found, s)

-- `RosterStore.ListByMatch`
unfoldable pub list_by_match : OrganizationId → MatchId → RosterStore → List RosterEntry
list_by_match org_id match_id [] = []
list_by_match org_id match_id ((k, e) ∷ s) =
    let rest = list_by_match org_id match_id s in
    if k.0 == org_id && k.1.0 == match_id then e ∷ rest else rest
