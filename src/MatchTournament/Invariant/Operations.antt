-- ===== src/MatchTournament/Invariant/Operations.antt =====
-- Every use-case of match-tournament keeps the invariant, whether it returns or fails.
use cricket_drs_system.Prelude.{String, inl, inr, Option, string_eq, pair_eq, arith}
use cricket_drs_system.Prelude.Int.{Time}
use cricket_drs_system.Exec.{Result-cases}
use cricket_drs_system.Table.Select.{All-put}
use cricket_drs_system.MatchTournament.Domain.{
  OrganizationId, UserId, TournamentId, TeamId, MatchId, new_tournament, new_team, new_match,
  new_roster_entry,
}
use cricket_drs_system.MatchTournament.Store
use cricket_drs_system.MatchTournament.Store.{TeamStore, MatchStore, RosterStore, roster_key}
use cricket_drs_system.MatchTournament.Service.{
  State, Caller, PlayingConditionsInput, ConsentChecker, new_id, conditions_of, create_tournament,
  create_team, create_match, add_player_to_roster, remove_player_from_roster, inherited, resolved,
}
use cricket_drs_system.MatchTournament.Invariant.{TournamentEntry, Coherent}
use cricket_drs_system.MatchTournament.Invariant.Entries.{
  new_playing_conditions_ok, new_tournament_ok, new_team_ok, new_match_ok, new_roster_entry_ok,
  get_team_found, get_match_found, create_team-MatchEntry, create_team-RosterValid,
  create_match-RosterValid, create_team-TeamEntry, create_match-MatchEntry, add_entry-RosterValid,
  remove_entry-RosterValid,
}

pub create_tournament-Coherent :
    (caller : Caller) (org : OrganizationId) (name : String) (i : PlayingConditionsInput)
    (fresh : String) (s : State)
    → Coherent s
    → Coherent (create_tournament caller org name i fresh s).1
unfolding create_tournament Store.create_tournament
create_tournament-Coherent caller org name i fresh s h = elim (Result-cases (conditions_of i)) [
  | inr (e, refused) ↦ ground arith
  | inl (c, checked) ↦ elim (Result-cases (new_tournament (new_id "tournament" fresh) org name c)) [
    | inr (e, refused) ↦ ground arith
    | inl (t, made) ↦
        let valid = new_playing_conditions_ok _ _ _ c checked in
        let entry = new_tournament_ok _ org name c t made valid in
        ground (
          arith,
          All-put TournamentEntry (t.organization_id, t.id) t s.tournaments h.tournaments entry,
        )
  ]
]

pub create_team-Coherent :
    (caller : Caller) (org : OrganizationId) (name fresh : String) (s : State)
    → Coherent s
    → Coherent (create_team caller org name fresh s).1
unfolding create_team
create_team-Coherent caller org name fresh s h =
    elim (Result-cases (new_team (new_id "team" fresh) org name)) [
      | inr (e, refused) ↦ ground arith
      | inl (t, made) ↦ ground (
        arith,
        create_team-MatchEntry t s h,
        create_team-RosterValid t s h,
        create_team-TeamEntry t s h (new_team_ok _ org name t made),
      )
    ]

pub create_match-Coherent :
    (caller : Caller) (org : OrganizationId) (tour : Option TournamentId) (home away : TeamId)
    (venue : String) (at : Time) (i : Option PlayingConditionsInput) (fresh : String) (s : State)
    → Coherent s
    → Coherent (create_match caller org tour home away venue at i fresh s).1
unfolding create_match
create_match-Coherent caller org tour home away venue at i fresh s h =
    elim (Result-cases (Store.get_team org home s.teams)) [
      | inr (e, missing) ↦ ground arith
      | inl (t, home_found) ↦ elim (Result-cases (Store.get_team org away s.teams)) [
        | inr (e, missing) ↦ ground arith
        | inl (t', away_found) ↦ elim (Result-cases (inherited org tour s.tournaments)) [
          | inr (e, missing) ↦ ground arith
          | inl (base, lent) ↦ elim (Result-cases (resolved i base)) [
            | inr (e, refused) ↦ ground arith
            | inl (c, settled) ↦
                elim (Result-cases
                  (new_match (new_id "match" fresh) org tour home away venue at c)) [
                    | inr (e, refused) ↦ ground arith
                    | inl (m, made) ↦ ground (
                      arith,
                      create_match-RosterValid m s h,
                      create_match-MatchEntry m s h (
                          new_match_ok s.teams _ org tour home away venue at c m made
                            (get_team_found org home s.teams t home_found)
                            (get_team_found org away s.teams t' away_found)),
                    )
                  ]
          ]
        ]
      ]
    ]

pub add_player_to_roster-Coherent :
    (check : ConsentChecker) (caller : Caller) (token : String) (org : OrganizationId)
    (match_id : MatchId) (team_id : TeamId) (user_id : UserId) (now : Time) (s : State)
    → Coherent s
    → Coherent (add_player_to_roster check caller token org match_id team_id user_id now s).1
unfolding add_player_to_roster
add_player_to_roster-Coherent check caller token org match_id team_id user_id now s h =
    elim (Result-cases (Store.get_match org match_id s.matches)) [
      | inr (e, missing) ↦ ground arith
      | inl (m, match_found) ↦ elim (Result-cases (Store.get_team org team_id s.teams)) [
        | inr (e, missing) ↦ ground arith
        | inl (t, team_found) ↦
            elim (Result-cases (new_roster_entry org match_id team_id user_id caller.user_id now)) [
              | inr (e, refused) ↦ ground arith
              | inl (e, made) ↦ ground (
                arith,
                add_entry-RosterValid e s h (
                    new_roster_entry_ok s.teams s.matches org match_id team_id user_id
                      caller.user_id now e made (get_team_found org team_id s.teams t team_found)
                      (get_match_found org match_id s.matches m match_found)),
              )
            ]
      ]
    ]

pub remove_player_from_roster-Coherent :
    (caller : Caller) (org : OrganizationId) (match_id : MatchId) (user_id : UserId) (s : State)
    → Coherent s
    → Coherent (remove_player_from_roster caller org match_id user_id s).1
unfolding remove_player_from_roster
remove_player_from_roster-Coherent caller org match_id user_id s h =
    ground (arith, remove_entry-RosterValid org match_id user_id s h)
