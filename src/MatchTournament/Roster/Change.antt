-- ===== src/MatchTournament/Roster/Change.antt =====
-- An addition that passes its guards goes through, and a removal undoes it.
use cricket_drs_system.Prelude.{
  String, ◌≡◌, ◌≢◌, refl, true, some, none, string_eq, pair_eq, arith, eq_iff, eq_refl,
  Option-cases, inl, inr,
}
use cricket_drs_system.Prelude.Int.{Time}
use cricket_drs_system.Exec.{ok}
use cricket_drs_system.Table.{lookup, put, lookup-put, lookup-delete}
use cricket_drs_system.Platformauth.{organizer_admin}
use cricket_drs_system.MatchTournament.Domain.{
  OrganizationId, UserId, TeamId, MatchId, RosterEntry, can_manage_matches, new_roster_entry,
}
use cricket_drs_system.MatchTournament.Store
use cricket_drs_system.MatchTournament.Store.{TeamStore, MatchStore, RosterStore}
use cricket_drs_system.MatchTournament.Service.{
  State, Caller, ConsentChecker, add_player_to_roster, remove_player_from_roster,
}

module _ (caller : Caller) (org : OrganizationId) (match_id : MatchId) (user_id : UserId)
    (own : caller.organization_id ≡ org) (manager : caller.role ≡ organizer_admin) where
  -- The entry that an addition makes.
  abbrev pub entry_for : TeamId → Time → RosterEntry
  entry_for team_id now = record {
    organization_id = org;
    match_id = match_id;
    team_id = team_id;
    user_id = user_id;
    added_at = now;
    added_by = caller.user_id;
  }

  add_goes_through :
      (check : ConsentChecker) (token : String) (team_id : TeamId) (now : Time) (s : State)
      → lookup (org, match_id) s.matches ≢ none
      → lookup (org, team_id) s.teams ≢ none
      → check token user_id ≡ ok true
      → user_id ≢ ""
      → lookup (org, (match_id, user_id)) s.rosters ≡ none
      → add_player_to_roster check caller token org match_id team_id user_id now s ≡ (
        ok (entry_for team_id now),
        record s { rosters = put (org, (match_id, user_id)) (entry_for team_id now) s.rosters },
      )
  unfolding add_player_to_roster can_manage_matches new_roster_entry Store.get_match Store.get_team
      Store.add_entry
  add_goes_through check token team_id now s m t consent named free =
      elim (Option-cases (lookup (org, match_id) s.matches)) [
        | inl missing ↦ absurd (ground arith)
        | inr (m', match_found) ↦ elim (Option-cases (lookup (org, team_id) s.teams)) [
          | inl missing ↦ absurd (ground arith)
          | inr (t', team_found) ↦
              ground (arith, eq_iff user_id "", eq_refl org, eq_refl caller.role)
        ]
      ]

  remove_goes_through :
      (e : RosterEntry) (s : State)
      → lookup (org, (match_id, user_id)) s.rosters ≡ some e
      → let (r, s') = remove_player_from_roster caller org match_id user_id s in
        (r ≡ ok tt) × (lookup (org, (match_id, user_id)) s'.rosters ≡ none)
  unfolding remove_player_from_roster can_manage_matches Store.remove_entry
  remove_goes_through e s found = ground (
    arith,
    eq_refl org,
    eq_refl caller.role,
    eq_refl match_id,
    eq_refl user_id,
    lookup-delete (org, (match_id, user_id)) (org, (match_id, user_id)) s.rosters,
  )

  -- An organizer admin of the tenant who adds a player that has a name and has consented, and is not
  -- on the roster, to a match and a team that exist, gets the new entry; it then stands on the
  -- roster, and removing the player succeeds and takes it off again.
  pub remove_player_from_roster-add_player_to_roster :
      (check : ConsentChecker) (token : String) (team_id : TeamId) (now : Time) (s : State)
      → lookup (org, match_id) s.matches ≢ none
      → lookup (org, team_id) s.teams ≢ none
      → check token user_id ≡ ok true
      → user_id ≢ ""
      → lookup (org, (match_id, user_id)) s.rosters ≡ none
      → let (r, s') = add_player_to_roster check caller token org match_id team_id user_id now s in
        let (r', s'') = remove_player_from_roster caller org match_id user_id s' in
        (r ≡ ok (entry_for team_id now))
        × (lookup (org, (match_id, user_id)) s'.rosters ≡ some (entry_for team_id now))
        × (r' ≡ ok tt)
        × (lookup (org, (match_id, user_id)) s''.rosters ≡ none)
  remove_player_from_roster-add_player_to_roster check token team_id now s m t consent named free =
      let k : Store.RosterKey = (org, (match_id, user_id)) in
      let e = entry_for team_id now in
      let added = record s { rosters = put k e s.rosters } in
      let there : lookup k added.rosters ≡ some e =
        ground
          (arith, lookup-put k k e s.rosters, eq_refl org, eq_refl match_id, eq_refl user_id) in
      let removed = remove_goes_through e added there in
      rw (add_goes_through check token team_id now s m t consent named free)
        (refl, there, removed.0, removed.1)
