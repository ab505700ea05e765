-- ===== src/MatchTournament/Roster.antt =====
-- How an entry gets onto a roster: the guards of an addition, and what each write leaves.
pub mod Change
pub mod Gate
use cricket_drs_system.Prelude.{
  String, ◌≡◌, ◌≢◌, refl, ◌⊎◌, inl, inr, Bool, true, false, Option, some, none, List, [], ◌∷◌, ◌==◌,
  string_eq, pair_eq, arith, eq_iff, eq_refl, Bool-cases, if◌then◌else◌,
}
use cricket_drs_system.Prelude.Int.{Time}
use cricket_drs_system.Exec.{Result, ok, err, Result-cases}
use cricket_drs_system.Table.{lookup, lookup-put, lookup-delete}
use cricket_drs_system.Platformauth.{organizer_admin}
use cricket_drs_system.Platformauth.Tokens.{Claims}
use cricket_drs_system.MatchTournament.Domain.{
  OrganizationId, UserId, TeamId, MatchId, RosterEntry, Error, can_manage_matches, new_roster_entry,
}
use cricket_drs_system.MatchTournament.Store
use cricket_drs_system.MatchTournament.Store.{RosterKey, roster_key}
use cricket_drs_system.MatchTournament.Service
use cricket_drs_system.MatchTournament.Service.{
  State, Caller, ConsentChecker, add_player_to_roster, remove_player_from_roster,
}
use cricket_drs_system.MatchTournament.Http
use cricket_drs_system.MatchTournament.Http.{
  Environment, Route, AddRosterEntryRequest, bearer_token, handle, serve,
}

-- What stands behind an entry that a caller has added.
pub record Added (check : ConsentChecker) (caller : Caller) (token : String) (now : Time)
    (e : RosterEntry) : Type 0 where
  pub own_tenant : caller.organization_id ≡ e.organization_id
  pub manager : caller.role ≡ organizer_admin
  pub consenting : check token e.user_id ≡ ok true
  pub by_caller : e.added_by ≡ caller.user_id
  pub at_time : e.added_at ≡ now

add_entry-lookup :
    (e e' : RosterEntry) (k : RosterKey) (s : Store.RosterStore)
    → lookup k (Store.add_entry e s).1 ≡ some e'
    → (lookup k s ≡ some e') ⊎ (e ≡ e')
unfolding Store.add_entry
add_entry-lookup e e' k s found = ground (arith, lookup-put (roster_key e) k e s)

-- The guards of an addition, all passed.
record Admits (check : ConsentChecker) (caller : Caller) (token : String) (org : OrganizationId)
    (user_id : UserId) : Type 0 where
  own_tenant : caller.organization_id ≡ org
  manager : caller.role ≡ organizer_admin
  consenting : check token user_id ≡ ok true

-- An addition changes nothing, or every guard passed and the new entry went to the store.
add_player_outcome :
    (check : ConsentChecker) (caller : Caller) (token : String) (org : OrganizationId)
    (match_id : MatchId) (team_id : TeamId) (user_id : UserId) (now : Time) (s : State)
    → let (r, s') = add_player_to_roster check caller token org match_id team_id user_id now s in
      (s' ≡ s)
      ⊎ ((e : RosterEntry) × (new_roster_entry org match_id team_id user_id caller.user_id now
            ≡ ok e)
          × Admits check caller token org user_id
          × (s' ≡ record s { rosters = (Store.add_entry e s.rosters).1 }))
unfolding add_player_to_roster can_manage_matches
add_player_outcome check caller token org match_id team_id user_id now s =
    elim (Bool-cases (caller.organization_id == org)) [
      | inr other ↦ inl (ground arith)
      | inl own ↦ elim (Bool-cases (caller.role == organizer_admin)) [
        | inr no_manager ↦ inl (ground arith)
        | inl manager ↦ elim (Result-cases (Store.get_match org match_id s.matches)) [
          | inr (x, missing) ↦ inl (ground arith)
          | inl (m, match_found) ↦ elim (Result-cases (Store.get_team org team_id s.teams)) [
            | inr (x, missing) ↦ inl (ground arith)
            | inl (t, team_found) ↦ elim (Result-cases (check token user_id)) [
              | inr (x, failed) ↦ inl (ground arith)
              | inl (false, refused) ↦ inl (ground arith)
              | inl (true, consenting) ↦
                  elim (Result-cases
                    (new_roster_entry org match_id team_id user_id caller.user_id now)) [
                      | inr (x, refused) ↦ inl (ground arith)
                      | inl (e, made) ↦ inr (
                        e,
                        made,
                        record {
                          own_tenant = (eq_iff caller.organization_id org).0 own;
                          manager = (eq_iff caller.role organizer_admin).0 manager;
                          consenting = consenting;
                        },
                        ground arith,
                      )
                    ]
            ]
          ]
        ]
      ]
    ]

added_entry :
    (check : ConsentChecker) (caller : Caller) (token : String) (org : OrganizationId)
    (match_id : MatchId) (team_id : TeamId) (user_id : UserId) (now : Time) (e' e : RosterEntry)
    → Admits check caller token org user_id
    → new_roster_entry org match_id team_id user_id caller.user_id now ≡ ok e'
    → e' ≡ e
    → Added check caller token now e
      × (e.organization_id ≡ org)
      × (e.match_id ≡ match_id)
      × (e.team_id ≡ team_id)
      × (e.user_id ≡ user_id)
unfolding new_roster_entry
added_entry check caller token org match_id team_id user_id now e' e admits made same = ground arith

-- An addition leaves every entry that was there, and adds at most the one that it was asked for.
pub add_player_to_roster-lookup :
    (check : ConsentChecker) (caller : Caller) (token : String) (org : OrganizationId)
    (match_id : MatchId) (team_id : TeamId) (user_id : UserId) (now : Time) (s : State)
    (k : RosterKey) (e : RosterEntry)
    → lookup k
        (add_player_to_roster check caller token org match_id team_id user_id now s).1.rosters
      ≡ some e
    → (lookup k s.rosters ≡ some e)
      ⊎ (Added check caller token now e
          × (e.organization_id ≡ org)
          × (e.match_id ≡ match_id)
          × (e.team_id ≡ team_id)
          × (e.user_id ≡ user_id))
add_player_to_roster-lookup check caller token org match_id team_id user_id now s k e found =
    elim (add_player_outcome check caller token org match_id team_id user_id now s) [
      | inl same ↦ inl (rw same at found)
      | inr (e', made, admits, after) ↦
          elim (add_entry-lookup e' e k s.rosters (rw after at found)) [
            | inl old ↦ inl old
            | inr new ↦ inr (
                added_entry check caller token org match_id team_id user_id now e' e admits made
                  new)
          ]
    ]

pub remove_entry-lookup :
    (org : OrganizationId) (match_id : MatchId) (user_id : UserId) (k : RosterKey) (e : RosterEntry)
    (s : Store.RosterStore)
    → lookup k (Store.remove_entry org match_id user_id s).1 ≡ some e
    → lookup k s ≡ some e
unfolding Store.remove_entry
remove_entry-lookup org match_id user_id k e s found =
    ground (arith, lookup-delete (org, (match_id, user_id)) k s)
