-- ===== src/MatchTournament/Conditions.antt =====
-- Where the playing conditions of a new match come from, and when they pass the checks.
use cricket_drs_system.Prelude.{
  String, ◌≡◌, ◌≢◌, ◌⊎◌, inl, inr, ◌↔◌, Option, some, none, arith, string_eq, pair_eq, Option-cases,
}
use cricket_drs_system.Prelude.Int.{Time}
use cricket_drs_system.Exec.{ok, Result-cases}
use cricket_drs_system.Table.{lookup}
use cricket_drs_system.Table.Select.{All-lookup}
use cricket_drs_system.MatchTournament.Domain.{
  OrganizationId, TournamentId, TeamId, PlayingConditions, Match, zero_conditions, new_match,
  valid_camera_tier,
}
use cricket_drs_system.MatchTournament.Store
use cricket_drs_system.MatchTournament.Service.{
  State, Caller, PlayingConditionsInput, create_match, inherited, resolved,
}
use cricket_drs_system.MatchTournament.Invariant.{ConditionsValid, TournamentEntry, Coherent}
use cricket_drs_system.MatchTournament.Invariant.Entries.{new_playing_conditions_ok}

-- What a tournament of a valid state lends passes the checks; without one the tier is empty.
inherited_valid :
    (org : OrganizationId) (tour : Option TournamentId) (s : State) (base : PlayingConditions)
    → Coherent s
    → inherited org tour s.tournaments ≡ ok base
    → ((tour ≡ none) × (base ≡ zero_conditions)) ⊎ ((tour ≢ none) × ConditionsValid base)
unfolding inherited Store.get_tournament
inherited_valid org none s base h lent = inl (ground arith)
inherited_valid org (some id) s base h lent = inr (
  ground arith,
  elim (Option-cases (lookup (org, id) s.tournaments)) [
    | inl missing ↦ absurd (ground arith)
    | inr (t, found) ↦
        let entry = All-lookup TournamentEntry (org, id) t s.tournaments h.tournaments found in
        ground arith
  ],
)

resolved_valid :
    (i : Option PlayingConditionsInput) (base c : PlayingConditions)
    → resolved i base ≡ ok c
    → ((i ≡ none) × (c ≡ base)) ⊎ ((i ≢ none) × ConditionsValid c)
unfolding resolved
resolved_valid none base c settled = inl (ground arith)
resolved_valid (some i) base c settled =
    inr (ground arith, new_playing_conditions_ok _ _ _ c settled)

zero_invalid : ¬ ConditionsValid zero_conditions
unfolding valid_camera_tier
zero_invalid h = ground (arith, h.tier)

-- A match that was created has the conditions that were settled for it.
create_match_settled :
    (caller : Caller) (org : OrganizationId) (tour : Option TournamentId) (home away : TeamId)
    (venue : String) (at : Time) (i : Option PlayingConditionsInput) (fresh : String) (s : State)
    (m : Match)
    → (create_match caller org tour home away venue at i fresh s).0 ≡ ok m
    → (base : PlayingConditions) × (inherited org tour s.tournaments ≡ ok base)
      × (resolved i base ≡ ok m.playing_conditions)
unfolding create_match new_match
create_match_settled caller org tour home away venue at i fresh s m created =
    elim (Result-cases (inherited org tour s.tournaments)) [
      | inr (e, missing) ↦ absurd (ground arith)
      | inl (base, lent) ↦ elim (Result-cases (resolved i base)) [
        | inr (e, refused) ↦ absurd (ground arith)
        | inl (c, settled) ↦ (base, lent, ground arith)
      ]
    ]

-- A match that was created in a valid state has playing conditions that pass the checks exactly
-- when the request gave conditions or named a tournament.
pub create_match-ConditionsValid :
    (caller : Caller) (org : OrganizationId) (tour : Option TournamentId) (home away : TeamId)
    (venue : String) (at : Time) (i : Option PlayingConditionsInput) (fresh : String) (s : State)
    (m : Match)
    → Coherent s
    → (create_match caller org tour home away venue at i fresh s).0 ≡ ok m
    → ConditionsValid m.playing_conditions ↔ ((i ≢ none) ⊎ (tour ≢ none))
create_match-ConditionsValid caller org tour home away venue at i fresh s m h created =
    let (base, lent, settled) =
      create_match_settled caller org tour home away venue at i fresh s m created in
    elim (resolved_valid i base m.playing_conditions settled) [
      | inr (given, valid) ↦ (λ _. inl given, λ _. valid)
      | inl (absent, same) ↦ elim (inherited_valid org tour s base h lent) [
        | inr (given, valid) ↦ (λ _. inr given, λ _. ground arith)
        | inl (no_tour, zero) ↦
            (λ v. absurd (ground (arith, zero_invalid)), λ g. absurd (ground arith))
      ]
    ]
