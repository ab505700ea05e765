-- ===== src/MatchTournament.antt =====
-- services/match-tournament: tournaments, teams, matches and rosters behind the consent gate.
pub mod Domain
pub mod Store
pub mod Service
pub mod Conditions
pub mod Http
pub mod Main
pub mod Security
pub mod Client
pub mod Roster
pub mod Invariant
pub mod Tests
