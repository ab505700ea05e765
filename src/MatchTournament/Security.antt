-- ===== src/MatchTournament/Security.antt =====
-- services/match-tournament/internal/security/jwt.go: the verifier of platformauth as this service's port.
use cricket_drs_system.Prelude.{ℕ, String, Option, none, some}
use cricket_drs_system.Platformauth.Tokens
use cricket_drs_system.Platformauth.Tokens.{Claims, Jwt}

-- `JWTVerifier.Verify`, at a time, of a verifier with this key
unfoldable pub verify_token : Jwt String → String → ℕ → String → Option Claims
verify_token jwt signing_key now token = elim (Tokens.verify jwt signing_key now token) [
  | none ↦ none
  | some c ↦
      some (record { user_id = c.user_id; organization_id = c.organization_id; role = c.role })
]
