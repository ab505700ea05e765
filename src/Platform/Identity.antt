-- ===== src/Platform/Identity.antt =====
-- One login, every service: the tokens of identity-access at the verifiers of match-tournament,
-- media-ingest-gateway and camera-calibration, that are started with the same key.
use cricket_drs_system.Prelude.{
  ℕ, ◌+◌, ◌<◌, String, ◌≡◌, true, some, arith, Option-cases, Bool-cases, inl, inr,
}
use cricket_drs_system.Exec.{ok}
use cricket_drs_system.Platformauth.Tokens
use cricket_drs_system.Platformauth.Tokens.{Claims, Jwt, verify-issue}
use cricket_drs_system.IdentityAccess.Domain.{OrganizationId, User}
use cricket_drs_system.IdentityAccess.Store
use cricket_drs_system.IdentityAccess.Service as Accounts
use cricket_drs_system.IdentityAccess.Security.{
  Bcrypt, token_ttl, ports_at, issue_token, verify_token,
}
use cricket_drs_system.MatchTournament.Service as Matches
use cricket_drs_system.MatchTournament.Security as MatchesSecurity
use cricket_drs_system.MediaIngest.Service as Clips
use cricket_drs_system.MediaIngest.Security as ClipsSecurity
use cricket_drs_system.CameraCalibration.Service as Calibrations
use cricket_drs_system.CameraCalibration.Security as CalibrationsSecurity

module _ (jwt : Jwt String) (key : String) (bcrypt : Bcrypt) where
  -- Who logged in, and that every service takes the token for just that user.
  pub record LoggedIn (now later : ℕ) (org : OrganizationId) (email password t : String)
      (s : Accounts.State) : Type 0 where
    pub user : User
    pub found : Store.get_by_email org email s.users ≡ ok user
    pub checked : bcrypt.compare_hash_and_password user.password_hash password ≡ true
    pub at_accounts :
        Accounts.authenticate (ports_at jwt key bcrypt later) t
        ≡ ok
            (record { organization_id = user.organization_id; user_id = user.id; role = user.role })
    pub at_matches :
        Matches.authenticate (MatchesSecurity.verify_token jwt key later t)
        ≡ ok
            (record { organization_id = user.organization_id; user_id = user.id; role = user.role })
    pub at_clips :
        Clips.authenticate (ClipsSecurity.verify_token jwt key later t)
        ≡ ok
            (record { organization_id = user.organization_id; user_id = user.id; role = user.role })
    pub at_calibrations :
        Calibrations.authenticate (CalibrationsSecurity.verify_token jwt key later t)
        ≡ ok
            (record { organization_id = user.organization_id; user_id = user.id; role = user.role })

  -- A login that succeeds was with an email of the tenant and a password that compares with the hash
  -- on file, and its token makes the caller that user, with that tenant and role, at each of the
  -- four services for less than 900 seconds, whatever becomes of the user meanwhile.
  pub login-everywhere :
      (now later : ℕ) (org : OrganizationId) (email password t : String) (s : Accounts.State)
      → (Accounts.login (ports_at jwt key bcrypt now) org email password s).0 ≡ ok t
      → later < now + 900
      → LoggedIn now later org email password t s
  unfolding Accounts.login Accounts.authenticate ports_at issue_token verify_token
      Store.get_by_email Matches.authenticate MatchesSecurity.verify_token Clips.authenticate
      ClipsSecurity.verify_token Calibrations.authenticate CalibrationsSecurity.verify_token
  login-everywhere now later org email password t s done in_time =
      elim (Option-cases (Store.find_email org email s.users)) [
        | inl missing ↦ absurd (ground arith)
        | inr (u, found) ↦
            elim (Bool-cases (bcrypt.compare_hash_and_password u.password_hash password)) [
              | inr refused ↦ absurd (ground arith)
              | inl compared ↦
                  let issued : Tokens.issue jwt key u.id u.organization_id u.role token_ttl now
                      ≡ some t =
                    ground arith in
                  let proves =
                    verify-issue jwt key u.id u.organization_id u.role token_ttl now later t issued
                      in_time in
                  record {
                    user = u;
                    found = ground arith;
                    checked = compared;
                    at_accounts = ground (arith, proves);
                    at_matches = ground (arith, proves);
                    at_clips = ground (arith, proves);
                    at_calibrations = ground (arith, proves);
                  }
            ]
      ]
