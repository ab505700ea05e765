-- ===== src/MatchTournament/Main.antt =====
-- services/match-tournament/cmd/main.go. Setting up the observability library may fail.
use cricket_drs_system.Prelude.{String, Bool, [], ◌==◌, string_eq, if◌then◌else◌}
use cricket_drs_system.Startup.{Environment, Outcome, exits, serves, getenv_or}
use cricket_drs_system.Platformauth.{insecure_dev_signing_key}
use cricket_drs_system.MatchTournament.Service.{State}

-- `jwtSigningKey`
unfoldable pub jwt_signing_key : Environment → String
jwt_signing_key env =
    if env "JWT_SIGNING_KEY" == "" then insecure_dev_signing_key else env "JWT_SIGNING_KEY"

-- What is served: the port, the key of the verifier, the base URL of the consent checker, and the
-- stores.
pub record Program : Type 0 where
  pub port : String
  pub signing_key : String
  pub identity_access_url : String
  pub state : State

-- `main`; `observed` is whether `observability.New` succeeds
unfoldable pub main : Environment → Bool → Outcome Program
unfolding getenv_or jwt_signing_key
main env observed =
    if observed
    then serves (record {
      port = getenv_or env "PORT" "8080";
      signing_key = jwt_signing_key env;
      identity_access_url = getenv_or env "IDENTITY_ACCESS_URL" "http://localhost:8080";
      state = record { tournaments = []; teams = []; matches = []; rosters = [] };
    })
    else exits 1
