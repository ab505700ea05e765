-- ===== src/IdentityAccess/Main.antt =====
-- services/identity-access/cmd/main.go. Setting up the observability library may fail; flushing it
-- at the end does not happen in practice, as the source says.
use cricket_drs_system.Prelude.{String, Bool, [], ◌==◌, string_eq, if◌then◌else◌}
use cricket_drs_system.Startup.{Environment, Outcome, exits, serves, getenv_or}
use cricket_drs_system.Platformauth.{insecure_dev_signing_key}
use cricket_drs_system.IdentityAccess.Service.{State}

-- `jwtSigningKey`
unfoldable pub jwt_signing_key : Environment → String
jwt_signing_key env =
    if env "JWT_SIGNING_KEY" == "" then insecure_dev_signing_key else env "JWT_SIGNING_KEY"

-- What is served: the port, the key of the issuer, and the stores.
pub record Program : Type 0 where
  pub port : String
  pub signing_key : String
  pub state : State

-- `main`; `observed` is whether `observability.New` succeeds
unfoldable pub main : Environment → Bool → Outcome Program
unfolding getenv_or jwt_signing_key
main env observed =
    if observed
    then serves (record {
      port = getenv_or env "PORT" "8080";
      signing_key = jwt_signing_key env;
      state = record { orgs = []; users = []; consents = [] };
    })
    else exits 1
