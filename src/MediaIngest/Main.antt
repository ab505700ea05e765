-- ===== src/MediaIngest/Main.antt =====
-- services/media-ingest-gateway/cmd/main.go. Setting up the observability library may fail, and so
-- may loading the configuration of the AWS library.
use cricket_drs_system.Prelude.{
  String, Bool, Option, none, some, [], ◌==◌, string_eq, if◌then◌else◌,
}
use cricket_drs_system.Startup.{Environment, Outcome, exits, serves, getenv_or}
use cricket_drs_system.Platformauth.{insecure_dev_signing_key}
use cricket_drs_system.MediaIngest.Store.{ClipStore}

-- `jwtSigningKey`
unfoldable pub jwt_signing_key : Environment → String
jwt_signing_key env =
    if env "JWT_SIGNING_KEY" == "" then insecure_dev_signing_key else env "JWT_SIGNING_KEY"

-- The two object stores: in memory, or in a bucket, of that name
pub data Backing : Type 0 where
  in_memory : Backing
  in_bucket : String → Backing

-- `buildObjectStore`, with whether `config.LoadDefaultConfig` succeeds; `none` where it exits
unfoldable pub build_object_store : Environment → Bool → Option Backing
build_object_store env configured =
    if env "S3_BUCKET" == ""
    then some in_memory
    else if configured
    then some (in_bucket (env "S3_BUCKET"))
    else none

-- What is served: the port, the key of the verifier, the base URL of the camera registry, the
-- records of clips, and where the bytes go.
pub record Program (Score : Type 0) : Type 0 where
  pub port : String
  pub signing_key : String
  pub camera_calibration_url : String
  pub clips : ClipStore Score
  pub backing : Backing

-- `main`; `observed` is whether `observability.New` succeeds
unfoldable pub main : {Score : Type 0} → Environment → Bool → Bool → Outcome (Program Score)
unfolding getenv_or jwt_signing_key build_object_store
main env observed configured =
    if observed
    then elim (build_object_store env configured) [
      | none ↦ exits 1
      | some backing ↦ serves (record {
        port = getenv_or env "PORT" "8080";
        signing_key = jwt_signing_key env;
        camera_calibration_url = getenv_or env "CAMERA_CALIBRATION_URL" "http://localhost:8080";
        clips = [];
        backing = backing;
      })
    ]
    else exits 1
