-- ===== src/EdgeAgent/Config.antt =====
-- edge-agent/internal/config: reading the configuration from the environment.
pub mod Overflow
use cricket_drs_system.Prelude.{
  ℕ, zero, suc, ◌*◌, ◌%◌, ◌^◌, String, Option, some, none, List, [], ◌∷◌, ◌==◌, string_eq, not,
  ◌&&◌, if◌then◌else◌,
}
use cricket_drs_system.Prelude.Int.{ℤ, pos, negsuc}
use cricket_drs_system.Exec.{Result, ok, err}
use cricket_drs_system.EdgeAgent.Bytes.{of_word64}

pub record Config : Type 0 where
  pub gateway_url : String
  pub bearer_token : String
  pub org_id : String
  pub match_id : String
  pub camera_id : String
  pub camera_device_label : String
  -- `time.Duration`, in nanoseconds
  pub buffer_window : ℤ
  pub port : String
  pub upload_transport : String

pub data ConfigError : Type 0 where
  must_be_set : String → ConfigError
  invalid_buffer_seconds : String → ConfigError
  invalid_upload_transport : String → ConfigError

abbrev pub default_buffer_seconds : ℕ
default_buffer_seconds = 20

abbrev pub default_port : String
default_port = "9090"

abbrev pub default_upload_transport : String
default_upload_transport = "http"

-- The five names that must be set.
abbrev pub required : List String
required = "GATEWAY_URL" ∷ "BEARER_TOKEN" ∷ "ORG_ID" ∷ "MATCH_ID" ∷ "CAMERA_ID" ∷ []

-- `time.Duration(n) * time.Second`, an `int64` product that wraps
unfoldable pub seconds : ℕ → ℤ
seconds n = of_word64 (n * 1000000000 % 2 ^ 64)

-- `os.Getenv`, empty for a variable that is not set, and `strconv.Atoi`
module _ (getenv : String → String) (atoi : String → Option ℤ) where
  -- The first of the names, in the order in which Go ranges over the map, that is not set.
  unfoldable pub first_missing : List String → Option String
  first_missing [] = none
  first_missing (name ∷ names) =
      let rest = first_missing names in if getenv name == "" then some name else rest

  -- `BUFFER_SECONDS`
  unfoldable pub buffer_seconds : Result ConfigError ℕ
  buffer_seconds =
      let raw = getenv "BUFFER_SECONDS" in
      if raw == "" then ok default_buffer_seconds else elim (atoi raw) [
        | none ↦ err (invalid_buffer_seconds raw)
        | some (pos zero) ↦ err (invalid_buffer_seconds raw)
        | some (pos (suc n)) ↦ ok (suc n)
        | some (negsuc n) ↦ err (invalid_buffer_seconds raw)
      ]

  -- `UPLOAD_TRANSPORT`
  unfoldable pub upload_transport : Result ConfigError String
  upload_transport =
      let raw = getenv "UPLOAD_TRANSPORT" in
      if raw == ""
      then ok default_upload_transport
      else if not (raw == "http") && not (raw == "webrtc")
      then err (invalid_upload_transport raw)
      else ok raw

  -- `Load`, with the map's order
  unfoldable pub load : List String → Result ConfigError Config
  load order = elim (first_missing order) [
    | some name ↦ err (must_be_set name)
    | none ↦ elim buffer_seconds [
      | err e ↦ err e
      | ok n ↦ elim upload_transport [
        | err e ↦ err e
        | ok transport ↦ ok (record {
          gateway_url = getenv "GATEWAY_URL";
          bearer_token = getenv "BEARER_TOKEN";
          org_id = getenv "ORG_ID";
          match_id = getenv "MATCH_ID";
          camera_id = getenv "CAMERA_ID";
          camera_device_label = getenv "CAMERA_DEVICE_LABEL";
          buffer_window = seconds n;
          port = if getenv "PORT" == "" then default_port else getenv "PORT";
          upload_transport = transport;
        })
      ]
    ]
  ]
