-- ===== src/MediaIngest/Client.antt =====
-- services/media-ingest-gateway/internal/cameracalibration/client.go: the camera registry, over
-- HTTP. The HTTP library is a parameter: the status that a GET of a URL with an `Authorization`
-- header gives, absent where the request fails.
use Prim.Native.String.{◌++◌ as text_append}
use cricket_drs_system.Prelude.{
  ℕ, String, Bool, true, false, Option, none, some, nat_eq, if◌then◌else◌,
}
use cricket_drs_system.Bearer.{bearer_header}
use cricket_drs_system.Exec.{Result, ok, err}
use cricket_drs_system.MediaIngest.Domain.{OrganizationId, CameraId, Error, dependency}

abbrev pub GetStatus : Type 0
GetStatus = String → String → Option ℕ

unfoldable pub registration : Option ℕ → Result Error Bool
registration none = err (dependency "cameracalibration: registration check request failed")
registration (some status) =
    if nat_eq status 200
    then ok true
    else if nat_eq status 404
    then ok false
    else err (dependency "cameracalibration: unexpected status checking camera registration")

-- The URL that `IsRegistered` asks
unfoldable pub camera_url : String → OrganizationId → CameraId → String
camera_url base_url org_id camera_id =
    text_append base_url
      (text_append "/v1/organizations/" (text_append org_id (text_append "/cameras/" camera_id)))

-- `Client.IsRegistered`
unfoldable pub is_registered :
    GetStatus → String → String → OrganizationId → CameraId → Result Error Bool
unfolding registration
is_registered get base_url token org_id camera_id =
    registration (get (camera_url base_url org_id camera_id) (bearer_header token))
