-- ===== src/Platform/Tests/Cameras.antt =====
-- The registry of cameras over a router with the two patterns of a camera, and uploads over it.
use Prim.Native.String.{◌++◌ as text_append}
use Prim.Native.String.append
use cricket_drs_system.Prelude.{
  ℕ, String, ◌≡◌, refl, none, true, Option, some, [], ◌∷◌, string_eq, pair_eq, ◌==◌, if◌then◌else◌,
  texts_differ,
}
use cricket_drs_system.Prelude.Int.{pos}
use cricket_drs_system.Exec.{ok}
use cricket_drs_system.Table.{lookup}
use cricket_drs_system.Bearer.{after, after-append, after_bearer}
use cricket_drs_system.Platformauth.{organizer_admin}
use cricket_drs_system.Platformauth.Tokens.{Claims}
use cricket_drs_system.CameraCalibration.Store
use cricket_drs_system.CameraCalibration.Service as Calibrations
use cricket_drs_system.CameraCalibration.Http as CalibrationsHttp
use cricket_drs_system.MediaIngest.Domain.{OrganizationId, new_clip, can_upload_clips}
use cricket_drs_system.MediaIngest.Client.{GetStatus, camera_url, is_registered, registration}
use cricket_drs_system.MediaIngest.Service as Clips
use cricket_drs_system.MediaIngest.Store as ClipsStore
use cricket_drs_system.MediaIngest.Http as ClipsHttp
use cricket_drs_system.MediaIngest.Tests.{scores, hash}
use cricket_drs_system.CameraCalibration.Tests.{floats}
use cricket_drs_system.Platform.Url.{is_plain, segment, at_end, segment-append, segment_whole}
use cricket_drs_system.Platform.Cameras.{present, Reaches, is_registered-unescaped, upload-held}

abbrev identity : Claims
identity = record { user_id = "user_0"; organization_id = "oval"; role = organizer_admin }

abbrev env : CalibrationsHttp.Environment
env = record { fresh = "1"; now = pos 1; verify = λ t. some identity }

-- A camera with a profile, and no camera of the longer name.
abbrev state : Calibrations.State ℕ
state = record {
  cameras =
      (
        ("oval", "oval"),
        record {
          id = "oval";
          organization_id = "oval";
          venue_id = "v";
          model = "m";
          registered_at = pos 0;
          registered_by = "user_0";
        },
      )
      ∷ [];
  profiles =
      (
        ("oval", "oval"),
        record {
          camera_id = "oval";
          organization_id = "oval";
          rotation_vector = record { x = 0; y = 0; z = 0 };
          translation_vector = record { x = 0; y = 0; z = 0 };
          reprojection_error_px = 1;
          calibrated_at = pos 0;
          calibrated_by = "user_0";
        },
      )
      ∷ [];
}

abbrev status : String → CalibrationsHttp.Route ℕ → Option ℕ
status header route = some (CalibrationsHttp.serve floats env header route state).0.status

-- The router of the service: the two patterns of a camera, and 404 for any other path.
abbrev camera_route : String → OrganizationId → String × String → Option ℕ
camera_route header org (id, tail) =
    if tail == ""
    then status header (CalibrationsHttp.get_camera org id)
    else if tail == "/calibration"
    then status header (CalibrationsHttp.get_calibration_status org id)
    else some 404

abbrev cameras : String → OrganizationId → Option String → Option ℕ
cameras header org none = some 404
cameras header org (some rest) = camera_route header org (segment rest)

abbrev organization : String → String × String → Option ℕ
organization header (org, rest) = cameras header org (after "/cameras/" rest)

abbrev organizations : String → Option String → Option ℕ
organizations header none = some 404
organizations header (some rest) = organization header (segment rest)

get : GetStatus
get url header = organizations header (after "/v1/organizations/" url)

get-Reaches : (t : String) → Reaches get "" floats env state t
unfolding get at_end
get-Reaches t = record {
  camera = λ org id plain_org plain_id.
      let rest = text_append "/cameras/" id in
      rw
        (
          append.nil,
          after-append "/v1/organizations/" (text_append org rest),
          segment-append org rest plain_org (rw append.cons refl),
          after-append "/cameras/" id,
          segment_whole id plain_id,
        )
        refl;
  calibration = λ org id plain_org plain_id.
      let rest = text_append "/cameras/" (text_append id "/calibration") in
      rw
        (
          append.nil,
          after-append "/v1/organizations/" (text_append org rest),
          segment-append org rest plain_org (rw append.cons refl),
          after-append "/cameras/" (text_append id "/calibration"),
          segment-append id "/calibration" plain_id refl,
        )
        refl;
}

is_registered-unescaped_example :
    is_registered get "" "t" "oval" (text_append "oval" "/calibration") ≡ ok true
unfolding lookup
is_registered-unescaped_example =
    is_registered-unescaped get "" floats env state "t" (get-Reaches "t") identity "oval" "oval"
      (unfold is_plain in refl) (unfold is_plain in refl) (texts_differ "t" "" refl) refl refl

abbrev gateway : ClipsHttp.Environment
gateway = record {
  fresh = "1";
  now = pos 5;
  verify = env.verify;
  cameras = is_registered get "";
  hash = hash;
  accept = λ offer. ClipsHttp.no_connection;
}

abbrev empty : Clips.State ℕ
empty = record { clips = []; objects = [] }

created :
    (ClipsHttp.serve scores gateway "Bearer t"
      (ClipsHttp.upload_clip "oval" "final" "oval" (some (7 ∷ [])))
      empty).0.status
    ≡ 201
unfolding ClipsHttp.serve ClipsHttp.handle ClipsHttp.bearer_token after_bearer after
    Clips.authenticate Clips.upload_clip is_registered registration get camera_url segment
    can_upload_clips new_clip ClipsStore.put_object ClipsStore.create_clip CalibrationsHttp.serve
    CalibrationsHttp.handle Calibrations.authenticate Calibrations.get_camera Store.find_camera
    lookup CalibrationsHttp.bearer_token
created = refl

upload-held_example : present (lookup ("oval", "oval") state.cameras) ≡ true
upload-held_example =
    upload-held get "" floats env state "t" (get-Reaches "t") scores gateway "oval" "final" "oval"
      (some (7 ∷ [])) empty (unfold is_plain in refl) (unfold is_plain in refl) refl refl created
