-- ===== src/CameraCalibration/Tests.antt =====
-- The theorems of camera-calibration at concrete inputs, with whole numbers for floating-point ones.
use cricket_drs_system.Prelude.{
  ℕ, ◌≡◌, refl, false, some, [], ◌∷◌, leb, string_eq, pair_eq, texts_differ,
}
use cricket_drs_system.Prelude.Int.{pos}
use cricket_drs_system.Exec.{ok}
use cricket_drs_system.Table.{lookup}
use cricket_drs_system.Platformauth.{organizer_admin, player}
use cricket_drs_system.CameraCalibration.Domain.{
  Floats, Vector, Camera, CalibrationProfile, new_calibration_profile, valid_profile,
  can_manage_calibration,
}
use cricket_drs_system.CameraCalibration.Store.{find_camera, store_profile}
use cricket_drs_system.CameraCalibration.Service.{
  State, Caller, store_calibration_profile, get_calibration_status,
}
use cricket_drs_system.CameraCalibration.Http.{Environment, Route, register_camera, serve}
use cricket_drs_system.CameraCalibration.Invariant.{IsSound, serve-IsSound}
use cricket_drs_system.CameraCalibration.Status.{get_calibration_status-store}

abbrev pub floats : Floats
floats = record {
  Float = ℕ;
  literal = λ text. 0;
  below_zero = λ n. false;
  within_limit = λ n. leb n 1;
}

abbrev camera : Camera
camera = record {
  id = "cam";
  organization_id = "club";
  venue_id = "v";
  model = "m";
  registered_at = pos 0;
  registered_by = "user_0";
}

abbrev club : State ℕ
club = record { cameras = (("club", "cam"), camera) ∷ []; profiles = [] }

abbrev admin : Caller
admin = record { organization_id = "club"; user_id = "user_0"; role = organizer_admin }

abbrev member : Caller
member = record { organization_id = "club"; user_id = "user_1"; role = player }

abbrev env : Environment
env = record {
  fresh = "1";
  now = pos 5;
  verify =
      λ t. some (record { user_id = "user_0"; organization_id = "club"; role = organizer_admin });
}

abbrev registering : Route ℕ
registering = register_camera "club" (some (record { venue_id = "v"; model = "m" }))

club-IsSound : IsSound floats club
club-IsSound = record {
  cameras = (
    record {
      keyed = refl;
      at_venue = texts_differ "v" "" refl;
      of_model = texts_differ "m" "" refl;
    },
    tt,
  );
  profiles = tt;
}

serve-IsSound_example : IsSound floats (serve floats env "Bearer t" registering club).1
serve-IsSound_example = serve-IsSound floats env "Bearer t" registering club club-IsSound

abbrev zeros : Vector ℕ
zeros = record { x = 0; y = 0; z = 0 }

abbrev profile : CalibrationProfile ℕ
profile = record {
  camera_id = "cam";
  organization_id = "club";
  rotation_vector = zeros;
  translation_vector = zeros;
  reprojection_error_px = 2;
  calibrated_at = pos 5;
  calibrated_by = "user_0";
}

stored :
    (store_calibration_profile floats admin "club" "cam" zeros zeros 2 (pos 5) club).0 ≡ ok profile
unfolding store_calibration_profile can_manage_calibration find_camera lookup
    new_calibration_profile store_profile
stored = refl

-- A profile whose error is too large is stored, and is not valid.
get_calibration_status-store_example :
    let s' = (store_calibration_profile floats admin "club" "cam" zeros zeros 2 (pos 5) club).1 in
    ((get_calibration_status floats member "club" "cam" s').0 ≡ ok profile)
    × (zeros ≡ zeros)
    × (zeros ≡ zeros)
    × (valid_profile floats profile ≡ false)
get_calibration_status-store_example =
    get_calibration_status-store floats admin member "club" "club" "cam" "cam" zeros zeros 2 (pos 5)
      club profile stored
