-- ===== src/CameraCalibration/Domain.antt =====
-- services/camera-calibration/internal/domain: cameras, calibration profiles, lens profiles, and the
-- checks of their constructors.
use cricket_drs_system.Prelude.{String, Bool, none, some, [], ◌∷◌, ◌==◌, string_eq, if◌then◌else◌}
use cricket_drs_system.Prelude.Int.{Time}
use cricket_drs_system.Exec.{Result, ok, err}
use cricket_drs_system.Table.{Table, lookup}
use cricket_drs_system.Platformauth.{Role, organizer_admin}

abbrev pub OrganizationId : Type 0
OrganizationId = String

abbrev pub UserId : Type 0
UserId = String

abbrev pub VenueId : Type 0
VenueId = String

abbrev pub CameraId : Type 0
CameraId = String

abbrev pub CameraModel : Type 0
CameraModel = String

-- The sentinel errors.
pub data Error : Type 0 where
  camera_not_found profile_not_found venue_id_empty camera_model_empty : Error
  camera_model_unknown invalid_calibration invalid_role permission_denied : Error
  cross_tenant_access invalid_token : Error

-- `CanManageCalibration`
unfoldable pub can_manage_calibration : Role → Bool
can_manage_calibration role = role == organizer_admin

pub record Camera : Type 0 where
  pub id : CameraId
  pub organization_id : OrganizationId
  pub venue_id : VenueId
  pub model : CameraModel
  pub registered_at : Time
  pub registered_by : UserId

-- `NewCamera`
unfoldable pub new_camera :
    CameraId → OrganizationId → VenueId → CameraModel → UserId → Time → Result Error Camera
new_camera id org_id venue_id model registered_by now =
    if venue_id == ""
    then err venue_id_empty
    else if model == ""
    then err camera_model_empty
    else ok (record {
      id = id;
      organization_id = org_id;
      venue_id = venue_id;
      model = model;
      registered_at = now;
      registered_by = registered_by;
    })

-- `float64`, as far as the code uses it: its decimal literals, and two comparisons.
pub record Floats : Type 1 where
  pub Float : Type 0
  pub literal : String → Float
  -- `x < 0`, and `x <= MaxReprojectionErrorPx`
  pub below_zero : Float → Bool
  pub within_limit : Float → Bool

-- `[3]float64`
pub record Vector (Float : Type 0) : Type 0 where
  pub x : Float
  pub y : Float
  pub z : Float

pub record CalibrationProfile (Float : Type 0) : Type 0 where
  pub camera_id : CameraId
  pub organization_id : OrganizationId
  pub rotation_vector : Vector Float
  pub translation_vector : Vector Float
  pub reprojection_error_px : Float
  pub calibrated_at : Time
  pub calibrated_by : UserId

-- `LensProfile`, with its five distortion coefficients
pub record LensProfile (Float : Type 0) : Type 0 where
  pub model : CameraModel
  pub focal_length_px_x : Float
  pub focal_length_px_y : Float
  pub principal_point_px_x : Float
  pub principal_point_px_y : Float
  pub distortion_coeffs : Float × (Float × (Float × (Float × Float)))

module _ (f : Floats) where
  -- `NewCalibrationProfile`
  unfoldable pub new_calibration_profile :
      CameraId
      → OrganizationId
      → Vector f.Float
      → Vector f.Float
      → f.Float
      → UserId
      → Time
      → Result Error (CalibrationProfile f.Float)
  new_calibration_profile camera_id org_id rotation translation error_px calibrated_by now =
      if f.below_zero error_px
      then err invalid_calibration
      else ok (record {
        camera_id = camera_id;
        organization_id = org_id;
        rotation_vector = rotation;
        translation_vector = translation;
        reprojection_error_px = error_px;
        calibrated_at = now;
        calibrated_by = calibrated_by;
      })

  -- `CalibrationProfile.Valid`
  unfoldable pub valid_profile : CalibrationProfile f.Float → Bool
  valid_profile p = f.within_limit p.reprojection_error_px

  -- `knownLensProfiles`
  unfoldable pub known_lens_profiles : Table CameraModel (LensProfile f.Float)
  known_lens_profiles =
      (
        "GoPro Hero 12 Black",
        record {
          model = "GoPro Hero 12 Black";
          focal_length_px_x = f.literal "1420.0";
          focal_length_px_y = f.literal "1420.0";
          principal_point_px_x = f.literal "960.0";
          principal_point_px_y = f.literal "540.0";
          distortion_coeffs = (
            f.literal "-0.28",
            (f.literal "0.09", (f.literal "0.0", (f.literal "0.0", f.literal "-0.01"))),
          );
        },
      )
      ∷ []

  -- `LensProfileFor`
  unfoldable pub lens_profile_for : CameraModel → Result Error (LensProfile f.Float)
  unfolding known_lens_profiles
  lens_profile_for model = elim (lookup model known_lens_profiles) [
    | none ↦ err camera_model_unknown
    | some profile ↦ ok profile
  ]
