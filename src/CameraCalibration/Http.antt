-- ===== src/CameraCalibration/Http.antt =====
-- services/camera-calibration/internal/httpapi: authentication, the handlers, and the mapping of
-- errors to statuses. A body is `none` where its JSON does not decode.
use cricket_drs_system.Prelude.{
  ℕ, String, Bool, Option, none, some, List, ◌==◌, string_eq, if◌then◌else◌,
}
use cricket_drs_system.Prelude.Int.{Time}
use cricket_drs_system.Bearer.{after_bearer}
use cricket_drs_system.Exec.{Result, ok, err}
use cricket_drs_system.Platformauth.Tokens.{Claims}
use cricket_drs_system.CameraCalibration.Domain.{
  OrganizationId, CameraId, CameraModel, Floats, Vector, Camera, CalibrationProfile, LensProfile,
  Error, camera_not_found, profile_not_found, venue_id_empty, camera_model_empty,
  camera_model_unknown, invalid_calibration, invalid_role, permission_denied, cross_tenant_access,
  invalid_token, valid_profile,
}
use cricket_drs_system.CameraCalibration.Service
use cricket_drs_system.CameraCalibration.Service.{State, Caller}

pub record RegisterCameraRequest : Type 0 where
  pub venue_id : String
  pub model : String

pub record StoreCalibrationRequest (Float : Type 0) : Type 0 where
  pub rotation : Vector Float
  pub translation : Vector Float
  pub reprojection_error_px : Float

pub record CalibrationProfileResponse (Float : Type 0) : Type 0 where
  pub camera_id : String
  pub organization_id : String
  pub rotation : Vector Float
  pub translation : Vector Float
  pub reprojection_error_px : Float
  pub is_valid : Bool
  pub calibrated_at : Time
  pub calibrated_by : String

-- The bodies. A camera and a lens profile have all their fields in a response, as they are.
pub data Body (Float : Type 0) : Type 0 where
  error : String → Body Float
  camera : Camera → Body Float
  cameras : List Camera → Body Float
  calibration : CalibrationProfileResponse Float → Body Float
  lens_profile : LensProfile Float → Body Float

pub record Response (Float : Type 0) : Type 0 where
  pub status : ℕ
  pub body : Body Float

-- `err.Error()`
abbrev pub message : Error → String
message camera_not_found = "camera not found"
message profile_not_found = "calibration profile not found"
message venue_id_empty = "venue id must not be empty"
message camera_model_empty = "camera model must not be empty"
message camera_model_unknown = "camera model has no registered lens profile"
message invalid_calibration = "calibration data invalid"
message invalid_role = "invalid role"
message permission_denied = "permission denied"
message cross_tenant_access = "cross-tenant access denied"
message invalid_token = "invalid or expired token"

abbrev pub status_of : Error → ℕ
status_of camera_not_found = 404
status_of profile_not_found = 404
status_of camera_model_unknown = 404
status_of venue_id_empty = 400
status_of camera_model_empty = 400
status_of invalid_calibration = 400
status_of invalid_role = 400
status_of invalid_token = 401
status_of permission_denied = 403
status_of cross_tenant_access = 403

abbrev pub write_error : {Float : Type 0} → ℕ → String → Response Float
write_error status what = record { status = status; body = error what }

-- `writeServiceError`
unfoldable pub write_service_error : {Float : Type 0} → Error → Response Float
write_service_error e = write_error (status_of e) (message e)

abbrev pub respond :
    {Float A : Type 0}
    → ℕ
    → (A → Body Float)
    → Result Error A × State Float
    → Response Float × State Float
respond status body (ok a, s) = (record { status = status; body = body a }, s)
respond status body (err e, s) = (write_service_error e, s)

-- `bearerToken`
unfoldable pub bearer_token : String → String
bearer_token header = elim (after_bearer header) [ none ↦ "" | some t ↦ t ]

-- What stands around one request: the random text of an identifier, the clock, the verifier.
pub record Environment : Type 0 where
  pub fresh : String
  pub now : Time
  pub verify : String → Option Claims

-- The routes, all behind `requireAuth`.
pub data Route (Float : Type 0) : Type 0 where
  register_camera : OrganizationId → Option RegisterCameraRequest → Route Float
  get_camera : OrganizationId → CameraId → Route Float
  list_cameras : OrganizationId → Route Float
  store_calibration :
      OrganizationId → CameraId → Option (StoreCalibrationRequest Float) → Route Float
  get_calibration_status : OrganizationId → CameraId → Route Float
  get_lens_profile : CameraModel → Route Float

module _ (f : Floats) where
  -- `toCalibrationProfileResponse`
  unfoldable pub to_calibration_profile_response :
      CalibrationProfile f.Float → CalibrationProfileResponse f.Float
  to_calibration_profile_response p = record {
    camera_id = p.camera_id;
    organization_id = p.organization_id;
    rotation = p.rotation_vector;
    translation = p.translation_vector;
    reprojection_error_px = p.reprojection_error_px;
    is_valid = valid_profile f p;
    calibrated_at = p.calibrated_at;
    calibrated_by = p.calibrated_by;
  }

  -- The handlers, of an authenticated caller.
  unfoldable pub handle :
      Environment → Caller → Route f.Float → State f.Float → Response f.Float × State f.Float
  handle env caller (register_camera org none) s = (write_error 400 "invalid request body", s)
  handle env caller (register_camera org (some req)) s =
      respond 201 camera
        (Service.register_camera f caller org req.venue_id req.model env.fresh env.now s)
  handle env caller (get_camera org id) s =
      respond 200 camera (Service.get_camera f caller org id s)
  handle env caller (list_cameras org) s = respond 200 cameras (Service.list_cameras f caller org s)
  handle env caller (store_calibration org id none) s = (write_error 400 "invalid request body", s)
  handle env caller (store_calibration org id (some req)) s =
      respond 200 (λ p. calibration (to_calibration_profile_response p))
        (Service.store_calibration_profile f caller org id req.rotation req.translation
          req.reprojection_error_px env.now s)
  handle env caller (get_calibration_status org id) s =
      respond 200 (λ p. calibration (to_calibration_profile_response p))
        (Service.get_calibration_status f caller org id s)
  handle env caller (get_lens_profile model) s =
      respond 200 lens_profile (Service.get_lens_profile f model s)

  authorized :
      Environment
      → Result Error Caller
      → Route f.Float
      → State f.Float
      → Response f.Float × State f.Float
  authorized env (ok caller) route s = handle env caller route s
  authorized env (err e) route s = (write_error 401 "invalid or expired token", s)

  -- `requireAuth` around the handlers, of the `Authorization` header
  unfoldable pub serve :
      Environment → String → Route f.Float → State f.Float → Response f.Float × State f.Float
  unfolding handle authorized bearer_token
  serve env header route s =
      let t = bearer_token header in
      if t == ""
      then (write_error 401 "missing bearer token", s)
      else authorized env (Service.authenticate (env.verify t)) route s
