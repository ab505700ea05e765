-- ===== src/CameraCalibration/Service.antt =====
-- services/camera-calibration/internal/service: the use-cases. `fresh` is the random text of an
-- identifier and `now` what the clock reads.
use Prim.Native.String.{◌++◌ as text_append}
use cricket_drs_system.Prelude.{String, not, Option, none, some, List, ◌==◌, string_eq}
use cricket_drs_system.Prelude.Int.{Time}
use cricket_drs_system.Exec.{Result, ok, err, Exec, pure, lift, ◌>>=◌, ◌>>◌, raise_if, zoom, reads}
use cricket_drs_system.Platformauth.{Role}
use cricket_drs_system.Platformauth.Tokens.{Claims}
use cricket_drs_system.CameraCalibration.Domain.{
  OrganizationId, UserId, VenueId, CameraId, CameraModel, Floats, Vector, Camera,
  CalibrationProfile, LensProfile, Error, cross_tenant_access, permission_denied, invalid_token,
  can_manage_calibration, new_camera, new_calibration_profile, lens_profile_for,
}
use cricket_drs_system.CameraCalibration.Store.{
  CameraStore, ProfileStore, create_camera, find_camera, cameras_of, store_profile, find_profile,
}

-- What the two repositories hold.
pub record State (Float : Type 0) : Type 0 where
  pub cameras : CameraStore
  pub profiles : ProfileStore Float

pub record Caller : Type 0 where
  pub organization_id : OrganizationId
  pub user_id : UserId
  pub role : Role

-- `newID`
unfoldable pub new_id : String → String → String
new_id prefix fresh = text_append prefix (text_append "_" fresh)

-- `Authenticate`, over what the verifier says of the token
unfoldable pub authenticate : Option Claims → Result Error Caller
authenticate none = err invalid_token
authenticate (some c) =
    ok (record { organization_id = c.organization_id; user_id = c.user_id; role = c.role })

module _ (f : Floats) where
  abbrev pub Action : Type 0 → Type 0
  Action A = Exec Error (State f.Float) A

  abbrev own_tenant : Caller → OrganizationId → Action (Unit {0})
  own_tenant caller org_id = raise_if (not (caller.organization_id == org_id)) cross_tenant_access

  abbrev may_manage : Caller → Action (Unit {0})
  may_manage caller = raise_if (not (can_manage_calibration caller.role)) permission_denied

  -- `RegisterCamera`
  unfoldable pub register_camera :
      Caller → OrganizationId → VenueId → CameraModel → String → Time → Action Camera
  register_camera caller org_id venue_id model fresh now = do
    own_tenant caller org_id
    may_manage caller
    camera ← lift (new_camera (new_id "camera" fresh) org_id venue_id model caller.user_id now)
    zoom (λ s. s.cameras) (λ x s. record s { cameras = x }) (create_camera camera)
    pure camera

  -- `GetCamera`
  unfoldable pub get_camera : Caller → OrganizationId → CameraId → Action Camera
  get_camera caller org_id camera_id = do
    own_tenant caller org_id
    reads (λ s. find_camera org_id camera_id s.cameras)

  -- `ListCameras`
  unfoldable pub list_cameras : Caller → OrganizationId → Action (List Camera)
  list_cameras caller org_id = do
    own_tenant caller org_id
    reads (λ s. ok (cameras_of org_id s.cameras))

  -- `StoreCalibrationProfile`
  unfoldable pub store_calibration_profile :
      Caller
      → OrganizationId
      → CameraId
      → Vector f.Float
      → Vector f.Float
      → f.Float
      → Time
      → Action (CalibrationProfile f.Float)
  store_calibration_profile caller org_id camera_id rotation translation error_px now = do
    own_tenant caller org_id
    may_manage caller
    reads (λ s. find_camera org_id camera_id s.cameras)
    profile ← lift (
        new_calibration_profile f camera_id org_id rotation translation error_px caller.user_id now)
    zoom (λ s. s.profiles) (λ x s. record s { profiles = x }) (store_profile profile)
    pure profile

  -- `GetCalibrationStatus`
  unfoldable pub get_calibration_status :
      Caller → OrganizationId → CameraId → Action (CalibrationProfile f.Float)
  get_calibration_status caller org_id camera_id = do
    own_tenant caller org_id
    reads (λ s. find_profile org_id camera_id s.profiles)

  -- `GetLensProfile`
  unfoldable pub get_lens_profile : CameraModel → Action (LensProfile f.Float)
  get_lens_profile model = lift (lens_profile_for f model)
