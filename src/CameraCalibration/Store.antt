-- ===== src/CameraCalibration/Store.antt =====
-- services/camera-calibration/internal/memstore: two maps whose keys begin with the tenant.
use cricket_drs_system.Prelude.{none, some, List, [], ◌∷◌, ◌==◌, string_eq, pair_eq, if◌then◌else◌}
use cricket_drs_system.Exec.{Result, ok, err, Exec}
use cricket_drs_system.Table.{Table, lookup, put}
use cricket_drs_system.CameraCalibration.Domain.{
  OrganizationId, CameraId, Camera, CalibrationProfile, Error, camera_not_found, profile_not_found,
}

-- `cameraKey`, and `profileKey`, which is the same type of its own name
abbrev pub CameraKey : Type 0
CameraKey = OrganizationId × CameraId

abbrev pub CameraStore : Type 0
CameraStore = Table CameraKey Camera

abbrev pub ProfileStore : Type 0 → Type 0
ProfileStore Float = Table CameraKey (CalibrationProfile Float)

-- `CameraStore.Create`
unfoldable pub create_camera : Camera → Exec Error CameraStore (Unit {0})
create_camera c s = (ok tt, put (c.organization_id, c.id) c s)

-- `CameraStore.Get`
unfoldable pub find_camera : OrganizationId → CameraId → CameraStore → Result Error Camera
find_camera org_id camera_id s = elim (lookup (org_id, camera_id) s) [
  | none ↦ err camera_not_found
  | some c ↦ ok c
]

-- `CameraStore.ListByOrganization`
unfoldable pub cameras_of : OrganizationId → CameraStore → List Camera
cameras_of org_id [] = []
cameras_of org_id ((k, c) ∷ s) =
    let rest = cameras_of org_id s in if k.0 == org_id then c ∷ rest else rest

module _ {Float : Type 0} where
  -- `ProfileStore.Store`
  unfoldable pub store_profile :
      CalibrationProfile Float → Exec Error (ProfileStore Float) (Unit {0})
  store_profile p s = (ok tt, put (p.organization_id, p.camera_id) p s)

  -- `ProfileStore.Get`
  unfoldable pub find_profile :
      OrganizationId → CameraId → ProfileStore Float → Result Error (CalibrationProfile Float)
  find_profile org_id camera_id s = elim (lookup (org_id, camera_id) s) [
    | none ↦ err profile_not_found
    | some p ↦ ok p
  ]
