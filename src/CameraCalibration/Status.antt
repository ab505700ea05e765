-- ===== src/CameraCalibration/Status.antt =====
-- What a calibration status says: the last profile that was stored for that camera.
use cricket_drs_system.Prelude.{◌≡◌, ◌&&◌, ◌==◌, string_eq, pair_eq, arith, inl, inr, if◌then◌else◌}
use cricket_drs_system.Prelude.Int.{Time}
use cricket_drs_system.Exec.{ok, err, Result-cases}
use cricket_drs_system.Table.{lookup-put}
use cricket_drs_system.CameraCalibration.Domain.{
  OrganizationId, CameraId, Floats, Vector, CalibrationProfile, cross_tenant_access,
  new_calibration_profile, valid_profile,
}
use cricket_drs_system.CameraCalibration.Store.{find_camera, store_profile, find_profile}
use cricket_drs_system.CameraCalibration.Service.{
  State, Caller, store_calibration_profile, get_calibration_status,
}

module _ (f : Floats) where
  find_profile-store_profile :
      (p : CalibrationProfile f.Float) (s : State f.Float) (o : OrganizationId) (id : CameraId)
      → find_profile o id (store_profile p s.profiles).1 ≡ (
          if p.organization_id == o && p.camera_id == id
          then ok p
          else find_profile o id s.profiles)
  unfolding find_profile store_profile
  find_profile-store_profile p s o id =
      ground (arith, lookup-put (p.organization_id, p.camera_id) (o, id) p s.profiles)

  stored :
      (caller : Caller) (org : OrganizationId) (id : CameraId)
      (rotation translation : Vector f.Float) (px : f.Float) (now : Time) (s : State f.Float)
      (p : CalibrationProfile f.Float)
      → (store_calibration_profile f caller org id rotation translation px now s).0 ≡ ok p
      → (p.organization_id ≡ org)
        × (p.camera_id ≡ id)
        × (p.reprojection_error_px ≡ px)
        × (p.rotation_vector ≡ rotation)
        × (p.translation_vector ≡ translation)
        × ((store_calibration_profile f caller org id rotation translation px now s).1
            ≡ record s { profiles = (store_profile p s.profiles).1 })
  unfolding store_calibration_profile new_calibration_profile
  stored caller org id rotation translation px now s p done =
      elim (Result-cases (find_camera org id s.cameras)) [
        | inl (c, found) ↦
            (ground arith, ground arith, ground arith, ground arith, ground arith, ground arith)
        | inr (e, missing) ↦ absurd (ground arith)
      ]

  -- After a profile was stored, any member of any tenant is told of a camera: of the one that it was
  -- stored for, the new profile, with the vectors and the error of the request, valid when that
  -- error is within the limit; of any other camera of the tenant, what was said before; of a camera
  -- of another tenant, nothing.
  pub get_calibration_status-store :
      (caller reader : Caller) (org o : OrganizationId) (id other : CameraId)
      (rotation translation : Vector f.Float) (px : f.Float) (now : Time) (s : State f.Float)
      (p : CalibrationProfile f.Float)
      → (store_calibration_profile f caller org id rotation translation px now s).0 ≡ ok p
      → let s' = (store_calibration_profile f caller org id rotation translation px now s).1 in
        ((get_calibration_status f reader o other s').0 ≡ (
          if reader.organization_id == o
          then (if org == o && id == other
              then ok p
              else (get_calibration_status f reader o other s).0)
          else err cross_tenant_access))
        × (p.rotation_vector ≡ rotation)
        × (p.translation_vector ≡ translation)
        × (valid_profile f p ≡ f.within_limit px)
  unfolding get_calibration_status valid_profile
  get_calibration_status-store caller reader org o id other rotation translation px now s p done =
      let (tenant, camera, error_px, r, t, after) =
        stored caller org id rotation translation px now s p done in
      (rw after (ground (arith, find_profile-store_profile p s o other)), r, t, ground arith)
