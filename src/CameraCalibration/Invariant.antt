-- ===== src/CameraCalibration/Invariant.antt =====
-- What the stores of camera-calibration hold at every moment: entries under their own keys that pass
-- the checks, and profiles of registered cameras only.
use cricket_drs_system.Prelude.{
  String, ◌≡◌, ◌≢◌, false, some, none, All, All-imp, string_eq, pair_eq, arith, eq_iff, inl, inr,
}
use cricket_drs_system.Prelude.Int.{Time}
use cricket_drs_system.Exec.{ok, Result-cases}
use cricket_drs_system.Table.{lookup, put}
use cricket_drs_system.Table.Select.{All-put, put_keeps}
use cricket_drs_system.CameraCalibration.Domain.{
  OrganizationId, UserId, VenueId, CameraId, CameraModel, Floats, Vector, Camera,
  CalibrationProfile, new_camera, new_calibration_profile,
}
use cricket_drs_system.CameraCalibration.Store.{
  CameraKey, CameraStore, create_camera, find_camera, store_profile,
}
use cricket_drs_system.CameraCalibration.Service
use cricket_drs_system.CameraCalibration.Service.{
  State, Caller, new_id, register_camera, store_calibration_profile,
}
use cricket_drs_system.CameraCalibration.Http
use cricket_drs_system.CameraCalibration.Http.{Environment, Route, handle, serve}

pub record CameraEntry (e : CameraKey × Camera) : Type 0 where
  pub keyed : e.0 ≡ (e.1.organization_id, e.1.id)
  pub at_venue : e.1.venue_id ≢ ""
  pub of_model : e.1.model ≢ ""

module _ (f : Floats) where
  -- No profile of a camera that nobody registered, and no negative error.
  pub record ProfileEntry (cameras : CameraStore) (e : CameraKey × CalibrationProfile f.Float)
      : Type 0 where
    pub keyed : e.0 ≡ (e.1.organization_id, e.1.camera_id)
    pub registered : lookup (e.1.organization_id, e.1.camera_id) cameras ≢ none
    pub not_negative : f.below_zero e.1.reprojection_error_px ≡ false

  pub record IsSound (s : State f.Float) : Type 0 where
    pub cameras : All CameraEntry s.cameras
    pub profiles : All (ProfileEntry s.cameras) s.profiles

  new_camera_ok :
      (id : CameraId) (org : OrganizationId) (venue : VenueId) (model : CameraModel) (by : UserId)
      (now : Time) (c : Camera)
      → new_camera id org venue model by now ≡ ok c
      → CameraEntry ((c.organization_id, c.id), c)
  unfolding new_camera
  new_camera_ok id org venue model by now c made = ground (arith, eq_iff venue "", eq_iff model "")

  -- More cameras leave the profiles registered.
  create_camera-ProfileEntry :
      (c : Camera) (s : State f.Float)
      → IsSound s
      → All (ProfileEntry (create_camera c s.cameras).1) s.profiles
  unfolding create_camera
  create_camera-ProfileEntry c s h =
      All-imp (ProfileEntry s.cameras) (ProfileEntry (put (c.organization_id, c.id) c s.cameras))
        s.profiles
        (λ e p. record {
          keyed = p.keyed;
          registered = put_keeps _ _ c s.cameras p.registered;
          not_negative = p.not_negative;
        })
        h.profiles

  create_camera-CameraEntry :
      (c : Camera) (s : State f.Float)
      → IsSound s
      → CameraEntry ((c.organization_id, c.id), c)
      → All CameraEntry (create_camera c s.cameras).1
  unfolding create_camera
  create_camera-CameraEntry c s h entry =
      All-put CameraEntry (c.organization_id, c.id) c s.cameras h.cameras entry

  register_camera-IsSound :
      (caller : Caller) (org : OrganizationId) (venue : VenueId) (model : CameraModel)
      (fresh : String) (now : Time) (s : State f.Float)
      → IsSound s
      → IsSound (register_camera f caller org venue model fresh now s).1
  unfolding register_camera
  register_camera-IsSound caller org venue model fresh now s h =
      elim (Result-cases (new_camera (new_id "camera" fresh) org venue model caller.user_id now)) [
        | inr (e, refused) ↦ ground arith
        | inl (c, made) ↦ ground (
          arith,
          create_camera-ProfileEntry c s h,
          create_camera-CameraEntry c s h (new_camera_ok _ org venue model _ now c made),
        )
      ]

  store_profile-ProfileEntry :
      (p : CalibrationProfile f.Float) (s : State f.Float)
      → IsSound s
      → ProfileEntry s.cameras ((p.organization_id, p.camera_id), p)
      → All (ProfileEntry s.cameras) (store_profile p s.profiles).1
  unfolding store_profile
  store_profile-ProfileEntry p s h entry =
      All-put (ProfileEntry s.cameras) (p.organization_id, p.camera_id) p s.profiles h.profiles
        entry

  new_profile_ok :
      (id : CameraId) (org : OrganizationId) (rotation translation : Vector f.Float) (px : f.Float)
      (by : UserId) (now : Time) (p : CalibrationProfile f.Float) (cameras : CameraStore)
      (c : Camera)
      → new_calibration_profile f id org rotation translation px by now ≡ ok p
      → find_camera org id cameras ≡ ok c
      → ProfileEntry cameras ((p.organization_id, p.camera_id), p)
  unfolding new_calibration_profile find_camera
  new_profile_ok id org rotation translation px by now p cameras c made found = ground arith

  store_calibration_profile-IsSound :
      (caller : Caller) (org : OrganizationId) (id : CameraId)
      (rotation translation : Vector f.Float) (px : f.Float) (now : Time) (s : State f.Float)
      → IsSound s
      → IsSound (store_calibration_profile f caller org id rotation translation px now s).1
  unfolding store_calibration_profile
  store_calibration_profile-IsSound caller org id rotation translation px now s h =
      elim (Result-cases (find_camera org id s.cameras)) [
        | inr (e, missing) ↦ ground arith
        | inl (c, found) ↦
            elim (Result-cases
              (new_calibration_profile f id org rotation translation px caller.user_id now)) [
                | inr (e, refused) ↦ ground arith
                | inl (p, made) ↦ ground (
                  arith,
                  store_profile-ProfileEntry p s h (
                      new_profile_ok id org rotation translation px _ now p s.cameras c made found),
                )
              ]
      ]

  handle-IsSound :
      (env : Environment) (caller : Caller) (route : Route f.Float) (s : State f.Float)
      → IsSound s
      → IsSound (handle f env caller route s).1
  unfolding handle Service.get_camera Service.list_cameras Service.get_calibration_status
      Service.get_lens_profile
  handle-IsSound env caller (Http.register_camera org none) s h = h
  handle-IsSound env caller (Http.register_camera org (some req)) s h =
      ground
        (arith, register_camera-IsSound caller org req.venue_id req.model env.fresh env.now s h)
  handle-IsSound env caller (Http.get_camera org id) s h = ground arith
  handle-IsSound env caller (Http.list_cameras org) s h = ground arith
  handle-IsSound env caller (Http.store_calibration org id none) s h = h
  handle-IsSound env caller (Http.store_calibration org id (some req)) s h = ground (
    arith,
    store_calibration_profile-IsSound caller org id req.rotation req.translation
        req.reprojection_error_px env.now s h,
  )
  handle-IsSound env caller (Http.get_calibration_status org id) s h = ground arith
  handle-IsSound env caller (Http.get_lens_profile model) s h = ground arith

  -- Every request, with any header and any body, leaves cameras and profiles that pass the checks,
  -- under their own keys, and no profile of a camera that its tenant has not registered.
  pub serve-IsSound :
      (env : Environment) (header : String) (route : Route f.Float) (s : State f.Float)
      → IsSound s
      → IsSound (serve f env header route s).1
  unfolding serve
  serve-IsSound env header route s h = grind (arith, handle-IsSound)
