-- ===== src/Platform/Cameras.antt =====
-- How the uploads of media-ingest-gateway stand on camera-calibration: the client
-- services/media-ingest-gateway/internal/cameracalibration against the handlers of
-- services/camera-calibration/internal/httpapi, with the caller's own token.
use Prim.Native.String.{◌++◌ as text_append}
use cricket_drs_system.Prelude.{
  ℕ, String, ◌≡◌, ◌≢◌, sym, ap, ◌∙◌, Bool, true, false, Option, some, none, List, arith, string_eq,
  pair_eq, eq_iff, eq_refl, Option-cases, inl, inr,
}
use cricket_drs_system.Exec.{ok}
use cricket_drs_system.Table.{lookup}
use cricket_drs_system.Bearer.{bearer_header, after_bearer-bearer_header}
use cricket_drs_system.Platformauth.Tokens.{Claims}
use cricket_drs_system.CameraCalibration.Domain.{Floats}
use cricket_drs_system.CameraCalibration.Store
use cricket_drs_system.CameraCalibration.Service as Calibrations
use cricket_drs_system.CameraCalibration.Http as CalibrationsHttp
use cricket_drs_system.MediaIngest.Domain.{OrganizationId, CameraId, MatchId, Scores}
use cricket_drs_system.MediaIngest.Client.{GetStatus, camera_url, is_registered}
use cricket_drs_system.MediaIngest.Service as Clips
use cricket_drs_system.MediaIngest.Http as ClipsHttp
use cricket_drs_system.MediaIngest.Http.Created.{caller_of, serve-Created}
use cricket_drs_system.MediaIngest.Uploads.{upload_clip-Accepted}
use cricket_drs_system.Platform.Url.{Plain}

abbrev pub present : {A : Type 0} → Option A → Bool
present none = false
present (some x) = true

-- A GET with the token, at the two paths that the router of camera-calibration has for a camera, is
-- answered by the handler that it has for the path, in this state, for names that are one segment.
pub record Reaches (get : GetStatus) (base_url : String) (f : Floats)
    (env : CalibrationsHttp.Environment) (s : Calibrations.State f.Float) (t : String)
    : Type 0 where
  pub camera :
      (org : OrganizationId) (id : CameraId)
      → Plain org
      → Plain id
      → get
          (text_append base_url
            (text_append "/v1/organizations/" (text_append org (text_append "/cameras/" id))))
          (bearer_header t)
        ≡ some
            (CalibrationsHttp.serve f env
              (bearer_header t)
              (CalibrationsHttp.get_camera org id)
              s).0.status
  pub calibration :
      (org : OrganizationId) (id : CameraId)
      → Plain org
      → Plain id
      → get
          (text_append base_url (
            text_append "/v1/organizations/"
              (text_append org (text_append "/cameras/" (text_append id "/calibration")))))
          (bearer_header t)
        ≡ some
            (CalibrationsHttp.serve f env
              (bearer_header t)
              (CalibrationsHttp.get_calibration_status org id)
              s).0.status

module _ (get : GetStatus) (base_url : String) (f : Floats) (env : CalibrationsHttp.Environment)
    (s : Calibrations.State f.Float) (t : String) (reaches : Reaches get base_url f env s t) where
  -- For a token of a member of the tenant, and names that are plain segments of a path, the gateway
  -- takes a camera for registered exactly if camera-calibration holds it in that tenant.
  pub is_registered-held :
      (c : Claims) (org : OrganizationId) (id : CameraId)
      → Plain org
      → Plain id
      → t ≢ ""
      → env.verify t ≡ some c
      → c.organization_id ≡ org
      → is_registered get base_url t org id ≡ ok (present (lookup (org, id) s.cameras))
  unfolding is_registered CalibrationsHttp.serve Calibrations.authenticate Calibrations.get_camera
      Store.find_camera CalibrationsHttp.write_service_error camera_url
  is_registered-held c org id plain_org plain_id some_token verified member =
      elim (Option-cases (lookup (org, id) s.cameras)) [
        | inl missing ↦
            rw (reaches.camera org id plain_org plain_id)
              (ground (arith, after_bearer-bearer_header t, eq_iff t "", eq_refl org))
        | inr (k, held) ↦
            rw (reaches.camera org id plain_org plain_id)
              (ground (arith, after_bearer-bearer_header t, eq_iff t "", eq_refl org))
      ]

  -- The camera's name is put into the URL as it is: where requests for cameras and calibrations reach
  -- camera-calibration, for a token of a member of the tenant, the gateway takes a name that ends in
  -- "/calibration" for registered exactly if camera-calibration holds a calibration profile of the
  -- camera named by what stands before, whether or not a camera of the whole name was ever
  -- registered. This is for a tenant and a name before "/calibration" that are not empty and of
  -- ASCII letters and digits, "-" and "_" alone.
  pub is_registered-unescaped :
      (c : Claims) (org : OrganizationId) (id : CameraId)
      → Plain org
      → Plain id
      → t ≢ ""
      → env.verify t ≡ some c
      → c.organization_id ≡ org
      → is_registered get base_url t org (text_append id "/calibration")
        ≡ ok (present (lookup (org, id) s.profiles))
  unfolding is_registered CalibrationsHttp.serve Calibrations.authenticate
      Calibrations.get_calibration_status Store.find_profile CalibrationsHttp.write_service_error
      camera_url
  is_registered-unescaped c org id plain_org plain_id some_token verified member =
      elim (Option-cases (lookup (org, id) s.profiles)) [
        | inl missing ↦
            rw (reaches.calibration org id plain_org plain_id)
              (ground (arith, after_bearer-bearer_header t, eq_iff t "", eq_refl org))
        | inr (k, held) ↦
            rw (reaches.calibration org id plain_org plain_id)
              (ground (arith, after_bearer-bearer_header t, eq_iff t "", eq_refl org))
      ]

  -- Where both services verify tokens alike, the gateway asks through its client, and requests for
  -- cameras reach camera-calibration: an upload that is answered with 201, of a tenant and a camera
  -- whose names are not empty and of ASCII letters and digits, "-" and "_" alone, is from a camera
  -- that camera-calibration holds, at that moment, in the tenant of the upload.
  pub upload-held :
      (g : Scores) (clips : ClipsHttp.Environment) (org : OrganizationId) (match_id : MatchId)
      (id : CameraId) (content : Option (List ℕ)) (m : Clips.State g.Score)
      → Plain org
      → Plain id
      → clips.verify ≡ env.verify
      → clips.cameras ≡ is_registered get base_url
      → (ClipsHttp.serve g clips
          (bearer_header t)
          (ClipsHttp.upload_clip org match_id id content)
          m).0.status
        ≡ 201
      → present (lookup (org, id) s.cameras) ≡ true
  upload-held g clips org match_id id content m plain_org plain_id same asks created =
      let k = serve-Created g clips t org match_id id content m created in
      let a =
        upload_clip-Accepted g clips.hash clips.cameras (caller_of k.claims) t org match_id id
          content clips.fresh clips.now m k.stored k.done in
      let known : env.verify t ≡ some k.claims = rw (sym same) k.verified in
      let held =
        is_registered-held k.claims org id plain_org plain_id k.some_token known a.own_tenant in
      let positive : is_registered get base_url t org id ≡ ok true =
        ap (λ ask. ask t org id) (sym asks) ∙ a.registered in
      ground (arith, held, positive)
