-- ===== src/MediaIngest/S3/Stages.antt =====
-- Uploads and downloads in two parts: what comes before the object store is called, and what after.
use cricket_drs_system.Prelude.{
  ℕ, String, ◌≡◌, not, Option, some, none, List, length, arith, ◌==◌, string_eq, if◌then◌else◌,
}
use cricket_drs_system.Prelude.Int.{Time}
use cricket_drs_system.Exec.{Result, ok, err}
use cricket_drs_system.MediaIngest.Domain.{
  OrganizationId, MatchId, CameraId, ClipId, Scores, Clip, Error, cross_tenant_access,
  permission_denied, camera_not_registered, dependency, can_upload_clips, new_clip,
}
use cricket_drs_system.MediaIngest.Store.{ObjectStore, create_clip}
use cricket_drs_system.MediaIngest.Service.{
  StateOver, Caller, CameraRegistry, new_id, storage_key_of, upload_clip_to, get_clip_of,
  download_clip_from,
}

-- What an upload comes to before it stores anything: the clip, its key and its content.
unfoldable pub checks :
    (f : Scores)
    → CameraRegistry
    → (List ℕ → String)
    → Caller
    → String
    → OrganizationId
    → MatchId
    → CameraId
    → Option (List ℕ)
    → String
    → Time
    → Result Error (Clip f.Score × List ℕ)
checks f cameras hash caller token org match camera content fresh now =
    if not (caller.organization_id == org)
    then err cross_tenant_access
    else if not (can_upload_clips caller.role)
    then err permission_denied
    else elim (cameras token org camera) [
      | err e ↦ err e
      | ok registered ↦ if not registered then err camera_not_registered else elim content [
        | none ↦ err (dependency "service: read clip content")
        | some bytes ↦
            elim (new_clip (new_id "clip" fresh) org match camera
              (storage_key_of org match (new_id "clip" fresh)) (hash bytes) (length bytes)
              caller.user_id now) [ err e ↦ err e | ok c ↦ ok (c, bytes) ]
      ]
    ]

module _ (f : Scores) {Objects : Type 0} (store : ObjectStore Objects) where
  -- What follows the checks.
  unfoldable pub store_clip :
      String
      → Result Error (Clip f.Score × List ℕ)
      → StateOver f.Score Objects
      → Result Error (Clip f.Score) × StateOver f.Score Objects
  store_clip key (err e) s = (err e, s)
  store_clip key (ok (c, bytes)) s =
      let (r, o) = store.put key bytes s.objects in
      elim r [
        | err e ↦ (err e, record s { objects = o })
        | ok x ↦ (ok c, record s { clips = (create_clip c s.clips).1; objects = o })
      ]

  pub upload-checks :
      (cameras : CameraRegistry) (hash : List ℕ → String) (caller : Caller) (token : String)
      (org : OrganizationId) (match : MatchId) (camera : CameraId) (content : Option (List ℕ))
      (fresh : String) (now : Time) (s : StateOver f.Score Objects)
      → upload_clip_to f store cameras hash caller token org match camera content fresh now s
        ≡ store_clip
            (storage_key_of org match (new_id "clip" fresh))
            (checks f cameras hash caller token org match camera content fresh now)
            s
  unfolding upload_clip_to store_clip checks create_clip
  upload-checks cameras hash caller token org match camera none fresh now s = ground arith
  upload-checks cameras hash caller token org match camera (some bytes) fresh now s = ground arith

  -- A download looks the clip up, and then its content.
  unfoldable pub fetch :
      Result Error (Clip f.Score)
      → StateOver f.Score Objects
      → Result Error (Clip f.Score × List ℕ) × StateOver f.Score Objects
  fetch (err e) s = (err e, s)
  fetch (ok c) s =
      let (r, o) = store.get c.storage_key s.objects in
      (elim r [ err e ↦ err e | ok bytes ↦ ok (c, bytes) ], record s { objects = o })

  pub download-fetch :
      (caller : Caller) (org : OrganizationId) (match : MatchId) (id : ClipId)
      (s : StateOver f.Score Objects)
      → download_clip_from f store caller org match id s
        ≡ fetch (get_clip_of f caller org match id s).0 s
  unfolding download_clip_from fetch
  download-fetch caller org match id s = ground arith
