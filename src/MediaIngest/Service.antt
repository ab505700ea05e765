-- ===== src/MediaIngest/Service.antt =====
-- services/media-ingest-gateway/internal/service: the use-cases, over any object store. `hash` is the
-- hexadecimal SHA-256 of bytes, `cameras` the camera registry port with the caller's own token.
use Prim.Native.String.{◌++◌ as text_append}
use cricket_drs_system.Prelude.{
  String, ℕ, Bool, not, Option, none, some, List, length, ◌==◌, string_eq,
}
use cricket_drs_system.Prelude.Int.{ℤ, Time}
use cricket_drs_system.Exec.{Result, ok, err, Exec, pure, lift, ◌>>=◌, ◌>>◌, raise_if, zoom, reads}
use cricket_drs_system.Platformauth.{Role}
use cricket_drs_system.Platformauth.Tokens.{Claims}
use cricket_drs_system.MediaIngest.Domain.{
  OrganizationId, UserId, MatchId, CameraId, ClipId, Scores, Clip, Error, cross_tenant_access,
  permission_denied, camera_not_registered, invalid_token, dependency, can_upload_clips, new_clip,
  apply_sync_offset,
}
use cricket_drs_system.MediaIngest.Store.{
  ClipStore, MemoryStore, ObjectStore, memory_objects, create_clip, get_clip, list_clips_by_match,
}

-- What the repository and the object store hold.
pub record StateOver (Score Objects : Type 0) : Type 0 where
  pub clips : ClipStore Score
  pub objects : Objects

-- The state over the object store in memory
abbrev pub State : Type 0 → Type 0
State Score = StateOver Score MemoryStore

pub record Caller : Type 0 where
  pub organization_id : OrganizationId
  pub user_id : UserId
  pub role : Role

-- `CameraRegistry.IsRegistered`, of a token, a tenant and a camera
abbrev pub CameraRegistry : Type 0
CameraRegistry = String → OrganizationId → CameraId → Result Error Bool

-- `newID`
unfoldable pub new_id : String → String → String
new_id prefix fresh = text_append prefix (text_append "_" fresh)

-- `fmt.Sprintf("%s/%s/%s", orgID, matchID, clipID)`
unfoldable pub storage_key_of : OrganizationId → MatchId → ClipId → String
storage_key_of org_id match_id clip_id =
    text_append org_id (text_append "/" (text_append match_id (text_append "/" clip_id)))

-- `Authenticate`
unfoldable pub authenticate : Option Claims → Result Error Caller
authenticate none = err invalid_token
authenticate (some c) =
    ok (record { organization_id = c.organization_id; user_id = c.user_id; role = c.role })

abbrev or_unread : Option (List ℕ) → Result Error (List ℕ)
or_unread none = err (dependency "service: read clip content")
or_unread (some bytes) = ok bytes

abbrev pub Action : Scores → Type 0 → Type 0 → Type 0
Action f Objects A = Exec Error (StateOver f.Score Objects) A

module _ (f : Scores) {Objects : Type 0} where
  abbrev own_tenant : Caller → OrganizationId → Action f Objects (Unit {0})
  own_tenant caller org_id = raise_if (not (caller.organization_id == org_id)) cross_tenant_access

  abbrev may_upload : Caller → Action f Objects (Unit {0})
  may_upload caller = raise_if (not (can_upload_clips caller.role)) permission_denied

  -- `UploadClip`; the content is absent where reading it fails
  unfoldable pub upload_clip_to :
      ObjectStore Objects
      → CameraRegistry
      → (List ℕ → String)
      → Caller
      → String
      → OrganizationId
      → MatchId
      → CameraId
      → Option (List ℕ)
      → String
      → Time
      → Action f Objects (Clip f.Score)
  upload_clip_to store cameras hash caller token org_id match_id camera_id content fresh now = do
    own_tenant caller org_id
    may_upload caller
    registered ← lift (cameras token org_id camera_id)
    raise_if (not registered) camera_not_registered
    bytes ← lift (or_unread content)
    clip ← lift (
        new_clip (new_id "clip" fresh) org_id match_id camera_id
          (storage_key_of org_id match_id (new_id "clip" fresh)) (hash bytes) (length bytes)
          caller.user_id now)
    zoom (λ s. s.objects) (λ x s. record s { objects = x })
        (store.put (storage_key_of org_id match_id (new_id "clip" fresh)) bytes)
    zoom (λ s. s.clips) (λ x s. record s { clips = x }) (create_clip clip)
    pure clip

  -- `GetClip`
  unfoldable pub get_clip_of :
      Caller → OrganizationId → MatchId → ClipId → Action f Objects (Clip f.Score)
  get_clip_of caller org_id match_id clip_id = do
    own_tenant caller org_id
    reads (λ s. get_clip org_id match_id clip_id s.clips)

  -- `ListClips`
  unfoldable pub list_clips :
      Caller → OrganizationId → MatchId → Action f Objects (List (Clip f.Score))
  list_clips caller org_id match_id = do
    own_tenant caller org_id
    reads (λ s. ok (list_clips_by_match org_id match_id s.clips))

  -- `DownloadClip`
  unfoldable pub download_clip_from :
      ObjectStore Objects
      → Caller
      → OrganizationId
      → MatchId
      → ClipId
      → Action f Objects (Clip f.Score × List ℕ)
  unfolding get_clip_of
  download_clip_from store caller org_id match_id clip_id = do
    clip ← get_clip_of caller org_id match_id clip_id
    bytes ← zoom (λ s. s.objects) (λ x s. record s { objects = x }) (store.get clip.storage_key)
    pure (clip, bytes)

  -- `SubmitSyncOffset`
  unfoldable pub submit_sync_offset :
      Caller
      → OrganizationId
      → MatchId
      → ClipId
      → ClipId
      → ℤ
      → f.Score
      → Time
      → Action f Objects (Clip f.Score)
  submit_sync_offset caller org_id match_id clip_id reference offset_ms score now = do
    own_tenant caller org_id
    may_upload caller
    clip ← reads (λ s. get_clip org_id match_id clip_id s.clips)
    reads (λ s. get_clip org_id match_id reference s.clips)
    synced ← lift (apply_sync_offset f clip reference offset_ms score now)
    zoom (λ s. s.clips) (λ x s. record s { clips = x }) (create_clip synced)
    pure synced

-- The two over the object store in memory
module _ (f : Scores) where
  unfoldable pub upload_clip :
      CameraRegistry
      → (List ℕ → String)
      → Caller
      → String
      → OrganizationId
      → MatchId
      → CameraId
      → Option (List ℕ)
      → String
      → Time
      → Exec Error (State f.Score) (Clip f.Score)
  unfolding upload_clip_to
  upload_clip = upload_clip_to f memory_objects

  unfoldable pub download_clip :
      Caller
      → OrganizationId
      → MatchId
      → ClipId
      → Exec Error (State f.Score) (Clip f.Score × List ℕ)
  unfolding download_clip_from
  download_clip = download_clip_from f memory_objects
