-- ===== src/MediaIngest/Domain.antt =====
-- services/media-ingest-gateway/internal/domain: clips and the checks of their constructors.
use cricket_drs_system.Prelude.{
  ℕ, String, Bool, false, ◌||◌, Option, none, some, ◌==◌, string_eq, nat_eq, if◌then◌else◌,
}
use cricket_drs_system.Prelude.Int.{ℤ, Time}
use cricket_drs_system.Exec.{Result, ok, err}
use cricket_drs_system.Platformauth.{Role, organizer_admin}

abbrev pub OrganizationId : Type 0
OrganizationId = String

abbrev pub UserId : Type 0
UserId = String

abbrev pub MatchId : Type 0
MatchId = String

abbrev pub CameraId : Type 0
CameraId = String

abbrev pub ClipId : Type 0
ClipId = String

-- The sentinel errors; `dependency` is an error of a library or of another service.
pub data Error : Type 0 where
  clip_not_found match_id_empty camera_id_empty empty_content content_hash_mismatch : Error
  sync_self_reference invalid_correlation camera_not_registered invalid_role : Error
  permission_denied cross_tenant_access invalid_token : Error
  dependency : String → Error

-- `CanUploadClips`
unfoldable pub can_upload_clips : Role → Bool
can_upload_clips role = role == organizer_admin

-- The `float64` of a correlation score, with the comparisons that the code makes.
pub record Scores : Type 1 where
  pub Score : Type 0
  -- `score < -1.0`, `score > 1.0`, and `score >= MinSyncCorrelationScore`
  pub below_least : Score → Bool
  pub above_greatest : Score → Bool
  pub enough : Score → Bool

-- The sync fields of a clip, which are set together or not at all.
pub record Sync (Score : Type 0) : Type 0 where
  pub offset_ms : ℤ
  pub reference_clip_id : ClipId
  pub correlation_score : Score
  pub synced_at : Time

pub record Clip (Score : Type 0) : Type 0 where
  pub id : ClipId
  pub organization_id : OrganizationId
  pub match_id : MatchId
  pub camera_id : CameraId
  pub storage_key : String
  pub content_hash : String
  pub size_bytes : ℕ
  pub uploaded_at : Time
  pub uploaded_by : UserId
  pub sync : Option (Sync Score)

-- `NewClip`; a size is a length here, so it is positive or 0.
unfoldable pub new_clip :
    {Score : Type 0}
    → ClipId
    → OrganizationId
    → MatchId
    → CameraId
    → String
    → String
    → ℕ
    → UserId
    → Time
    → Result Error (Clip Score)
new_clip id org_id match_id camera_id storage_key content_hash size_bytes uploaded_by now =
    if match_id == ""
    then err match_id_empty
    else if camera_id == ""
    then err camera_id_empty
    else if nat_eq size_bytes 0
    then err empty_content
    else ok (record {
      id = id;
      organization_id = org_id;
      match_id = match_id;
      camera_id = camera_id;
      storage_key = storage_key;
      content_hash = content_hash;
      size_bytes = size_bytes;
      uploaded_at = now;
      uploaded_by = uploaded_by;
      sync = none;
    })

module _ (f : Scores) where
  -- `ApplySyncOffset`
  unfoldable pub apply_sync_offset :
      Clip f.Score → ClipId → ℤ → f.Score → Time → Result Error (Clip f.Score)
  apply_sync_offset clip reference offset_ms score now =
      if reference == clip.id
      then err sync_self_reference
      else if f.below_least score || f.above_greatest score
      then err invalid_correlation
      else ok (record clip {
        sync = some (record {
          offset_ms = offset_ms;
          reference_clip_id = reference;
          correlation_score = score;
          synced_at = now;
        });
      })

  -- `SyncConfident`
  unfoldable pub sync_confident : Clip f.Score → Bool
  sync_confident clip = elim clip.sync [ none ↦ false | some s ↦ f.enough s.correlation_score ]
