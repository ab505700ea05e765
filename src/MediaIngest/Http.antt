-- ===== src/MediaIngest/Http.antt =====
-- services/media-ingest-gateway/internal/httpapi: authentication, the handlers, and the mapping of
-- errors to statuses. A body is `none` where its JSON does not decode.
pub mod Channel
pub mod Integrity
pub mod Created
use cricket_drs_system.Prelude.{
  ℕ, zero, suc, String, Bool, Option, none, some, List, map, ◌==◌, string_eq, if◌then◌else◌,
}
use cricket_drs_system.Prelude.Int.{ℤ, pos, negsuc, Time}
use cricket_drs_system.Bearer.{after_bearer}
use cricket_drs_system.Exec.{Result, ok, err}
use cricket_drs_system.Platformauth.Tokens.{Claims}
use cricket_drs_system.MediaIngest.Domain.{
  OrganizationId, MatchId, CameraId, ClipId, Scores, Sync, Clip, Error, clip_not_found,
  match_id_empty, camera_id_empty, empty_content, content_hash_mismatch, sync_self_reference,
  invalid_correlation, camera_not_registered, invalid_role, permission_denied, cross_tenant_access,
  invalid_token, dependency, sync_confident,
}
use cricket_drs_system.MediaIngest.Service
use cricket_drs_system.MediaIngest.Service.{State, Caller, CameraRegistry}

-- `clipResponse`; the sync fields are left out together
pub record ClipResponse (Score : Type 0) : Type 0 where
  pub id : String
  pub organization_id : String
  pub match_id : String
  pub camera_id : String
  pub content_hash : String
  pub size_bytes : ℕ
  pub uploaded_at : Time
  pub uploaded_by : String
  pub sync : Option (Sync Score)
  pub sync_confident : Bool

pub record SubmitSyncOffsetRequest (Score : Type 0) : Type 0 where
  pub reference_clip_id : String
  pub offset_ms : ℤ
  pub correlation_score : Score

-- `content` is a download, with its `Content-Length`; `answer` is the SDP answer to an offer.
pub data Body (Score : Type 0) : Type 0 where
  error : String → Body Score
  clip : ClipResponse Score → Body Score
  clips : List (ClipResponse Score) → Body Score
  content : ℕ → List ℕ → Body Score
  answer : String → Body Score

pub record Response (Score : Type 0) : Type 0 where
  pub status : ℕ
  pub body : Body Score

-- `err.Error()`
abbrev pub message : Error → String
message clip_not_found = "clip not found"
message match_id_empty = "match id must not be empty"
message camera_id_empty = "camera id must not be empty"
message empty_content = "clip content must not be empty"
message content_hash_mismatch = "stored content hash does not match recorded hash"
message sync_self_reference = "a clip cannot be synced against itself"
message invalid_correlation = "correlation score must be between -1.0 and 1.0"
message camera_not_registered = "camera is not registered with camera calibration service"
message invalid_role = "invalid role"
message permission_denied = "permission denied"
message cross_tenant_access = "cross-tenant access denied"
message invalid_token = "invalid or expired token"
message (dependency what) = what

abbrev pub write_error : {Score : Type 0} → ℕ → String → Response Score
write_error status what = record { status = status; body = error what }

-- `writeServiceError`; a hash mismatch is not in its table
unfoldable pub write_service_error : {Score : Type 0} → Error → Response Score
write_service_error clip_not_found = write_error 404 (message clip_not_found)
write_service_error match_id_empty = write_error 400 (message match_id_empty)
write_service_error camera_id_empty = write_error 400 (message camera_id_empty)
write_service_error empty_content = write_error 400 (message empty_content)
write_service_error sync_self_reference = write_error 400 (message sync_self_reference)
write_service_error invalid_correlation = write_error 400 (message invalid_correlation)
write_service_error camera_not_registered = write_error 400 (message camera_not_registered)
write_service_error invalid_role = write_error 400 (message invalid_role)
write_service_error invalid_token = write_error 401 (message invalid_token)
write_service_error permission_denied = write_error 403 (message permission_denied)
write_service_error cross_tenant_access = write_error 403 (message cross_tenant_access)
write_service_error content_hash_mismatch = write_error 500 "internal error"
write_service_error (dependency what) = write_error 500 "internal error"

abbrev pub respond :
    {Score A : Type 0}
    → ℕ
    → (A → Body Score)
    → Result Error A × State Score
    → Response Score × State Score
respond status body (ok a, s) = (record { status = status; body = body a }, s)
respond status body (err e, s) = (write_service_error e, s)

-- What the WebRTC library makes of an offer: the answer, or where it stopped.
pub data Answered : Type 0 where
  no_connection bad_offer no_answer no_local_description : Answered
  answered : String → Answered

abbrev write_answer : {Score : Type 0} → Answered → Response Score
write_answer no_connection = write_error 500 "internal error"
write_answer bad_offer = write_error 400 "invalid SDP offer"
write_answer no_answer = write_error 500 "internal error"
write_answer no_local_description = write_error 500 "internal error"
write_answer (answered sdp) = record { status = 200; body = answer sdp }

-- What stands around one request: the random text of an identifier, the clock, the verifier, the
-- camera registry, SHA-256 in hexadecimal, and the WebRTC library.
pub record Environment : Type 0 where
  pub fresh : String
  pub now : Time
  pub verify : String → Option Claims
  pub cameras : CameraRegistry
  pub hash : List ℕ → String
  pub accept : String → Answered

-- The routes, all behind `requireAuth`, with the tenant and the match of the path. The content of
-- an upload is `none` where reading it fails; the size of an offer, where it is no number.
pub data Route (Score : Type 0) : Type 0 where
  upload_clip : OrganizationId → MatchId → CameraId → Option (List ℕ) → Route Score
  webrtc_offer : OrganizationId → MatchId → CameraId → Option ℤ → Option String → Route Score
  list_clips : OrganizationId → MatchId → Route Score
  get_clip : OrganizationId → MatchId → ClipId → Route Score
  download_clip : OrganizationId → MatchId → ClipId → Route Score
  submit_sync :
      OrganizationId → MatchId → ClipId → Option (SubmitSyncOffsetRequest Score) → Route Score

-- `bearerToken`
unfoldable pub bearer_token : String → String
bearer_token header = elim (after_bearer header) [ none ↦ "" | some t ↦ t ]

abbrev bad_size : {Score : Type 0} → Response Score
bad_size = write_error 400 "size query parameter must be a positive integer"

-- `handleWebRTCOffer`, as far as the response goes: the clip comes later, over the channel.
unfoldable pub handle_webrtc_offer :
    {Score : Type 0} → Environment → Option ℤ → Option String → Response Score
handle_webrtc_offer env none offer = bad_size
handle_webrtc_offer env (some (negsuc n)) offer = bad_size
handle_webrtc_offer env (some (pos zero)) offer = bad_size
handle_webrtc_offer env (some (pos (suc n))) none = write_error 400 "invalid SDP offer"
handle_webrtc_offer env (some (pos (suc n))) (some sdp) = write_answer (env.accept sdp)

module _ (f : Scores) where
  -- `toClipResponse`
  unfoldable pub to_clip_response : Clip f.Score → ClipResponse f.Score
  to_clip_response c = record {
    id = c.id;
    organization_id = c.organization_id;
    match_id = c.match_id;
    camera_id = c.camera_id;
    content_hash = c.content_hash;
    size_bytes = c.size_bytes;
    uploaded_at = c.uploaded_at;
    uploaded_by = c.uploaded_by;
    sync = c.sync;
    sync_confident = sync_confident f c;
  }

  -- The handlers, of an authenticated caller and the caller's raw token.
  unfoldable pub handle :
      Environment
      → Caller
      → String
      → Route f.Score
      → State f.Score
      → Response f.Score × State f.Score
  handle env caller token (upload_clip org match_id camera_id bytes) s =
      respond 201 (λ c. clip (to_clip_response c))
        (Service.upload_clip f env.cameras env.hash caller token org match_id camera_id bytes
          env.fresh env.now s)
  handle env caller token (webrtc_offer org match_id camera_id size offer) s =
      (handle_webrtc_offer env size offer, s)
  handle env caller token (get_clip org match_id id) s =
      respond 200 (λ c. clip (to_clip_response c)) (Service.get_clip_of f caller org match_id id s)
  handle env caller token (list_clips org match_id) s =
      respond 200 (λ cs. clips (map to_clip_response cs))
        (Service.list_clips f caller org match_id s)
  handle env caller token (submit_sync org match_id id none) s =
      (write_error 400 "invalid request body", s)
  handle env caller token (submit_sync org match_id id (some req)) s =
      respond 200 (λ c. clip (to_clip_response c))
        (Service.submit_sync_offset f caller org match_id id req.reference_clip_id req.offset_ms
          req.correlation_score env.now s)
  handle env caller token (download_clip org match_id id) s =
      respond 200 (λ p. content p.0.size_bytes p.1)
        (Service.download_clip f caller org match_id id s)

  authorized :
      Environment
      → Result Error Caller
      → String
      → Route f.Score
      → State f.Score
      → Response f.Score × State f.Score
  authorized env (ok caller) token route s = handle env caller token route s
  authorized env (err e) token route s = (write_error 401 "invalid or expired token", s)

  -- `requireAuth` around the handlers, of the `Authorization` header
  unfoldable pub serve :
      Environment → String → Route f.Score → State f.Score → Response f.Score × State f.Score
  unfolding handle authorized bearer_token
  serve env header route s =
      let t = bearer_token header in
      if t == ""
      then (write_error 401 "missing bearer token", s)
      else authorized env (Service.authenticate (env.verify t)) t route s
