-- ===== src/Platform/Channel/Outcome.antt =====
-- What the two ends of a data channel make of the clip that went over it, beside what they make of
-- an upload over HTTP.
use cricket_drs_system.Prelude.{
  ℕ, ◌<◌, ◌≡◌, ◌≢◌, refl, String, true, ◌==◌, Option, some, none, List, length, arith, string_eq,
  eq_iff, Bool-cases, inl, inr,
}
use cricket_drs_system.Exec.{Result, ok, err, Result-cases}
use cricket_drs_system.Bearer.{bearer_header, after_bearer-bearer_header}
use cricket_drs_system.Platformauth.Tokens.{Claims}
use cricket_drs_system.EdgeAgent.Upload.{UploadError, rejected, failed, classify}
use cricket_drs_system.EdgeAgent.WebRtc.{AckMessage, classify_ack}
use cricket_drs_system.MediaIngest.Domain.{
  OrganizationId, MatchId, CameraId, Scores, Clip, Error, new_clip, clip_not_found, match_id_empty,
  camera_id_empty, empty_content, content_hash_mismatch, sync_self_reference, invalid_correlation,
  camera_not_registered, invalid_role, permission_denied, cross_tenant_access, invalid_token,
  dependency,
}
use cricket_drs_system.MediaIngest.Service
use cricket_drs_system.MediaIngest.Service.{State, authenticate, new_id}
use cricket_drs_system.MediaIngest.Http.{
  Environment, Response, clip, upload_clip, serve, handle, respond, to_clip_response,
  write_service_error,
}
use cricket_drs_system.MediaIngest.Http.Created.{caller_of, run}
use cricket_drs_system.MediaIngest.Http.Channel.{Ack, ack_of, handle_clip_data_channel}
use cricket_drs_system.Platform.Clips.{reply_of}
use cricket_drs_system.Platform.Url.{separated-not_empty}
use cricket_drs_system.Platform.Channel.{Link, After, After-intact}

-- The ack as edge-agent decodes it.
abbrev pub decoded : Ack → AckMessage
decoded a = record { clip_id = a.clip_id; error = a.error }

-- What edge-agent is told of an upload over a data channel, beside what it is told over HTTP: the
-- same identifier; a rejection with the same message, but with status 0; or, where HTTP has status
-- 500 and "internal error", a rejection with status 0, or the complaint that the ack names no clip.
pub data ToldAlike (channel http : Result UploadError String) : Type 0 where
  accepted : (id : String) → http ≡ ok id → channel ≡ ok id → ToldAlike channel http
  refused :
      (status : ℕ) (what : String)
      → status < 500
      → http ≡ err (rejected status what)
      → channel ≡ err (rejected 0 what)
      → ToldAlike channel http
  hidden :
      (what : String)
      → http ≡ err (rejected 500 "internal error")
      → channel ≡ err (rejected 0 what)
      → ToldAlike channel http
  blank :
      http ≡ err (rejected 500 "internal error")
      → channel ≡ err (failed "webrtcupload: gateway ack missing clip id")
      → ToldAlike channel http

module _ (f : Scores) (env : Environment) (claims : Claims) (token : String) (org : OrganizationId)
    (match_id : MatchId) (camera_id : CameraId) (text : Response f.Score → String) where
  -- `UploadClip` of the clip, for the claims of the token.
  abbrev uploaded : List ℕ → State f.Score → Result Error (Clip f.Score) × State f.Score
  uploaded bytes s = run f env token org match_id camera_id (some bytes) s claims

  -- The request over HTTP that uploads the clip: the response and the state after it.
  abbrev pub http_upload : List ℕ → State f.Score → Response f.Score × State f.Score
  http_upload bytes s =
      serve f env (bearer_header token) (upload_clip org match_id camera_id (some bytes)) s

  -- What the gateway does when the wait for the clip ends.
  abbrev pub channel_upload : Link → State f.Score → Option Ack × State f.Score
  channel_upload l s =
      handle_clip_data_channel f env (caller_of claims) token org match_id camera_id l.receiver s

  -- What edge-agent makes of the ack, if there is one, and of a response over HTTP.
  abbrev pub channel_outcome : Option Ack → Result UploadError String
  channel_outcome none = classify_ack none
  channel_outcome (some a) = classify_ack (some (decoded a))

  abbrev pub http_outcome : Response f.Score → Result UploadError String
  http_outcome r = classify (some (reply_of text r))

  abbrev response_of : Result Error (Clip f.Score) → State f.Score → Response f.Score
  response_of r s = (respond 201 (λ c. clip (to_clip_response f c)) (r, s)).0

  outcomes-ToldAlike :
      (r : Result Error (Clip f.Score)) (s : State f.Score)
      → ((c : Clip f.Score) → r ≡ ok c → c.id ≢ "")
      → ToldAlike (channel_outcome (some (ack_of f r))) (http_outcome (response_of r s))
  unfolding classify classify_ack write_service_error to_clip_response
  outcomes-ToldAlike (ok c) s some_id =
      let named = some_id c refl in
      accepted c.id (ground (arith, eq_iff c.id "")) (ground (arith, eq_iff c.id ""))
  outcomes-ToldAlike (err clip_not_found) s some_id = refused 404 _ (omega arith) refl refl
  outcomes-ToldAlike (err match_id_empty) s some_id = refused 400 _ (omega arith) refl refl
  outcomes-ToldAlike (err camera_id_empty) s some_id = refused 400 _ (omega arith) refl refl
  outcomes-ToldAlike (err empty_content) s some_id = refused 400 _ (omega arith) refl refl
  outcomes-ToldAlike (err sync_self_reference) s some_id = refused 400 _ (omega arith) refl refl
  outcomes-ToldAlike (err invalid_correlation) s some_id = refused 400 _ (omega arith) refl refl
  outcomes-ToldAlike (err camera_not_registered) s some_id = refused 400 _ (omega arith) refl refl
  outcomes-ToldAlike (err invalid_role) s some_id = refused 400 _ (omega arith) refl refl
  outcomes-ToldAlike (err invalid_token) s some_id = refused 401 _ (omega arith) refl refl
  outcomes-ToldAlike (err permission_denied) s some_id = refused 403 _ (omega arith) refl refl
  outcomes-ToldAlike (err cross_tenant_access) s some_id = refused 403 _ (omega arith) refl refl
  outcomes-ToldAlike (err content_hash_mismatch) s some_id = hidden _ refl refl
  outcomes-ToldAlike (err (dependency what)) s some_id = elim (Bool-cases (what == "")) [
    | inl empty ↦ blank refl (rw empty refl)
    | inr named ↦ hidden what refl (rw named refl)
  ]

  new_id-not_empty : (prefix fresh : String) → new_id prefix fresh ≢ ""
  unfolding new_id
  new_id-not_empty prefix fresh h = separated-not_empty prefix fresh h

  uploaded_id :
      (bytes : List ℕ) (s : State f.Score) (c : Clip f.Score)
      → (uploaded bytes s).0 ≡ ok c
      → c.id ≡ new_id "clip" env.fresh
  unfolding Service.upload_clip new_clip
  uploaded_id bytes s c done = ground arith

  -- An upload over HTTP, of a token that verifies, is answered as `UploadClip` says.
  http_upload_lem :
      (bytes : List ℕ) (s : State f.Score)
      → token ≢ ""
      → env.verify token ≡ some claims
      → http_upload bytes s
        ≡ (response_of (uploaded bytes s).0 (uploaded bytes s).1, (uploaded bytes s).1)
  unfolding serve handle authenticate
  http_upload_lem bytes s some_token verified = elim (Result-cases (uploaded bytes s).0) [
    | inl (c, done) ↦ ground (arith, after_bearer-bearer_header token, eq_iff token "")
    | inr (e, refused_by) ↦ ground (arith, after_bearer-bearer_header token, eq_iff token "")
  ]

  -- When the transfer of a clip that is not empty is done, the gateway stores of it just what it
  -- would of an upload of that clip over HTTP at that moment with the same token, for a token that
  -- verifies. What edge-agent makes of the ack is, beside what its HTTP client makes of the
  -- response: the same identifier of the clip; a rejection with the same message, but with status 0
  -- where HTTP has one below 500; or, where HTTP has status 500 and "internal error", a rejection
  -- with status 0, or the complaint that the ack names no clip.
  pub channel-upload :
      (bytes : List ℕ) (n : ℕ) (l : Link) (s : State f.Score)
      → token ≢ ""
      → env.verify token ≡ some claims
      → 0 < length bytes
      → After bytes n l
      → l.receiver.done ≡ true
      → ((channel_upload l s).1 ≡ (http_upload bytes s).1)
        × ToldAlike (channel_outcome (channel_upload l s).0) (http_outcome (http_upload bytes s).0)
  unfolding handle_clip_data_channel
  channel-upload bytes n l s some_token verified some_bytes a finished =
      let whole = After-intact bytes n l some_bytes a finished in
      let named : (c : Clip f.Score) → (uploaded bytes s).0 ≡ ok c → c.id ≢ "" =
        λ c done. rw (uploaded_id bytes s c done) (new_id-not_empty "clip" env.fresh) in
      rw (finished, whole, http_upload_lem bytes s some_token verified)
        (refl, outcomes-ToldAlike (uploaded bytes s).0 (uploaded bytes s).1 named)
