-- ===== src/EdgeAgent/Server.antt =====
-- edge-agent/cmd/main.go: the local HTTP server. Logging is left out; the JPEG library and the
-- uploader are parameters.
pub mod Audio
pub mod Trigger
use cricket_drs_system.Prelude.{
  ℕ, zero, suc, String, Bool, ◌&&◌, Option, some, none, List, [], ◌∷◌, ◌++◌, length, leb, ltb,
  if◌then◌else◌,
}
use cricket_drs_system.Prelude.Int.{ℤ}
use cricket_drs_system.Exec.{Result, ok, err}
use cricket_drs_system.EdgeAgent.Buffer.{Frame, AudioChunk, RingBuffer, snapshot}
use cricket_drs_system.EdgeAgent.ClipFormat.{Jpeg, ClipError}
use cricket_drs_system.EdgeAgent.ClipFormat
use cricket_drs_system.EdgeAgent.Wav
use cricket_drs_system.EdgeAgent.Config.{Config}
use cricket_drs_system.EdgeAgent.Upload.{UploadError, rejected, failed, Uploader, upload_with_retry}

pub data Body : Type 0 where
  text error : String → Body
  -- `err.Error()` of a rejection, and the text around the last failure
  rejection : ℕ → String → Body
  failure : String → Body
  triggered : String → ℕ → Body
  audio : List ℕ → Body

pub record Response : Type 0 where
  pub status : ℕ
  pub body : Body

-- `server`; the audio buffer is absent without a microphone
pub record Server (Image : Type 0) : Type 0 where
  pub cfg : Config
  pub ring : RingBuffer (Frame Image)
  pub audio_ring : Option (RingBuffer AudioChunk)

-- The status for a rejection: a client error is passed on.
unfoldable pub rejected_status : ℕ → ℕ
rejected_status status = if leb 400 status && ltb status 500 then status else 502

-- The answer to an upload's outcome.
unfoldable pub report : ℕ → Result UploadError String → Response
unfolding rejected_status
report count (ok id) = record { status = 200; body = triggered id count }
report count (err (rejected status message)) = record {
  status = rejected_status status;
  body = rejection status message;
}
report count (err (failed what)) = record { status = 502; body = failure what }

module _ {Image World : Type 0} (jpeg : Jpeg Image) (u : Uploader World) where
  push : Config → ℕ → Result ClipError (List ℕ) → World → Response × World
  unfolding report
  push cfg count (err e) w = (record { status = 500; body = error "failed to encode clip" }, w)
  push cfg count (ok encoded) w =
      let (outcome, w') =
        upload_with_retry u cfg.bearer_token cfg.org_id cfg.match_id cfg.camera_id encoded w in
      (report count outcome, w')

  push_frames : Config → List (Frame Image) → World → Response × World
  unfolding push
  push_frames cfg [] w = (record { status = 503; body = error "no frames buffered yet" }, w)
  push_frames cfg (f ∷ fs) w = push cfg (length (f ∷ fs)) (ClipFormat.encode jpeg (f ∷ fs)) w

  -- `handleTrigger`
  unfoldable pub handle_trigger : Server Image → World → Response × World
  unfolding push_frames
  handle_trigger s w = push_frames s.cfg (snapshot s.ring) w

-- The samples of all chunks, oldest first
unfoldable pub all_samples : List AudioChunk → List ℤ
all_samples [] = []
all_samples (c ∷ cs) = c.samples ++ all_samples cs

unfoldable pub export_audio : List AudioChunk → Response
export_audio [] = record { status = 503; body = error "no audio buffered yet" }
export_audio (c ∷ cs) = record {
  status = 200;
  body = audio (Wav.encode (all_samples (c ∷ cs)) c.sample_rate 1);
}

-- `handleAudioSnapshot`
unfoldable pub handle_audio_snapshot : {Image : Type 0} → Server Image → Response
unfolding export_audio
handle_audio_snapshot s = elim s.audio_ring [
  | none ↦ record { status = 503; body = error "no microphone available" }
  | some ring ↦ export_audio (snapshot ring)
]
