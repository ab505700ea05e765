-- ===== src/MediaIngest/Http/Channel.antt =====
-- services/media-ingest-gateway/internal/httpapi/webrtc.go: what becomes of the messages of a data
-- channel, after its offer was answered.
use cricket_drs_system.Prelude.{
  ℕ, String, Bool, false, ◌||◌, Option, none, some, List, [], ◌∷◌, ◌++◌, length, take, leb,
  if◌then◌else◌,
}
use cricket_drs_system.Exec.{Result, ok, err}
use cricket_drs_system.MediaIngest.Domain.{OrganizationId, MatchId, CameraId, Scores, Clip, Error}
use cricket_drs_system.MediaIngest.Service
use cricket_drs_system.MediaIngest.Service.{State, Caller}
use cricket_drs_system.MediaIngest.Http.{Environment, message}

-- The buffer of `handleClipDataChannel`, with whether `done` is closed.
pub record Receiver : Type 0 where
  pub size : ℕ
  pub buf : List ℕ
  pub done : Bool

unfoldable pub new_receiver : ℕ → Receiver
new_receiver size = record { size = size; buf = []; done = false }

-- `OnMessage`; closing `done` a second time is skipped
unfoldable pub on_message : List ℕ → Receiver → Receiver
on_message msg r = record r {
  buf = r.buf ++ msg;
  done = leb r.size (length (r.buf ++ msg)) || r.done;
}

unfoldable pub receive : List (List ℕ) → Receiver → Receiver
receive [] r = r
receive (msg ∷ msgs) r = receive msgs (on_message msg r)

-- `ackMessage` of the client, and the struct that the gateway encodes: an empty text is left out.
pub record Ack : Type 0 where
  pub clip_id : String
  pub error : String

module _ (f : Scores) where
  abbrev pub ack_of : Result Error (Clip f.Score) → Ack
  ack_of (ok c) = record { clip_id = c.id; error = "" }
  ack_of (err e) = record { clip_id = ""; error = message e }

  -- `handleClipDataChannel`, of what was received when its wait ends: with all bytes, or by a
  -- timeout, and then nothing is stored and nothing is sent
  unfoldable pub handle_clip_data_channel :
      Environment
      → Caller
      → String
      → OrganizationId
      → MatchId
      → CameraId
      → Receiver
      → State f.Score
      → Option Ack × State f.Score
  handle_clip_data_channel env caller token org match_id camera_id r s =
      let (clip, s') =
        Service.upload_clip f env.cameras env.hash caller token org match_id camera_id
          (some (take r.size r.buf)) env.fresh env.now s in
      if r.done then (some (ack_of clip), s') else (none, s)
