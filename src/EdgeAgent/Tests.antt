-- ===== src/EdgeAgent/Tests.antt =====
-- The theorems of edge-agent at concrete inputs: images that are one byte, and a gateway that fails
-- once and then accepts.
mod Audio
mod Capture
mod Main
mod WebRtc
use cricket_drs_system.Prelude.{
  texts_differ, ℕ, zero, suc, ◌+◌, ◌*◌, ◌≤◌, ◌-◌, String, ◌≡◌, refl, Option, some, none, List, [],
  ◌∷◌, length, take, drop, arith, if◌then◌else◌, ◌==◌, string_eq,
}
use cricket_drs_system.Prelude.Int.{ℤ, pos, negsuc, Time, ◌-ℤ◌}
use cricket_drs_system.Exec.{Result, ok, err}
use cricket_drs_system.EdgeAgent.Buffer.{Frame, new_ring_buffer, snapshot}
use cricket_drs_system.EdgeAgent.Buffer.Window.{since, adds, snapshot-adds}
use cricket_drs_system.EdgeAgent.Bytes.{big_endian, read_little_endian, to_word64}
use cricket_drs_system.EdgeAgent.ClipFormat
use cricket_drs_system.EdgeAgent.ClipFormat.{Jpeg, ClipError, encode_frames}
use cricket_drs_system.EdgeAgent.ClipFormat.RoundTrip.{Fits, decode-encode}
use cricket_drs_system.EdgeAgent.ClipFormat.Truncated.{decode-truncated}
use cricket_drs_system.EdgeAgent.Wav
use cricket_drs_system.EdgeAgent.Wav.{encode-layout, read_samples}
use cricket_drs_system.EdgeAgent.Config.{
  Config, seconds, load, first_missing, buffer_seconds, upload_transport,
}
use cricket_drs_system.EdgeAgent.Config.Overflow.{Loaded, load-Loaded, snapshot-overflow}
use cricket_drs_system.EdgeAgent.Upload.{UploadError, failed, Uploader, upload_with_retry, attempts}
use cricket_drs_system.EdgeAgent.Upload.Retry.{Decided, upload_with_retry-Decided}
use cricket_drs_system.EdgeAgent.Server.{Server, triggered, handle_trigger}
use cricket_drs_system.EdgeAgent.Server.Trigger.{Uploaded, handle_trigger-Uploaded}

unfoldable pub one_byte : List ℕ → Option ℕ
one_byte (n ∷ []) = some n
one_byte _ = none

pub read_byte :
    (n : ℕ) (bytes : List ℕ)
    → ◌≡◌ {A = Option (List ℕ)} (some (n ∷ [])) (some bytes)
    → one_byte bytes ≡ some n
unfolding one_byte
read_byte n bytes e = ground arith

abbrev pub jpeg : Jpeg ℕ
jpeg = record {
  encode = λ n. some (n ∷ []);
  decode = one_byte;
  compressed = λ n. n;
  decode-encode = read_byte;
}

abbrev pub frame : ℕ → ℕ → Frame ℕ
frame n t = record { image = n; captured_at = pos t }

abbrev pub at : Frame ℕ → Time
at f = f.captured_at

pub frame-Fits : (n t : ℕ) → t ≤ 100 → Fits jpeg (frame n t)
frame-Fits n t h = record {
  after_first = omega (arith, h);
  before_last = omega (arith, h);
  size = λ bytes e. ground arith;
}

abbrev clip : List ℕ
clip =
    67 ∷ 68 ∷ 82 ∷ 83 ∷ 67 ∷ 76 ∷ 73 ∷ 80 ∷ 1 ∷ 0 ∷ 0 ∷ 0 ∷ 1 ∷ 0 ∷ 0 ∷ 0 ∷ 0 ∷ 0 ∷ 0 ∷ 0 ∷ 9 ∷ 0
    ∷ 0 ∷ 0 ∷ 1 ∷ 7 ∷ []

encoded : ClipFormat.encode jpeg (frame 7 9 ∷ []) ≡ ok clip
unfolding ClipFormat.encode encode_frames big_endian to_word64
encoded = refl

decode-encode_example : ClipFormat.decode jpeg clip ≡ ok (frame 7 9 ∷ [])
decode-encode_example =
    decode-encode jpeg (frame 7 9 ∷ []) clip (frame-Fits 7 9 (omega arith), tt) (omega arith)
      encoded

-- All but the last byte.
decode-truncated_example : (e : ClipError) × (ClipFormat.decode jpeg (take 25 clip) ≡ err e)
decode-truncated_example =
    decode-truncated jpeg (frame 7 9 ∷ []) clip (take 25 clip) (drop 25 clip)
      (frame-Fits 7 9 (omega arith), tt) (omega arith) encoded refl (omega arith)

abbrev samples : List ℤ
samples = pos 1 ∷ negsuc 0 ∷ negsuc 32767 ∷ []

-- The world counts the attempts; the second is accepted.
second : ℕ → Result UploadError String
second zero = err (failed "timeout")
second (suc n) = ok "clip_1"

abbrev gateway : Uploader ℕ
gateway token org_id match_id camera_id bytes n = (second n, suc n)

upload_with_retry-Decided_example :
    Decided
      (gateway "t" "club" "final" "cam" clip)
      3
      0
      (upload_with_retry gateway "t" "club" "final" "cam" clip 0)
upload_with_retry-Decided_example =
    upload_with_retry-Decided gateway "t" "club" "final" "cam" clip 0

abbrev pub environment : String → String
environment name =
    if name == "PORT"
    then ""
    else if name == "BUFFER_SECONDS"
    then "30"
    else if name == "UPLOAD_TRANSPORT"
    then ""
    else "x"

abbrev pub atoi : String → Option ℤ
atoi s = if s == "30" then some (pos 30) else none

abbrev cfg : Config
cfg = record {
  gateway_url = "x";
  bearer_token = "x";
  org_id = "x";
  match_id = "x";
  camera_id = "x";
  camera_device_label = "x";
  buffer_window = seconds 30;
  port = "9090";
  upload_transport = "http";
}

configured :
    load environment atoi
      ("ORG_ID" ∷ "CAMERA_ID" ∷ "GATEWAY_URL" ∷ "MATCH_ID" ∷ "BEARER_TOKEN" ∷ [])
    ≡ ok cfg
unfolding load first_missing buffer_seconds upload_transport
configured = refl

-- The same environment, whose number of seconds is read as one that overflows.
abbrev atoi_large : String → Option ℤ
atoi_large s = some (pos 10000000000)

abbrev order : List String
order = "ORG_ID" ∷ "CAMERA_ID" ∷ "GATEWAY_URL" ∷ "MATCH_ID" ∷ "BEARER_TOKEN" ∷ []

snapshot-overflow_example :
    (c : Config) × (m : ℕ) × (load environment atoi_large order ≡ ok c)
    × (c.buffer_window ≡ negsuc m)
    × (snapshot (adds at (frame 1 0 ∷ frame 2 5 ∷ []) (new_ring_buffer c.buffer_window)) ≡ [])
snapshot-overflow_example =
    snapshot-overflow at environment atoi_large order 10000000000 "http" (frame 1 0 ∷ [])
      (frame 2 5) (unfold first_missing in refl) (unfold upload_transport in refl)
      (texts_differ "30" "" refl) refl (omega arith) (omega arith) ((omega arith, tt), (tt, tt))

abbrev pub server : Server ℕ
server = record {
  cfg = cfg;
  ring = record { window = pos 10; items = frame 7 9 ∷ [] };
  audio_ring = none;
}

answered :
    (handle_trigger jpeg gateway server 0).0 ≡ record { status = 200; body = triggered "clip_1" 1 }
unfolding handle_trigger snapshot ClipFormat.encode encode_frames upload_with_retry attempts second
answered = refl

handle_trigger-Uploaded_example : Uploaded jpeg gateway server 0 "clip_1" 1
handle_trigger-Uploaded_example =
    handle_trigger-Uploaded jpeg gateway server 0 "clip_1" 1
      (unfold snapshot in (frame-Fits 7 9 (omega arith), tt)) (unfold snapshot in omega arith)
      answered
