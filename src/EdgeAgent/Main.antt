-- ===== src/EdgeAgent/Main.antt =====
-- edge-agent/cmd/main.go: `main`, up to the local server that it starts. What it reads of its
-- surroundings, what the devices give until then, and the libraries, are parameters; logging is
-- left out.
use cricket_drs_system.Prelude.{ℕ, String, Bool, Option, none, some, List, if◌then◌else◌}
use cricket_drs_system.Prelude.Int.{ℤ, Time}
use cricket_drs_system.Exec.{Result, ok, err}
use cricket_drs_system.EdgeAgent.Buffer.{RingBuffer, AudioChunk, Frame, new_ring_buffer}
use cricket_drs_system.EdgeAgent.Capture.{Microphone, Chunk, Offset}
use cricket_drs_system.EdgeAgent.Capture.Devices.{
  Media, CaptureError, list_devices, open_camera, open_microphone,
}
use cricket_drs_system.EdgeAgent.Config.{Config, ConfigError, load}
use cricket_drs_system.EdgeAgent.Upload
use cricket_drs_system.EdgeAgent.Upload.{Uploader, Post}
use cricket_drs_system.EdgeAgent.WebRtc
use cricket_drs_system.EdgeAgent.WebRtc.{Peer}
use cricket_drs_system.EdgeAgent.Agent.{upload_client, capture_loop, audio_capture_loop}
use cricket_drs_system.EdgeAgent.Server.{Server}

abbrev pub capture_width : ℕ
capture_width = 640

abbrev pub capture_height : ℕ
capture_height = 480

abbrev pub capture_frame_rate : ℕ
capture_frame_rate = 30

abbrev pub capture_sample_rate : ℕ
capture_sample_rate = 48000

-- The environment, what the clock reads when the microphone is opened, `strings.Contains` after
-- `strings.ToLower` of both, the clients' libraries, and what the two capture loops have read when
-- the server starts.
pub record Surroundings (Image World : Type 0) : Type 1 where
  pub getenv : String → String
  pub atoi : String → Option ℤ
  pub order : List String
  pub now : Time
  pub contains : String → String → Bool
  pub post : Post World
  pub escapes : Upload.Escapes
  pub peer : Peer World
  pub peer_escapes : WebRtc.Escapes
  pub frames : List (Option (Frame Image))
  pub offset : Offset
  pub chunks : List (Option Chunk)
  -- whether `http.ListenAndServe` gets its listener at the port
  pub listen : String → World → Bool × World

-- The agent when it begins to serve: the loop of the camera fills the ring, and that of the
-- microphone, where there is one, the audio ring.
pub record Running (Image Track World : Type 0) : Type 0 where
  pub server : Server Image
  pub camera : Track
  pub microphone : Option (Track × Microphone)
  pub uploader : Uploader World
  pub port : String

-- The program's exit code, or that it serves; that lasts until the listener fails, with code 1.
pub data Outcome (Image Track World : Type 0) : Type 0 where
  exits : ℕ → Outcome Image Track World
  serves : Running Image Track World → Outcome Image Track World

-- A microphone that does not open is not fatal.
unfoldable pub or_without :
    {Track : Type 0} → Result CaptureError (Track × Microphone) → Option (Track × Microphone)
or_without (ok m) = some m
or_without (err e) = none

-- The microphone, where there is one, with its ring after what its loop has read.
abbrev pub Audio : Type 0 → Type 0
Audio Track = Option ((Track × Microphone) × RingBuffer AudioChunk)

abbrev with_track :
    {Track : Type 0} → Track → Option (Microphone × RingBuffer AudioChunk) → Option (Audio Track)
with_track t none = none
with_track t (some (m, b)) = some (some ((t, m), b))

-- `none` where a read panics, which ends the program
unfoldable pub audio_for :
    {Track : Type 0}
    → Offset
    → List (Option Chunk)
    → ℤ
    → Option (Track × Microphone)
    → Option (Audio Track)
audio_for offset chunks window none = some none
audio_for offset chunks window (some (t, m)) =
    with_track t (audio_capture_loop offset chunks m (new_ring_buffer window))

abbrev microphone_of : {Track : Type 0} → Audio Track → Option (Track × Microphone)
microphone_of none = none
microphone_of (some (m, b)) = some m

abbrev audio_ring_of : {Track : Type 0} → Audio Track → Option (RingBuffer AudioChunk)
audio_ring_of none = none
audio_ring_of (some (m, b)) = some b

module _ {Image Track World : Type 0} (e : Surroundings Image World)
    (media : Media Track World) where
  -- The camera is opened in the world that the listing for the log leaves.
  abbrev pub camera_at : Config → World → Result CaptureError Track × World
  camera_at cfg w =
      open_camera media e.contains capture_width capture_height capture_frame_rate
        cfg.camera_device_label (list_devices media w).1

  -- `http.ListenAndServe`
  listen_and_serve : Running Image Track World → World → Outcome Image Track World × World
  listen_and_serve r w =
      let (listens, w') = e.listen r.port w in if listens then (serves r, w') else (exits 1, w')

  -- A panic in the loop of the microphone exits with code 2.
  with_audio : Config → Track → Option (Audio Track) → World → Outcome Image Track World × World
  unfolding listen_and_serve
  with_audio cfg cam none w = (exits 2, w)
  with_audio cfg cam (some audio) w =
      listen_and_serve
        (record {
          server = record {
            cfg = cfg;
            ring = capture_loop (λ x. x.captured_at) e.frames (new_ring_buffer cfg.buffer_window);
            audio_ring = audio_ring_of audio;
          };
          camera = cam;
          microphone = microphone_of audio;
          uploader = upload_client e.post e.escapes e.peer e.peer_escapes cfg;
          port = cfg.port;
        })
        w

  unfoldable pub started :
      Config
      → Track
      → Result CaptureError (Track × Microphone) × World
      → Outcome Image Track World × World
  unfolding or_without audio_for with_audio
  started cfg cam (mic, w) =
      with_audio cfg cam (audio_for e.offset e.chunks cfg.buffer_window (or_without mic)) w

  unfoldable pub with_camera :
      Config → Result CaptureError Track × World → Outcome Image Track World × World
  unfolding started
  with_camera cfg (err x, w) = (exits 1, w)
  with_camera cfg (ok cam, w) = started cfg cam (open_microphone media capture_sample_rate e.now w)

  unfoldable pub with_config : Result ConfigError Config → World → Outcome Image Track World × World
  unfolding with_camera
  with_config (err x) w = (exits 1, w)
  with_config (ok cfg) w = with_camera cfg (camera_at cfg w)

  -- `main`
  unfoldable pub main : World → Outcome Image Track World × World
  unfolding with_config
  main w = with_config (load e.getenv e.atoi e.order) w
