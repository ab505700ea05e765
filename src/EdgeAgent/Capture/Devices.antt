-- ===== src/EdgeAgent/Capture/Devices.antt =====
-- edge-agent/internal/capture: opening and closing the camera and the microphone, the list of
-- devices, and `Camera.Read`. The media library, github.com/pion/mediadevices, is a record of the
-- calls that the code makes of it; every call may change the world, and listing the devices gives
-- them new identifiers.
use cricket_drs_system.Prelude.{
  ℕ, String, Bool, Option, none, some, List, [], ◌∷◌, ◌==◌, string_eq, if◌then◌else◌,
}
use cricket_drs_system.Prelude.Int.{pos, Time}
use cricket_drs_system.Exec.{Result, ok, err}
use cricket_drs_system.EdgeAgent.Buffer.{Frame}
use cricket_drs_system.EdgeAgent.Capture.{DeviceInfo, Microphone, resolve_device_id}

-- A device as the library lists it
pub record Device : Type 0 where
  pub device_id : String
  pub is_video_input : Bool
  pub label : String

-- The constraints that `Open` sets: sizes and rate are ideal, the device is exact where it is set.
pub record VideoConstraints : Type 0 where
  pub width : ℕ
  pub height : ℕ
  pub frame_rate : ℕ
  pub device_id : Option String

pub record AudioConstraints : Type 0 where
  pub channel_count : ℕ
  pub sample_rate : ℕ

-- A track of a stream, as the type assertion sees it: `none` where it is of another type.
pub record Media (Track World : Type 0) : Type 0 where
  pub enumerate_devices : World → List Device × World
  pub get_video : VideoConstraints → World → Option (List (Option Track)) × World
  pub get_audio : AudioConstraints → World → Option (List (Option Track)) × World
  pub close : Track → World → Bool × World

pub data CaptureError : Type 0 where
  no_device : String → CaptureError
  not_opened no_track unexpected_track not_read : CaptureError

-- The loop of `ListDevices`
unfoldable pub video_inputs : List Device → List DeviceInfo
video_inputs [] = []
video_inputs (d ∷ ds) =
    let rest = video_inputs ds in
    if d.is_video_input then record { device_id = d.device_id; label = d.label } ∷ rest else rest

-- `deviceID != ""`
unfoldable pub pinned : String → Option String
pinned id = if id == "" then none else some id

-- The first track of a stream.
unfoldable pub first_track :
    {Track : Type 0} → Option (List (Option Track)) → Result CaptureError Track
first_track none = err not_opened
first_track (some []) = err no_track
first_track (some (none ∷ tracks)) = err unexpected_track
first_track (some (some t ∷ tracks)) = ok t

module _ {Track World : Type 0} (media : Media Track World) where
  -- `ListDevices`
  unfoldable pub list_devices : World → List DeviceInfo × World
  unfolding video_inputs
  list_devices w = let (devices, w') = media.enumerate_devices w in (video_inputs devices, w')

  -- What `Open` does once the device is resolved.
  unfoldable pub open_resolved :
      ℕ → ℕ → ℕ → Result String String → World → Result CaptureError Track × World
  unfolding first_track pinned
  open_resolved width height frame_rate (err label) w = (err (no_device label), w)
  open_resolved width height frame_rate (ok id) w =
      let (stream, w') =
        media.get_video
          (record {
            width = width;
            height = height;
            frame_rate = frame_rate;
            device_id = pinned id;
          })
          w in
      (first_track stream, w')

  -- `resolveDeviceID`, which lists the devices only where a label is given
  unfoldable pub resolve : (String → String → Bool) → String → World → Result String String × World
  resolve contains label w =
      let (devices, w') = list_devices w in
      if label == "" then (ok "", w) else (resolve_device_id contains devices label, w')

  -- `Open`; `contains` is `strings.Contains` after `strings.ToLower` of both
  unfoldable pub open_camera :
      (String → String → Bool) → ℕ → ℕ → ℕ → String → World → Result CaptureError Track × World
  unfolding resolve open_resolved
  open_camera contains width height frame_rate label w =
      let (id, w') = resolve contains label w in open_resolved width height frame_rate id w'

  -- `OpenMicrophone`, with the track and what `Read` counts with; the clock reads `now`
  unfoldable pub open_microphone :
      ℕ → Time → World → Result CaptureError (Track × Microphone) × World
  unfolding first_track
  open_microphone sample_rate now w =
      let (stream, w') =
        media.get_audio (record { channel_count = 1; sample_rate = sample_rate }) w in
      (
        elim (first_track stream) [
          | err e ↦ err e
          | ok t ↦ ok (t, record { stream_start = now; samples_read = pos 0 })
        ],
        w',
      )

  -- `Camera.Close` and `Microphone.Close`
  unfoldable pub close_track : Track → World → Bool × World
  close_track t w = media.close t w

-- `Camera.Read`, of what the library's reader gives; `clone` is `cloneImage`, over image/draw, and
-- the clock reads `now`
unfoldable pub read_frame :
    {Given Image : Type 0}
    → (Given → Image)
    → Option Given
    → Time
    → Result CaptureError (Frame Image)
read_frame clone none now = err not_read
read_frame clone (some given) now = ok (record { image = clone given; captured_at = now })
