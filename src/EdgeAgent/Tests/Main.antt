-- ===== src/EdgeAgent/Tests/Main.antt =====
-- An agent whose camera opens and has given a frame, and whose microphone does not open. The world counts the listings, and
-- every listing gives the devices new identifiers.
use cricket_drs_system.Prelude.{
  ℕ, suc, String, ◌≡◌, refl, length, Bool, true, false, some, none, [], ◌∷◌, ◌==◌, string_eq,
}
use cricket_drs_system.Prelude.Int.{pos, ◌-ℤ◌}
use cricket_drs_system.Exec.{ok, err}
use cricket_drs_system.EdgeAgent.Capture.Devices.{
  Device, Media, list_devices, open_camera, open_microphone,
}
use cricket_drs_system.EdgeAgent.Buffer.{add, snapshot, new_ring_buffer}
use cricket_drs_system.EdgeAgent.Agent.{capture_loop}
use cricket_drs_system.EdgeAgent.Bytes.{of_word64}
use cricket_drs_system.EdgeAgent.Capture.{resolve_device_id}
use cricket_drs_system.EdgeAgent.Config.{
  seconds, load, buffer_seconds, upload_transport, first_missing,
}
use cricket_drs_system.EdgeAgent.Main.{Surroundings, Outcome, exits, serves, main}
use cricket_drs_system.EdgeAgent.Tests.{environment, atoi, frame}

abbrev device : Bool → String → String → Device
device is_video id label = record { device_id = id; is_video_input = is_video; label = label }

-- A microphone, a software camera and the camera that is meant, named "x"
abbrev media : Media String ℕ
media = record {
  enumerate_devices = λ n.
      (device false "mic" "x" ∷ device true "soft" "virtual" ∷ device true "usb" "x" ∷ [], suc n);
  get_video = λ c n.
      (elim c.device_id [ none ↦ some (some "any" ∷ []) | some id ↦ some (some id ∷ []) ], n);
  get_audio = λ c n. (none, n);
  close = λ t n. (true, n);
}

abbrev same_label : String → String → Bool
same_label label text = label == text

abbrev surroundings : Bool → Surroundings ℕ ℕ
surroundings listens = record {
  frames = none ∷ some (frame 1 0) ∷ [];
  offset = λ samples rate. pos 0;
  chunks = [];
  listen = λ port n. (listens, n);
  getenv = environment;
  atoi = atoi;
  order = "ORG_ID" ∷ "CAMERA_ID" ∷ "GATEWAY_URL" ∷ "MATCH_ID" ∷ "BEARER_TOKEN" ∷ [];
  now = pos 0;
  contains = same_label;
  post = λ url header bytes n. (none, n);
  escapes = record { path_escape = λ s. s; camera_query = λ s. s };
  peer = record {
    Answer = Unit;
    offer = λ w. (err "no network", w);
    do_request = λ url header body w. (none, w);
    connect = λ a w. (ok tt, w);
    send = λ message w. (ok tt, w);
    wait_ack = λ w. (none, w);
  };
  peer_escapes = record { path_escape = λ s. s; offer_query = λ camera size. camera };
}

-- Of the outcome: the exit code, or how many frames are buffered.
abbrev seen : Outcome ℕ String ℕ → ℕ × ℕ
seen (exits n) = (n, 0)
seen (serves r) = (0, length (snapshot r.server.ring))

serves_with_a_frame : seen (main (surroundings true) media 0).0 ≡ (0, 1)
unfolding main load buffer_seconds upload_transport first_missing open_camera open_microphone
    list_devices capture_loop add snapshot new_ring_buffer resolve_device_id ◌-ℤ◌ seconds of_word64
serves_with_a_frame = refl

port_taken : seen (main (surroundings false) media 0).0 ≡ (1, 0)
unfolding main load buffer_seconds upload_transport first_missing open_camera open_microphone
    list_devices resolve_device_id
port_taken = refl
