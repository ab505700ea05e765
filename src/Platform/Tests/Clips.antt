-- ===== src/Platform/Tests/Clips.antt =====
-- A trigger at the venue, and a download from the gateway.
use cricket_drs_system.Prelude.{
  ℕ, ◌≡◌, refl, String, some, none, List, [], ◌∷◌, map, arith, string_eq,
}
use cricket_drs_system.Prelude.Int.{pos}
use cricket_drs_system.Exec.{ok}
use cricket_drs_system.Bearer.{after, after_bearer}
use cricket_drs_system.EdgeAgent.Buffer.{snapshot}
use cricket_drs_system.EdgeAgent.ClipFormat
use cricket_drs_system.EdgeAgent.ClipFormat.{encode_frames}
use cricket_drs_system.EdgeAgent.ClipFormat.RoundTrip.{as_stored}
use cricket_drs_system.EdgeAgent.Bytes.{big_endian}
use cricket_drs_system.EdgeAgent.Config.{Config}
use cricket_drs_system.EdgeAgent.Server.{Server, triggered, handle_trigger}
use cricket_drs_system.EdgeAgent.Tests.{jpeg, frame, frame-Fits}
use cricket_drs_system.EdgeAgent.Upload.{
  Post, Escapes, upload, classify, upload_with_retry, attempts,
}
use cricket_drs_system.MediaIngest.Domain.{Clip, new_clip, can_upload_clips}
use cricket_drs_system.MediaIngest.Store.{put_object, create_clip}
use cricket_drs_system.MediaIngest.Service as Gateway
use cricket_drs_system.MediaIngest.Service.{State, download_clip, new_id}
use cricket_drs_system.MediaIngest.Http.{
  Environment, Response, handle, serve, bearer_token, to_clip_response,
}
use cricket_drs_system.MediaIngest.Http
use cricket_drs_system.MediaIngest.Tests.{scores, env, member, empty}
use cricket_drs_system.Platform.Clips.{Reaches, reply_of, trigger-download}

abbrev text : Response ℕ → String
text r = ""

abbrev escapes : Escapes
escapes = record { path_escape = λ s. s; camera_query = λ s. s }

-- The network of one venue, whose posts are all for one match and camera.
abbrev cfg : Config
cfg = record {
  gateway_url = "g";
  bearer_token = "t";
  org_id = "club";
  match_id = "final";
  camera_id = "cam";
  camera_device_label = "";
  buffer_window = pos 10;
  port = "9090";
  upload_transport = "http";
}

abbrev network : Post (State ℕ)
network url header bytes m =
    let (r, m') = serve scores env header (Http.upload_clip "club" "final" "cam" (some bytes)) m in
    (some (reply_of text r), m')

network-Reaches : Reaches scores network escapes cfg (λ m. env) text
network-Reaches bytes m = refl

abbrev server : Server ℕ
server = record {
  cfg = cfg;
  ring = record { window = pos 10; items = frame 7 9 ∷ [] };
  audio_ring = none;
}

answered :
    (handle_trigger jpeg (upload network escapes "g") server empty).0
    ≡ record { status = 200; body = triggered (new_id "clip" "1") 1 }
unfolding handle_trigger snapshot ClipFormat.encode encode_frames upload_with_retry attempts upload
    classify serve handle bearer_token after_bearer after Gateway.authenticate Gateway.upload_clip
    new_clip put_object create_clip can_upload_clips to_clip_response new_id big_endian
answered = refl

trigger-download_example :
    (c : Clip ℕ) × (bytes : List ℕ) × (((download_clip scores member "club" "final"
          (new_id "clip" "1")
          (handle_trigger jpeg (upload network escapes "g") server empty).1).0
        ≡ ok (c, bytes))
      × (ClipFormat.decode jpeg bytes ≡ ok (map (as_stored jpeg) (snapshot server.ring))))
trigger-download_example =
    trigger-download scores network escapes cfg (λ m. env) text network-Reaches jpeg server empty
      (new_id "clip" "1") 1 member refl (unfold snapshot in (frame-Fits 7 9 (omega arith), tt))
      (unfold snapshot in omega arith) refl answered
