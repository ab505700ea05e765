-- ===== src/EdgeAgent/Server/Trigger.antt =====
-- What a trigger that is answered with a clip has done.
use cricket_drs_system.Prelude.{
  ℕ, ◌<◌, ◌^◌, String, ◌≡◌, sym, ◌∙◌, inl, inr, List, [], ◌∷◌, map, length, All, arith,
}
use cricket_drs_system.Exec.{Result, ok, err, Result-cases}
use cricket_drs_system.EdgeAgent.Buffer.{Frame, snapshot}
use cricket_drs_system.EdgeAgent.ClipFormat
use cricket_drs_system.EdgeAgent.ClipFormat.{Jpeg}
use cricket_drs_system.EdgeAgent.ClipFormat.RoundTrip.{Fits, as_stored, decode-encode}
use cricket_drs_system.EdgeAgent.Config.{Config}
use cricket_drs_system.EdgeAgent.Upload.{UploadError, rejected, failed, Uploader, upload_with_retry}
use cricket_drs_system.EdgeAgent.Upload.Retry.{after, AllFailed, upload_with_retry-Decided}
use cricket_drs_system.EdgeAgent.Server.{
  Server, triggered, report, push, push_frames, handle_trigger,
}

report_triggered :
    (count : ℕ) (outcome : Result UploadError String) (id : String) (n : ℕ)
    → report count outcome ≡ record { status = 200; body = triggered id n }
    → (outcome ≡ ok id) × (count ≡ n)
unfolding report
report_triggered count (ok i) id n h = ground arith
report_triggered count (err (rejected status message)) id n h = ground arith
report_triggered count (err (failed what)) id n h = ground arith

-- One attempt of a trigger's upload.
abbrev pub attempt :
    {World : Type 0} → Uploader World → Config → List ℕ → World → Result UploadError String × World
attempt u cfg bytes = u cfg.bearer_token cfg.org_id cfg.match_id cfg.camera_id bytes

module _ {Image World : Type 0} (jpeg : Jpeg Image) (u : Uploader World) where
  -- The clip that a trigger has uploaded.
  pub record Uploaded (s : Server Image) (w : World) (id : String) (n : ℕ) : Type 0 where
    pub bytes : List ℕ
    pub content : ClipFormat.decode jpeg bytes ≡ ok (map (as_stored jpeg) (snapshot s.ring))
    pub count : n ≡ length (snapshot s.ring)
    pub earlier : ℕ
    pub bound : earlier < 3
    pub failures : AllFailed (attempt u s.cfg bytes) earlier w
    pub accepted : (attempt u s.cfg bytes (after (attempt u s.cfg bytes) earlier w)).0 ≡ ok id
    pub left :
        (handle_trigger jpeg u s w).1
        ≡ (attempt u s.cfg bytes (after (attempt u s.cfg bytes) earlier w)).1

  pushed :
      (cfg : Config) (frames : List (Frame Image)) (w : World) (id : String) (n : ℕ)
      → (push_frames jpeg u cfg frames w).0 ≡ record { status = 200; body = triggered id n }
      → (bytes : List ℕ) × (ClipFormat.encode jpeg frames ≡ ok bytes)
        × (n ≡ length frames)
        × ((upload_with_retry u cfg.bearer_token cfg.org_id cfg.match_id cfg.camera_id bytes w).0
            ≡ ok id)
        × ((push_frames jpeg u cfg frames w).1
            ≡ (upload_with_retry u cfg.bearer_token cfg.org_id cfg.match_id cfg.camera_id bytes
                w).1)
  unfolding push_frames push
  pushed cfg [] w id n h = absurd (ground arith)
  pushed cfg (f ∷ fs) w id n h = elim (Result-cases (ClipFormat.encode jpeg (f ∷ fs))) [
    | inr (e, refused) ↦ absurd (ground arith)
    | inl (bytes, packed) ↦
        let (sent, count) = report_triggered (length (f ∷ fs)) _ id n (rw packed at h) in
        (bytes, packed, sym count, sent, ground arith)
  ]

  -- When a trigger is answered with a clip, the uploader accepted under that identifier, at the
  -- first, second or third attempt after failures only, bytes that decode to the frames that the
  -- buffer held when the trigger came, all of them in order, as JPEG compression leaves them. This
  -- is for fewer than 2^32 frames that the clip format can hold.
  pub handle_trigger-Uploaded :
      (s : Server Image) (w : World) (id : String) (n : ℕ)
      → All (Fits jpeg) (snapshot s.ring)
      → length (snapshot s.ring) < 2 ^ 32
      → (handle_trigger jpeg u s w).0 ≡ record { status = 200; body = triggered id n }
      → Uploaded s w id n
  unfolding handle_trigger
  handle_trigger-Uploaded s w id n fits few answered =
      let (bytes, packed, count, sent, gone) = pushed s.cfg (snapshot s.ring) w id n answered in
      let d =
        upload_with_retry-Decided u s.cfg.bearer_token s.cfg.org_id s.cfg.match_id s.cfg.camera_id
          bytes w in
      record {
        bytes = bytes;
        content = decode-encode jpeg (snapshot s.ring) bytes fits few packed;
        count = count;
        earlier = d.earlier;
        bound = d.bound;
        failures = d.failures;
        accepted = sym d.result ∙ sent;
        left = gone ∙ d.world;
      }
