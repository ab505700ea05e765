-- ===== src/EdgeAgent/Agent.antt =====
-- edge-agent/cmd/main.go: the capture loops, and which transport the agent uploads with. What a
-- device gave so far is a list, with `none` for a read that failed.
pub mod Timeline
use cricket_drs_system.Prelude.{
  ◌≡◌, refl, Option, none, some, List, [], ◌∷◌, ◌++◌, ◌==◌, string_eq, if◌then◌else◌, ap,
}
use cricket_drs_system.Prelude.Int.{ℤ, Time, ◌-ℤ◌}
use cricket_drs_system.EdgeAgent.Buffer.{AudioChunk, RingBuffer, new_ring_buffer, add, snapshot}
use cricket_drs_system.EdgeAgent.Buffer.Window.{NonDecreasing, adds, since, snapshot-adds}
use cricket_drs_system.EdgeAgent.Capture.{
  Chunk, Microphone, Offset, Heard, unread, panicked, heard, read,
}
use cricket_drs_system.EdgeAgent.Config.{Config}
use cricket_drs_system.EdgeAgent.Upload
use cricket_drs_system.EdgeAgent.Upload.{Uploader, Post}
use cricket_drs_system.EdgeAgent.WebRtc
use cricket_drs_system.EdgeAgent.WebRtc.{Peer}

-- The `switch` of `main` over the two clients.
unfoldable pub upload_client :
    {World : Type 0}
    → Post World
    → Upload.Escapes
    → Peer World
    → WebRtc.Escapes
    → Config
    → Uploader World
upload_client post escapes peer peer_escapes cfg =
    if cfg.upload_transport == "webrtc"
    then WebRtc.upload peer peer_escapes cfg.gateway_url
    else Upload.upload post escapes cfg.gateway_url

-- The reads that did not fail.
unfoldable pub captured : {A : Type 0} → List (Option A) → List A
captured [] = []
captured (none ∷ reads) = captured reads
captured (some x ∷ reads) = x ∷ captured reads

pub captured-append :
    {A : Type 0} (reads more : List (Option A))
    → captured (reads ++ more) ≡ captured reads ++ captured more
unfolding captured
captured-append [] more = refl
captured-append (none ∷ reads) more = captured-append reads more
captured-append (some x ∷ reads) more = ap (λ xs. x ∷ xs) (captured-append reads more)

module _ {A : Type 0} (captured_at : A → Time) where
  -- `captureLoop`: a read that failed is skipped.
  unfoldable pub capture_loop : List (Option A) → RingBuffer A → RingBuffer A
  capture_loop [] b = b
  capture_loop (none ∷ reads) b = capture_loop reads b
  capture_loop (some x ∷ reads) b = capture_loop reads (add captured_at x b)

  capture_loop-adds :
      (reads : List (Option A)) (b : RingBuffer A)
      → capture_loop reads b ≡ adds captured_at (captured reads) b
  unfolding capture_loop captured adds
  capture_loop-adds [] b = refl
  capture_loop-adds (none ∷ reads) b = capture_loop-adds reads b
  capture_loop-adds (some x ∷ reads) b = capture_loop-adds reads (add captured_at x b)

  -- After reads of which any may have failed and whose last gave an item, the buffer holds exactly
  -- the items, of all that were read, that were captured no earlier than the window before that
  -- last one, in order. This is for a device that gives items in the order of their times.
  pub snapshot-capture_loop :
      (window : ℤ) (reads : List (Option A)) (x : A)
      → NonDecreasing captured_at (captured reads ++ (x ∷ []))
      → snapshot (capture_loop (reads ++ (some x ∷ [])) (new_ring_buffer window))
        ≡ since captured_at (captured_at x -ℤ window) (captured reads ++ (x ∷ []))
  snapshot-capture_loop window reads x h =
      let all = capture_loop-adds (reads ++ (some x ∷ [])) (new_ring_buffer window) in
      let parts : captured (reads ++ (some x ∷ [])) ≡ captured reads ++ (x ∷ []) =
        unfold captured in captured-append reads (some x ∷ []) in
      rw (all, parts) (snapshot-adds captured_at window (captured reads) x h)

-- `audioCaptureLoop`, of what the media library's reader gives; `none` where a read panics.
unfoldable pub audio_capture_loop :
    Offset
    → List (Option Chunk)
    → Microphone
    → RingBuffer AudioChunk
    → Option (Microphone × RingBuffer AudioChunk)
audio_capture_loop offset [] m b = some (m, b)
audio_capture_loop offset (given ∷ reads) m b =
    let (h, m') = read offset m given in
    elim h [
      | unread ↦ audio_capture_loop offset reads m' b
      | panicked ↦ none
      | heard x ↦ audio_capture_loop offset reads m' (add (λ c. c.captured_at) x b)
    ]
