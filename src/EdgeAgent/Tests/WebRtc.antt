-- ===== src/EdgeAgent/Tests/WebRtc.antt =====
-- The capture loop after a read that failed, and an upload over a channel that takes all messages.
use cricket_drs_system.Prelude.{ℕ, ◌≡◌, refl, some, none, List, [], ◌∷◌, ◌++◌, arith, string_eq}
use cricket_drs_system.Prelude.Int.{pos, ◌-ℤ◌}
use cricket_drs_system.Exec.{ok}
use cricket_drs_system.EdgeAgent.Buffer.{new_ring_buffer, snapshot}
use cricket_drs_system.EdgeAgent.Buffer.Window.{since}
use cricket_drs_system.EdgeAgent.Agent.{capture_loop, captured, snapshot-capture_loop}
use cricket_drs_system.EdgeAgent.WebRtc.{
  Peer, Escapes, upload, signal, classify_signal, classify_ack, send_all, chunks, chunks_from,
  slice,
}
use cricket_drs_system.EdgeAgent.WebRtc.Delivery.{Delivered, upload-Delivered}
use cricket_drs_system.EdgeAgent.Tests.{frame, at}

-- Of four frames, the second is at the edge of the window that the last one ends; a read between
-- them failed.
snapshot-capture_loop_example :
    snapshot (
      capture_loop at
        (some (frame 1 0) ∷ some (frame 2 5) ∷ none ∷ some (frame 3 7) ∷ some (frame 4 15) ∷ [])
        (new_ring_buffer (pos 10)))
    ≡ since at (pos 5) (frame 1 0 ∷ frame 2 5 ∷ frame 3 7 ∷ frame 4 15 ∷ [])
unfolding ◌-ℤ◌ captured
snapshot-capture_loop_example =
    snapshot-capture_loop at (pos 10)
      (some (frame 1 0) ∷ some (frame 2 5) ∷ none ∷ some (frame 3 7) ∷ []) (frame 4 15)
      (
        (omega arith, (omega arith, (omega arith, tt))),
        ((omega arith, (omega arith, tt)), ((omega arith, tt), (tt, tt))),
      )

-- The world keeps the messages that were sent.
abbrev peer : Peer (List (List ℕ))
peer = record {
  Answer = Unit;
  offer = λ w. (ok (1 ∷ []), w);
  do_request = λ url header body w. (some (record { status = 200; answer = some tt }), w);
  connect = λ a w. (ok tt, w);
  send = λ message w. (ok tt, w ++ (message ∷ []));
  wait_ack = λ w. (some (record { clip_id = "clip_1"; error = "" }), w);
}

abbrev escapes : Escapes
escapes = record { path_escape = λ s. s; offer_query = λ camera size. camera }

uploaded : (upload peer escapes "g" "t" "club" "final" "cam" (7 ∷ 8 ∷ []) []).0 ≡ ok "clip_1"
unfolding upload signal classify_signal classify_ack send_all chunks chunks_from slice
uploaded = refl

upload-Delivered_example :
    Delivered peer escapes "g" "t" "club" "final" "cam" (7 ∷ 8 ∷ []) [] "clip_1"
upload-Delivered_example =
    upload-Delivered peer escapes "g" "t" "club" "final" "cam" (7 ∷ 8 ∷ []) [] "clip_1" uploaded
