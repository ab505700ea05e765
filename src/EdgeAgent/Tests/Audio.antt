-- ===== src/EdgeAgent/Tests/Audio.antt =====
-- A microphone of two channels at 48 kHz, of which a read fails between two chunks; the clock is
-- one nanosecond for a sample.
use cricket_drs_system.Prelude.{ℕ, ◌≤◌, ◌≡◌, refl, Option, some, none, List, [], ◌∷◌, arith}
use cricket_drs_system.Prelude.Int.{ℤ, pos, negsuc}
use cricket_drs_system.EdgeAgent.Buffer.{RingBuffer, AudioChunk, new_ring_buffer}
use cricket_drs_system.EdgeAgent.Capture.{Chunk, Microphone, Offset}
use cricket_drs_system.EdgeAgent.Agent.{captured, audio_capture_loop}
use cricket_drs_system.EdgeAgent.Agent.Timeline.{Regular, Grows, moments_in, listening}
use cricket_drs_system.EdgeAgent.Wav
use cricket_drs_system.EdgeAgent.Server.{audio, all_samples, handle_audio_snapshot}
use cricket_drs_system.EdgeAgent.Server.Audio.{audible, handle_audio_snapshot-timeline}
use cricket_drs_system.EdgeAgent.Tests.{server}

abbrev offset : Offset
offset n rate = n

abbrev chunk : ℤ → Chunk
chunk v = record {
  channels = 2;
  sampling_rate = 48000;
  moments = (v ∷ pos 3 ∷ []) ∷ (v ∷ negsuc 3 ∷ []) ∷ [];
}

abbrev earlier_reads : List (Option Chunk)
earlier_reads = some (chunk (pos 5)) ∷ none ∷ some (chunk (pos 7)) ∷ []

grows : Grows offset (pos 100) 48000
grows a b h = omega arith

chunk-Regular : (n : ℕ) → n ≤ 9 → Regular 48000 (chunk (pos n))
chunk-Regular n h = record {
  at_rate = refl;
  some_channels = omega arith;
  few_channels = omega arith;
  values = (
    (refl, ((omega arith, omega arith), ((omega arith, omega arith), tt))),
    ((refl, ((omega arith, omega arith), ((omega arith, omega arith), tt))), tt),
  );
}

handle_audio_snapshot-timeline_example :
    (m : Microphone) × (ring : RingBuffer AudioChunk) × (audio_capture_loop offset
        (some (chunk (pos 5)) ∷ none ∷ some (chunk (pos 7)) ∷ some (chunk (pos 9)) ∷ [])
        (listening offset (pos 100) 48000 0)
        (new_ring_buffer (pos 3))
      ≡ some (m, ring))
    × (handle_audio_snapshot (record server { audio_ring = some ring }) ≡ record {
      status = 200;
      body = audio (
          Wav.encode
            (all_samples
              (audible offset (pos 100) 48000 3 (captured earlier_reads) (chunk (pos 9))))
            48000
            1);
    })
unfolding captured moments_in
handle_audio_snapshot-timeline_example =
    handle_audio_snapshot-timeline offset (pos 100) 48000 3 earlier_reads (chunk (pos 9)) server
      grows
      (
        chunk-Regular 5 (omega arith),
        (chunk-Regular 7 (omega arith), (chunk-Regular 9 (omega arith), tt)),
      )
      (omega arith)
