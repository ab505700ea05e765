-- ===== src/EdgeAgent/Server/Audio.antt =====
-- What the audio export of edge-agent/cmd/main.go answers, from the microphone's reads on.
use cricket_drs_system.Prelude.{
  ℕ, ◌^◌, ◌<◌, ◌≡◌, refl, ap, ◌∙◌, Option, some, List, [], ◌∷◌, ◌++◌, All, arith,
}
use cricket_drs_system.Prelude.Int.{pos, Time, ◌+ℤ◌, ◌-ℤ◌, -ℤ_parts}
use cricket_drs_system.EdgeAgent.Buffer.{AudioChunk, RingBuffer, new_ring_buffer}
use cricket_drs_system.EdgeAgent.Buffer.Window.{since, since-append, All-since}
use cricket_drs_system.EdgeAgent.Wav
use cricket_drs_system.EdgeAgent.Capture.{Chunk, Microphone, Offset}
use cricket_drs_system.EdgeAgent.Agent.{captured, audio_capture_loop}
use cricket_drs_system.EdgeAgent.Agent.Timeline.{
  Regular, Grows, at, moments_in, placed, timeline, listening, timeline-append, timeline-rate,
  snapshot-audio_capture_loop,
}
use cricket_drs_system.EdgeAgent.Server.{
  Server, Response, audio, all_samples, export_audio, handle_audio_snapshot,
}

abbrev exported : ℕ → List AudioChunk → Response
exported rate cs = record { status = 200; body = audio (Wav.encode (all_samples cs) rate 1) }

-- Chunks of one rate, of which there is one at least, are exported at that rate.
export_audio-rate :
    (rate : ℕ) (cs : List AudioChunk) (c : AudioChunk)
    → All (λ c. c.sample_rate ≡ rate) cs
    → c.sample_rate ≡ rate
    → export_audio (cs ++ (c ∷ [])) ≡ exported rate (cs ++ (c ∷ []))
unfolding export_audio
export_audio-rate rate [] c h last = rw last refl
export_audio-rate rate (d ∷ cs) c h last = rw h.0 refl

since_itself : (window : ℕ) (c : AudioChunk) → since at (at c -ℤ pos window) (c ∷ []) ≡ c ∷ []
unfolding since
since_itself window c = ground (arith, -ℤ_parts (at c) (pos window))

-- The last item is in the window that it ends.
since-last :
    (window : ℕ) (cs : List AudioChunk) (c : AudioChunk)
    → since at (at c -ℤ pos window) (cs ++ (c ∷ [])) ≡ since at (at c -ℤ pos window) cs ++ (c ∷ [])
since-last window cs c =
    since-append at (at c -ℤ pos window) cs (c ∷ [])
    ∙ ap (λ kept. since at (at c -ℤ pos window) cs ++ kept) (since_itself window c)

module _ (offset : Offset) (start : Time) (rate : ℕ) where
  -- The chunks of the stream in the window that the last one ends.
  abbrev pub audible : ℕ → List Chunk → Chunk → List AudioChunk
  audible window cs c =
      since at ((start +ℤ offset (pos (moments_in cs)) rate) -ℤ pos window)
        (timeline offset start rate 0 (cs ++ (c ∷ [])))

  audible-last :
      (window : ℕ) (cs : List Chunk) (c : Chunk)
      → (before : List AudioChunk) × (audible window cs c
          ≡ before ++ (placed offset start rate (moments_in cs) c ∷ []))
        × All (λ c. c.sample_rate ≡ rate) before
  audible-last window cs c =
      let k = moments_in cs in
      let x = placed offset start rate k c in
      let before = timeline offset start rate 0 cs in
      let parts : timeline offset start rate 0 (cs ++ (c ∷ [])) ≡ before ++ (x ∷ []) =
        ground (arith, timeline-append offset start rate 0 cs c) in
      (
        since at (at x -ℤ pos window) before,
        rw parts (unfold placed in since-last window before x),
        All-since at (λ c. c.sample_rate ≡ rate) (at x -ℤ pos window) before
            (timeline-rate offset start rate 0 cs),
      )

  export_audio-audible :
      (window : ℕ) (cs : List Chunk) (c : Chunk)
      → export_audio (audible window cs c) ≡ exported rate (audible window cs c)
  export_audio-audible window cs c =
      let (before, parts, same) = audible-last window cs c in
      let x = placed offset start rate (moments_in cs) c in
      rw parts (export_audio-rate rate before x same (unfold placed in refl))

  -- Of a microphone that gives 16-bit values at one rate, in fewer than 65536 channels: whatever
  -- reads fail, no read panics, and the audio export that follows the last read is a file of the
  -- chunks, in order, that begin no earlier in the stream than the window before the last chunk
  -- begins, each sample the mean of its channels. A chunk begins where the one before ends, however
  -- late it is read. This is for durations that grow with the number of samples and fewer than 2^63
  -- samples.
  pub handle_audio_snapshot-timeline :
      {Image : Type 0} (window : ℕ) (reads : List (Option Chunk)) (c : Chunk) (s : Server Image)
      → Grows offset start rate
      → All (Regular rate) (captured reads ++ (c ∷ []))
      → moments_in (captured reads ++ (c ∷ [])) < 2 ^ 63
      → (m : Microphone) × (ring : RingBuffer AudioChunk) × (audio_capture_loop offset
            (reads ++ (some c ∷ []))
            (listening offset start rate 0)
            (new_ring_buffer (pos window))
          ≡ some (m, ring))
        × (handle_audio_snapshot (record s { audio_ring = some ring }) ≡ record {
          status = 200;
          body = audio (Wav.encode (all_samples (audible window (captured reads) c)) rate 1);
        })
  unfolding handle_audio_snapshot
  handle_audio_snapshot-timeline window reads c s grows regular small =
      let (m, ring, looped, held) =
        snapshot-audio_capture_loop offset start rate grows (pos window) reads c regular small in
      (m, ring, looped, ap export_audio held ∙ export_audio-audible window (captured reads) c)
