-- ===== src/EdgeAgent/Agent/Timeline.antt =====
-- The microphone's timeline: at which times the chunks of a stream come into the ring buffer, and
-- what the local server then exports.
use cricket_drs_system.Prelude.{
  ℕ, ◌+◌, ◌^◌, ◌<◌, ◌≤◌, ◌≡◌, refl, Option, some, none, List, [], ◌∷◌, ◌++◌, length, All, arith,
  map,
}
use cricket_drs_system.Prelude.Int.{ℤ, pos, Time, ◌+ℤ◌, ◌-ℤ◌, ◌≤ℤ◌, +ℤ_parts}
use cricket_drs_system.EdgeAgent.Bytes.{of_word64-to_word64}
use cricket_drs_system.EdgeAgent.Buffer.{AudioChunk, RingBuffer, new_ring_buffer, add, snapshot}
use cricket_drs_system.EdgeAgent.Buffer.Window.{NonDecreasing, adds, since, snapshot-adds}
use cricket_drs_system.EdgeAgent.Capture.{
  Chunk, Microphone, Offset, unread, heard, read, mix, mix_all, quotient,
}
use cricket_drs_system.EdgeAgent.Capture.Mix.{Fits16, total, mix-exact}
use cricket_drs_system.EdgeAgent.Agent.{captured, captured-append, audio_capture_loop}

-- The mean of the channels of a moment, cut off towards zero.
unfoldable pub mean : List ℤ → ℤ
mean values = elim (quotient (total values) (pos (length values))) [ none ↦ pos 0 | some m ↦ m ]

abbrev pub Moment : ℕ → List ℤ → Type 0
Moment channels values = (length values ≡ channels) × All Fits16 values

-- A chunk at that rate, of so many channels of 16-bit values in every moment.
pub record Regular (rate : ℕ) (c : Chunk) : Type 0 where
  pub at_rate : c.sampling_rate ≡ rate
  pub some_channels : 0 < c.channels
  pub few_channels : c.channels < 65536
  pub values : All (Moment c.channels) c.moments

mix-mean :
    (channels : ℕ) (values : List ℤ)
    → 0 < channels
    → channels < 65536
    → Moment channels values
    → mix channels values ≡ some (mean values)
unfolding mean
mix-mean channels values some_channels few (same, fits) =
    let (m, mixes, means, small) = mix-exact values (omega arith) (omega arith) fits in ground arith

mix_all-mean :
    (channels : ℕ) (moments : List (List ℤ))
    → 0 < channels
    → channels < 65536
    → All (Moment channels) moments
    → mix_all channels moments ≡ some (map mean moments)
unfolding mix_all
mix_all-mean channels [] some_channels few h = refl
mix_all-mean channels (values ∷ moments) some_channels few h = ground (
  arith,
  mix-mean channels values some_channels few h.0,
  mix_all-mean channels moments some_channels few h.1,
)

abbrev pub at : AudioChunk → Time
at c = c.captured_at

sum_pos : (a b : ℕ) → pos a +ℤ pos b ≡ pos (a + b)
unfolding ◌+ℤ◌
sum_pos a b = ground arith

-- How many moments there are before the end of these chunks.
unfoldable pub moments_in : List Chunk → ℕ
moments_in [] = 0
moments_in (c ∷ cs) = length c.moments + moments_in cs

captured_with :
    (reads : List (Option Chunk)) (c : Chunk)
    → captured (reads ++ (some c ∷ [])) ≡ captured reads ++ (c ∷ [])
captured_with reads c = unfold captured in captured-append reads (some c ∷ [])

-- `offset` is the duration of a number of samples at a rate.
module _ (offset : Offset) (start : Time) (rate : ℕ) where
  -- What a chunk is in the buffer that begins after so many moments of the stream.
  unfoldable pub placed : ℕ → Chunk → AudioChunk
  placed n c = record {
    samples = map mean c.moments;
    sample_rate = rate;
    captured_at = start +ℤ offset (pos n) rate;
  }

  -- Each chunk begins where the one before ends.
  unfoldable pub timeline : ℕ → List Chunk → List AudioChunk
  unfolding placed
  timeline n [] = []
  timeline n (c ∷ cs) = placed n c ∷ timeline (n + length c.moments) cs

  abbrev pub listening : ℕ → Microphone
  listening n = record { stream_start = start; samples_read = pos n }

  read-placed :
      (n : ℕ) (c : Chunk)
      → Regular rate c
      → n + length c.moments < 2 ^ 63
      → read offset (listening n) (some c) ≡ (heard (placed n c), listening (n + length c.moments))
  unfolding read placed
  read-placed n c h small =
      let mixes = mix_all-mean c.channels c.moments h.some_channels h.few_channels h.values in
      ground (
        arith,
        mixes,
        of_word64-to_word64 (pos n +ℤ pos (length c.moments)),
        sum_pos n (length c.moments),
      )

  read-unread : (m : Microphone) → read offset m none ≡ (unread, m)
  unfolding read
  read-unread m = refl

  audio_capture_loop-adds :
      (n : ℕ) (reads : List (Option Chunk)) (b : RingBuffer AudioChunk)
      → All (Regular rate) (captured reads)
      → n + moments_in (captured reads) < 2 ^ 63
      → audio_capture_loop offset reads (listening n) b
        ≡ some
            (listening (n + moments_in (captured reads)), adds at (timeline n (captured reads)) b)
  unfolding audio_capture_loop captured adds timeline moments_in
  audio_capture_loop-adds n [] b h small = ground arith
  audio_capture_loop-adds n (none ∷ reads) b h small =
      ground (arith, read-unread (listening n), audio_capture_loop-adds n reads b h small)
  audio_capture_loop-adds n (some c ∷ reads) b h small = ground (
    arith,
    read-placed n c h.0 (omega arith),
    audio_capture_loop-adds (n + length c.moments) reads (add at (placed n c) b) h.1 (omega arith),
  )

  pub timeline-append :
      (n : ℕ) (cs : List Chunk) (c : Chunk)
      → timeline n (cs ++ (c ∷ [])) ≡ timeline n cs ++ (placed (n + moments_in cs) c ∷ [])
  unfolding timeline moments_in
  timeline-append n [] c = ground arith
  timeline-append n (d ∷ cs) c = ground (arith, timeline-append (n + length d.moments) cs c)

  pub timeline-rate : (n : ℕ) (cs : List Chunk) → All (λ c. c.sample_rate ≡ rate) (timeline n cs)
  unfolding timeline
  timeline-rate n [] = tt
  timeline-rate n (c ∷ cs) = (refl, timeline-rate (n + length c.moments) cs)

  -- The duration grows with the number of samples.
  abbrev pub Grows : Type 0
  Grows = (a b : ℕ) → a ≤ b → offset (pos a) rate ≤ℤ offset (pos b) rate

  module _ (grows : Grows) where
    timeline-later :
        (t n : ℕ) (cs : List Chunk)
        → t ≤ n
        → All (λ c. (start +ℤ offset (pos t) rate) ≤ℤ at c) (timeline n cs)
    unfolding timeline
    timeline-later t n [] h = tt
    timeline-later t n (c ∷ cs) h = (
      omega (
        arith,
        grows t n h,
        +ℤ_parts start (offset (pos t) rate),
        +ℤ_parts start (offset (pos n) rate),
      ),
      timeline-later t (n + length c.moments) cs (omega arith),
    )

    timeline-NonDecreasing : (n : ℕ) (cs : List Chunk) → NonDecreasing at (timeline n cs)
    unfolding timeline
    timeline-NonDecreasing n [] = tt
    timeline-NonDecreasing n (c ∷ cs) = (
      timeline-later n (n + length c.moments) cs (omega arith),
      timeline-NonDecreasing (n + length c.moments) cs,
    )

    -- After the reads, of which any may have failed, the buffer holds the window of the timeline
    -- that the last chunk ends.
    pub snapshot-audio_capture_loop :
        (window : ℤ) (reads : List (Option Chunk)) (c : Chunk)
        → All (Regular rate) (captured reads ++ (c ∷ []))
        → moments_in (captured reads ++ (c ∷ [])) < 2 ^ 63
        → (m : Microphone) × (ring : RingBuffer AudioChunk) × (audio_capture_loop offset
              (reads ++ (some c ∷ []))
              (listening 0)
              (new_ring_buffer window)
            ≡ some (m, ring))
          × (snapshot ring
              ≡ since at
                  ((start +ℤ offset (pos (moments_in (captured reads))) rate) -ℤ window)
                  (timeline 0 (captured reads ++ (c ∷ []))))
    snapshot-audio_capture_loop window reads c regular small =
        let k = moments_in (captured reads) in
        let parts = captured_with reads c in
        let looped =
          audio_capture_loop-adds 0 (reads ++ (some c ∷ [])) (new_ring_buffer window)
            (rw parts regular) (rw parts (omega (arith, small))) in
        let placed_last : timeline 0 (captured reads ++ (c ∷ []))
            ≡ timeline 0 (captured reads) ++ (placed k c ∷ []) =
          ground (arith, timeline-append 0 (captured reads) c) in
        let ordered : NonDecreasing at (timeline 0 (captured reads) ++ (placed k c ∷ [])) =
          rw (← placed_last) (timeline-NonDecreasing 0 (captured reads ++ (c ∷ []))) in
        (
          listening (0 + moments_in (captured (reads ++ (some c ∷ [])))),
          adds at (timeline 0 (captured (reads ++ (some c ∷ [])))) (new_ring_buffer window),
          looped,
          rw (parts, placed_last)
              (unfold placed in
                snapshot-adds at window (timeline 0 (captured reads)) (placed k c) ordered),
        )
