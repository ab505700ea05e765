-- ===== src/EdgeAgent/Buffer.antt =====
-- edge-agent/internal/buffer: the ring buffers of buffer.go and audio.go. The two have the same
-- loop over the same field, written twice; here it is one definition over what reads the time.
pub mod Window
use cricket_drs_system.Prelude.{ℕ, Bool, List, [], ◌∷◌, ◌++◌, if◌then◌else◌}
use cricket_drs_system.Prelude.Int.{ℤ, Time, ◌-ℤ◌, ltb_ℤ}

pub record Frame (Image : Type 0) : Type 0 where
  pub image : Image
  pub captured_at : Time

-- Samples are signed 16-bit values.
pub record AudioChunk : Type 0 where
  pub samples : List ℤ
  pub sample_rate : ℕ
  pub captured_at : Time

-- `RingBuffer` and `AudioRingBuffer`, less the lock under which every method runs.
pub record RingBuffer (A : Type 0) : Type 0 where
  pub window : ℤ
  pub items : List A

-- `NewRingBuffer` and `NewAudioRingBuffer`
unfoldable pub new_ring_buffer : {A : Type 0} → ℤ → RingBuffer A
new_ring_buffer window = record { window = window; items = [] }

module _ {A : Type 0} (captured_at : A → Time) where
  -- The loop that counts the items captured before the cutoff, with the slice that drops them.
  unfoldable pub prune : Time → List A → List A
  prune cutoff [] = []
  prune cutoff (x ∷ xs) =
      let rest = prune cutoff xs in if ltb_ℤ (captured_at x) cutoff then rest else x ∷ xs

  -- `Add`
  unfoldable pub add : A → RingBuffer A → RingBuffer A
  unfolding prune
  add x b = record b { items = prune (captured_at x -ℤ b.window) (b.items ++ (x ∷ [])) }

-- `Snapshot`: a copy of the items
unfoldable pub snapshot : {A : Type 0} → RingBuffer A → List A
snapshot b = b.items
