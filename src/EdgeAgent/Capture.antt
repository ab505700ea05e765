-- ===== src/EdgeAgent/Capture.antt =====
-- edge-agent/internal/capture: `Microphone.Read`, over the media library, and the choice of a video
-- device. What the library's conversion gives of a sample is a signed 16-bit value.
pub mod Devices
pub mod Mix
pub mod Pinned
use cricket_drs_system.Prelude.{
  ℕ, zero, suc, ◌-◌, ◌/◌, ◌%◌, ◌^◌, String, Bool, Option, none, some, List, [], ◌∷◌, ltb, length,
  ◌==◌, string_eq, if◌then◌else◌,
}
use cricket_drs_system.Prelude.Int.{ℤ, pos, negsuc, Time, ◌+ℤ◌}
use cricket_drs_system.Exec.{Result, ok, err}
use cricket_drs_system.EdgeAgent.Buffer.{AudioChunk}
use cricket_drs_system.EdgeAgent.Bytes.{to_word64, of_word64}

-- Integers of 32 and of 16 bits
unfoldable pub to_int32 : ℤ → ℤ
to_int32 (pos n) =
    if ltb (n % 2 ^ 32) (2 ^ 31) then pos (n % 2 ^ 32) else negsuc (2 ^ 32 - 1 - n % 2 ^ 32)
to_int32 (negsuc n) =
    if ltb (n % 2 ^ 32) (2 ^ 31) then negsuc (n % 2 ^ 32) else pos (2 ^ 32 - 1 - n % 2 ^ 32)

unfoldable pub to_int16 : ℤ → ℤ
to_int16 (pos n) =
    if ltb (n % 2 ^ 16) (2 ^ 15) then pos (n % 2 ^ 16) else negsuc (2 ^ 16 - 1 - n % 2 ^ 16)
to_int16 (negsuc n) =
    if ltb (n % 2 ^ 16) (2 ^ 15) then negsuc (n % 2 ^ 16) else pos (2 ^ 16 - 1 - n % 2 ^ 16)

-- -n
abbrev pub negated : ℕ → ℤ
negated zero = pos 0
negated (suc n) = negsuc n

-- Go's division, which cuts off towards zero; a division by zero panics.
unfoldable pub quotient : ℤ → ℤ → Option ℤ
quotient a (pos zero) = none
quotient (pos n) (pos (suc d)) = some (pos (n / suc d))
quotient (negsuc n) (pos (suc d)) = some (negated (suc n / suc d))
quotient (pos n) (negsuc d) = some (negated (n / suc d))
quotient (negsuc n) (negsuc d) = some (pos (suc n / suc d))

-- A chunk of the library: of each moment, the values of the channels.
pub record Chunk : Type 0 where
  pub channels : ℕ
  pub sampling_rate : ℕ
  pub moments : List (List ℤ)

-- `Microphone`, less the device
pub record Microphone : Type 0 where
  pub stream_start : Time
  pub samples_read : ℤ

-- The loop over the channels, in an `int32`
unfoldable pub sum_from : ℤ → List ℤ → ℤ
unfolding to_int32
sum_from sum [] = sum
sum_from sum (s ∷ ss) = sum_from (to_int32 (sum +ℤ s)) ss

-- One sample; `none` where it panics
unfoldable pub mix : ℕ → List ℤ → Option ℤ
unfolding sum_from to_int16 quotient
mix channels values = elim (quotient (sum_from (pos 0) values) (to_int32 (pos channels))) [
  | none ↦ none
  | some q ↦ some (to_int16 q)
]

-- The loop over the moments
unfoldable pub mix_all : ℕ → List (List ℤ) → Option (List ℤ)
unfolding mix
mix_all channels [] = some []
mix_all channels (values ∷ moments) =
    let rest = mix_all channels moments in
    elim (mix channels values) [
      | none ↦ none
      | some s ↦ elim rest [ none ↦ none | some ss ↦ some (s ∷ ss) ]
    ]

-- What a read comes to.
pub data Heard : Type 0 where
  unread panicked : Heard
  heard : AudioChunk → Heard

-- The duration of so many samples at a rate, which the code computes in floating point
abbrev pub Offset : Type 0
Offset = ℤ → ℕ → Time

mixed : Offset → Microphone → Chunk → Option (List ℤ) → Heard × Microphone
mixed offset m c none = (panicked, m)
mixed offset m c (some samples) = (
  heard (record {
    samples = samples;
    sample_rate = c.sampling_rate;
    captured_at = m.stream_start +ℤ offset m.samples_read c.sampling_rate;
  }),
  record m { samples_read = of_word64 (to_word64 (m.samples_read +ℤ pos (length c.moments))) },
)

-- `Microphone.Read`, of what the library's reader gives
unfoldable pub read : Offset → Microphone → Option Chunk → Heard × Microphone
unfolding mixed mix_all
read offset m none = (unread, m)
read offset m (some c) = mixed offset m c (mix_all c.channels c.moments)

pub record DeviceInfo : Type 0 where
  pub device_id : String
  pub label : String

-- `resolveDeviceID`, of the listed devices; `contains` is `strings.Contains` after `strings.ToLower`
-- of both
unfoldable pub first_labelled :
    (String → String → Bool) → String → List DeviceInfo → Result String String
first_labelled contains label [] = err label
first_labelled contains label (d ∷ ds) =
    let rest = first_labelled contains label ds in
    if contains d.label label then ok d.device_id else rest

unfoldable pub resolve_device_id :
    (String → String → Bool) → List DeviceInfo → String → Result String String
unfolding first_labelled
resolve_device_id contains devices label =
    if label == "" then ok "" else first_labelled contains label devices
