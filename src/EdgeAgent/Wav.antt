-- ===== src/EdgeAgent/Wav.antt =====
-- edge-agent/internal/wav: the canonical WAV file of 16-bit samples.
use cricket_drs_system.Prelude.{
  ℕ, ◌+◌, ◌-◌, ◌*◌, ◌/◌, ◌%◌, ◌^◌, ◌<◌, ◌≡◌, refl, ap, ◌∙◌, List, [], ◌∷◌, ◌++◌, All, length, take,
  drop, length-append, arith, ltb, if◌then◌else◌,
}
use cricket_drs_system.Prelude.Int.{ℤ, pos, negsuc, ◌≤ℤ◌}
use cricket_drs_system.EdgeAgent.Bytes.{little_endian, read_little_endian}

abbrev pub bits_per_sample : ℕ
bits_per_sample = 16

-- An `int16` as its 16 bits, and back.
unfoldable pub to_word16 : ℤ → ℕ
to_word16 (pos n) = n % 2 ^ 16
to_word16 (negsuc n) = 2 ^ 16 - 1 - n % 2 ^ 16

unfoldable pub of_word16 : ℕ → ℤ
of_word16 w = if ltb w (2 ^ 15) then pos w else negsuc (2 ^ 16 - 1 - w)

-- `binary.Write` of the samples
unfoldable pub write_samples : List ℤ → List ℕ
write_samples [] = []
write_samples (s ∷ ss) = little_endian 2 (to_word16 s) ++ write_samples ss

-- "RIFF", "WAVE", "fmt " and "data"
abbrev riff : List ℕ
riff = 82 ∷ 73 ∷ 70 ∷ 70 ∷ []

abbrev wave : List ℕ
wave = 87 ∷ 65 ∷ 86 ∷ 69 ∷ []

abbrev fmt : List ℕ
fmt = 102 ∷ 109 ∷ 116 ∷ 32 ∷ []

abbrev data_id : List ℕ
data_id = 100 ∷ 97 ∷ 116 ∷ 97 ∷ []

-- The 44 bytes before the samples; a field keeps the lowest bits of its number.
unfoldable pub header : ℕ → ℕ → ℕ → List ℕ
header data_size sample_rate channels =
    riff
    ++ (little_endian 4 (36 + data_size)
        ++ (wave
            ++ (fmt
                ++ (little_endian 4 16
                    ++ (little_endian 2 1
                        ++ (little_endian 2 channels
                            ++ (little_endian 4 sample_rate
                                ++ (little_endian 4 (sample_rate * channels * bits_per_sample / 8)
                                    ++ (little_endian 2 (channels * bits_per_sample / 8)
                                        ++ (little_endian 2 bits_per_sample
                                            ++ (data_id ++ little_endian 4 data_size)))))))))))

-- `Encode`
unfoldable pub encode : List ℤ → ℕ → ℕ → List ℕ
encode samples sample_rate channels =
    header (length samples * 2) sample_rate channels ++ write_samples samples

-- A reader of the format: the samples are pairs of bytes after the header.
unfoldable pub read_samples : List ℕ → List ℤ
read_samples [] = []
read_samples (a ∷ []) = []
read_samples (a ∷ (b ∷ bs)) = of_word16 (read_little_endian (a ∷ b ∷ [])) ∷ read_samples bs

length-write_samples : (ss : List ℤ) → length (write_samples ss) ≡ length ss * 2
unfolding write_samples little_endian
length-write_samples [] = refl
length-write_samples (s ∷ ss) = omega (arith, length-write_samples ss)

length-header : (d r c : ℕ) → length (header d r c) ≡ 44
unfolding header little_endian
length-header d r c = refl

abbrev pub IsSample : ℤ → Type 0
IsSample s = (negsuc (2 ^ 15 - 1) ≤ℤ s) × (s ≤ℤ pos (2 ^ 15 - 1))

read_sample :
    (s : ℤ) → IsSample s → of_word16 (read_little_endian (little_endian 2 (to_word16 s))) ≡ s
unfolding of_word16 read_little_endian little_endian to_word16
read_sample (pos n) h = ground arith
read_sample (negsuc n) h = ground arith

read_samples-write_samples : (ss : List ℤ) → All IsSample ss → read_samples (write_samples ss) ≡ ss
unfolding read_samples write_samples little_endian
read_samples-write_samples [] h = refl
read_samples-write_samples (s ∷ ss) h =
    ap (λ x. x ∷ read_samples (write_samples ss)) (unfold little_endian in read_sample s h.0)
    ∙ ap (λ xs. s ∷ xs) (read_samples-write_samples ss h.1)

drop-header : (d r c : ℕ) (rest : List ℕ) → drop 44 (header d r c ++ rest) ≡ rest
unfolding header little_endian
drop-header d r c rest = refl

size_field :
    (d r c : ℕ) (rest : List ℕ) → take 4 (drop 4 (header d r c ++ rest)) ≡ little_endian 4 (36 + d)
unfolding header little_endian
size_field d r c rest = refl

read_little_endian_4 : (n : ℕ) → n < 2 ^ 32 → read_little_endian (little_endian 4 n) ≡ n
unfolding read_little_endian little_endian
read_little_endian_4 n h = omega arith

-- A file of 16-bit samples, fewer than fit into its 32-bit size fields, has 44 bytes and two for
-- each sample; its size field is what follows that field, and behind the header the samples read
-- back, whatever the rate and the channels.
pub encode-layout :
    (samples : List ℤ) (sample_rate channels : ℕ)
    → All IsSample samples
    → 36 + length samples * 2 < 2 ^ 32
    → let file = encode samples sample_rate channels in
      (length file ≡ 44 + length samples * 2)
      × (read_little_endian (take 4 (drop 4 file)) ≡ length file - 8)
      × (read_samples (drop 44 file) ≡ samples)
unfolding encode
encode-layout samples rate channels h small =
    let d = length samples * 2 in
    let total =
      length-append (header d rate channels) (write_samples samples)
      ∙ ap (λ n. n + length (write_samples samples)) (length-header d rate channels)
      ∙ ap (λ n. 44 + n) (length-write_samples samples) in
    (
      total,
      ap read_little_endian (size_field d rate channels (write_samples samples))
          ∙ read_little_endian_4 (36 + d) small
          ∙ omega arith,
      ap read_samples (drop-header d rate channels (write_samples samples))
          ∙ read_samples-write_samples samples h,
    )
