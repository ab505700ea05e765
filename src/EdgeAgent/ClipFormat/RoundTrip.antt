-- ===== src/EdgeAgent/ClipFormat/RoundTrip.antt =====
-- What is decoded of an encoded clip.
use cricket_drs_system.Prelude.{
  ℕ, suc, ◌<◌, ◌^◌, ◌-◌, some, List, [], ◌∷◌, ◌++◌, length, map, ◌≡◌, refl, ap, ◌∙◌, All, arith,
  Option-cases, inl, inr,
}
use cricket_drs_system.Prelude.Int.{pos, negsuc, ◌≤ℤ◌}
use cricket_drs_system.Exec.{ok, Result-cases}
use cricket_drs_system.EdgeAgent.Buffer.{Frame}
use cricket_drs_system.EdgeAgent.Bytes.{
  big_endian, read_full, read_word, to_word64, of_word64, of_word64-to_word64, read_full-append,
  read_word_4, read_word_8, read_word_1, to_word64-lt,
}
use cricket_drs_system.EdgeAgent.ClipFormat.{
  Jpeg, magic, format_version, same_bytes, encode_frames, encode, decode_frames, decode,
}

module _ {Image : Type 0} (jpeg : Jpeg Image) where
  -- A frame that the format can hold: a time that `UnixNano` gives, and a size below 4 GiB.
  pub record Fits (f : Frame Image) : Type 0 where
    pub after_first : negsuc (2 ^ 63 - 1) ≤ℤ f.captured_at
    pub before_last : f.captured_at ≤ℤ pos (2 ^ 63 - 1)
    pub size : (bytes : List ℕ) → jpeg.encode f.image ≡ some bytes → length bytes < 2 ^ 32

  abbrev pub as_stored : Frame Image → Frame Image
  as_stored f = record f { image = jpeg.compressed f.image }

  -- What the encoding of one more frame consists of.
  pub encode_frames_ok :
      (i : ℕ) (f : Frame Image) (fs : List (Frame Image)) (out : List ℕ)
      → encode_frames jpeg i (f ∷ fs) ≡ ok out
      → (bytes : List ℕ) × (more : List ℕ) × (jpeg.encode f.image ≡ some bytes)
        × (encode_frames jpeg (suc i) fs ≡ ok more)
        × (out
            ≡ big_endian 8 (to_word64 f.captured_at)
              ++ (big_endian 4 (length bytes) ++ (bytes ++ more)))
  unfolding encode_frames
  encode_frames_ok i f fs out made = elim (Option-cases (jpeg.encode f.image)) [
    | inl failed ↦ absurd (ground arith)
    | inr (bytes, packed) ↦ elim (Result-cases (encode_frames jpeg (suc i) fs)) [
      | inr (e, failed) ↦ absurd (ground arith)
      | inl (more, rest) ↦ (bytes, more, packed, rest, ground arith)
    ]
  ]

  -- One frame that is all there.
  decode_frames_ok :
      (count i : ℕ) (input after_captured after_length remaining : List ℕ)
      (captured jpeg_length : ℕ) (bytes : List ℕ) (image : Image) (more : List (Frame Image))
      → read_word 8 input ≡ some (captured, after_captured)
      → read_word 4 after_captured ≡ some (jpeg_length, after_length)
      → read_full jpeg_length after_length ≡ some (bytes, remaining)
      → jpeg.decode bytes ≡ some image
      → decode_frames jpeg count (suc i) remaining ≡ ok more
      → decode_frames jpeg (suc count) i input
        ≡ ok (record { image = image; captured_at = of_word64 captured } ∷ more)
  unfolding decode_frames
  decode_frames_ok count i input after_captured after_length remaining captured jpeg_length bytes
        image more a b c d e =
      ground arith

  -- The header of a clip, when it is all there.
  decode_ok :
      (input rest after_version body : List ℕ) (count : ℕ)
      → read_full 8 input ≡ some (magic, rest)
      → read_word 1 rest ≡ some (format_version, after_version)
      → read_word 4 after_version ≡ some (count, body)
      → decode jpeg input ≡ decode_frames jpeg count 0 body
  unfolding decode same_bytes
  decode_ok input rest after_version body count a b c = ground arith

  decode_frames-encode_frames :
      (i : ℕ) (fs : List (Frame Image)) (out : List ℕ)
      → All Fits fs
      → encode_frames jpeg i fs ≡ ok out
      → decode_frames jpeg (length fs) i out ≡ ok (map as_stored fs)
  unfolding encode_frames decode_frames
  decode_frames-encode_frames i [] out h made = refl
  decode_frames-encode_frames i (f ∷ fs) out h made =
      let (bytes, more, packed, rest, same) = encode_frames_ok i f fs out made in
      let tail = bytes ++ more in
      rw same (
        decode_frames_ok (length fs) i _ (big_endian 4 (length bytes) ++ tail) tail more
          (to_word64 f.captured_at) (length bytes) bytes (jpeg.compressed f.image)
          (map as_stored fs)
          (read_word_8 (to_word64 f.captured_at) (big_endian 4 (length bytes) ++ tail)
            (to_word64-lt f.captured_at))
          (read_word_4 (length bytes) tail (h.0.size bytes packed))
          (read_full-append bytes more (length bytes) refl)
          (jpeg.decode-encode f.image bytes packed)
          (decode_frames-encode_frames (suc i) fs more h.1 rest)
        ∙ ap
            (λ t.
              ok (record { image = jpeg.compressed f.image; captured_at = t } ∷ map as_stored fs))
            (of_word64-to_word64 f.captured_at h.0.after_first h.0.before_last))

  pub encode_ok :
      (fs : List (Frame Image)) (out : List ℕ)
      → encode jpeg fs ≡ ok out
      → (body : List ℕ) × (encode_frames jpeg 0 fs ≡ ok body)
        × (out ≡ magic ++ (big_endian 1 format_version ++ (big_endian 4 (length fs) ++ body)))
  unfolding encode
  encode_ok fs out made = elim (Result-cases (encode_frames jpeg 0 fs)) [
    | inr (e, failed) ↦ absurd (ground arith)
    | inl (body, packed) ↦ (body, packed, ground arith)
  ]

  -- Of a clip that was encoded, with fewer than 2^32 frames, each with a time in the range of a
  -- 64-bit count of nanoseconds and less than 4 GiB of JPEG, decoding gives every frame back: in
  -- order, at its time to the nanosecond, with the image as the JPEG compression left it.
  pub decode-encode :
      (fs : List (Frame Image)) (out : List ℕ)
      → All Fits fs
      → length fs < 2 ^ 32
      → encode jpeg fs ≡ ok out
      → decode jpeg out ≡ ok (map as_stored fs)
  unfolding decode same_bytes
  decode-encode fs out h few made =
      let (body, packed, same) = encode_ok fs out made in
      let rest = big_endian 4 (length fs) ++ body in
      rw same (
        decode_ok _ (big_endian 1 format_version ++ rest) rest body (length fs)
          (read_full-append magic (big_endian 1 format_version ++ rest) 8 refl)
          (read_word_1 format_version rest (omega arith)) (read_word_4 (length fs) body few)
        ∙ decode_frames-encode_frames 0 fs body h packed)
