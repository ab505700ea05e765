-- ===== src/EdgeAgent/ClipFormat.antt =====
-- edge-agent/internal/clipformat: the container of a clip. The JPEG library is a parameter.
pub mod RoundTrip
pub mod Truncated
use cricket_drs_system.Prelude.{
  ℕ, zero, suc, ◌+◌, ◌%◌, ◌^◌, not, Option, some, none, List, [], ◌∷◌, ◌++◌, length, nat_eq,
  if◌then◌else◌, ◌≡◌, Bool, true, false, ◌<◌,
}
use cricket_drs_system.Exec.{Result, ok, err}
use cricket_drs_system.EdgeAgent.Buffer.{Frame}
use cricket_drs_system.EdgeAgent.Bytes.{big_endian, read_full, read_word, to_word64, of_word64}

-- `jpeg.Encode` at quality 85 and `jpeg.Decode`. The compression loses detail: what is read back
-- of an image is what `compressed` makes of it.
pub record Jpeg (Image : Type 0) : Type 0 where
  pub encode : Image → Option (List ℕ)
  pub decode : List ℕ → Option Image
  pub compressed : Image → Image
  pub decode-encode :
      (image : Image) (bytes : List ℕ)
      → encode image ≡ some bytes
      → decode bytes ≡ some (compressed image)

-- The errors of both directions, of the frame at an index.
pub data ClipError : Type 0 where
  bad_magic unsupported_version truncated : ClipError
  truncated_timestamp truncated_length truncated_data : ℕ → ClipError
  jpeg_encode jpeg_decode : ℕ → ClipError

-- "CDRSCLIP"
abbrev pub magic : List ℕ
magic = 67 ∷ 68 ∷ 82 ∷ 83 ∷ 67 ∷ 76 ∷ 73 ∷ 80 ∷ []

abbrev pub format_version : ℕ
format_version = 1

unfoldable pub same_bytes : List ℕ → List ℕ → Bool
same_bytes [] [] = true
same_bytes [] (y ∷ ys) = false
same_bytes (x ∷ xs) [] = false
same_bytes (x ∷ xs) (y ∷ ys) = let rest = same_bytes xs ys in if nat_eq x y then rest else false

module _ {Image : Type 0} (jpeg : Jpeg Image) where
  -- The loop of `Encode`, from the frame at an index.
  unfoldable pub encode_frames : ℕ → List (Frame Image) → Result ClipError (List ℕ)
  encode_frames i [] = ok []
  encode_frames i (f ∷ fs) =
      let rest = encode_frames (suc i) fs in
      elim (jpeg.encode f.image) [
        | none ↦ err (jpeg_encode i)
        | some bytes ↦ elim rest [
          | err e ↦ err e
          | ok more ↦ ok (
              big_endian 8 (to_word64 f.captured_at)
              ++ (big_endian 4 (length bytes) ++ (bytes ++ more)))
        ]
      ]

  -- `Encode`
  unfoldable pub encode : List (Frame Image) → Result ClipError (List ℕ)
  encode frames = elim (encode_frames 0 frames) [
    | err e ↦ err e
    | ok body ↦
        ok (magic ++ (big_endian 1 format_version ++ (big_endian 4 (length frames) ++ body)))
  ]

  -- The loop of `Decode`: so many frames, from the one at an index.
  unfoldable pub decode_frames : ℕ → ℕ → List ℕ → Result ClipError (List (Frame Image))
  decode_frames zero i input = ok []
  decode_frames (suc count) i input = elim (read_word 8 input) [
    | none ↦ err (truncated_timestamp i)
    | some (captured, after_captured) ↦ elim (read_word 4 after_captured) [
      | none ↦ err (truncated_length i)
      | some (jpeg_length, after_length) ↦ elim (read_full jpeg_length after_length) [
        | none ↦ err (truncated_data i)
        | some (bytes, remaining) ↦ elim (jpeg.decode bytes) [
          | none ↦ err (jpeg_decode i)
          | some image ↦ elim (decode_frames count (suc i) remaining) [
            | err e ↦ err e
            | ok more ↦ ok (record { image = image; captured_at = of_word64 captured } ∷ more)
          ]
        ]
      ]
    ]
  ]

  -- `Decode` after the magic bytes.
  decode_body : List ℕ → Result ClipError (List (Frame Image))
  decode_body input = elim (read_word 1 input) [
    | none ↦ err truncated
    | some (version, after_captured) ↦
        if not (nat_eq version format_version)
        then err unsupported_version
        else elim (read_word 4 after_captured) [
          | none ↦ err truncated
          | some (count, after_length) ↦ decode_frames count 0 after_length
        ]
  ]

  -- `Decode`. Fewer than eight bytes leave the array with zeros, so they never are the magic.
  unfoldable pub decode : List ℕ → Result ClipError (List (Frame Image))
  unfolding decode_body
  decode input = elim (read_full 8 input) [
    | none ↦ err bad_magic
    | some (got, rest) ↦ if same_bytes got magic then decode_body rest else err bad_magic
  ]
