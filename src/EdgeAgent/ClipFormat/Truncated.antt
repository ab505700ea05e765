-- ===== src/EdgeAgent/ClipFormat/Truncated.antt =====
-- That a clip which was cut short is refused, wherever the cut is.
use cricket_drs_system.Prelude.{
  ℕ, zero, suc, ◌<◌, ◌≤◌, ◌^◌, ◌≡◌, refl, sym, ap, ◌∙◌, Option, some, none, List, [], ◌∷◌, ◌++◌,
  length, take, drop, length-append, All, arith, Option-cases, Bool-cases, leb, inl, inr,
}
use cricket_drs_system.Exec.{ok, err, Result-cases}
use cricket_drs_system.EdgeAgent.Buffer.{Frame}
use cricket_drs_system.EdgeAgent.Bytes.{
  big_endian, read_full, read_word, to_word64, read_full-append, read_word_4, read_word_8,
  read_word_1, to_word64-lt,
}
use cricket_drs_system.EdgeAgent.ClipFormat.{
  Jpeg, ClipError, magic, format_version, same_bytes, encode_frames, encode, decode_frames,
  decode_body, decode,
}
use cricket_drs_system.EdgeAgent.ClipFormat.RoundTrip.{Fits, encode_frames_ok, encode_ok}

-- What is left of an input after so many frames, if they are all there.
unfoldable left : ℕ → List ℕ → Option (List ℕ)
left zero input = some input
left (suc count) input = elim (read_word 8 input) [
  | none ↦ none
  | some (captured, after_captured) ↦ elim (read_word 4 after_captured) [
    | none ↦ none
    | some (jpeg_length, after_length) ↦ elim (read_full jpeg_length after_length) [
      | none ↦ none
      | some (bytes, remaining) ↦ left count remaining
    ]
  ]
]

module _ (s : List ℕ) where
  take-append : (k : ℕ) (p : List ℕ) → k ≤ length p → take k (p ++ s) ≡ take k p
  take-append zero p h = refl
  take-append (suc k) [] h = absurd (omega arith)
  take-append (suc k) (x ∷ p) h = ap (λ xs. x ∷ xs) (take-append k p (omega arith))

  drop-append : (k : ℕ) (p : List ℕ) → k ≤ length p → drop k (p ++ s) ≡ drop k p ++ s
  drop-append zero p h = refl
  drop-append (suc k) [] h = absurd (omega arith)
  drop-append (suc k) (x ∷ p) h = drop-append k p (omega arith)

  -- More input changes nothing of what was read in full.
  read_full_more :
      (k : ℕ) (p a b : List ℕ)
      → read_full k p ≡ some (a, b)
      → read_full k (p ++ s) ≡ some (a, b ++ s)
  unfolding read_full
  read_full_more k p a b h = elim (Bool-cases (leb k (length p))) [
    | inl enough ↦
        let t = take-append k p (ground arith) in
        let d = drop-append k p (ground arith) in ground (arith, length-append p s)
    | inr short ↦ absurd (ground arith)
  ]

  read_word_more :
      (k : ℕ) (p : List ℕ) (n : ℕ) (b : List ℕ)
      → read_word k p ≡ some (n, b)
      → read_word k (p ++ s) ≡ some (n, b ++ s)
  unfolding read_word
  read_word_more k p n b h = elim (Option-cases (read_full k p)) [
    | inl short ↦ absurd (ground arith)
    | inr (r, got) ↦ ground (arith, read_full_more k p r.0 r.1 got)
  ]

  left_more :
      (count : ℕ) (p r : List ℕ) → left count p ≡ some r → left count (p ++ s) ≡ some (r ++ s)
  unfolding left
  left_more zero p r h = ground arith
  left_more (suc count) p r h = elim (Option-cases (read_word 8 p)) [
    | inl short ↦ absurd (ground arith)
    | inr ((captured, a), got) ↦ elim (Option-cases (read_word 4 a)) [
      | inl short ↦ absurd (ground arith)
      | inr ((size, b), sized) ↦ elim (Option-cases (read_full size b)) [
        | inl short ↦ absurd (ground arith)
        | inr ((bytes, c), full) ↦
            let more = left_more count c r (ground arith) in
            ground (
              arith,
              more,
              read_word_more 8 p captured a got,
              read_word_more 4 a size b sized,
              read_full_more size b bytes c full,
            )
      ]
    ]
  ]

module _ {Image : Type 0} (jpeg : Jpeg Image) where
  -- Frames that were decoded were all there.
  decode_frames_left :
      (count i : ℕ) (input : List ℕ) (gs : List (Frame Image))
      → decode_frames jpeg count i input ≡ ok gs
      → (r : List ℕ) × (left count input ≡ some r)
  unfolding decode_frames left
  decode_frames_left zero i input gs h = (input, refl)
  decode_frames_left (suc count) i input gs h = elim (Option-cases (read_word 8 input)) [
    | inl short ↦ absurd (ground arith)
    | inr ((captured, a), got) ↦ elim (Option-cases (read_word 4 a)) [
      | inl short ↦ absurd (ground arith)
      | inr ((size, b), sized) ↦ elim (Option-cases (read_full size b)) [
        | inl short ↦ absurd (ground arith)
        | inr ((bytes, c), full) ↦ elim (Option-cases (jpeg.decode bytes)) [
          | inl broken ↦ absurd (ground arith)
          | inr (image, unpacked) ↦ elim (Result-cases (decode_frames jpeg count (suc i) c)) [
            | inr (e, failed) ↦ absurd (ground arith)
            | inl (more, decoded) ↦
                let (r, rest) = decode_frames_left count (suc i) c more decoded in
                (r, ground (arith, rest))
          ]
        ]
      ]
    ]
  ]

  left_step :
      (count : ℕ) (input a b c : List ℕ) (captured size : ℕ) (bytes : List ℕ)
      → read_word 8 input ≡ some (captured, a)
      → read_word 4 a ≡ some (size, b)
      → read_full size b ≡ some (bytes, c)
      → left (suc count) input ≡ left count c
  unfolding left
  left_step count input a b c captured size bytes got sized full = ground arith

  -- An encoding has nothing behind its frames.
  left-encode_frames :
      (i : ℕ) (fs : List (Frame Image)) (out : List ℕ)
      → All (Fits jpeg) fs
      → encode_frames jpeg i fs ≡ ok out
      → left (length fs) out ≡ some []
  unfolding encode_frames left
  left-encode_frames i [] out h made = ground arith
  left-encode_frames i (f ∷ fs) out h made =
      let (bytes, more, packed, rest, same) = encode_frames_ok jpeg i f fs out made in
      let tail = bytes ++ more in
      rw same (
        left_step (length fs) _ (big_endian 4 (length bytes) ++ tail) tail more
          (to_word64 f.captured_at) (length bytes) bytes
          (read_word_8 (to_word64 f.captured_at) (big_endian 4 (length bytes) ++ tail)
            (to_word64-lt f.captured_at))
          (read_word_4 (length bytes) tail (h.0.size bytes packed))
          (read_full-append bytes more (length bytes) refl)
        ∙ left-encode_frames (suc i) fs more h.1 rest)

  -- What a clip that decodes begins with.
  decode_parts :
      (input : List ℕ) (gs : List (Frame Image))
      → decode jpeg input ≡ ok gs
      → (got : List ℕ) × (rest : List ℕ) × (version : ℕ) × (a : List ℕ) × (count : ℕ) × (body : List
          ℕ)
        × (read_full 8 input ≡ some (got, rest))
        × (read_word 1 rest ≡ some (version, a))
        × (read_word 4 a ≡ some (count, body))
        × (decode_frames jpeg count 0 body ≡ ok gs)
  unfolding decode decode_body
  decode_parts input gs h = elim (Option-cases (read_full 8 input)) [
    | inl short ↦ absurd (ground arith)
    | inr ((got, rest), begun) ↦ elim (Bool-cases (same_bytes got magic)) [
      | inr other ↦ absurd (ground arith)
      | inl same ↦ elim (Option-cases (read_word 1 rest)) [
        | inl short ↦ absurd (ground arith)
        | inr ((version, a), versioned) ↦ elim (Option-cases (read_word 4 a)) [
          | inl short ↦ absurd (ground arith)
          | inr ((count, body), counted) ↦
              (got, rest, version, a, count, body, begun, versioned, counted, ground arith)
        ]
      ]
    ]
  ]

  -- A clip that was encoded and then cut short, wherever the cut is, does not decode. This is for
  -- fewer than 2^32 frames that the format can hold.
  pub decode-truncated :
      (fs : List (Frame Image)) (out p s : List ℕ)
      → All (Fits jpeg) fs
      → length fs < 2 ^ 32
      → encode jpeg fs ≡ ok out
      → out ≡ p ++ s
      → 0 < length s
      → (e : ClipError) × (decode jpeg p ≡ err e)
  decode-truncated fs out p s h few made cut some_missing = elim (Result-cases (decode jpeg p)) [
    | inr (e, refused) ↦ (e, refused)
    | inl (gs, decoded) ↦
        let (got, rest, version, a, count, body, begun, versioned, counted, frames) =
          decode_parts p gs decoded in
        let (encoded, packed, same) = encode_ok jpeg fs out made in
        let after_version = big_endian 4 (length fs) ++ encoded in
        let after_magic = big_endian 1 format_version ++ after_version in
        let whole : p ++ s ≡ magic ++ after_magic = sym cut ∙ same in
        let r1 = read_full_more s 8 p got rest begun in
        let r2 = read_word_more s 1 rest version a versioned in
        let r3 = read_word_more s 4 a count body counted in
        let e1 = read_full-append magic after_magic 8 refl in
        let e2 = read_word_1 format_version after_version (omega arith) in
        let e3 = read_word_4 (length fs) encoded few in
        let m1 : rest ++ s ≡ after_magic = ground (arith, whole) in
        let m2 : a ++ s ≡ after_version = ground (arith, m1) in
        let m3 : body ++ s ≡ encoded = ground (arith, m2) in
        let m4 : count ≡ length fs = ground (arith, m2) in
        let (r, there) = decode_frames_left count 0 body gs frames in
        let more = left_more s count body r there in
        let none_left = left-encode_frames 0 fs encoded h packed in
        let nothing : r ++ s ≡ [] = ground (arith, m3, m4) in
        let sizes : length (r ++ s) ≡ 0 = ap (λ xs. length xs) nothing in
        absurd (omega (arith, sizes, length-append r s))
  ]
