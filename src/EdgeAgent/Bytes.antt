-- ===== src/EdgeAgent/Bytes.antt =====
-- encoding/binary for the fixed-size words of the two file formats, and reading a byte sequence
-- from its front. A byte is a number below 256.
use cricket_drs_system.Prelude.{
  ℕ, zero, suc, ◌+◌, ◌-◌, ◌*◌, ◌/◌, ◌%◌, ◌^◌, ◌<◌, ◌≡◌, refl, Option, some, none, List, [], ◌∷◌,
  ◌++◌, length, take, drop, length-append, take-length-append, drop-length-append, arith, ltb, leb,
  if◌then◌else◌,
}
use cricket_drs_system.Prelude.Int.{ℤ, pos, negsuc, ◌≤ℤ◌}

-- `binary.Write` of a word of so many bytes, the most significant first
unfoldable pub big_endian : ℕ → ℕ → List ℕ
big_endian zero n = []
big_endian (suc k) n = n / 256 ^ k % 256 ∷ big_endian k n

-- The least significant first
unfoldable pub little_endian : ℕ → ℕ → List ℕ
little_endian zero n = []
little_endian (suc k) n = n % 256 ∷ little_endian k (n / 256)

-- The number that bytes stand for, the most significant first, after those already read.
unfoldable pub read_big_endian : ℕ → List ℕ → ℕ
read_big_endian acc [] = acc
read_big_endian acc (b ∷ bs) = read_big_endian (acc * 256 + b) bs

unfoldable pub read_little_endian : List ℕ → ℕ
read_little_endian [] = 0
read_little_endian (b ∷ bs) = b + 256 * read_little_endian bs

-- `io.ReadFull`: so many bytes from the front, and the rest, or an error where there are fewer.
unfoldable pub read_full : ℕ → List ℕ → Option (List ℕ × List ℕ)
read_full k bs = if leb k (length bs) then some (take k bs, drop k bs) else none

-- `binary.Read` of a word of so many bytes
unfoldable pub read_word : ℕ → List ℕ → Option (ℕ × List ℕ)
read_word k bs = elim (read_full k bs) [ none ↦ none | some p ↦ some (read_big_endian 0 p.0, p.1) ]

-- An `int64` as its 64 bits, and back.
unfoldable pub to_word64 : ℤ → ℕ
to_word64 (pos n) = n % 2 ^ 64
to_word64 (negsuc n) = 2 ^ 64 - 1 - n % 2 ^ 64

unfoldable pub of_word64 : ℕ → ℤ
of_word64 w = if ltb w (2 ^ 63) then pos w else negsuc (2 ^ 64 - 1 - w)

pub of_word64-to_word64 :
    (t : ℤ) → negsuc (2 ^ 63 - 1) ≤ℤ t → t ≤ℤ pos (2 ^ 63 - 1) → of_word64 (to_word64 t) ≡ t
unfolding of_word64 to_word64
of_word64-to_word64 (pos n) lo hi = ground arith
of_word64-to_word64 (negsuc n) lo hi = ground arith

pub length-big_endian : (k n : ℕ) → length (big_endian k n) ≡ k
unfolding big_endian
length-big_endian zero n = refl
length-big_endian (suc k) n = omega (arith, length-big_endian k n)

pub length-little_endian : (k n : ℕ) → length (little_endian k n) ≡ k
unfolding little_endian
length-little_endian zero n = refl
length-little_endian (suc k) n = omega (arith, length-little_endian k (n / 256))

pub read_full-append :
    (xs ys : List ℕ) (k : ℕ) → length xs ≡ k → read_full k (xs ++ ys) ≡ some (xs, ys)
unfolding read_full
read_full-append xs ys k e =
    ground (arith, length-append xs ys, take-length-append xs ys, drop-length-append xs ys)

read_big_endian_4 : (n : ℕ) → n < 2 ^ 32 → read_big_endian 0 (big_endian 4 n) ≡ n
unfolding read_big_endian big_endian
read_big_endian_4 n h = omega arith

read_big_endian_1 : (n : ℕ) → n < 256 → read_big_endian 0 (big_endian 1 n) ≡ n
unfolding read_big_endian big_endian
read_big_endian_1 n h = omega arith

read_big_endian_8 : (n : ℕ) → n < 2 ^ 64 → read_big_endian 0 (big_endian 8 n) ≡ n
unfolding read_big_endian big_endian
read_big_endian_8 n h = omega arith

read_word-append :
    (k n : ℕ) (rest : List ℕ)
    → read_big_endian 0 (big_endian k n) ≡ n
    → read_word k (big_endian k n ++ rest) ≡ some (n, rest)
unfolding read_word
read_word-append k n rest h =
    ground (arith, read_full-append (big_endian k n) rest k (length-big_endian k n), h)

pub read_word_4 :
    (n : ℕ) (rest : List ℕ) → n < 2 ^ 32 → read_word 4 (big_endian 4 n ++ rest) ≡ some (n, rest)
read_word_4 n rest h = read_word-append 4 n rest (read_big_endian_4 n h)

pub read_word_8 :
    (n : ℕ) (rest : List ℕ) → n < 2 ^ 64 → read_word 8 (big_endian 8 n ++ rest) ≡ some (n, rest)
read_word_8 n rest h = read_word-append 8 n rest (read_big_endian_8 n h)

pub read_word_1 :
    (n : ℕ) (rest : List ℕ) → n < 256 → read_word 1 (big_endian 1 n ++ rest) ≡ some (n, rest)
read_word_1 n rest h = read_word-append 1 n rest (read_big_endian_1 n h)

pub to_word64-lt : (t : ℤ) → to_word64 t < 2 ^ 64
unfolding to_word64
to_word64-lt (pos n) = omega arith
to_word64-lt (negsuc n) = omega arith
