-- ===== src/EdgeAgent/Capture/Mix.antt =====
-- That mixing the channels of a moment into one sample loses nothing to the widths of the integers.
use native.Mathlib.Nat.{div-le_of_le-mul}
use cricket_drs_system.Prelude.{
  ℕ, zero, suc, ◌+◌, ◌*◌, ◌/◌, ◌≤◌, ◌<◌, ◌≡◌, refl, ◌∙◌, sym, some, List, [], ◌∷◌, length, All,
  arith,
}
use cricket_drs_system.Prelude.Int.{ℤ, pos, negsuc, pos_part, neg_part, ◌+ℤ◌, +ℤ_parts, eq_of_parts}
use cricket_drs_system.EdgeAgent.Capture.{to_int32, to_int16, negated, quotient, sum_from, mix}

-- A value of 16 bits.
abbrev pub Fits16 : ℤ → Type 0
Fits16 a = (pos_part a ≤ 32767) × (neg_part a ≤ 32768)

-- The exact sum.
unfoldable pub total : List ℤ → ℤ
total [] = pos 0
total (x ∷ xs) = x +ℤ total xs

to_int32-id : (a : ℤ) → pos_part a ≤ 2147483647 → neg_part a ≤ 2147483648 → to_int32 a ≡ a
unfolding to_int32
to_int32-id (pos n) hi lo = ground arith
to_int32-id (negsuc n) hi lo = ground arith

to_int16-id : (a : ℤ) → Fits16 a → to_int16 a ≡ a
unfolding to_int16
to_int16-id (pos n) h = ground (arith, h)
to_int16-id (negsuc n) h = ground (arith, h)

add_bounds :
    (k : ℕ) (a s : ℤ)
    → pos_part a ≤ 32767 * k
    → neg_part a ≤ 32768 * k
    → Fits16 s
    → (pos_part (a +ℤ s) ≤ 32767 * suc k) × (neg_part (a +ℤ s) ≤ 32768 * suc k)
unfolding ◌+ℤ◌
add_bounds k a s hi lo h = ground (arith, hi, lo, h)

+ℤ_assoc : (a b c : ℤ) → (a +ℤ b) +ℤ c ≡ a +ℤ (b +ℤ c)
+ℤ_assoc a b c =
    eq_of_parts ((a +ℤ b) +ℤ c) (a +ℤ (b +ℤ c))
      (omega (arith, +ℤ_parts a b, +ℤ_parts (a +ℤ b) c, +ℤ_parts b c, +ℤ_parts a (b +ℤ c)))

+ℤ_zero : (a : ℤ) → a +ℤ pos 0 ≡ a
+ℤ_zero a = eq_of_parts (a +ℤ pos 0) a (omega (arith, +ℤ_parts a (pos 0)))

zero_+ℤ : (a : ℤ) → pos 0 +ℤ a ≡ a
zero_+ℤ a = eq_of_parts (pos 0 +ℤ a) a (omega (arith, +ℤ_parts (pos 0) a))

negated_bounds : (n : ℕ) → n ≤ 32768 → Fits16 (negated n)
negated_bounds zero h = (omega arith, omega arith)
negated_bounds (suc n) h = (omega arith, omega arith)

sum_from-total :
    (k : ℕ) (a : ℤ) (values : List ℤ)
    → pos_part a ≤ 32767 * k
    → neg_part a ≤ 32768 * k
    → All Fits16 values
    → k + length values ≤ 65535
    → (sum_from a values ≡ a +ℤ total values)
      × (pos_part (a +ℤ total values) ≤ 32767 * (k + length values))
      × (neg_part (a +ℤ total values) ≤ 32768 * (k + length values))
unfolding sum_from total
sum_from-total k a [] hi lo h few = rw (+ℤ_zero a) (refl, omega arith, omega arith)
sum_from-total k a (s ∷ ss) hi lo h few =
    let (hi', lo') = add_bounds k a s hi lo h.0 in
    let exact = to_int32-id (a +ℤ s) (omega arith) (omega arith) in
    let (sum, top, bottom) = sum_from-total (suc k) (a +ℤ s) ss hi' lo' h.1 (omega arith) in
    rw (exact, sym (+ℤ_assoc a s (total ss))) (sum, omega (arith, top), omega (arith, bottom))

-- The mean of a sum within bounds, cut off towards zero.
quotient-Fits16 :
    (sum : ℤ) (d : ℕ)
    → pos_part sum ≤ 32767 * suc d
    → neg_part sum ≤ 32768 * suc d
    → (m : ℤ) × (quotient sum (pos (suc d)) ≡ some m) × Fits16 m
unfolding quotient
quotient-Fits16 (pos n) d hi lo =
    let mean = div-le_of_le-mul (suc d) {m = n} {n = 32767} (omega arith) in
    (pos (n / suc d), refl, (mean, omega arith))
quotient-Fits16 (negsuc n) d hi lo =
    let mean = div-le_of_le-mul (suc d) {m = suc n} {n = 32768} (omega arith) in
    (negated (suc n / suc d), refl, negated_bounds (suc n / suc d) mean)

mix_steps :
    (channels : ℕ) (values : List ℤ) (sum d m : ℤ)
    → sum_from (pos 0) values ≡ sum
    → to_int32 (pos channels) ≡ d
    → quotient sum d ≡ some m
    → to_int16 m ≡ m
    → mix channels values ≡ some m
unfolding mix
mix_steps channels values sum d m added divisor mean narrowed = ground arith

-- Of at least one and fewer than 65536 channels of 16-bit values: the mixed sample is the mean of
-- the exact sum, cut off towards zero. The 32-bit sum does not wrap, and the mean fits 16 bits.
pub mix-exact :
    (values : List ℤ)
    → 0 < length values
    → length values < 65536
    → All Fits16 values
    → (m : ℤ) × (mix (length values) values ≡ some m)
      × (quotient (total values) (pos (length values)) ≡ some m)
      × Fits16 m
mix-exact [] some_channels few h = absurd (omega arith)
mix-exact (v ∷ vs) some_channels few h =
    let values = v ∷ vs in
    let (sum, hi, lo) =
      sum_from-total 0 (pos 0) values (omega arith) (omega arith) h (omega arith) in
    let exact : sum_from (pos 0) values ≡ total values = sum ∙ zero_+ℤ (total values) in
    let divisor = to_int32-id (pos (length values)) (omega arith) (omega arith) in
    let (m, mean, fits) =
      quotient-Fits16 (total values) (length vs) (omega (arith, rw (zero_+ℤ (total values)) at hi))
        (omega (arith, rw (zero_+ℤ (total values)) at lo)) in
    let steps =
      mix_steps (length values) values (total values) (pos (length values)) m exact divisor mean
        (to_int16-id m fits) in
    (m, steps, mean, fits)
