-- ===== src/Bore/Penalty/Smooth.antt =====
-- `binary_smooth`: a fall is taken at once, a rise by a share of one in 2 ^ smoothness.
use native.Mathlib.Nat.{div-le_of_le-mul, div-le_self, le-div_iff_mul-le}
use android_device_axion_com.Base.{
  ℕ, zero, suc, ◌+◌, ◌-◌, ◌*◌, ◌/◌, ◌^◌, ◌≤◌, ◌<◌, ◌≡◌, arith, ltb, leb, true, false, if◌then◌else◌,
  bit_and, bit_or, u32, add32, sub32, mul32, bit_and-zero, bit_and_ones, bit_or-zero, zero-bit_or,
  two_pow-pos, two_pow-le,
}
use android_device_axion_com.Bore.Penalty.{Params, binary_smooth}

-- The part of a rise that one step takes: a share of one in 2 ^ shift, rounded up.
unfoldable pub rise : ℕ → ℕ → ℕ
rise shift increment = (increment + 2 ^ shift - 1) / 2 ^ shift

ones_select : (x y : ℕ) → x < 2 ^ 32 → x ≡ y → bit_or 0 (bit_and x (2 ^ 32 - 1)) ≡ y
ones_select x y h e = rw (bit_and_ones x h, zero-bit_or x h) e

-- The sum of a rise fits 32 bits.
rise_fits :
    (old new p : ℕ)
    → old < new
    → new < 2 ^ 16
    → 0 < p
    → p ≤ 2 ^ 31
    → add32 old (sub32 (add32 (mul32 (sub32 new old) 1) (u32 p)) 1 / p)
      ≡ old + (new - old + p - 1) / p
rise_fits old new p h small pos fits =
    let top : sub32 (add32 (mul32 (sub32 new old) 1) (u32 p)) 1 ≡ new - old + p - 1 = omega arith in
    rw top (omega (arith, div-le_self (new - old + p - 1) p))

-- Old and new value as `u16` fields of a context, and a shift that C defines.
module _ (prm : Params) (new_val old_val : ℕ) (shift : prm.burst_smoothness < 32)
    (new : new_val < 2 ^ 16) (old : old_val < 2 ^ 16) where
  smooth_fall : new_val ≤ old_val → binary_smooth prm new_val old_val ≡ new_val
  unfolding binary_smooth
  smooth_fall h =
      let falls : ltb old_val new_val ≡ false = ground arith in
      rw (falls, bit_and_ones new_val (omega arith), bit_and-zero) (bit_or-zero new_val)

  smooth_rise :
      old_val < new_val
      → binary_smooth prm new_val old_val ≡ old_val + rise prm.burst_smoothness (new_val - old_val)
  unfolding binary_smooth rise
  smooth_rise h =
      let rises : ltb old_val new_val ≡ true = ground arith in
      let size : 2 ^ prm.burst_smoothness ≤ 2 ^ 31 =
        two_pow-le prm.burst_smoothness 31 (omega arith) in
      rw (rises, bit_and-zero)
        (ones_select _ _ (omega arith) (
          rise_fits old_val new_val (2 ^ prm.burst_smoothness) h new
            (two_pow-pos prm.burst_smoothness) size))

add-le-mul : (a b : ℕ) → 0 < a → 0 < b → b + a - 1 ≤ a * b
add-le-mul zero b ha hb = absurd (omega arith)
add-le-mul (suc a) zero ha hb = absurd (omega arith)
add-le-mul (suc a) (suc b) ha hb = omega arith

-- A rise of at least one takes at least one and at most the whole way.
rise_bounds :
    (shift increment : ℕ)
    → 0 < increment
    → (0 < rise shift increment) × (rise shift increment ≤ increment)
unfolding rise
rise_bounds shift increment h =
    let p = 2 ^ shift in
    let pos = two_pow-pos shift in
    ((le-div_iff_mul-le pos).1 (omega arith), div-le_of_le-mul p (add-le-mul p increment pos h))

module _ (prm : Params) (new_val old_val : ℕ) (shift : prm.burst_smoothness < 32)
    (new : new_val < 2 ^ 16) (old : old_val < 2 ^ 16) where
  -- With values of 16 bits and a shift below 32 the branch-free code computes: the new value when it is not above the old one, and else the old
  -- value and a share of one in 2 ^ smoothness of the difference, rounded up.
  pub binary_smooth-cases : binary_smooth prm new_val old_val ≡ (
      if leb new_val old_val
      then new_val
      else old_val + rise prm.burst_smoothness (new_val - old_val))
  binary_smooth-cases = ground (
    arith,
    smooth_fall prm new_val old_val shift new old,
    smooth_rise prm new_val old_val shift new old,
  )

  -- The smoothed value never passes the new one, and on a rise it moves.
  pub binary_smooth-between :
      (binary_smooth prm new_val old_val ≤ new_val)
      × (old_val < new_val → old_val < binary_smooth prm new_val old_val)
  binary_smooth-between = ground (
    arith,
    smooth_fall prm new_val old_val shift new old,
    smooth_rise prm new_val old_val shift new old,
    rise_bounds prm.burst_smoothness (new_val - old_val),
  )
