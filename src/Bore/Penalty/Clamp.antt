-- ===== src/Bore/Penalty/Clamp.antt =====
-- `calc_burst_penalty`: the branch-free code is a clamp, in range and monotone.
use native.Mathlib.Nat.{mod-eq_of_lt, mul-le-mul, mul-le-mul_right}
use android_device_axion_com.Base.{
  ℕ, ◌-◌, ◌*◌, ◌/◌, ◌^◌, ◌≤◌, ◌<◌, ◌≡◌, arith, min, bit_and, u32, sub32, mul32, not32, sar31,
  bit_and-not32-sar31,
}
use android_device_axion_com.Bore.Penalty.{
  Params, max_burst_penalty, log2p1_u64_u32fp, calc_burst_penalty,
}
use android_device_axion_com.Bore.Penalty.Log.{log2p1-lt, log2p1_mono}

-- The two branch-free steps: a difference that stops at 0, and a cap.
floor_step :
    (x y : ℕ) → x < 2 ^ 31 → y < 2 ^ 31 → bit_and (sub32 x y) (not32 (sar31 (sub32 x y))) ≡ x - y
floor_step x y hx hy = rw (bit_and-not32-sar31 (sub32 x y) (omega arith)) (ground arith)

cap_step :
    (x : ℕ)
    → x < 2 ^ 22
    → sub32 x (bit_and (sub32 x max_burst_penalty) (not32 (sar31 (sub32 x max_burst_penalty))))
      ≡ min max_burst_penalty x
cap_step x h = rw (bit_and-not32-sar31 (sub32 x max_burst_penalty) (omega arith)) (ground arith)

cap_step-le :
    (x : ℕ)
    → x < 2 ^ 22
    → sub32 x (bit_and (sub32 x max_burst_penalty) (not32 (sar31 (sub32 x max_burst_penalty))))
      ≤ max_burst_penalty
cap_step-le x h = rw (cap_step x h) (omega arith)

-- Tunables at which no product or shift of the calculation wraps.
pub record NoWrap (prm : Params) : Type 0 where
  pub offset : prm.burst_penalty_offset < 2 ^ 23
  pub scale : prm.burst_penalty_scale ≤ 258111

scaled-lt :
    (prm : Params) (burst_time : ℕ)
    → NoWrap prm
    → burst_time < 2 ^ 64
    → (log2p1_u64_u32fp burst_time 8 - prm.burst_penalty_offset * 256) * prm.burst_penalty_scale
      < 2 ^ 32
scaled-lt prm burst_time nw h =
    let small : log2p1_u64_u32fp burst_time 8 - prm.burst_penalty_offset * 256 ≤ 16639 =
      omega (arith, log2p1-lt burst_time h) in
    omega (arith, mul-le-mul small nw.scale)

-- Whatever the tunables, the penalty is at most the maximum.
pub calc_burst_penalty-le :
    (prm : Params) (burst_time : ℕ) → calc_burst_penalty prm burst_time ≤ max_burst_penalty
unfolding calc_burst_penalty
calc_burst_penalty-le prm burst_time = cap_step-le _ (omega arith)

-- Without wrapping, and for a time of 64 bits, the penalty is the excess of the logarithm over the tolerance, scaled by
-- 1 / 1024 of the scale and cut at the maximum.
pub calc_burst_penalty-clamp :
    (prm : Params) (burst_time : ℕ)
    → NoWrap prm
    → burst_time < 2 ^ 64
    → calc_burst_penalty prm burst_time
      ≡ min max_burst_penalty (
          (log2p1_u64_u32fp burst_time 8 - prm.burst_penalty_offset * 256)
          * prm.burst_penalty_scale
          / 1024)
unfolding calc_burst_penalty
calc_burst_penalty-clamp prm burst_time nw h =
    let greed = log2p1_u64_u32fp burst_time 8 in
    let offset = prm.burst_penalty_offset in
    let shifted : u32 (offset * 2 ^ 8) ≡ offset * 256 = omega arith in
    let product : mul32 (greed - offset * 256) prm.burst_penalty_scale
        ≡ (greed - offset * 256) * prm.burst_penalty_scale =
      mod-eq_of_lt (scaled-lt prm burst_time nw h) in
    rw
      (
        shifted,
        floor_step greed (offset * 256) (omega (arith, log2p1-lt burst_time h)) (omega arith),
        product,
      )
      (cap_step _ (omega (arith, scaled-lt prm burst_time nw h)))

-- Without wrapping, and for times of 64 bits, a longer burst has no smaller penalty.
pub calc_burst_penalty_mono :
    (prm : Params) (s t : ℕ)
    → NoWrap prm
    → t < 2 ^ 64
    → s ≤ t
    → calc_burst_penalty prm s ≤ calc_burst_penalty prm t
calc_burst_penalty_mono prm s t nw h le =
    let grows : log2p1_u64_u32fp s 8 - prm.burst_penalty_offset * 256
        ≤ log2p1_u64_u32fp t 8 - prm.burst_penalty_offset * 256 =
      omega (arith, log2p1_mono s t h le) in
    rw (calc_burst_penalty-clamp prm s nw (omega arith), calc_burst_penalty-clamp prm t nw h)
      (omega (arith, mul-le-mul_right prm.burst_penalty_scale grows))
