-- ===== src/Bore/Penalty.antt =====
-- The arithmetic of kernel/modules/bore_sched/bore_sched.h: the tunables and the burst penalty. A
-- `u32` or `s32` is its bit pattern, and each operation wraps where the C type does.
-- `__builtin_clzll`, which the compiler provides, is counted from its definition. A shift by 32 or
-- more places is undefined in C; the theorems that depend on one bound the shift.
pub mod Log
pub mod Clamp
pub mod Smooth
use android_device_axion_com.Base.{
  ℕ, zero, suc, ◌+◌, ◌-◌, ◌*◌, ◌/◌, ◌^◌, bit_and, bit_or, ltb, ◌==◌, if◌then◌else◌, u32, u64, add32,
  sub32, mul32, not32, neg32, sar31,
}

abbrev pub max_burst_penalty : ℕ
max_burst_penalty = 40 * 2 ^ 8 - 1

-- The module's parameters, `uint` variables of bore_sched_main.c.
pub record Params : Type 0 where
  pub sched_bore : ℕ
  pub burst_inherit_type : ℕ
  pub burst_smoothness : ℕ
  pub burst_penalty_offset : ℕ
  pub burst_penalty_scale : ℕ
  pub burst_cache_lifetime : ℕ

abbrev pub default_params : Params
default_params = record {
  sched_bore = 1;
  burst_inherit_type = 2;
  burst_smoothness = 1;
  burst_penalty_offset = 24;
  burst_penalty_scale = 1536;
  burst_cache_lifetime = 75000000;
}

-- The digits of `v` in base two, at most as many as the fuel.
unfoldable pub bit_length : ℕ → ℕ → ℕ
bit_length zero v = 0
bit_length (suc f) v = let rest = bit_length f (v / 2) in if v == 0 then 0 else suc rest

unfoldable pub clz64 : ℕ → ℕ
clz64 v = 64 - bit_length 64 v

unfoldable pub log2p1_u64_u32fp : ℕ → ℕ → ℕ
log2p1_u64_u32fp v fp =
    let clz = clz64 v in
    let exponent = 64 - clz in
    let mantissa = u32 (u64 (u64 (v * 2 ^ clz) * 2) / 2 ^ (64 - fp)) in
    if v == 0 then 0 else bit_or (u32 (exponent * 2 ^ fp)) mantissa

unfoldable pub calc_burst_penalty : Params → ℕ → ℕ
calc_burst_penalty prm burst_time =
    let greed = log2p1_u64_u32fp burst_time 8 in
    let tolerance = u32 (prm.burst_penalty_offset * 2 ^ 8) in
    let diff = sub32 greed tolerance in
    let penalty = bit_and diff (not32 (sar31 diff)) in
    let scaled_penalty = mul32 penalty prm.burst_penalty_scale / 2 ^ 10 in
    let overflow = sub32 scaled_penalty max_burst_penalty in
    sub32 scaled_penalty (bit_and overflow (not32 (sar31 overflow)))

unfoldable pub binary_smooth : Params → ℕ → ℕ → ℕ
binary_smooth prm new_val old_val =
    let is_growing = if ltb old_val new_val then 1 else 0 in
    let increment = mul32 (sub32 new_val old_val) is_growing in
    let shift = prm.burst_smoothness in
    let smoothed = add32 old_val (sub32 (add32 increment (u32 (2 ^ shift))) 1 / 2 ^ shift) in
    bit_or (bit_and new_val (not32 (neg32 is_growing))) (bit_and smoothed (neg32 is_growing))
