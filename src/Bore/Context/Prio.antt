-- ===== src/Bore/Context/Prio.antt =====
-- The branch-free priority of bore_sched_main.c is a clamp of the nice level and the score.
use android_device_axion_com.Base.{
  ℕ, ◌+◌, ◌-◌, ◌^◌, ◌≤◌, ◌<◌, ◌≡◌, arith, min, max, true, false, Bool, refl, ap, ◌∙◌, ◌==◌, ltb,
  if◌then◌else◌, bit_and, u8, u16, add32, sub32, not32, neg32, sar31, bit_and-not32-sar31,
  bit_and-sar31, bit_and-zero, bit_and_ones,
}
use android_device_axion_com.Bore.Penalty.{Params, max_burst_penalty}
use android_device_axion_com.Bore.Context.{
  Context, Rank, bore_score, effective_prio_bore, is_protected, masked_penalty,
}

clamp_low : (x : ℕ) → x < 2 ^ 32 → bit_and x (not32 (sar31 x)) < 2 ^ 31
clamp_low x h = rw (bit_and-not32-sar31 x h) (ground arith)

clamp_high :
    (x : ℕ)
    → x < 2 ^ 31
    → u8 (sub32 x (bit_and (sub32 x 39) (not32 (sar31 (sub32 x 39))))) ≡ min 39 x
clamp_high x h = rw (bit_and-not32-sar31 (sub32 x 39) (omega arith)) (ground arith)

scored_clamp :
    (x : ℕ)
    → x < 2 ^ 32
    → let prio = bit_and x (not32 (sar31 x)) in
      u8 (sub32 prio (bit_and (sub32 prio 39) (not32 (sar31 (sub32 prio 39)))))
      ≡ min 39 (if ltb x (2 ^ 31) then x else 0)
scored_clamp x h = clamp_high _ (clamp_low x h) ∙ ap (min 39) (bit_and-not32-sar31 x h)

clamped-le :
    (x : ℕ)
    → x < 2 ^ 32
    → let prio = bit_and x (not32 (sar31 x)) in
      u8 (sub32 prio (bit_and (sub32 prio 39) (not32 (sar31 (sub32 prio 39))))) ≤ 39
clamped-le x h = rw (scored_clamp x h) (omega arith)

scored-lt :
    (base score : ℕ) (b : Bool) → base < 2 ^ 32 → (if b then base else add32 base score) < 2 ^ 32
scored-lt base score b h = ground arith

-- Two `int` in the range of priorities, and a score: the masked sum is the sum, cut at 0 and 39.
score_sum :
    (a b score : ℕ) (off : Bool)
    → a < 2 ^ 30
    → b < 2 ^ 30
    → score < 2 ^ 8
    → let x = if off then sub32 a b else add32 (sub32 a b) score in
      min 39 (if ltb x (2 ^ 31) then x else 0) ≡ min 39 (a + (if off then 0 else score) - b)
score_sum a b score off ha hb hs = ground arith

module _ (max_rt_prio : ℕ) (prm : Params) (p : Rank) (ctx : Context) where
  -- Whatever its inputs, a priority is at most 39.
  pub effective_prio_bore-le : effective_prio_bore max_rt_prio prm p ctx ≤ 39
  unfolding effective_prio_bore
  effective_prio_bore-le = clamped-le _ (
      scored-lt (sub32 p.static_prio max_rt_prio) (bore_score ctx) (prm.sched_bore == 0)
        (omega arith))

  bore_score-lt : bore_score ctx < 2 ^ 8
  unfolding bore_score
  bore_score-lt = omega arith

  -- With priorities below 2 ^ 30, the branch-free priority is the static priority above MAX_RT_PRIO, plus
  -- the score if `sched_bore` is not 0, and without the score if it is 0, cut at 0 and at 39.
  pub effective_prio_bore-clamp :
      p.static_prio < 2 ^ 30
      → max_rt_prio < 2 ^ 30
      → effective_prio_bore max_rt_prio prm p ctx
        ≡ min 39 (p.static_prio + (if prm.sched_bore == 0 then 0 else bore_score ctx) - max_rt_prio)
  unfolding effective_prio_bore
  effective_prio_bore-clamp hs hm =
      scored_clamp _ (
        scored-lt (sub32 p.static_prio max_rt_prio) (bore_score ctx) (prm.sched_bore == 0)
          (omega arith))
      ∙ score_sum p.static_prio max_rt_prio (bore_score ctx) (prm.sched_bore == 0) hs hm
          bore_score-lt

-- `curr - (diff & (diff >> 31))` is the larger of two `u16`.
max_step :
    (c q : ℕ)
    → c < 2 ^ 16
    → q < 2 ^ 16
    → u16 (sub32 c (bit_and (sub32 c q) (sar31 (sub32 c q)))) ≡ max c q
max_step c q hc hq = rw (bit_and-sar31 (sub32 c q) (omega arith)) (ground arith)

mask_step :
    (m : ℕ) (b : Bool)
    → m < 2 ^ 16
    → u16 (bit_and m (neg32 (if b then 0 else 1))) ≡ (if b then 0 else m)
mask_step m true h = rw (bit_and-zero m) refl
mask_step m false h = rw (bit_and_ones m (omega arith)) (omega arith)

-- The masked penalty is 0 of a protected task, and else the larger of the two penalties.
pub masked_penalty-max :
    (p : Rank) (ctx : Context)
    → ctx.curr_penalty < 2 ^ 16
    → ctx.prev_penalty < 2 ^ 16
    → masked_penalty p ctx ≡ (if is_protected p then 0 else max ctx.curr_penalty ctx.prev_penalty)
unfolding masked_penalty
masked_penalty-max p ctx hc hp =
    rw (max_step ctx.curr_penalty ctx.prev_penalty hc hp)
      (mask_step _ (is_protected p) (omega arith))

pub bore_score-le : (ctx : Context) → ctx.penalty ≤ max_burst_penalty → bore_score ctx ≤ 39
unfolding bore_score
bore_score-le ctx h = omega arith
