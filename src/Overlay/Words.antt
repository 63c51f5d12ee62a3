-- ===== src/Overlay/Words.antt =====
-- The shared word as an entity and as a burst time.
use android_device_axion_com.Base.{
  ℕ, ◌+◌, ◌-◌, ◌*◌, ◌/◌, ◌%◌, ◌^◌, ◌<◌, ◌≡◌, ◌≢◌, refl, arith, pos, true, false, ◌==◌, ==_self,
  if◌then◌else◌, lt_s32,
}
use android_device_axion_com.Kernel.{Ptr, null, task_is_eligible}
use android_device_axion_com.Bore.Inherit.{Tasks, set_ctx}
use android_device_axion_com.Latency.{nice_of_prio, probe_latency_set_user_nice}
use android_device_axion_com.Latency.Offset.{offset_of_prio, update_task_latency_nice-retuned}
use android_device_axion_com.Overlay.{
  bits32, bits16, s32_of, s16_of, word_of, entity_of, latency_view, write_back,
  shared_set_user_nice,
}

bits32-s32_of : (w : ℕ) → w < 2 ^ 32 → bits32 (s32_of w) ≡ w
unfolding bits32 s32_of
bits32-s32_of w h = ground arith

bits16-s16_of : (w : ℕ) → w < 2 ^ 16 → bits16 (s16_of w) ≡ w
unfolding bits16 s16_of
bits16-s16_of w h = ground arith

-- A word is the entity that it stands for, and back.
pub word_of-entity_of : (w : ℕ) → w < 2 ^ 64 → word_of (entity_of w) ≡ w
unfolding word_of entity_of
word_of-entity_of w h =
    rw (bits32-s32_of (w % 2 ^ 32) (omega arith), bits16-s16_of (w / 2 ^ 32 % 2 ^ 16) (omega arith))
      (omega arith)

-- The word of a task that the latency module has tuned, with `n` the maximum.
abbrev pub burst_of_prio : ℕ → ℕ → ℕ
burst_of_prio n static_prio =
    if lt_s32 static_prio 120
    then 2 ^ 32 * (2 ^ 16 - 20) + (2 ^ 32 - n) % 2 ^ 32
    else if lt_s32 120 static_prio
    then 2 ^ 32 * 19 + n * 19 / 20
    else 0

module _ (n : ℕ) (fits : n < 2 ^ 31) where
  word_of-tuned :
      (static_prio flags : ℕ)
      → flags % 2 ^ 16 ≡ 0
      → word_of (record {
        latency_offset = offset_of_prio n static_prio;
        latency_nice = nice_of_prio static_prio;
        flags = flags;
      })
        ≡ burst_of_prio n static_prio
  unfolding word_of bits32 bits16 nice_of_prio
  word_of-tuned static_prio flags none = ground arith

  -- With the latency module on, a maximum `n` below 2 ^ 31, and a burst below 2 ^ 48 ns, a change of an
  -- eligible task's priority leaves BORE with a burst time that depends on the priority and `n` alone:
  -- 0 at the default, at least 19 * 2 ^ 32 ns, which is 81 seconds, below it, and more above it. No
  -- other task changes.
  pub shared_set_user_nice-burst_time :
      (enabled : ℕ) (t : Tasks) (p q : Ptr)
      → enabled ≢ 0
      → p ≢ null
      → task_is_eligible (t p).policy (t p).rank.flags ≡ true
      → (t p).ctx.burst_time < 2 ^ 48
      → shared_set_user_nice enabled (pos n) t p q ≡ (
          if q == p
          then record (t q) {
            ctx = record ((t p).ctx) { burst_time = burst_of_prio n (t p).rank.static_prio };
          }
          else t q)
  unfolding shared_set_user_nice write_back set_ctx probe_latency_set_user_nice latency_view
      entity_of
  shared_set_user_nice-burst_time enabled t p q on there fair short =
      let view = latency_view enabled (pos n) t in
      let apart : (enabled == 0) ≡ false = ground arith in
      let tuned = update_task_latency_nice-retuned n fits view p p refl there in
      let word =
        word_of-tuned (t p).rank.static_prio ((t p).ctx.burst_time / 2 ^ 48 % 2 ^ 16)
          (omega arith) in
      rw (apart, tuned, ==_self p, fair, word) refl
