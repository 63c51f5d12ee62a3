-- ===== src/Latency/Table.antt =====
-- What a woken task gets from its priority and that of the running one, once the loader has been over
-- both.
use android_device_axion_com.Base.{
  ℕ, ◌*◌, ◌/◌, ◌^◌, ◌<◌, ◌≡◌, ◌∙◌, refl, arith, ℤ, pos, neg_ℤ, ◌-ℤ◌, true, false, List, has,
  if◌then◌else◌, lt_s32,
}
use android_device_axion_com.Kernel.{Ptr, null, task_is_eligible}
use android_device_axion_com.Latency.{Sched, init_latency_tasks, wakeup_latency_gran}
use android_device_axion_com.Latency.Offset.{
  offset_of_prio, latency_max-init, init_latency_tasks-retuned,
}

-- A woken task above the default priority leads by `n` unless the running one is above it too; one at
-- the default yields `n` to a running task above it; any other yields, by `n` to a running task above
-- the default, and else by 19 / 20 of it.
abbrev pub offset_table : ℕ → ℕ → ℕ → ℤ
offset_table n curr_prio se_prio =
    if lt_s32 se_prio 120
    then if lt_s32 curr_prio 120 then pos 0 else neg_ℤ (pos n)
    else if lt_s32 curr_prio 120
    then pos n
    else if lt_s32 120 se_prio
    then pos (n * 19 / 20)
    else pos 0

gran-table :
    (n : ℕ) (s : Sched) (curr se curr_prio se_prio : ℕ)
    → s.latency_max ≡ pos n
    → (s.tasks curr).entity.latency_offset ≡ offset_of_prio n curr_prio
    → (s.tasks se).entity.latency_offset ≡ offset_of_prio n se_prio
    → wakeup_latency_gran s curr se ≡ offset_table n curr_prio se_prio
unfolding wakeup_latency_gran ◌-ℤ◌
gran-table n s curr se curr_prio se_prio sane lag lead =
    rw (wakeup_latency_gran, sane, lag, lead) (ground arith)

module _ (n : ℕ) (fits : n < 2 ^ 31) (s : Sched) (threads : List Ptr) (sane : s.latency_max ≡ pos n)
    (there : has null threads ≡ false) where
  listed-offset :
      (p : Ptr)
      → has p threads ≡ true
      → task_is_eligible (s.tasks p).policy (s.tasks p).task_flags ≡ true
      → ((init_latency_tasks s threads).tasks p).entity.latency_offset
        ≡ offset_of_prio n (s.tasks p).static_prio
  listed-offset p listed fair =
      rw (init_latency_tasks-retuned n fits s threads p sane there, listed, fair) refl

  -- Once the loader has been over two eligible tasks on its list, with a maximum `n` below 2 ^ 31, the
  -- offset of the one that wakes against the one that runs depends on their priorities alone, as the
  -- table says: -n or n where exactly the waking or exactly the running one is above the default.
  pub init_latency_tasks-table :
      (curr se : Ptr)
      → has curr threads ≡ true
      → has se threads ≡ true
      → task_is_eligible (s.tasks curr).policy (s.tasks curr).task_flags ≡ true
      → task_is_eligible (s.tasks se).policy (s.tasks se).task_flags ≡ true
      → wakeup_latency_gran (init_latency_tasks s threads) curr se
        ≡ offset_table n (s.tasks curr).static_prio (s.tasks se).static_prio
  init_latency_tasks-table curr se run wake fair_curr fair_se =
      gran-table n (init_latency_tasks s threads) curr se (s.tasks curr).static_prio
        (s.tasks se).static_prio (latency_max-init n fits s threads ∙ sane)
        (listed-offset curr run fair_curr) (listed-offset se wake fair_se)
