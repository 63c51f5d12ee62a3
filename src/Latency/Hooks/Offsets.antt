-- ===== src/Latency/Hooks/Offsets.antt =====
-- The offsets of a state whose maximum lies between 0 and a bound `n`, behind each probe and behind the
-- loader's loop.
use android_device_axion_com.Base.{
  ℕ, ◌*◌, ◌/◌, ◌^◌, ◌≤◌, ◌<◌, ◌≡◌, arith, ℤ, pos, negsuc, neg_ℤ, ◌≤ℤ◌, Bool, true, false, not, ◌||◌,
  ◌⊎◌, inl, inr, List, has, ◌==◌, if_cases, if◌then◌else◌,
}
use android_device_axion_com.Kernel.{Ptr, null, task_is_eligible}
use android_device_axion_com.Latency.{
  Task, Sched, Entity, zero_entity, set_entity, nice_of_prio, calc_latency_offset,
  update_task_latency_nice, init_latency_tasks, probe_latency_init_entity,
  probe_latency_set_user_nice,
}
use android_device_axion_com.Latency.Offset.{
  offset_of_prio, retuned, latency_max-init, init_latency_tasks-retuned, calc_latency_offset-prio,
}
use android_device_axion_com.Latency.Hooks.{
  Event, android_vh_latency_wakeup_offset, android_vh_latency_tick_offset,
  android_vh_latency_init_entity, android_vh_latency_set_user_nice, probe,
}

module _ (n : ℕ) (fits : n < 2 ^ 31) where
  -- An offset that a maximum of at most `n` can give.
  abbrev pub Within : ℤ → Type 0
  Within z = (neg_ℤ (pos n) ≤ℤ z) × (z ≤ℤ pos (n * 19 / 20))

  pub record IsTuned (s : Sched) : Type 0 where
    pub low : pos 0 ≤ℤ s.latency_max
    pub high : s.latency_max ≤ℤ pos n
    pub offsets : (p : Ptr) → Within (s.tasks p).entity.latency_offset

  offset-Within : (k static_prio : ℕ) → k ≤ n → Within (offset_of_prio k static_prio)
  offset-Within k static_prio le = ground (arith, scaled)
    where
      scaled : k * 19 / 20 ≤ n * 19 / 20
      scaled = omega arith

  prio-Within :
      (z : ℤ) (static_prio : ℕ)
      → pos 0 ≤ℤ z
      → z ≤ℤ pos n
      → Within (calc_latency_offset z (nice_of_prio static_prio))
  prio-Within (pos k) static_prio low high =
      rw (calc_latency_offset-prio k (omega arith) static_prio)
        (offset-Within k static_prio (omega arith))
  prio-Within (negsuc k) static_prio low high = absurd (omega arith)

  -- The entity of a task other than NULL that is eligible is tuned by an update; any other keeps its
  -- own.
  set_entity-IsTuned :
      (s : Sched) (p : Ptr) (e : Entity)
      → IsTuned s
      → Within e.latency_offset
      → IsTuned (set_entity s p e)
  unfolding set_entity
  set_entity-IsTuned s p e ok within = record {
    low = ok.low;
    high = ok.high;
    offsets = λ q.
        if_cases (λ (t : Task). Within t.entity.latency_offset) (q == p) (λ _. within)
          (λ _. ok.offsets q);
  }

  update-IsTuned : (s : Sched) (p : Ptr) → IsTuned s → IsTuned (update_task_latency_nice s p)
  unfolding update_task_latency_nice
  update-IsTuned s p ok =
      if_cases IsTuned
        (p == null || not (task_is_eligible (s.tasks p).policy (s.tasks p).task_flags)) (λ _. ok)
        (λ _.
          set_entity-IsTuned s p _ ok
            (prio-Within s.latency_max (s.tasks p).static_prio ok.low ok.high))

  pub probe-IsTuned : (s : Sched) (e : Event) → IsTuned s → IsTuned (probe s e).0
  unfolding probe probe_latency_init_entity probe_latency_set_user_nice
  probe-IsTuned s (android_vh_latency_wakeup_offset curr se offset) ok = ok
  probe-IsTuned s (android_vh_latency_tick_offset curr se offset) ok = ok
  probe-IsTuned s (android_vh_latency_init_entity se) ok =
      if_cases IsTuned (se == null) (λ _. ok)
        (λ _. set_entity-IsTuned s se zero_entity ok (ground arith))
  probe-IsTuned s (android_vh_latency_set_user_nice p) ok =
      if_cases IsTuned (s.latency_nice_enabled == 0) (λ _. ok) (λ _. update-IsTuned s p ok)

  -- A task is covered by a list of threads if its offset is in range, or else if it is eligible and
  -- on the list.
  abbrev pub Covers : List Ptr → Sched → Type 0
  Covers threads s =
      (p : Ptr)
      → Within (s.tasks p).entity.latency_offset
        ⊎ ((has p threads ≡ true)
            × (task_is_eligible (s.tasks p).policy (s.tasks p).task_flags ≡ true))

  retuned-Within :
      (k : ℕ) (t : Task) (listed : Bool)
      → k ≤ n
      → Within t.entity.latency_offset
        ⊎ ((listed ≡ true) × (task_is_eligible t.policy t.task_flags ≡ true))
      → Within (if listed then retuned k t else t).entity.latency_offset
  retuned-Within k t listed le (inr (there, fair)) =
      rw (there, fair) (offset-Within k t.static_prio le)
  retuned-Within k t false le (inl within) = within
  retuned-Within k t true le (inl within) =
      if_cases (λ (u : Task). Within u.entity.latency_offset)
        (task_is_eligible t.policy t.task_flags) (λ _. offset-Within k t.static_prio le)
        (λ _. within)

  pub init_latency_tasks-IsTuned :
      (s : Sched) (k : ℕ) (threads : List Ptr)
      → s.latency_max ≡ pos k
      → k ≤ n
      → has null threads ≡ false
      → Covers threads s
      → IsTuned (init_latency_tasks s threads)
  init_latency_tasks-IsTuned s k threads sane le there covers = record {
    low = rw (latency_max-init n fits s threads, sane) (omega arith);
    high = rw (latency_max-init n fits s threads, sane) (omega arith);
    offsets = λ p.
        rw (init_latency_tasks-retuned k (omega arith) s threads p sane there)
          (retuned-Within k (s.tasks p) (has p threads) le (covers p));
  }
