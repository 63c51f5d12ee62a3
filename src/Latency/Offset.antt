-- ===== src/Latency/Offset.antt =====
-- The offsets that a priority gives, and that a change of priority stores.
use android_device_axion_com.Base.{
  ℕ, ◌*◌, ◌/◌, ◌^◌, ◌<◌, ◌≡◌, ◌≢◌, refl, ◌∙◌, arith, ℤ, pos, neg_ℤ, ◌*ℤ◌, Bool, true, false, not,
  ◌||◌, ◌==◌, ==_self, ==_iff, inl, inr, has, Bool-cases, if_cases, if◌then◌else◌, lt_s32, List, [],
  ◌∷◌,
}
use android_device_axion_com.Kernel.{Ptr, null, task_is_eligible}
use android_device_axion_com.Latency.{
  Entity, Task, Sched, set_entity, to_s32, calc_latency_offset, nice_of_prio,
  update_task_latency_nice, init_latency_tasks, min_latency_nice, max_latency_nice,
  default_latency_nice,
}

-- A maximum `n` for a boosted priority is a lead of `n`, for a lowered one a lag of 19 / 20 of it.
abbrev pub offset_of_prio : ℕ → ℕ → ℤ
offset_of_prio n static_prio =
    if lt_s32 static_prio 120
    then neg_ℤ (pos n)
    else if lt_s32 120 static_prio
    then pos (n * 19 / 20)
    else pos 0

module _ (n : ℕ) (fits : n < 2 ^ 31) where
  calc_min : calc_latency_offset (pos n) min_latency_nice ≡ neg_ℤ (pos n)
  unfolding calc_latency_offset to_s32 ◌*ℤ◌
  calc_min = ground arith

  calc_max : calc_latency_offset (pos n) max_latency_nice ≡ pos (n * 19 / 20)
  unfolding calc_latency_offset to_s32 ◌*ℤ◌
  calc_max = ground arith

  calc_default : calc_latency_offset (pos n) default_latency_nice ≡ pos 0
  unfolding calc_latency_offset to_s32 ◌*ℤ◌
  calc_default = ground arith

  -- With a maximum that is not negative and fits an `s32`, the scaled offset of a priority is exact.
  pub calc_latency_offset-prio :
      (static_prio : ℕ)
      → calc_latency_offset (pos n) (nice_of_prio static_prio) ≡ offset_of_prio n static_prio
  unfolding nice_of_prio
  calc_latency_offset-prio static_prio = ground (arith, calc_min, calc_max, calc_default)

-- The entity that a priority calls for, with `n` the maximum.
abbrev pub tuned : ℕ → Task → Entity
tuned n task = record (task.entity) {
  latency_nice = nice_of_prio task.static_prio;
  latency_offset = offset_of_prio n task.static_prio;
}

-- A task after an update: tuned if it is eligible.
abbrev pub retuned : ℕ → Task → Task
retuned n task =
    if task_is_eligible task.policy task.task_flags
    then record task { entity = tuned n task }
    else task

retuned_twice : (n : ℕ) (task : Task) → retuned n (retuned n task) ≡ retuned n task
retuned_twice n task = elim (Bool-cases (task_is_eligible task.policy task.task_flags)) [
  | inl fair ↦ rw (fair, fair) refl
  | inr other ↦ rw (other, other) refl
]

module _ (n : ℕ) (fits : n < 2 ^ 31) where
  update_self :
      (s : Sched) (p : Ptr)
      → s.latency_max ≡ pos n
      → p ≢ null
      → (update_task_latency_nice s p).tasks p ≡ retuned n (s.tasks p)
  unfolding update_task_latency_nice set_entity
  update_self s p sane there =
      let exact : calc_latency_offset s.latency_max (nice_of_prio (s.tasks p).static_prio)
          ≡ offset_of_prio n (s.tasks p).static_prio =
        rw sane (calc_latency_offset-prio n fits (s.tasks p).static_prio) in
      let apart : (p == null) ≡ false = ground arith in
      elim (Bool-cases (task_is_eligible (s.tasks p).policy (s.tasks p).task_flags)) [
        | inl fair ↦ rw (apart, fair, exact, ==_self p) refl
        | inr other ↦ rw (apart, other) refl
      ]

  update_other :
      (s : Sched) (p q : Ptr)
      → (q == p) ≡ false
      → (update_task_latency_nice s p).tasks q ≡ s.tasks q
  unfolding update_task_latency_nice set_entity
  update_other s p q apart =
      if_cases (λ (r : Sched). r.tasks q ≡ s.tasks q)
        (p == null || not (task_is_eligible (s.tasks p).policy (s.tasks p).task_flags)) (λ _. refl)
        (λ _. rw apart refl)

  -- With a maximum below 2 ^ 31, an update gives an eligible task the nice value and the offset of its
  -- priority, and changes no other task.
  pub update_task_latency_nice-retuned :
      (s : Sched) (p q : Ptr)
      → s.latency_max ≡ pos n
      → p ≢ null
      → (update_task_latency_nice s p).tasks q
        ≡ (if q == p then retuned n (s.tasks q) else s.tasks q)
  update_task_latency_nice-retuned s p q sane there = elim (Bool-cases (q == p)) [
    | inl same ↦ let e = (==_iff q p).0 same in rw (same, e) (update_self s p sane there)
    | inr apart ↦ rw apart (update_other s p q apart)
  ]

  latency_max-update :
      (s : Sched) (p : Ptr) → (update_task_latency_nice s p).latency_max ≡ s.latency_max
  unfolding update_task_latency_nice set_entity
  latency_max-update s p =
      if_cases (λ (r : Sched). r.latency_max ≡ s.latency_max) _ (λ _. refl) (λ _. refl)

  pub latency_max-init :
      (s : Sched) (ps : List Ptr) → (init_latency_tasks s ps).latency_max ≡ s.latency_max
  unfolding init_latency_tasks
  latency_max-init s [] = refl
  latency_max-init s (p ∷ ps) =
      latency_max-init (update_task_latency_nice s p) ps ∙ latency_max-update s p

  -- With a maximum below 2 ^ 31, the loop of the loader over a list of tasks that are not NULL tunes
  -- every eligible one of them, and changes no other.
  pub init_latency_tasks-retuned :
      (s : Sched) (ps : List Ptr) (q : Ptr)
      → s.latency_max ≡ pos n
      → has null ps ≡ false
      → (init_latency_tasks s ps).tasks q ≡ (if has q ps then retuned n (s.tasks q) else s.tasks q)
  unfolding init_latency_tasks has
  init_latency_tasks-retuned s [] q sane there = refl
  init_latency_tasks-retuned s (p ∷ ps) q sane there =
      let s' = update_task_latency_nice s p in
      let real : p ≢ null = λ e. ground arith in
      let step = update_task_latency_nice-retuned s p q sane real in
      init_latency_tasks-retuned s' ps q (latency_max-update s p ∙ sane) (ground arith)
      ∙ rw step (merge (q == p) (has q ps) (s.tasks q))
    where
      merge :
          (a b : Bool) (x : Task)
          → (if b then retuned n (if a then retuned n x else x) else (if a then retuned n x else x))
            ≡ (if a || b then retuned n x else x)
      merge true true x = retuned_twice n x
      merge true false x = refl
      merge false b x = refl
