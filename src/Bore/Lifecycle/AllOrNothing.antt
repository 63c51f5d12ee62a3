-- ===== src/Bore/Lifecycle/AllOrNothing.antt =====
-- Loading registers every hook or none, and unloading leaves none.
use android_device_axion_com.Base.{
  ◌<◌, ◌≡◌, ◌∙◌, ◌⊎◌, inl, inr, refl, arith, Bool, true, false, List, if_cases,
}
use android_device_axion_com.Kernel.{Ptr}
use android_device_axion_com.Kernel.Tracepoints.{Tracepoints, Upto, attempt_cases, Upto-unregister}
use android_device_axion_com.Bore.Lifecycle.{
  Hook, tag, update_curr, dequeue_task_fair, set_next_entity, yield_task_fair, task_fork,
  init_entity, set_load_weight, Grants, Module, activate, fail_hooks, fail_dequeue, fail_set_next,
  fail_yield, fail_task_fork, fail_init_entity, fail_set_load_weight, register_hooks,
  bore_sched_init, unregister_all, bore_sched_exit,
}

module _ (tp : Tracepoints Hook tag) where
  open tp use {Registry, registered}

  tag-lt : (k : Hook) → tag k < 7
  tag-lt update_curr = omega arith
  tag-lt dequeue_task_fair = omega arith
  tag-lt set_next_entity = omega arith
  tag-lt yield_task_fair = omega arith
  tag-lt task_fork = omega arith
  tag-lt init_entity = omega arith
  tag-lt set_load_weight = omega arith

  abbrev pub AllHooks : Bool → Registry → Type 0
  AllHooks b r = (k : Hook) → registered r k ≡ b

  -- The module runs with every hook, or is off with none.
  abbrev pub AllOrNothing : Module tp → Type 0
  AllOrNothing m =
      ((m.bore_hooks_active ≡ true) × AllHooks true m.registry)
      ⊎ ((m.bore_hooks_active ≡ false)
          × (m.sched.params.sched_bore ≡ 0)
          × AllHooks false m.registry)

  none-below : (r : Registry) → Upto tp 0 r → AllHooks false r
  none-below r u k = ground (arith, u k)

  module _ (grants : Grants) (m : Module tp) where
    off0 : (r : Registry) → Upto tp 0 r → AllOrNothing (fail_hooks tp grants m r)
    unfolding fail_hooks
    off0 r u = inr (refl, refl, none-below r u)

    off1 : (r : Registry) → Upto tp 1 r → AllOrNothing (fail_dequeue tp grants m r)
    unfolding fail_dequeue
    off1 r u = off0 _ (Upto-unregister tp update_curr r u)

    off2 : (r : Registry) → Upto tp 2 r → AllOrNothing (fail_set_next tp grants m r)
    unfolding fail_set_next
    off2 r u = off1 _ (Upto-unregister tp dequeue_task_fair r u)

    off3 : (r : Registry) → Upto tp 3 r → AllOrNothing (fail_yield tp grants m r)
    unfolding fail_yield
    off3 r u = off2 _ (Upto-unregister tp set_next_entity r u)

    off4 : (r : Registry) → Upto tp 4 r → AllOrNothing (fail_task_fork tp grants m r)
    unfolding fail_task_fork
    off4 r u = off3 _ (Upto-unregister tp yield_task_fair r u)

    off5 : (r : Registry) → Upto tp 5 r → AllOrNothing (fail_init_entity tp grants m r)
    unfolding fail_init_entity
    off5 r u = off4 _ (Upto-unregister tp task_fork r u)

    off6 : (r : Registry) → Upto tp 6 r → AllOrNothing (fail_set_load_weight tp grants m r)
    unfolding fail_set_load_weight
    off6 r u = off5 _ (Upto-unregister tp init_entity r u)

    on7 : (r : Registry) → Upto tp 7 r → AllOrNothing (activate tp grants m r)
    unfolding activate
    on7 r u = inl (refl, λ k. ground (arith, u k, tag-lt k))

    register_hooks-AllOrNothing : Upto tp 0 m.registry → AllOrNothing (register_hooks tp grants m)
    unfolding register_hooks
    register_hooks-AllOrNothing u =
        attempt_cases tp AllOrNothing update_curr m.registry u off0 λ r u.
          attempt_cases tp AllOrNothing dequeue_task_fair r u off1 λ r u.
            attempt_cases tp AllOrNothing set_next_entity r u off2 λ r u.
              attempt_cases tp AllOrNothing yield_task_fair r u off3 λ r u.
                attempt_cases tp AllOrNothing task_fork r u off4 λ r u.
                  attempt_cases tp AllOrNothing init_entity r u off5
                    λ r u. attempt_cases tp AllOrNothing set_load_weight r u off6 on7

  -- Loaded where none of its hooks is registered, the module ends with all of them and active, or
  -- with none of them, inactive and with `sched_bore` at 0, whichever registration failed.
  pub bore_sched_init-AllOrNothing :
      (grants : Grants) (threads : List Ptr) (m : Module tp)
      → AllHooks false m.registry
      → AllOrNothing (bore_sched_init tp grants threads m)
  unfolding bore_sched_init
  bore_sched_init-AllOrNothing grants threads m free =
      register_hooks-AllOrNothing grants _ (λ k. ground (arith, free k))

  unregister_all-none : (r : Registry) → AllHooks true r → AllHooks false (unregister_all tp r)
  unfolding unregister_all
  unregister_all-none r all = none-below _ (
      Upto-unregister tp update_curr _ (
        Upto-unregister tp dequeue_task_fair _ (
          Upto-unregister tp set_next_entity _ (
            Upto-unregister tp yield_task_fair _ (
              Upto-unregister tp task_fork _ (
                Upto-unregister tp init_entity _
                  (Upto-unregister tp set_load_weight r λ k. ground (arith, all k, tag-lt k))))))))

  abbrev pub LeavesNone : Module tp → Type 0
  LeavesNone m = AllHooks false m.registry × (m.bore_proc_entry ≡ false)

  -- A module that has all its hooks when it is active and none when it is not.
  pub exit-LeavesNone :
      (m : Module tp) → AllHooks m.bore_hooks_active m.registry → LeavesNone (bore_sched_exit tp m)
  unfolding bore_sched_exit
  exit-LeavesNone m hooks =
      if_cases LeavesNone m.bore_hooks_active
        (λ active. (unregister_all-none m.registry (λ k. hooks k ∙ active), refl))
        (λ idle. (λ k. hooks k ∙ idle, refl))

  -- What the loader leaves, in those words.
  pub hooks_of : (m : Module tp) → AllOrNothing m → AllHooks m.bore_hooks_active m.registry
  hooks_of m (inl (active, all)) k = rw active (all k)
  hooks_of m (inr (idle, off, free)) k = rw idle (free k)

  -- Loaded where none of its hooks is registered, and then unloaded, the module leaves no hook registered and no entry under /proc.
  pub bore_sched_exit-leaves_none :
      (grants : Grants) (threads : List Ptr) (m : Module tp)
      → AllHooks false m.registry
      → let end = bore_sched_exit tp (bore_sched_init tp grants threads m) in
        AllHooks false end.registry × (end.bore_proc_entry ≡ false)
  bore_sched_exit-leaves_none grants threads m free =
      let loaded = bore_sched_init tp grants threads m in
      exit-LeavesNone loaded (hooks_of loaded (bore_sched_init-AllOrNothing grants threads m free))
