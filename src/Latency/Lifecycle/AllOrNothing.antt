-- ===== src/Latency/Lifecycle/AllOrNothing.antt =====
-- Loading registers the four hooks or none, and unloading leaves none.
use android_device_axion_com.Base.{
  ◌<◌, ◌≡◌, ◌∙◌, ◌⊎◌, inl, inr, refl, arith, Bool, true, false, List, if_cases,
}
use android_device_axion_com.Kernel.{Ptr}
use android_device_axion_com.Kernel.Tracepoints.{Tracepoints, Upto, attempt_cases, Upto-unregister}
use android_device_axion_com.Latency.Lifecycle.{
  Hook, tag, wakeup_offset, tick_offset, init_entity, set_user_nice, Grants, Module, activate,
  fail_hooks, fail_tick, fail_init_entity, fail_user_nice, register_hooks, latency_sched_init,
  unregister_all, latency_sched_exit,
}

module _ (tp : Tracepoints Hook tag) where
  open tp use {Registry, registered}

  tag-lt : (k : Hook) → tag k < 4
  tag-lt wakeup_offset = omega arith
  tag-lt tick_offset = omega arith
  tag-lt init_entity = omega arith
  tag-lt set_user_nice = omega arith

  abbrev pub AllHooks : Bool → Registry → Type 0
  AllHooks b r = (k : Hook) → registered r k ≡ b

  -- The module runs with every hook, or is off with none.
  abbrev pub AllOrNothing : Module tp → Type 0
  AllOrNothing m =
      ((m.latency_hooks_active ≡ true) × AllHooks true m.registry)
      ⊎ ((m.latency_hooks_active ≡ false)
          × (m.sched.latency_nice_enabled ≡ 0)
          × AllHooks false m.registry)

  none-below : (r : Registry) → Upto tp 0 r → AllHooks false r
  none-below r u k = ground (arith, u k)

  module _ (grants : Grants) (m : Module tp) where
    off0 : (r : Registry) → Upto tp 0 r → AllOrNothing (fail_hooks tp grants m r)
    unfolding fail_hooks
    off0 r u = inr (refl, refl, none-below r u)

    off1 : (r : Registry) → Upto tp 1 r → AllOrNothing (fail_tick tp grants m r)
    unfolding fail_tick
    off1 r u = off0 _ (Upto-unregister tp wakeup_offset r u)

    off2 : (r : Registry) → Upto tp 2 r → AllOrNothing (fail_init_entity tp grants m r)
    unfolding fail_init_entity
    off2 r u = off1 _ (Upto-unregister tp tick_offset r u)

    off3 : (r : Registry) → Upto tp 3 r → AllOrNothing (fail_user_nice tp grants m r)
    unfolding fail_user_nice
    off3 r u = off2 _ (Upto-unregister tp init_entity r u)

    on4 : (r : Registry) → Upto tp 4 r → AllOrNothing (activate tp grants m r)
    unfolding activate
    on4 r u = inl (refl, λ k. ground (arith, u k, tag-lt k))

    register_hooks-AllOrNothing : Upto tp 0 m.registry → AllOrNothing (register_hooks tp grants m)
    unfolding register_hooks
    register_hooks-AllOrNothing u =
        attempt_cases tp AllOrNothing wakeup_offset m.registry u off0 λ r u.
          attempt_cases tp AllOrNothing tick_offset r u off1 λ r u.
            attempt_cases tp AllOrNothing init_entity r u off2
              λ r u. attempt_cases tp AllOrNothing set_user_nice r u off3 on4

  -- Loaded where none of its hooks is registered, the module ends with all of them and active, or
  -- with none of them, inactive and disabled, whichever registration failed.
  pub latency_sched_init-AllOrNothing :
      (grants : Grants) (threads : List Ptr) (m : Module tp)
      → AllHooks false m.registry
      → AllOrNothing (latency_sched_init tp grants threads m)
  unfolding latency_sched_init
  latency_sched_init-AllOrNothing grants threads m free =
      register_hooks-AllOrNothing grants _ (λ k. ground (arith, free k))

  unregister_all-none : (r : Registry) → AllHooks true r → AllHooks false (unregister_all tp r)
  unfolding unregister_all
  unregister_all-none r all = none-below _ (
      Upto-unregister tp wakeup_offset _ (
        Upto-unregister tp tick_offset _ (
          Upto-unregister tp init_entity _
            (Upto-unregister tp set_user_nice r λ k. ground (arith, all k, tag-lt k)))))

  abbrev pub LeavesNone : Module tp → Type 0
  LeavesNone m = AllHooks false m.registry × (m.latency_proc_entry ≡ false)

  -- A module that has all its hooks when it is active and none when it is not.
  pub exit-LeavesNone :
      (m : Module tp)
      → AllHooks m.latency_hooks_active m.registry
      → LeavesNone (latency_sched_exit tp m)
  unfolding latency_sched_exit
  exit-LeavesNone m hooks =
      if_cases LeavesNone m.latency_hooks_active
        (λ active. (unregister_all-none m.registry (λ k. hooks k ∙ active), refl))
        (λ idle. (λ k. hooks k ∙ idle, refl))

  -- What the loader leaves, in those words.
  pub hooks_of : (m : Module tp) → AllOrNothing m → AllHooks m.latency_hooks_active m.registry
  hooks_of m (inl (active, all)) k = rw active (all k)
  hooks_of m (inr (idle, off, free)) k = rw idle (free k)

  -- Loaded where none of its hooks is registered, and then unloaded, the module leaves no hook registered and no entry under /proc.
  pub latency_sched_exit-leaves_none :
      (grants : Grants) (threads : List Ptr) (m : Module tp)
      → AllHooks false m.registry
      → let end = latency_sched_exit tp (latency_sched_init tp grants threads m) in
        AllHooks false end.registry × (end.latency_proc_entry ≡ false)
  latency_sched_exit-leaves_none grants threads m free =
      let loaded = latency_sched_init tp grants threads m in
      exit-LeavesNone loaded
        (hooks_of loaded (latency_sched_init-AllOrNothing grants threads m free))
