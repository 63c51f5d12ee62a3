-- ===== src/Bore/Hooks/Life.antt =====
-- The state of a module that has been loaded, and that a hook that fires leaves.
use android_device_axion_com.Base.{
  ℕ, ◌<◌, ◌≡◌, refl, ap, arith, Bool, true, false, ◌⊎◌, inl, inr, Option, none, some, List, has,
  Bool-cases, if_cases,
}
use android_device_axion_com.Kernel.{Ptr}
use android_device_axion_com.Kernel.Tracepoints.{Tracepoints, attempt_either}
use android_device_axion_com.Bore.Context.Invariant.{IsValid, zero_context-IsValid}
use android_device_axion_com.Bore.Cache.{init_bore_reciprocal_lut, zero_lut}
use android_device_axion_com.Bore.Inherit.{Tasks}
use android_device_axion_com.Bore.Inherit.Walk.{IsFamily}
use android_device_axion_com.Bore.Inherit.Value.{AllValid}
use android_device_axion_com.Bore.Probes.{Sched, init_bore_tasks, probe_bore_set_next_entity}
use android_device_axion_com.Bore.Probes.Steps.{
  IsSound, probe_bore_update_curr-IsSound, probe_bore_dequeue_task_fair-IsSound,
  probe_bore_yield_task_fair-IsSound, probe_bore_init_entity-IsSound, probe_bore_task_fork-IsSound,
  init_bore_tasks-clears,
}
use android_device_axion_com.Bore.Lifecycle.{
  Hook, tag, update_curr, dequeue_task_fair, set_next_entity, yield_task_fair, task_fork,
  init_entity, set_load_weight, Grants, Module, activate, fail_hooks, fail_dequeue, fail_set_next,
  fail_yield, fail_task_fork, fail_init_entity, fail_set_load_weight, register_hooks,
  bore_sched_init,
}
use android_device_axion_com.Bore.Lifecycle.AllOrNothing.{
  AllHooks, hooks_of, bore_sched_init-AllOrNothing,
}
use android_device_axion_com.Bore.Hooks.{
  Event, android_vh_bore_update_curr, android_vh_bore_dequeue_task_fair,
  android_vh_bore_set_next_entity, android_vh_bore_yield_task_fair, android_vh_bore_task_fork,
  android_vh_bore_init_entity, android_vh_bore_set_load_weight, hook_of, number_of, silent, Cpu,
  probe, answer, fire,
}

-- Only a fork looks at the task's family.
abbrev pub is_fork : Event → Bool
is_fork (android_vh_bore_update_curr p delta_exec new_prio) = false
is_fork (android_vh_bore_dequeue_task_fair p flags) = false
is_fork (android_vh_bore_set_next_entity se) = false
is_fork (android_vh_bore_yield_task_fair p) = false
is_fork (android_vh_bore_task_fork p) = true
is_fork (android_vh_bore_init_entity se) = false
is_fork (android_vh_bore_set_load_weight p prio) = false

abbrev pub Fits : Cpu → Sched → Event → Type 0
Fits cpu s e = (is_fork e ≡ false) ⊎ IsFamily s.tasks cpu.fuel

-- A probe returns, and leaves a sound state.
abbrev Answered : Option (Sched × Option ℕ) → Type 0
Answered o = (r : Sched × Option ℕ) × (o ≡ some r) × IsSound r.0

pub probe-IsSound :
    (cpu : Cpu) (s : Sched) (e : Event)
    → IsSound s
    → Fits cpu s e
    → (r : Sched × Option ℕ) × (probe cpu s e ≡ some r) × IsSound r.0
unfolding probe probe_bore_set_next_entity
probe-IsSound cpu s (android_vh_bore_update_curr p delta_exec new_prio) ok fits =
    (_, refl, probe_bore_update_curr-IsSound s ok p delta_exec new_prio)
probe-IsSound cpu s (android_vh_bore_dequeue_task_fair p flags) ok fits =
    (_, refl, probe_bore_dequeue_task_fair-IsSound s ok p flags)
probe-IsSound cpu s (android_vh_bore_set_next_entity se) ok fits = (_, refl, ok)
probe-IsSound cpu s (android_vh_bore_yield_task_fair p) ok fits =
    (_, refl, probe_bore_yield_task_fair-IsSound s ok p)
probe-IsSound cpu s (android_vh_bore_task_fork p) ok (inl never) = absurd (ground arith)
probe-IsSound cpu s (android_vh_bore_task_fork p) ok (inr family) =
    let (s', returned, sound) =
      probe_bore_task_fork-IsSound s ok p cpu.fuel cpu.current cpu.now family in
    ((s', none), ap silent returned, sound)
probe-IsSound cpu s (android_vh_bore_init_entity se) ok fits =
    (_, refl, probe_bore_init_entity-IsSound s ok se)
probe-IsSound cpu s (android_vh_bore_set_load_weight p prio) ok fits = (_, refl, ok)

module _ (tp : Tracepoints Hook tag) where
  -- A module that runs: its state is sound, and it has all its hooks if it is active and none if not.
  pub record IsLoaded (m : Module tp) : Type 0 where
    pub sound : IsSound m.sched
    pub hooks : AllHooks tp m.bore_hooks_active m.registry

  module _ (grants : Grants) (m : Module tp) (ok : IsSound m.sched) where
    off-IsSound : (r : tp.Registry) → IsSound (fail_hooks tp grants m r).sched
    unfolding fail_hooks
    off-IsSound r = record { table = ok.table; shift = ok.shift; all = ok.all }

    register_hooks-IsSound : IsSound (register_hooks tp grants m).sched
    unfolding register_hooks activate fail_dequeue fail_set_next fail_yield fail_task_fork
        fail_init_entity fail_set_load_weight
    register_hooks-IsSound =
        let Sound = λ (n : Module tp). IsSound n.sched in
        attempt_either tp Sound update_curr m.registry (λ r. off-IsSound _)
          λ r.
            attempt_either tp Sound dequeue_task_fair r (λ r. off-IsSound _)
              λ r.
                attempt_either tp Sound set_next_entity r (λ r. off-IsSound _)
                  λ r.
                    attempt_either tp Sound yield_task_fair r (λ r. off-IsSound _)
                      λ r.
                        attempt_either tp Sound task_fork r (λ r. off-IsSound _)
                          λ r.
                            attempt_either tp Sound init_entity r (λ r. off-IsSound _)
                              λ r.
                                attempt_either tp Sound set_load_weight r (λ r. off-IsSound _)
                                  (λ r. ok)

  -- A list of threads covers a state when every task whose context is not valid is on it.
  abbrev pub Covers : List Ptr → Tasks → Type 0
  Covers threads t = (p : Ptr) → (has p threads ≡ true) ⊎ IsValid (t p).ctx

  init_bore_tasks-AllValid :
      (t : Tasks) (threads : List Ptr) → Covers threads t → AllValid (init_bore_tasks t threads)
  init_bore_tasks-AllValid t threads covers p = elim (Bool-cases (has p threads)) [
    | inl listed ↦ rw (init_bore_tasks-clears t threads p, listed) zero_context-IsValid
    | inr apart ↦ rw (init_bore_tasks-clears t threads p, apart) (unlisted apart (covers p))
  ]
    where
      unlisted :
          has p threads ≡ false → (has p threads ≡ true) ⊎ IsValid (t p).ctx → IsValid (t p).ctx
      unlisted apart (inl listed) = absurd (ground arith)
      unlisted apart (inr v) = v

  -- Loaded into a kernel where none of its hooks is registered, on a list of threads that covers the
  -- tasks, the module runs.
  pub bore_sched_init-IsLoaded :
      (grants : Grants) (threads : List Ptr) (m : Module tp)
      → AllHooks tp false m.registry
      → m.sched.lut ≡ zero_lut
      → m.sched.params.burst_smoothness < 32
      → Covers threads m.sched.tasks
      → IsLoaded (bore_sched_init tp grants threads m)
  bore_sched_init-IsLoaded grants threads m free fresh shift covers = record {
    sound =
        unfold bore_sched_init in
        register_hooks-IsSound grants
          (record m {
            sched = record (m.sched) {
              lut = init_bore_reciprocal_lut m.sched.lut;
              tasks = init_bore_tasks m.sched.tasks threads;
            };
          })
          (record {
            table = rw fresh refl;
            shift = shift;
            all = init_bore_tasks-AllValid m.sched.tasks threads covers;
          });
    hooks =
        hooks_of tp (bore_sched_init tp grants threads m)
          (bore_sched_init-AllOrNothing tp grants threads m free);
  }

  -- What a hook that fires leaves.
  abbrev pub Fired : Module tp → Option (Module tp × Option ℕ) → Type 0
  Fired m o =
      (r : Module tp × Option ℕ) × (o ≡ some r)
      × IsLoaded r.0
      × (r.0.bore_hooks_active ≡ m.bore_hooks_active)

  pub fire-Fired :
      (cpu : Cpu) (m : Module tp) (e : Event)
      → IsLoaded m
      → Fits cpu m.sched e
      → Fired m (fire tp cpu m e)
  unfolding fire
  fire-Fired cpu m e ok fits =
      let ((s, number), returned, sound) = probe-IsSound cpu m.sched e ok.sound fits in
      if_cases (Fired m) (tp.registered m.registry (hook_of e))
        (λ _. (
          (record m { sched = s }, number),
          ap (answer tp m) returned,
          record { sound = sound; hooks = ok.hooks },
          refl,
        ))
        (λ _. ((m, number_of e), refl, ok, refl))
