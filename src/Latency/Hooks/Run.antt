-- ===== src/Latency/Hooks/Run.antt =====
-- The module from its loading to its unloading: hooks that fire, writes to its parameters, and changes
-- that the rest of the kernel makes. Every maximum that is written lies between 0 and a bound `n`.
use android_device_axion_com.Base.{
  ℕ, ◌≤◌, ◌^◌, ◌<◌, ◌≡◌, refl, ℤ, pos, ◌≤ℤ◌, false, Option, List, has, if_cases, if◌then◌else◌,
}
use android_device_axion_com.Kernel.{Ptr, null}
use android_device_axion_com.Kernel.Tracepoints.{Tracepoints, attempt_either}
use android_device_axion_com.Latency.{Task, init_latency_tasks}
use android_device_axion_com.Latency.Lifecycle.{
  Hook, tag, wakeup_offset, tick_offset, init_entity, set_user_nice, Grants, Module, activate,
  fail_hooks, fail_tick, fail_init_entity, fail_user_nice, register_hooks, latency_sched_init,
  latency_sched_exit,
}
use android_device_axion_com.Latency.Lifecycle.AllOrNothing.{
  AllHooks, hooks_of, exit-LeavesNone, latency_sched_init-AllOrNothing,
}
use android_device_axion_com.Latency.Hooks.{Event, hook_of, number_of, probe, fire}
use android_device_axion_com.Latency.Hooks.Offsets.{
  Within, IsTuned, Covers, probe-IsTuned, init_latency_tasks-IsTuned,
}

module _ (n : ℕ) (fits : n < 2 ^ 31) (tp : Tracepoints Hook tag) where
  -- A module that runs: its offsets are in range, and it has all its hooks if it is active and none
  -- if not.
  pub record IsLoaded (m : Module tp) : Type 0 where
    pub tuned : IsTuned n fits m.sched
    pub hooks : AllHooks tp m.latency_hooks_active m.registry

  module _ (grants : Grants) (m : Module tp) (ok : IsTuned n fits m.sched) where
    off-IsTuned : (r : tp.Registry) → IsTuned n fits (fail_hooks tp grants m r).sched
    unfolding fail_hooks
    off-IsTuned r = record { low = ok.low; high = ok.high; offsets = ok.offsets }

    register_hooks-IsTuned : IsTuned n fits (register_hooks tp grants m).sched
    unfolding register_hooks activate fail_tick fail_init_entity fail_user_nice
    register_hooks-IsTuned =
        let Tuned = λ (n' : Module tp). IsTuned n fits n'.sched in
        attempt_either tp Tuned wakeup_offset m.registry (λ r. off-IsTuned _)
          λ r.
            attempt_either tp Tuned tick_offset r (λ r. off-IsTuned _)
              λ r.
                attempt_either tp Tuned init_entity r (λ r. off-IsTuned _)
                  λ r. attempt_either tp Tuned set_user_nice r (λ r. off-IsTuned _) (λ r. ok)

  -- A hook that fires, a write to a parameter, with the maximum between 0 and `n`, or any change that
  -- the rest of the kernel makes to the tasks but to the offsets.
  pub data Turn (m : Module tp) : Module tp → Type 0 where
    fires : (e : Event) → Turn m (fire tp m e).0
    enable : (b : ℕ) → Turn m (record m { sched = record (m.sched) { latency_nice_enabled = b } })
    tune :
        (z : ℤ)
        → pos 0 ≤ℤ z
        → z ≤ℤ pos n
        → Turn m (record m { sched = record (m.sched) { latency_max = z } })
    kernel :
        (t : Ptr → Task)
        → ((p : Ptr) → (t p).entity ≡ (m.sched.tasks p).entity)
        → Turn m (record m { sched = record (m.sched) { tasks = t } })

  pub data Life (m : Module tp) : Module tp → Type 0 where
    starts : Life m m
    turns : {u v : Module tp} → Life m u → Turn u v → Life m v

  fire-IsLoaded : (m : Module tp) (e : Event) → IsLoaded m → IsLoaded (fire tp m e).0
  unfolding fire
  fire-IsLoaded m e ok =
      if_cases (λ (r : Module tp × Option ℤ). IsLoaded r.0) (tp.registered m.registry (hook_of e))
        (λ _. record { tuned = probe-IsTuned n fits m.sched e ok.tuned; hooks = ok.hooks })
        (λ _. ok)

  Turn-IsLoaded : {m m' : Module tp} → IsLoaded m → Turn m m' → IsLoaded m'
  Turn-IsLoaded {m} ok (fires e) = fire-IsLoaded m e ok
  Turn-IsLoaded ok (enable b) = record {
    tuned = record { low = ok.tuned.low; high = ok.tuned.high; offsets = ok.tuned.offsets };
    hooks = ok.hooks;
  }
  Turn-IsLoaded ok (tune z low high) = record {
    tuned = record { low = low; high = high; offsets = ok.tuned.offsets };
    hooks = ok.hooks;
  }
  Turn-IsLoaded ok (kernel t same) = record {
    tuned = record {
      low = ok.tuned.low;
      high = ok.tuned.high;
      offsets = λ p. rw (same p) (ok.tuned.offsets p);
    };
    hooks = ok.hooks;
  }

  Life-IsLoaded : {m m' : Module tp} → IsLoaded m → Life m m' → IsLoaded m'
  Life-IsLoaded ok starts = ok
  Life-IsLoaded ok (turns life turn) = Turn-IsLoaded (Life-IsLoaded ok life) turn

  module _ (grants : Grants) (threads : List Ptr) (m : Module tp) (k : ℕ)
      (free : AllHooks tp false m.registry) (sane : m.sched.latency_max ≡ pos k) (le : k ≤ n)
      (there : has null threads ≡ false) (covers : Covers n fits threads m.sched) where
    loaded : {m' : Module tp} → Life (latency_sched_init tp grants threads m) m' → IsLoaded m'
    loaded life =
        Life-IsLoaded {m = latency_sched_init tp grants threads m}
          (record {
            tuned =
                unfold latency_sched_init in
                register_hooks-IsTuned grants
                  (record m { sched = init_latency_tasks m.sched threads })
                  (init_latency_tasks-IsTuned n fits m.sched k threads sane le there covers);
            hooks =
                hooks_of tp (latency_sched_init tp grants threads m)
                  (latency_sched_init-AllOrNothing tp grants threads m free);
          })
          life

    -- Loaded where none of its hooks is registered, on threads of which none is NULL and every task is
    -- either eligible and listed or has an offset in range, the module keeps each offset between -n
    -- and 19 / 20 of n, whatever hooks fire and whatever maxima from 0 to n are written, for an n
    -- below 2 ^ 31 that the first maximum does not exceed.
    pub Life-offsets :
        {m' : Module tp}
        → Life (latency_sched_init tp grants threads m) m'
        → (p : Ptr) → Within n fits (m'.sched.tasks p).entity.latency_offset
    Life-offsets life p = (loaded life).tuned.offsets p

    -- In a module so loaded, whatever has happened since, an event calls its probe if the module is
    -- active, and else changes nothing.
    pub fire-probe :
        {m' : Module tp}
        → Life (latency_sched_init tp grants threads m) m'
        → (e : Event)
        → fire tp m' e ≡ (
            if m'.latency_hooks_active
            then (record m' { sched = (probe m'.sched e).0 }, (probe m'.sched e).1)
            else (m', number_of e))
    unfolding fire
    fire-probe life e = rw ((loaded life).hooks (hook_of e)) refl

    -- A module that was loaded where none of its hooks was registered, on threads of which none is NULL
    -- and every task either eligible and listed or with an offset in range, with maxima from 0 to a
    -- bound below 2 ^ 31, and that is unloaded, whatever has happened since, leaves no hook registered
    -- and no entry under /proc, and no event changes anything any more.
    pub latency_sched_exit-silences :
        {m' : Module tp}
        → Life (latency_sched_init tp grants threads m) m'
        → let end = latency_sched_exit tp m' in
          AllHooks tp false end.registry
          × (end.latency_proc_entry ≡ false)
          × ((e : Event) → fire tp end e ≡ (end, number_of e))
    unfolding fire
    latency_sched_exit-silences {m'} life =
        let (none_left, gone) = exit-LeavesNone tp m' (loaded life).hooks in
        (none_left, gone, λ e. rw (none_left (hook_of e)) refl)
