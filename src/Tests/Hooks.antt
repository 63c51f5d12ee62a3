-- ===== src/Tests/Hooks.antt =====
-- The life of both scheduler modules: they are loaded, a hook fires, a parameter is written, and they
-- are unloaded.
use android_device_axion_com.Base.{
  pos, ◌+◌, ◌*◌, ◌/◌, ◌^◌, ◌≤◌, ◌≡◌, refl, arith, true, false, inl, inr, none, some, [], ◌∷◌, has,
}
use android_device_axion_com.Kernel.Tracepoints.{Tracepoints, attempt}
use android_device_axion_com.Bore.Penalty.{max_burst_penalty}
use android_device_axion_com.Bore.Context.{bore_score}
use android_device_axion_com.Bore.Cache.{zero_lut}
use android_device_axion_com.Bore.Probes.{probe_bore_update_curr}
use android_device_axion_com.Bore.Lifecycle as BoreLife
use android_device_axion_com.Bore.Lifecycle.AllOrNothing as BoreLoad
use android_device_axion_com.Bore.Hooks as BoreHooks
use android_device_axion_com.Bore.Hooks.Life as BoreState
use android_device_axion_com.Bore.Hooks.Run as BoreRun
use android_device_axion_com.Latency.Lifecycle as LatencyLife
use android_device_axion_com.Latency.Hooks as LatencyHooks
use android_device_axion_com.Latency.Hooks.Offsets as LatencyState
use android_device_axion_com.Latency.Hooks.Run as LatencyRun
use android_device_axion_com.Overlay.{shared_set_user_nice}
use android_device_axion_com.Overlay.Words.{shared_set_user_nice-burst_time}
use android_device_axion_com.Tests.Data.{family, busy, sched, latency, tag_registry, busy-IsValid}

abbrev bore_tp : Tracepoints BoreLife.Hook BoreLife.tag
bore_tp = tag_registry BoreLife.Hook BoreLife.tag 9

-- The table is still zero.
abbrev bore_module : BoreLife.Module bore_tp
bore_module = record {
  sched = record sched { lut = zero_lut };
  bore_hooks_active = false;
  bore_sysctl_header = false;
  bore_proc_entry = false;
  registry = λ n. false;
}

abbrev bore_grants : BoreLife.Grants
bore_grants = record { sysctl = true; proc = true }

abbrev bore_loaded : BoreLife.Module bore_tp
bore_loaded = BoreLife.bore_sched_init bore_tp bore_grants (1 ∷ []) bore_module

-- Task 3 runs for 200 ms.
abbrev bore_ran : BoreLife.Module bore_tp
bore_ran = record bore_loaded {
  sched = (probe_bore_update_curr bore_loaded.sched 3 200000000 none).0;
}

abbrev cpu : BoreHooks.Cpu
cpu = record { fuel = 3; current = 2; now = 7 }

bore_fired :
    BoreHooks.fire bore_tp cpu bore_loaded (BoreHooks.android_vh_bore_update_curr 3 200000000 none)
    ≡ some (bore_ran, (probe_bore_update_curr bore_loaded.sched 3 200000000 none).1)
unfolding BoreHooks.fire BoreHooks.probe BoreLife.bore_sched_init BoreLife.register_hooks
    BoreLife.activate attempt
bore_fired = refl

covered : BoreState.Covers bore_tp (1 ∷ []) bore_module.sched.tasks
covered p = inr busy-IsValid

bore_ran-Life : BoreRun.Life bore_tp bore_loaded bore_ran
bore_ran-Life = BoreRun.turns BoreRun.starts (
    BoreRun.fires cpu (BoreHooks.android_vh_bore_update_curr 3 200000000 none) (inl refl)
      bore_fired)

Life-score_example :
    ((bore_ran.sched.tasks 3).ctx.penalty ≤ max_burst_penalty)
    × (bore_score (bore_ran.sched.tasks 3).ctx ≤ 39)
Life-score_example =
    BoreRun.Life-score bore_tp bore_grants (1 ∷ []) bore_module (λ k. refl) refl (omega arith)
      covered bore_ran-Life 3

bore_sched_exit-silences_example :
    let end = BoreLife.bore_sched_exit bore_tp bore_ran in
    BoreLoad.AllHooks bore_tp false end.registry
    × (end.bore_proc_entry ≡ false)
    × ((c : BoreHooks.Cpu) (e : BoreHooks.Event)
        → BoreHooks.fire bore_tp c end e ≡ some (end, BoreHooks.number_of e))
bore_sched_exit-silences_example =
    BoreRun.bore_sched_exit-silences bore_tp bore_grants (1 ∷ []) bore_module (λ k. refl) refl
      (omega arith) covered bore_ran-Life

abbrev latency_tp : Tracepoints LatencyLife.Hook LatencyLife.tag
latency_tp = tag_registry LatencyLife.Hook LatencyLife.tag 9

abbrev latency_module : LatencyLife.Module latency_tp
latency_module = record {
  sched = latency;
  latency_hooks_active = false;
  latency_sysctl_header = false;
  latency_proc_entry = false;
  registry = λ n. false;
}

abbrev latency_grants : LatencyLife.Grants
latency_grants = record { sysctl = true; proc = true }

abbrev latency_loaded : LatencyLife.Module latency_tp
latency_loaded =
    LatencyLife.latency_sched_init latency_tp latency_grants (2 ∷ 1 ∷ []) latency_module

-- The priority of task 2 changes.
abbrev latency_ran : LatencyLife.Module latency_tp
latency_ran =
    (LatencyHooks.fire latency_tp latency_loaded
      (LatencyHooks.android_vh_latency_set_user_nice 2)).0

latency_ran-Life : LatencyRun.Life 24000000 (omega arith) latency_tp latency_loaded latency_ran
latency_ran-Life =
    LatencyRun.turns LatencyRun.starts
      (LatencyRun.fires (LatencyHooks.android_vh_latency_set_user_nice 2))

latency_covered : LatencyState.Covers 24000000 (omega arith) (2 ∷ 1 ∷ []) latency_module.sched
latency_covered p = inl (ground arith)

Life-offsets_example :
    LatencyState.Within 24000000 (omega arith) (latency_ran.sched.tasks 2).entity.latency_offset
unfolding has
Life-offsets_example =
    LatencyRun.Life-offsets 24000000 (omega arith) latency_tp latency_grants (2 ∷ 1 ∷ [])
      latency_module 24000000 (λ k. refl) refl (omega arith) refl latency_covered latency_ran-Life 2

-- Task 3 stands below the default priority.
shared_set_user_nice-burst_time_example :
    shared_set_user_nice 1 (pos 24000000) family 3 3
    ≡ record (family 3) { ctx = record busy { burst_time = 2 ^ 32 * 19 + 24000000 * 19 / 20 } }
shared_set_user_nice-burst_time_example =
    shared_set_user_nice-burst_time 24000000 (omega arith) 1 family 3 3 (λ e. omega arith)
      (λ e. omega arith) refl (omega arith)
