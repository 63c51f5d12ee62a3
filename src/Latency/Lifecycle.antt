-- ===== src/Latency/Lifecycle.antt =====
-- `latency_sched_init` and `latency_sched_exit` of latency_sched_main.c, with what the kernel grants
-- them as an argument and the tracepoint registry as an interface.
pub mod AllOrNothing
use android_device_axion_com.Base.{ℕ, Bool, true, false, List, if◌then◌else◌}
use android_device_axion_com.Kernel.{Ptr}
use android_device_axion_com.Kernel.Tracepoints.{Tracepoints, attempt}
use android_device_axion_com.Latency.{Sched, init_latency_tasks}

pub data Hook : Type 0 where
  wakeup_offset tick_offset init_entity set_user_nice : Hook

abbrev pub tag : Hook → ℕ
tag wakeup_offset = 0
tag tick_offset = 1
tag init_entity = 2
tag set_user_nice = 3

-- What the kernel hands out: whether the header and the entry are not NULL.
pub record Grants : Type 0 where
  pub sysctl : Bool
  pub proc : Bool

module _ (tp : Tracepoints Hook tag) where
  open tp use {Registry, unregister}

  -- The module's variables and its probes in the kernel.
  pub record Module : Type 0 where
    pub sched : Sched
    pub latency_hooks_active : Bool
    pub latency_sysctl_header : Bool
    pub latency_proc_entry : Bool
    pub registry : Registry

  module _ (grants : Grants) (m : Module) where
    unfoldable pub activate : Registry → Module
    activate r = record m {
      latency_hooks_active = true;
      latency_sysctl_header = grants.sysctl;
      latency_proc_entry = grants.proc;
      registry = r;
    }

    unfoldable pub fail_hooks : Registry → Module
    fail_hooks r = record m {
      sched = record (m.sched) { latency_nice_enabled = 0 };
      latency_hooks_active = false;
      latency_proc_entry = grants.proc;
      registry = r;
    }

    unfoldable pub fail_tick : Registry → Module
    fail_tick r = fail_hooks (unregister wakeup_offset r)

    unfoldable pub fail_init_entity : Registry → Module
    fail_init_entity r = fail_tick (unregister tick_offset r)

    unfoldable pub fail_user_nice : Registry → Module
    fail_user_nice r = fail_init_entity (unregister init_entity r)

    unfoldable pub register_hooks : Module
    register_hooks = attempt tp wakeup_offset m.registry fail_hooks λ r.
        attempt tp tick_offset r fail_tick λ r.
          attempt tp init_entity r fail_init_entity
            λ r. attempt tp set_user_nice r fail_user_nice activate

  -- `threads` is every thread of every process. The result is always 0.
  unfoldable pub latency_sched_init : Grants → List Ptr → Module → Module
  latency_sched_init grants threads m =
      register_hooks grants (record m { sched = init_latency_tasks m.sched threads })

  unfoldable pub unregister_all : Registry → Registry
  unregister_all r =
      let r = unregister set_user_nice r in
      let r = unregister init_entity r in
      let r = unregister tick_offset r in unregister wakeup_offset r

  -- A header or an entry that is given back is gone.
  unfoldable pub latency_sched_exit : Module → Module
  latency_sched_exit m =
      let m = record m { latency_proc_entry = false } in
      if m.latency_hooks_active
      then record m { latency_sysctl_header = false; registry = unregister_all m.registry }
      else m
