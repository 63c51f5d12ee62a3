-- ===== src/Bore/Lifecycle.antt =====
-- `bore_sched_init` and `bore_sched_exit` of bore_sched_main.c. What the kernel returns to them (a
-- header from `register_sysctl`, an entry from `proc_create`) is an argument, and the tracepoint
-- registry is an interface. The `goto` labels are functions from the registry.
pub mod AllOrNothing
use android_device_axion_com.Base.{ℕ, Bool, true, false, List, if◌then◌else◌}
use android_device_axion_com.Kernel.{Ptr}
use android_device_axion_com.Kernel.Tracepoints.{Tracepoints, attempt}
use android_device_axion_com.Bore.Cache.{init_bore_reciprocal_lut}
use android_device_axion_com.Bore.Probes.{Sched, init_bore_tasks}

pub data Hook : Type 0 where
  update_curr dequeue_task_fair set_next_entity yield_task_fair task_fork init_entity
        set_load_weight :
      Hook

abbrev pub tag : Hook → ℕ
tag update_curr = 0
tag dequeue_task_fair = 1
tag set_next_entity = 2
tag yield_task_fair = 3
tag task_fork = 4
tag init_entity = 5
tag set_load_weight = 6

-- What the kernel hands out: whether the header and the entry are not NULL.
pub record Grants : Type 0 where
  pub sysctl : Bool
  pub proc : Bool

module _ (tp : Tracepoints Hook tag) where
  open tp use {Registry, unregister}

  -- The module's variables and its probes in the kernel.
  pub record Module : Type 0 where
    pub sched : Sched
    pub bore_hooks_active : Bool
    pub bore_sysctl_header : Bool
    pub bore_proc_entry : Bool
    pub registry : Registry

  module _ (grants : Grants) (m : Module) where
    unfoldable pub activate : Registry → Module
    activate r = record m {
      bore_hooks_active = true;
      bore_sysctl_header = grants.sysctl;
      bore_proc_entry = grants.proc;
      registry = r;
    }

    unfoldable pub fail_hooks : Registry → Module
    fail_hooks r = record m {
      sched = record (m.sched) { params = record (m.sched.params) { sched_bore = 0 } };
      bore_hooks_active = false;
      bore_proc_entry = grants.proc;
      registry = r;
    }

    unfoldable pub fail_dequeue : Registry → Module
    fail_dequeue r = fail_hooks (unregister update_curr r)

    unfoldable pub fail_set_next : Registry → Module
    fail_set_next r = fail_dequeue (unregister dequeue_task_fair r)

    unfoldable pub fail_yield : Registry → Module
    fail_yield r = fail_set_next (unregister set_next_entity r)

    unfoldable pub fail_task_fork : Registry → Module
    fail_task_fork r = fail_yield (unregister yield_task_fair r)

    unfoldable pub fail_init_entity : Registry → Module
    fail_init_entity r = fail_task_fork (unregister task_fork r)

    unfoldable pub fail_set_load_weight : Registry → Module
    fail_set_load_weight r = fail_init_entity (unregister init_entity r)

    unfoldable pub register_hooks : Module
    register_hooks = attempt tp update_curr m.registry fail_hooks λ r.
        attempt tp dequeue_task_fair r fail_dequeue λ r.
          attempt tp set_next_entity r fail_set_next λ r.
            attempt tp yield_task_fair r fail_yield λ r. attempt tp task_fork r fail_task_fork λ r.
              attempt tp init_entity r fail_init_entity
                λ r. attempt tp set_load_weight r fail_set_load_weight activate

  -- `threads` is every thread of every process. The result is always 0.
  unfoldable pub bore_sched_init : Grants → List Ptr → Module → Module
  bore_sched_init grants threads m = register_hooks grants (record m {
    sched = record (m.sched) {
      lut = init_bore_reciprocal_lut m.sched.lut;
      tasks = init_bore_tasks m.sched.tasks threads;
    };
  })

  unfoldable pub unregister_all : Registry → Registry
  unregister_all r =
      let r = unregister set_load_weight r in
      let r = unregister init_entity r in
      let r = unregister task_fork r in
      let r = unregister yield_task_fair r in
      let r = unregister set_next_entity r in
      let r = unregister dequeue_task_fair r in unregister update_curr r

  -- A header or an entry that is given back is gone.
  unfoldable pub bore_sched_exit : Module → Module
  bore_sched_exit m =
      let m = record m { bore_proc_entry = false } in
      if m.bore_hooks_active
      then record m { bore_sysctl_header = false; registry = unregister_all m.registry }
      else m
