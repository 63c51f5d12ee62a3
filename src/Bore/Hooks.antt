-- ===== src/Bore/Hooks.antt =====
-- The hooks of include/trace/hooks/bore.h with the arguments of their prototypes, the probe that
-- bore_sched_main.c attaches to each, and a hook that fires in a kernel where the module may be loaded.
pub mod Life
pub mod Run
use android_device_axion_com.Base.{ℕ, Bool, true, false, Option, none, some, if◌then◌else◌}
use android_device_axion_com.Kernel.{Ptr}
use android_device_axion_com.Kernel.Tracepoints.{Tracepoints}
use android_device_axion_com.Bore.Lifecycle.{
  Hook, tag, update_curr, dequeue_task_fair, set_next_entity, yield_task_fair, task_fork,
  init_entity, set_load_weight, Module,
}
use android_device_axion_com.Bore.Probes.{
  Sched, probe_bore_update_curr, probe_bore_dequeue_task_fair, probe_bore_set_next_entity,
  probe_bore_yield_task_fair, probe_bore_task_fork, probe_bore_init_entity,
  probe_bore_set_load_weight,
}

-- `int *new_prio` and `int *prio` are `none` for NULL, and else the number that they point to.
pub data Event : Type 0 where
  android_vh_bore_update_curr : (p : Ptr) (delta_exec : ℕ) (new_prio : Option ℕ) → Event
  android_vh_bore_dequeue_task_fair : (p : Ptr) (flags : ℕ) → Event
  android_vh_bore_set_next_entity : (se : Ptr) → Event
  android_vh_bore_yield_task_fair : (p : Ptr) → Event
  android_vh_bore_task_fork : (p : Ptr) → Event
  android_vh_bore_init_entity : (se : Ptr) → Event
  android_vh_bore_set_load_weight : (p : Ptr) (prio : Option ℕ) → Event

abbrev pub hook_of : Event → Hook
hook_of (android_vh_bore_update_curr p delta_exec new_prio) = update_curr
hook_of (android_vh_bore_dequeue_task_fair p flags) = dequeue_task_fair
hook_of (android_vh_bore_set_next_entity se) = set_next_entity
hook_of (android_vh_bore_yield_task_fair p) = yield_task_fair
hook_of (android_vh_bore_task_fork p) = task_fork
hook_of (android_vh_bore_init_entity se) = init_entity
hook_of (android_vh_bore_set_load_weight p prio) = set_load_weight

-- The number behind the event's pointer, if it has one.
abbrev pub number_of : Event → Option ℕ
number_of (android_vh_bore_update_curr p delta_exec new_prio) = new_prio
number_of (android_vh_bore_dequeue_task_fair p flags) = none
number_of (android_vh_bore_set_next_entity se) = none
number_of (android_vh_bore_yield_task_fair p) = none
number_of (android_vh_bore_task_fork p) = none
number_of (android_vh_bore_init_entity se) = none
number_of (android_vh_bore_set_load_weight p prio) = prio

-- What a fork makes of a state: the state, and no number.
abbrev pub silent : Option Sched → Option (Sched × Option ℕ)
silent none = none
silent (some s) = some (s, none)

-- The fuel of a search among the ancestors, the task that runs, and the clock.
pub record Cpu : Type 0 where
  pub fuel : ℕ
  pub current : Ptr
  pub now : ℕ

-- The call of an event's probe: the state and the number that it leaves, unless the fuel runs out.
unfoldable pub probe : Cpu → Sched → Event → Option (Sched × Option ℕ)
probe cpu s (android_vh_bore_update_curr p delta_exec new_prio) =
    some (probe_bore_update_curr s p delta_exec new_prio)
probe cpu s (android_vh_bore_dequeue_task_fair p flags) =
    some (probe_bore_dequeue_task_fair s p flags, none)
probe cpu s (android_vh_bore_set_next_entity se) = some (probe_bore_set_next_entity s se, none)
probe cpu s (android_vh_bore_yield_task_fair p) = some (probe_bore_yield_task_fair s p, none)
probe cpu s (android_vh_bore_task_fork p) =
    silent (probe_bore_task_fork cpu.fuel s p cpu.current cpu.now)
probe cpu s (android_vh_bore_init_entity se) = some (probe_bore_init_entity s se, none)
probe cpu s (android_vh_bore_set_load_weight p prio) = some (s, probe_bore_set_load_weight s p prio)

module _ (tp : Tracepoints Hook tag) where
  open tp use {registered}

  -- What a probe leaves, put back into the module.
  abbrev pub answer : Module tp → Option (Sched × Option ℕ) → Option (Module tp × Option ℕ)
  answer m none = none
  answer m (some (s, number)) = some (record m { sched = s }, number)

  -- The kernel calls a hook's probe when one is registered, and nothing when none is.
  unfoldable pub fire : Cpu → Module tp → Event → Option (Module tp × Option ℕ)
  fire cpu m e =
      if registered m.registry (hook_of e)
      then answer m (probe cpu m.sched e)
      else some (m, number_of e)
