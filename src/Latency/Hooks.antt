-- ===== src/Latency/Hooks.antt =====
-- The hooks of include/trace/hooks/latency.h with the arguments of their prototypes, the probe that
-- latency_sched_main.c attaches to each, and a hook that fires where the module may be loaded.
pub mod Offsets
pub mod Run
use android_device_axion_com.Base.{ℤ, Bool, true, false, Option, none, some, if◌then◌else◌}
use android_device_axion_com.Kernel.{Ptr}
use android_device_axion_com.Kernel.Tracepoints.{Tracepoints}
use android_device_axion_com.Latency.{
  Sched, probe_latency_wakeup_offset, probe_latency_tick_offset, probe_latency_init_entity,
  probe_latency_set_user_nice,
}
use android_device_axion_com.Latency.Lifecycle.{
  Hook, tag, wakeup_offset, tick_offset, init_entity, set_user_nice, Module,
}

-- `s64 *offset` is `none` for NULL, and else the number that it points to.
pub data Event : Type 0 where
  android_vh_latency_wakeup_offset : (curr se : Ptr) (offset : Option ℤ) → Event
  android_vh_latency_tick_offset : (curr se : Ptr) (offset : Option ℤ) → Event
  android_vh_latency_init_entity : (se : Ptr) → Event
  android_vh_latency_set_user_nice : (p : Ptr) → Event

abbrev pub hook_of : Event → Hook
hook_of (android_vh_latency_wakeup_offset curr se offset) = wakeup_offset
hook_of (android_vh_latency_tick_offset curr se offset) = tick_offset
hook_of (android_vh_latency_init_entity se) = init_entity
hook_of (android_vh_latency_set_user_nice p) = set_user_nice

-- The number behind the event's pointer, if it has one.
abbrev pub number_of : Event → Option ℤ
number_of (android_vh_latency_wakeup_offset curr se offset) = offset
number_of (android_vh_latency_tick_offset curr se offset) = offset
number_of (android_vh_latency_init_entity se) = none
number_of (android_vh_latency_set_user_nice p) = none

-- The call of an event's probe: the state and the number that it leaves.
unfoldable pub probe : Sched → Event → Sched × Option ℤ
probe s (android_vh_latency_wakeup_offset curr se offset) =
    (s, probe_latency_wakeup_offset s curr se offset)
probe s (android_vh_latency_tick_offset curr se offset) =
    (s, probe_latency_tick_offset s curr se offset)
probe s (android_vh_latency_init_entity se) = (probe_latency_init_entity s se, none)
probe s (android_vh_latency_set_user_nice p) = (probe_latency_set_user_nice s p, none)

module _ (tp : Tracepoints Hook tag) where
  open tp use {registered}

  -- The kernel calls a hook's probe when one is registered, and nothing when none is.
  unfoldable pub fire : Module tp → Event → Module tp × Option ℤ
  fire m e =
      let (s, number) = probe m.sched e in
      if registered m.registry (hook_of e)
      then (record m { sched = s }, number)
      else (m, number_of e)
