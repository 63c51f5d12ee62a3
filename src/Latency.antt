-- ===== src/Latency.antt =====
-- The latency-nice module, kernel/modules/latency_sched. The module's variables and the tasks are one
-- record. `long` and the signed fields are integers; the cast to `s32` wraps, and a product that does
-- not fit a `long`, which is undefined in C, is the true product.
pub mod Offset
pub mod Gran
pub mod Table
pub mod Lifecycle
pub mod Hooks
pub mod Proc
use android_device_axion_com.Base.{
  ℕ, ◌+◌, ◌-◌, ◌%◌, ◌^◌, ℤ, pos, negsuc, pos_part, neg_part, neg_ℤ, quot_ℤ, ◌-ℤ◌, ◌*ℤ◌, ltb_ℤ, Bool,
  true, false, not, ◌||◌, Option, none, some, List, [], ◌∷◌, ltb, ◌==◌, if◌then◌else◌, lt_s32,
}
use android_device_axion_com.Kernel.{Ptr, null, Policy, Flags, task_is_eligible}

abbrev pub max_latency_nice : ℤ
max_latency_nice = pos 19

abbrev pub min_latency_nice : ℤ
min_latency_nice = negsuc 19

abbrev pub default_latency_nice : ℤ
default_latency_nice = pos 0

-- `struct latency_sched_entity`
pub record Entity : Type 0 where
  pub latency_offset : ℤ
  pub latency_nice : ℤ
  pub flags : ℕ

-- What `memset(lse, 0, sizeof(*lse))` leaves.
abbrev pub zero_entity : Entity
zero_entity = record { latency_offset = pos 0; latency_nice = pos 0; flags = 0 }

pub record Task : Type 0 where
  pub policy : Policy
  pub task_flags : Flags
  pub static_prio : ℕ
  pub entity : Entity

pub record Sched : Type 0 where
  pub latency_nice_enabled : ℕ
  pub latency_max : ℤ
  pub tasks : Ptr → Task

-- A write through `latency_get_se(se)`.
unfoldable pub set_entity : Sched → Ptr → Entity → Sched
set_entity s se e = record s {
  tasks = λ q. if q == se then record (s.tasks q) { entity = e } else s.tasks q;
}

-- The conversion of a `long` to `s32`.
unfoldable pub to_s32 : ℤ → ℤ
to_s32 z =
    let w = (pos_part z + (2 ^ 32 - neg_part z % 2 ^ 32)) % 2 ^ 32 in
    if ltb w (2 ^ 31) then pos w else negsuc (2 ^ 32 - w - 1)

unfoldable pub calc_latency_offset : ℤ → ℤ → ℤ
calc_latency_offset latency_max latency_nice = to_s32 (quot_ℤ (latency_max *ℤ latency_nice) 20)

-- The nice value that a priority asks for.
unfoldable pub nice_of_prio : ℕ → ℤ
nice_of_prio static_prio =
    if lt_s32 static_prio 120
    then min_latency_nice
    else if lt_s32 120 static_prio
    then max_latency_nice
    else default_latency_nice

unfoldable pub update_task_latency_nice : Sched → Ptr → Sched
update_task_latency_nice s p =
    let task = s.tasks p in
    let nice_val = nice_of_prio task.static_prio in
    let lse = record (task.entity) {
      latency_nice = nice_val;
      latency_offset = calc_latency_offset s.latency_max nice_val;
    } in
    if p == null || not (task_is_eligible task.policy task.task_flags)
    then s
    else set_entity s p lse

unfoldable pub wakeup_latency_gran : Sched → Ptr → Ptr → ℤ
wakeup_latency_gran s curr se =
    let lcurr = (s.tasks curr).entity in
    let lse = (s.tasks se).entity in
    let latency_offset =
      if ltb_ℤ lse.latency_offset (pos 0) || ltb_ℤ lcurr.latency_offset (pos 0)
      then lse.latency_offset -ℤ lcurr.latency_offset
      else lse.latency_offset in
    if ltb_ℤ s.latency_max latency_offset
    then s.latency_max
    else if ltb_ℤ latency_offset (neg_ℤ s.latency_max)
    then neg_ℤ s.latency_max
    else latency_offset

-- `!sched_latency_nice_enabled || !curr || !se`
abbrev pub is_off : Sched → Ptr → Ptr → Bool
is_off s curr se = s.latency_nice_enabled == 0 || (curr == null || se == null)

-- The handlers write through `offset`, which is `none` for a NULL pointer.
unfoldable pub probe_latency_wakeup_offset : Sched → Ptr → Ptr → Option ℤ → Option ℤ
probe_latency_wakeup_offset s curr se offset = elim offset [
  | none ↦ none
  | some old ↦ if is_off s curr se then some old else some (wakeup_latency_gran s curr se)
]

unfoldable pub probe_latency_tick_offset : Sched → Ptr → Ptr → Option ℤ → Option ℤ
probe_latency_tick_offset s curr se offset = elim offset [
  | none ↦ none
  | some old ↦ if is_off s curr se then some old else some (wakeup_latency_gran s curr se)
]

unfoldable pub probe_latency_init_entity : Sched → Ptr → Sched
probe_latency_init_entity s se = if se == null then s else set_entity s se zero_entity

unfoldable pub probe_latency_set_user_nice : Sched → Ptr → Sched
probe_latency_set_user_nice s p =
    if s.latency_nice_enabled == 0 then s else update_task_latency_nice s p

-- The loop over every thread of every process.
unfoldable pub init_latency_tasks : Sched → List Ptr → Sched
init_latency_tasks s [] = s
init_latency_tasks s (t ∷ rest) = init_latency_tasks (update_task_latency_nice s t) rest
