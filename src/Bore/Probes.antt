-- ===== src/Bore/Probes.antt =====
-- The tracepoint handlers of bore_sched_main.c, over the module's parameters, its table and the tasks.
-- A `struct sched_entity` is named by the pointer of its task. What a handler gets from the kernel (the
-- current task, the clock) is an argument.
pub mod Steps
pub mod Update
pub mod Fork
use android_device_axion_com.Base.{
  ℕ, ◌+◌, Bool, true, false, not, ◌&&◌, ◌||◌, Option, none, some, List, [], ◌∷◌, ltb, leb, ◌==◌,
  if◌then◌else◌, bit_and, u16, u64,
}
use android_device_axion_com.Kernel.{Ptr, null}
use android_device_axion_com.Bore.Penalty.{Params, calc_burst_penalty}
use android_device_axion_com.Bore.Context.{
  Context, zero_context, Rank, effective_prio_bore, update_penalty, restart_burst_bore,
}
use android_device_axion_com.Bore.Cache.{Lut}
use android_device_axion_com.Bore.Inherit.{
  Task, Tasks, set_ctx, bore_task_is_eligible, inherit_from_parent, inherit_from_thread_group,
  inherit_from_ancestor_hub,
}

-- `max_rt_prio` is the kernel's constant MAX_RT_PRIO.
pub record Sched : Type 0 where
  pub max_rt_prio : ℕ
  pub params : Params
  pub lut : Lut
  pub tasks : Tasks

-- `!sched_bore || !p`
abbrev pub is_off : Sched → Ptr → Bool
is_off s p = s.params.sched_bore == 0 || p == null

abbrev pub dequeue_sleep : ℕ
dequeue_sleep = 0x01

-- The context, once the time has been added and the penalty of the burst computed.
unfoldable pub charge : Params → Context → ℕ → Context
charge prm ctx delta_exec =
    let burst_time = u64 (ctx.burst_time + delta_exec) in
    record ctx { burst_time = burst_time; curr_penalty = u16 (calc_burst_penalty prm burst_time) }

unfoldable pub probe_bore_update_curr : Sched → Ptr → ℕ → Option ℕ → Sched × Option ℕ
probe_bore_update_curr s p delta_exec new_prio =
    let task = s.tasks p in
    let ctx = charge s.params task.ctx delta_exec in
    let curr_penalty = ctx.curr_penalty in
    let (ctx', new_prio') = update_penalty s.max_rt_prio s.params task.rank ctx new_prio in
    if is_off s p
    then (s, new_prio)
    else if task.ctx.stop_update
    then (s, new_prio)
    else if leb curr_penalty ctx.prev_penalty
    then (record s { tasks = set_ctx s.tasks p ctx }, new_prio)
    else (record s { tasks = set_ctx s.tasks p ctx' }, new_prio')

-- `restart_burst_bore(p, ctx, NULL)`
unfoldable pub restart : Sched → Ptr → Sched
restart s p =
    let task = s.tasks p in
    let (ctx, new_prio) = restart_burst_bore s.max_rt_prio s.params task.rank task.ctx none in
    record s { tasks = set_ctx s.tasks p ctx }

unfoldable pub probe_bore_dequeue_task_fair : Sched → Ptr → ℕ → Sched
probe_bore_dequeue_task_fair s p flags =
    if is_off s p || bit_and flags dequeue_sleep == 0 then s else restart s p

unfoldable pub probe_bore_set_next_entity : Sched → Ptr → Sched
probe_bore_set_next_entity s se = s

unfoldable pub probe_bore_yield_task_fair : Sched → Ptr → Sched
probe_bore_yield_task_fair s p = if is_off s p then s else restart s p

-- `parent && p->group_leader == parent->group_leader && p != parent`
abbrev pub same_group : Sched → Ptr → Ptr → Bool
same_group s p parent =
    not (parent == null)
    && ((s.tasks p).group_leader == (s.tasks parent).group_leader && not (p == parent))

-- The penalty that a task forked by `parent` inherits, and the tasks with the caches refreshed.
unfoldable pub inherited : ℕ → Sched → Ptr → Ptr → ℕ → Option (Tasks × ℕ)
inherited fuel s p parent now =
    let t = s.tasks in
    if same_group s p parent
    then some (inherit_from_thread_group s.params s.lut t parent now)
    else if s.params.burst_inherit_type == 2
    then inherit_from_ancestor_hub s.params s.lut fuel t parent false now
    else if s.params.burst_inherit_type == 1
    then some (inherit_from_parent s.params s.lut t parent false now)
    else some (t, 0)

-- The new task's context before its penalty is updated.
unfoldable pub start_context : Context → ℕ → Context
start_context ctx inherited_penalty = record ctx {
  prev_penalty =
      if ltb ctx.prev_penalty inherited_penalty then u16 inherited_penalty else ctx.prev_penalty;
  curr_penalty = 0;
  burst_time = 0;
  stop_update = false;
  futex_waiting = false;
}

unfoldable pub start_task : Sched → Ptr → Tasks → ℕ → Sched
start_task s p t inherited_penalty =
    let task = t p in
    let (ctx, new_prio) =
      update_penalty s.max_rt_prio s.params task.rank (start_context task.ctx inherited_penalty)
        none in
    record s { tasks = set_ctx t p ctx }

unfoldable pub probe_bore_task_fork : ℕ → Sched → Ptr → Ptr → ℕ → Option Sched
probe_bore_task_fork fuel s p current now =
    if is_off s p || not (bore_task_is_eligible (s.tasks p))
    then some s
    else (elim (inherited fuel s p current now) [
      | none ↦ none
      | some (t, inherited_penalty) ↦ some (start_task s p t inherited_penalty)
    ])

unfoldable pub probe_bore_init_entity : Sched → Ptr → Sched
probe_bore_init_entity s se =
    if se == null then s else record s { tasks = set_ctx s.tasks se zero_context }

-- `prio` is `none` for a NULL pointer, and else the number that it points to.
unfoldable pub probe_bore_set_load_weight : Sched → Ptr → Option ℕ → Option ℕ
probe_bore_set_load_weight s p prio = elim prio [
  | none ↦ none
  | some old ↦
      if is_off s p || not (bore_task_is_eligible (s.tasks p))
      then some old
      else some (effective_prio_bore s.max_rt_prio s.params (s.tasks p).rank (s.tasks p).ctx)
]

-- The loop of `init_bore_tasks` over every thread of every process.
unfoldable pub init_bore_tasks : Tasks → List Ptr → Tasks
init_bore_tasks t [] = t
init_bore_tasks t (p ∷ rest) = init_bore_tasks (set_ctx t p zero_context) rest
