-- ===== src/Bore/Context.antt =====
-- The per-task state of kernel/modules/bore_sched and the functions of bore_sched_main.c that score a
-- task and update its penalty. `max_rt_prio` is the kernel's MAX_RT_PRIO.
pub mod Prio
pub mod Invariant
use android_device_axion_com.Base.{
  ℕ, ◌+◌, ◌-◌, ◌*◌, ◌/◌, ◌^◌, Bool, true, false, ◌||◌, Option, none, some, ltb, ◌==◌, if◌then◌else◌,
  bit_and, u8, u16, add32, sub32, not32, neg32, sar31, lt_s32,
}
use android_device_axion_com.Kernel.{Flags}
use android_device_axion_com.Bore.Penalty.{Params, binary_smooth}

-- `struct bore_bc`: the two bit fields of the union; its `value` is the pair.
pub record BurstCache : Type 0 where
  pub timestamp : ℕ
  pub penalty : ℕ

-- `struct bore_ctx`. Its two flags are only set to zero and tested.
pub record Context : Type 0 where
  pub burst_time : ℕ
  pub prev_penalty : ℕ
  pub curr_penalty : ℕ
  pub penalty : ℕ
  pub stop_update : Bool
  pub futex_waiting : Bool
  pub subtree : BurstCache
  pub group : BurstCache

-- What `memset(ctx, 0, sizeof(*ctx))` leaves.
abbrev pub zero_context : Context
zero_context = record {
  burst_time = 0;
  prev_penalty = 0;
  curr_penalty = 0;
  penalty = 0;
  stop_update = false;
  futex_waiting = false;
  subtree = record { timestamp = 0; penalty = 0 };
  group = record { timestamp = 0; penalty = 0 };
}

-- What the functions below read of a task: `static_prio` is an `int`.
pub record Rank : Type 0 where
  pub static_prio : ℕ
  pub flags : Flags

unfoldable pub bore_score : Context → ℕ
bore_score ctx = u8 (ctx.penalty / 2 ^ 8)

-- `(p->flags & PF_KTHREAD) || (p->static_prio < 120)`
abbrev pub is_protected : Rank → Bool
is_protected p = p.flags.pf_kthread || lt_s32 p.static_prio 120

unfoldable pub masked_penalty : Rank → Context → ℕ
masked_penalty p ctx =
    let diff = sub32 ctx.curr_penalty ctx.prev_penalty in
    let max_val = u16 (sub32 ctx.curr_penalty (bit_and diff (sar31 diff))) in
    u16 (bit_and max_val (neg32 (if is_protected p then 0 else 1)))

module _ (max_rt_prio : ℕ) (prm : Params) where
  unfoldable pub effective_prio_bore : Rank → Context → ℕ
  effective_prio_bore p ctx =
      let base = sub32 p.static_prio max_rt_prio in
      let scored = if prm.sched_bore == 0 then base else add32 base (bore_score ctx) in
      let prio = bit_and scored (not32 (sar31 scored)) in
      let diff = sub32 prio 39 in u8 (sub32 prio (bit_and diff (not32 (sar31 diff))))

  -- `new_prio` is `none` for a NULL pointer, and else the number that it points to.
  unfoldable pub update_penalty : Rank → Context → Option ℕ → Context × Option ℕ
  update_penalty p ctx new_prio =
      let prev_prio = effective_prio_bore p ctx in
      let ctx' = record ctx { penalty = masked_penalty p ctx } in
      let calculated_new_prio = effective_prio_bore p ctx' in
      (
        ctx',
        elim new_prio [
          | none ↦ none
          | some old ↦
              if calculated_new_prio == prev_prio then some old else some calculated_new_prio
        ],
      )

  unfoldable pub restart_burst_bore : Rank → Context → Option ℕ → Context × Option ℕ
  restart_burst_bore p ctx new_prio =
      let new_penalty = binary_smooth prm ctx.curr_penalty ctx.prev_penalty in
      update_penalty p
        (record ctx { prev_penalty = u16 new_penalty; curr_penalty = 0; burst_time = 0 }) new_prio
