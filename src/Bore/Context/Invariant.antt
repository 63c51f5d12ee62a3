-- ===== src/Bore/Context/Invariant.antt =====
-- What holds of every `struct bore_ctx`, and what `update_penalty` and `restart_burst_bore` do to it.
use android_device_axion_com.Base.{
  ℕ, ◌≤◌, ◌<◌, ◌^◌, ◌≡◌, arith, max, Option, some, if◌then◌else◌, u16,
}
use android_device_axion_com.Bore.Penalty.{Params, max_burst_penalty, binary_smooth}
use android_device_axion_com.Bore.Penalty.Smooth.{binary_smooth-between}
use android_device_axion_com.Bore.Context.{
  Context, zero_context, Rank, effective_prio_bore, is_protected, masked_penalty, update_penalty,
  restart_burst_bore,
}
use android_device_axion_com.Bore.Context.Prio.{masked_penalty-max}

-- The penalties are in range, and each number fits its field.
pub record IsValid (ctx : Context) : Type 0 where
  pub burst : ctx.burst_time < 2 ^ 64
  pub prev : ctx.prev_penalty ≤ max_burst_penalty
  pub curr : ctx.curr_penalty ≤ max_burst_penalty
  pub scored : ctx.penalty ≤ max_burst_penalty
  pub subtree : ctx.subtree.penalty ≤ max_burst_penalty
  pub group : ctx.group.penalty ≤ max_burst_penalty

pub zero_context-IsValid : IsValid zero_context
zero_context-IsValid = omega arith

-- The penalty that the two measurements call for.
abbrev pub due_penalty : Rank → Context → ℕ
due_penalty p ctx = if is_protected p then 0 else max ctx.curr_penalty ctx.prev_penalty

pub masked_penalty-due :
    (p : Rank) (ctx : Context) → IsValid ctx → masked_penalty p ctx ≡ due_penalty p ctx
masked_penalty-due p ctx v = masked_penalty-max p ctx (omega arith) (omega arith)

pub due_penalty-le :
    (p : Rank) (ctx : Context) → IsValid ctx → due_penalty p ctx ≤ max_burst_penalty
due_penalty-le p ctx v = ground arith

module _ (max_rt_prio : ℕ) (prm : Params) (p : Rank) (ctx : Context) (v : IsValid ctx) where
  -- `update_penalty` sets the penalty that is due and changes no other field.
  pub update_penalty-due :
      (new_prio : Option ℕ)
      → (update_penalty max_rt_prio prm p ctx new_prio).0
        ≡ record ctx { penalty = due_penalty p ctx }
  unfolding update_penalty
  update_penalty-due new_prio = rw (masked_penalty-due p ctx v)

  -- Of a valid context, the caller's number, when it is the priority before the update, is the
  -- priority after it.
  pub update_penalty-reports :
      let new =
        (update_penalty max_rt_prio prm p ctx (some (effective_prio_bore max_rt_prio prm p ctx))) in
      new.1 ≡ some (effective_prio_bore max_rt_prio prm p new.0)
  unfolding update_penalty
  update_penalty-reports = ground arith

  pub update_penalty-IsValid :
      (new_prio : Option ℕ) → IsValid (update_penalty max_rt_prio prm p ctx new_prio).0
  update_penalty-IsValid new_prio =
      rw (update_penalty-due new_prio) (ground (arith, due_penalty-le p ctx v))

module _ (max_rt_prio : ℕ) (prm : Params) (shift : prm.burst_smoothness < 32) (p : Rank)
    (ctx : Context) (v : IsValid ctx) where
  smoothed-le : binary_smooth prm ctx.curr_penalty ctx.prev_penalty ≤ ctx.curr_penalty
  smoothed-le =
      (binary_smooth-between prm ctx.curr_penalty ctx.prev_penalty shift (omega arith)
        (omega arith)).0

  -- The context that a restart begins with.
  abbrev restarted : Context
  restarted = record ctx {
    prev_penalty = binary_smooth prm ctx.curr_penalty ctx.prev_penalty;
    curr_penalty = 0;
    burst_time = 0;
  }

  restarted_fits :
      u16 (binary_smooth prm ctx.curr_penalty ctx.prev_penalty)
      ≡ binary_smooth prm ctx.curr_penalty ctx.prev_penalty
  restarted_fits = omega (arith, smoothed-le)

  restarted-IsValid : IsValid restarted
  restarted-IsValid = omega (arith, smoothed-le)

  -- With a shift that C defines, a restart of a valid context forgets the burst, keeps its smoothed
  -- penalty, and makes that the task's penalty unless the task is protected.
  pub restart_burst_bore_lem :
      (new_prio : Option ℕ)
      → (restart_burst_bore max_rt_prio prm p ctx new_prio).0 ≡ record ctx {
        prev_penalty = binary_smooth prm ctx.curr_penalty ctx.prev_penalty;
        curr_penalty = 0;
        burst_time = 0;
        penalty = if is_protected p then 0 else binary_smooth prm ctx.curr_penalty ctx.prev_penalty;
      }
  unfolding restart_burst_bore
  restart_burst_bore_lem new_prio = rw restarted_fits (
      rw (update_penalty-due max_rt_prio prm p restarted restarted-IsValid new_prio) (ground arith))

  pub restart_burst_bore-IsValid :
      (new_prio : Option ℕ) → IsValid (restart_burst_bore max_rt_prio prm p ctx new_prio).0
  restart_burst_bore-IsValid new_prio =
      rw (restart_burst_bore_lem new_prio) (ground (arith, smoothed-le))
