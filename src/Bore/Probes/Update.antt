-- ===== src/Bore/Probes/Update.antt =====
-- `probe_bore_update_curr` leaves the penalty alone when the burst is below the smoothed past. The
-- penalty that it leaves is the one that an update would set.
use android_device_axion_com.Base.{
  ℕ, ◌+◌, ◌^◌, ◌≤◌, ◌<◌, ◌≡◌, refl, ap, ◌∙◌, arith, max, true, false, Option, leb, ◌==◌, if_cases,
  if◌then◌else◌, u16, u64,
}
use android_device_axion_com.Kernel.{Ptr}
use android_device_axion_com.Bore.Penalty.{Params, calc_burst_penalty}
use android_device_axion_com.Bore.Penalty.Clamp.{
  NoWrap, calc_burst_penalty-le, calc_burst_penalty_mono,
}
use android_device_axion_com.Bore.Context.{Context, Rank, is_protected}
use android_device_axion_com.Bore.Context.Invariant.{IsValid, due_penalty, update_penalty-due}
use android_device_axion_com.Bore.Inherit.{Tasks, set_ctx}
use android_device_axion_com.Bore.Inherit.Value.{set_ctx_self}
use android_device_axion_com.Bore.Probes.{Sched, is_off, charge, probe_bore_update_curr}
use android_device_axion_com.Bore.Probes.Steps.{charge-IsValid}

-- The running burst's penalty is that of its time, and the task's penalty is the one due.
pub record IsCurrent (prm : Params) (p : Rank) (ctx : Context) : Type 0 where
  pub measured : ctx.curr_penalty ≡ calc_burst_penalty prm ctx.burst_time
  pub due : ctx.penalty ≡ due_penalty p ctx

-- More time on the processor does not lower the penalty of the burst.
charge-grows :
    (prm : Params) (ctx : Context) (delta_exec : ℕ)
    → NoWrap prm
    → ctx.curr_penalty ≡ calc_burst_penalty prm ctx.burst_time
    → ctx.burst_time + delta_exec < 2 ^ 64
    → ctx.curr_penalty ≤ (charge prm ctx delta_exec).curr_penalty
unfolding charge
charge-grows prm ctx delta_exec nw e h =
    let sum : u64 (ctx.burst_time + delta_exec) ≡ ctx.burst_time + delta_exec = omega arith in
    rw sum (
      omega (
        arith,
        calc_burst_penalty-le prm (ctx.burst_time + delta_exec),
        calc_burst_penalty_mono prm ctx.burst_time (ctx.burst_time + delta_exec) nw h (omega arith),
      ))

module _ (s : Sched) (p : Ptr) (delta_exec : ℕ) (new_prio : Option ℕ) (nw : NoWrap s.params)
    (v : IsValid (s.tasks p).ctx) (current : IsCurrent s.params (s.tasks p).rank (s.tasks p).ctx)
    (fits : (s.tasks p).ctx.burst_time + delta_exec < 2 ^ 64) where
  abbrev charged : Context
  charged = charge s.params (s.tasks p).ctx delta_exec

  abbrev settled : Context
  settled = record charged { penalty = due_penalty (s.tasks p).rank charged }

  -- Below the smoothed past, the penalty that stands is the one due.
  skipped :
      leb charged.curr_penalty charged.prev_penalty ≡ true
      → charged.penalty ≡ due_penalty (s.tasks p).rank charged
  skipped low =
      let past : charged.prev_penalty ≡ (s.tasks p).ctx.prev_penalty = unfold charge in refl in
      let kept : charged.penalty ≡ (s.tasks p).ctx.penalty = unfold charge in refl in
      ground (
        arith,
        past,
        kept,
        current.due,
        charge-grows s.params (s.tasks p).ctx delta_exec nw current.measured fits,
      )

  settles :
      is_off s p ≡ false
      → (s.tasks p).ctx.stop_update ≡ false
      → (probe_bore_update_curr s p delta_exec new_prio).0.tasks ≡ set_ctx s.tasks p settled
  unfolding probe_bore_update_curr
  settles on going =
      let Settles = λ (r : Sched × Option ℕ). r.0.tasks ≡ set_ctx s.tasks p settled in
      if_cases Settles (is_off s p) (λ off. cc)
        λ _.
          if_cases Settles (s.tasks p).ctx.stop_update (λ stopped. cc)
            λ _.
              if_cases Settles (leb charged.curr_penalty charged.prev_penalty)
                (λ low.
                  ap (λ (n : ℕ). set_ctx s.tasks p (record charged { penalty = n })) (skipped low))
                (λ _. ap (set_ctx s.tasks p) (
                  update_penalty-due s.max_rt_prio s.params (s.tasks p).rank charged
                    (charge-IsValid s.params (s.tasks p).ctx delta_exec v) new_prio))

  -- The context of the task with the time added, the penalty of that time, and the larger of it and the
  -- smoothed past, or 0 of a protected task.
  abbrev pub accounted : Context
  accounted =
      let ctx = (s.tasks p).ctx in
      let burst_time = ctx.burst_time + delta_exec in
      let measured = calc_burst_penalty s.params burst_time in
      record ctx {
        burst_time = burst_time;
        curr_penalty = measured;
        penalty = if is_protected (s.tasks p).rank then 0 else max measured ctx.prev_penalty;
      }

  settled-accounted : settled ≡ accounted
  unfolding charge
  settled-accounted =
      let time = (s.tasks p).ctx.burst_time + delta_exec in
      let whole : u64 time ≡ time = omega arith in
      let short : u16 (calc_burst_penalty s.params time) ≡ calc_burst_penalty s.params time =
        omega (arith, calc_burst_penalty-le s.params time) in
      rw (whole, short) refl

  -- A valid and current task that is accounted, where no sum or product wraps, ends with the time added
  -- to its burst, the penalty of that time as the current one, and as its penalty the larger of it and
  -- the smoothed past, or 0 if it is protected, whether or not the handler took its early return. Nothing
  -- else of its context changes, nor any other task.
  pub probe_bore_update_curr-due :
      is_off s p ≡ false
      → (s.tasks p).ctx.stop_update ≡ false
      → (q : Ptr)
      → (probe_bore_update_curr s p delta_exec new_prio).0.tasks q
        ≡ (if q == p then record (s.tasks q) { ctx = accounted } else s.tasks q)
  unfolding set_ctx
  probe_bore_update_curr-due on going q =
      ap (λ (t : Tasks). t q) (settles on going) ∙ rw settled-accounted refl

  -- A valid and current task that is accounted, where no sum or product wraps, is current afterwards.
  pub probe_bore_update_curr-IsCurrent :
      is_off s p ≡ false
      → (s.tasks p).ctx.stop_update ≡ false
      → IsCurrent s.params
          (s.tasks p).rank
          ((probe_bore_update_curr s p delta_exec new_prio).0.tasks p).ctx
  probe_bore_update_curr-IsCurrent on going =
      rw (settles on going, set_ctx_self s.tasks p settled)
        (record { measured = measured_charge; due = refl })
    where
      measured_charge : charged.curr_penalty ≡ calc_burst_penalty s.params charged.burst_time
      measured_charge =
          unfold charge in
          omega
            (arith, calc_burst_penalty-le s.params (u64 ((s.tasks p).ctx.burst_time + delta_exec)))
