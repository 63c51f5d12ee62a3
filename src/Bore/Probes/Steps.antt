-- ===== src/Bore/Probes/Steps.antt =====
-- The handlers, the administrator and the rest of the kernel as steps of one system, and the invariant
-- that every step keeps: each `struct bore_ctx` is valid.
use android_device_axion_com.Base.{
  ℕ, ◌+◌, ◌%◌, ◌^◌, ◌≤◌, ◌<◌, ◌≡◌, refl, sym, ◌∙◌, arith, false, Option, none, some, List, [], ◌∷◌,
  not, ◌||◌, ◌==◌, leb, has, if_cases, if◌then◌else◌, bit_and,
}
use mathlib.Core.Path.{subst}
use android_device_axion_com.Kernel.{Ptr, null}
use android_device_axion_com.Bore.Penalty.{Params, max_burst_penalty}
use android_device_axion_com.Bore.Penalty.Clamp.{calc_burst_penalty-le}
use android_device_axion_com.Bore.Context.{Context, zero_context, bore_score}
use android_device_axion_com.Bore.Context.Prio.{bore_score-le}
use android_device_axion_com.Bore.Context.Invariant.{
  IsValid, zero_context-IsValid, update_penalty-IsValid, restart_burst_bore-IsValid,
}
use android_device_axion_com.Bore.Cache.{init_bore_reciprocal_lut, zero_lut}
use android_device_axion_com.Bore.Inherit.{Tasks, set_ctx, bore_task_is_eligible}
use android_device_axion_com.Bore.Inherit.Walk.{IsFamily}
use android_device_axion_com.Bore.Inherit.Value.{
  AllValid, set_ctx-AllValid, inherit_from_parent-AllValid, inherit_from_thread_group-AllValid,
}
use android_device_axion_com.Bore.Inherit.Hub.{inherit_from_ancestor_hub-AllValid}
use android_device_axion_com.Bore.Probes.{
  Sched, is_off, same_group, charge, probe_bore_update_curr, restart, probe_bore_dequeue_task_fair,
  probe_bore_set_next_entity, probe_bore_yield_task_fair, inherited, start_context, start_task,
  probe_bore_task_fork, probe_bore_init_entity, init_bore_tasks,
}

-- The table is filled, the shift of the smoothing is one that C defines, and every context is valid.
pub record IsSound (s : Sched) : Type 0 where
  pub table : s.lut ≡ init_bore_reciprocal_lut zero_lut
  pub shift : s.params.burst_smoothness < 32
  pub all : AllValid s.tasks

pub charge-IsValid :
    (prm : Params) (ctx : Context) (delta_exec : ℕ)
    → IsValid ctx
    → IsValid (charge prm ctx delta_exec)
unfolding charge
charge-IsValid prm ctx delta_exec v =
    omega (arith, calc_burst_penalty-le prm ((ctx.burst_time + delta_exec) % 2 ^ 64))

module _ (s : Sched) (ok : IsSound s) where
  with_ctx :
      (p : Ptr) (ctx : Context) → IsValid ctx → IsSound (record s { tasks = set_ctx s.tasks p ctx })
  with_ctx p ctx v = record {
    table = ok.table;
    shift = ok.shift;
    all = set_ctx-AllValid s.tasks p ctx ok.all v;
  }

  pub probe_bore_update_curr-IsSound :
      (p : Ptr) (delta_exec : ℕ) (new_prio : Option ℕ)
      → IsSound (probe_bore_update_curr s p delta_exec new_prio).0
  unfolding probe_bore_update_curr
  probe_bore_update_curr-IsSound p delta_exec new_prio =
      let charged = charge s.params (s.tasks p).ctx delta_exec in
      let v = charge-IsValid s.params (s.tasks p).ctx delta_exec (ok.all p) in
      let w = update_penalty-IsValid s.max_rt_prio s.params (s.tasks p).rank charged v new_prio in
      if_cases (λ (r : Sched × Option ℕ). IsSound r.0) (is_off s p) (λ _. ok)
        λ _.
          if_cases (λ (r : Sched × Option ℕ). IsSound r.0) (s.tasks p).ctx.stop_update (λ _. ok)
            λ _.
              if_cases (λ (r : Sched × Option ℕ). IsSound r.0)
                (leb charged.curr_penalty charged.prev_penalty) (λ _. with_ctx p charged v)
                (λ _. with_ctx p _ w)

  restart-IsSound : (p : Ptr) → IsSound (restart s p)
  unfolding restart
  restart-IsSound p = with_ctx p _ (
      restart_burst_bore-IsValid s.max_rt_prio s.params ok.shift (s.tasks p).rank (s.tasks p).ctx
        (ok.all p) none)

  pub probe_bore_dequeue_task_fair-IsSound :
      (p : Ptr) (flags : ℕ) → IsSound (probe_bore_dequeue_task_fair s p flags)
  unfolding probe_bore_dequeue_task_fair
  probe_bore_dequeue_task_fair-IsSound p flags =
      if_cases IsSound (is_off s p || bit_and flags 0x01 == 0) (λ _. ok) (λ _. restart-IsSound p)

  pub probe_bore_yield_task_fair-IsSound : (p : Ptr) → IsSound (probe_bore_yield_task_fair s p)
  unfolding probe_bore_yield_task_fair
  probe_bore_yield_task_fair-IsSound p =
      if_cases IsSound (is_off s p) (λ _. ok) (λ _. restart-IsSound p)

  pub probe_bore_init_entity-IsSound : (se : Ptr) → IsSound (probe_bore_init_entity s se)
  unfolding probe_bore_init_entity
  probe_bore_init_entity-IsSound se =
      if_cases IsSound (se == null) (λ _. ok) (λ _. with_ctx se zero_context zero_context-IsValid)

pub start_context-IsValid :
    (ctx : Context) (penalty : ℕ)
    → IsValid ctx
    → penalty ≤ max_burst_penalty
    → IsValid (start_context ctx penalty)
unfolding start_context
start_context-IsValid ctx penalty v h = ground arith

-- What a search for a penalty must bring, and what a fork must leave.
abbrev pub Found : Option (Tasks × ℕ) → Type 0
Found o = (r : Tasks × ℕ) × (o ≡ some r) × AllValid r.0 × (r.1 ≤ max_burst_penalty)

abbrev Returned : Option Sched → Type 0
Returned o = (s' : Sched) × (o ≡ some s') × IsSound s'

module _ (s : Sched) (ok : IsSound s) (p : Ptr) where
  start_task-IsSound :
      (t : Tasks) (penalty : ℕ)
      → AllValid t
      → penalty ≤ max_burst_penalty
      → IsSound (start_task s p t penalty)
  unfolding start_task
  start_task-IsSound t penalty all small = record {
    table = ok.table;
    shift = ok.shift;
    all = set_ctx-AllValid t p _ all (
        update_penalty-IsValid s.max_rt_prio s.params (t p).rank (start_context (t p).ctx penalty)
          (start_context-IsValid (t p).ctx penalty (all p) small) none);
  }

  -- In a finite family the penalty to inherit is found, and it is in range.
  pub inherited-AllValid :
      (fuel : ℕ) (parent : Ptr) (now : ℕ)
      → IsFamily s.tasks fuel
      → Found (inherited fuel s p parent now)
  unfolding inherited
  inherited-AllValid fuel parent now f =
      let t = s.tasks in
      let task = inherit_from_thread_group-AllValid s.params zero_lut t ok.all now parent in
      let plain = inherit_from_parent-AllValid s.params zero_lut t ok.all now parent false in
      let hub =
        inherit_from_ancestor_hub-AllValid t fuel f s.params zero_lut ok.all now parent false in
      rw ok.table (
        if_cases Found (same_group s p parent) (λ _. (_, refl, task.0, task.1))
          (λ _.
            if_cases Found (s.params.burst_inherit_type == 2) (λ _. hub)
              (λ _.
                if_cases Found (s.params.burst_inherit_type == 1) (λ _. (_, refl, plain.0, plain.1))
                  (λ _. ((t, 0), refl, ok.all, omega arith)))))

  -- From a sound state, in a finite family, a fork returns and leaves a sound state.
  pub probe_bore_task_fork-IsSound :
      (fuel : ℕ) (current now : ℕ)
      → IsFamily s.tasks fuel
      → (s' : Sched) × (probe_bore_task_fork fuel s p current now ≡ some s') × IsSound s'
  unfolding probe_bore_task_fork
  probe_bore_task_fork-IsSound fuel current now f =
      let ((t, penalty), found, all, small) = inherited-AllValid fuel current now f in
      if_cases Returned (is_off s p || not (bore_task_is_eligible (s.tasks p))) (λ _. (s, refl, ok))
        (λ _. rw found (start_task s p t penalty, refl, start_task-IsSound t penalty all small))

-- A write to the module's parameters, and any change that the rest of the kernel makes to the tasks
-- but to their contexts.
pub data Step (fuel : ℕ) (s : Sched) : Sched → Type 0 where
  update_curr :
      (p : Ptr) (delta_exec : ℕ) (new_prio : Option ℕ)
      → Step fuel s (probe_bore_update_curr s p delta_exec new_prio).0
  dequeue : (p : Ptr) (flags : ℕ) → Step fuel s (probe_bore_dequeue_task_fair s p flags)
  set_next : (se : Ptr) → Step fuel s (probe_bore_set_next_entity s se)
  yields : (p : Ptr) → Step fuel s (probe_bore_yield_task_fair s p)
  fork :
      {s' : Sched} (p current now : ℕ)
      → IsFamily s.tasks fuel
      → probe_bore_task_fork fuel s p current now ≡ some s'
      → Step fuel s s'
  init_entity : (se : Ptr) → Step fuel s (probe_bore_init_entity s se)
  tune : (prm : Params) → prm.burst_smoothness < 32 → Step fuel s (record s { params = prm })
  kernel :
      (t : Tasks) → ((p : Ptr) → (t p).ctx ≡ (s.tasks p).ctx) → Step fuel s (record s { tasks = t })

pub data Reach (fuel : ℕ) (s : Sched) : Sched → Type 0 where
  here : Reach fuel s s
  next : {u v : Sched} → Reach fuel s u → Step fuel u v → Reach fuel s v

pub some_inj {ℓ} : {A : Type ℓ} {x y : A} → some x ≡ some y → x ≡ y
some_inj e = cc

Step-IsSound : {fuel : ℕ} {s s' : Sched} → IsSound s → Step fuel s s' → IsSound s'
Step-IsSound {s} ok (update_curr p delta_exec new_prio) =
    probe_bore_update_curr-IsSound s ok p delta_exec new_prio
Step-IsSound {s} ok (dequeue p flags) = probe_bore_dequeue_task_fair-IsSound s ok p flags
Step-IsSound {s} ok (set_next se) = unfold probe_bore_set_next_entity in ok
Step-IsSound {s} ok (yields p) = probe_bore_yield_task_fair-IsSound s ok p
Step-IsSound {fuel} {s} ok (fork p current now f e) =
    let (s', returned, sound) = probe_bore_task_fork-IsSound s ok p fuel current now f in
    subst IsSound (some_inj (sym returned ∙ e)) sound
Step-IsSound {s} ok (init_entity se) = probe_bore_init_entity-IsSound s ok se
Step-IsSound {s} ok (tune prm h) = record { table = ok.table; shift = h; all = ok.all }
Step-IsSound {s} ok (kernel t same) = record {
  table = ok.table;
  shift = ok.shift;
  all = λ p. rw (same p) (ok.all p);
}

pub Reach-IsSound : {fuel : ℕ} {s s' : Sched} → IsSound s → Reach fuel s s' → IsSound s'
Reach-IsSound ok here = ok
Reach-IsSound ok (next r step) = Step-IsSound (Reach-IsSound ok r) step

-- In every state that the steps reach from a sound one, each penalty is at most the maximum and each
-- score at most 39. A step may set the parameters, with a smoothness below 32, and forks are in finite
-- families.
pub Reach-score :
    {fuel : ℕ} {s s' : Sched}
    → IsSound s
    → Reach fuel s s'
    → (p : Ptr)
    → ((s'.tasks p).ctx.penalty ≤ max_burst_penalty) × (bore_score (s'.tasks p).ctx ≤ 39)
Reach-score ok r p = let v = (Reach-IsSound ok r).all p in (v.scored, bore_score-le _ v.scored)

-- `init_bore_tasks` clears the contexts of the listed tasks and leaves every other task alone.
pub init_bore_tasks-clears :
    (t : Tasks) (ps : List Ptr) (p : Ptr)
    → (init_bore_tasks t ps p).ctx ≡ (if has p ps then zero_context else (t p).ctx)
unfolding init_bore_tasks has set_ctx
init_bore_tasks-clears t [] p = refl
init_bore_tasks-clears t (q ∷ qs) p =
    ground (arith, init_bore_tasks-clears (set_ctx t q zero_context) qs p)
