-- ===== src/Bore/Probes/Fork.antt =====
-- What a fork gives the new task, and what the module does when it is switched off.
use android_device_axion_com.Base.{
  ℕ, ◌≤◌, ◌≡◌, refl, sym, ap, ◌∙◌, ◌⊎◌, inl, inr, arith, max, true, false, Option, none, some, ◌==◌,
  ==_iff, Bool-cases, if_cases, if◌then◌else◌,
}
use mathlib.Core.Path.{subst}
use android_device_axion_com.Kernel.{Ptr, null}
use android_device_axion_com.Bore.Penalty.{max_burst_penalty}
use android_device_axion_com.Bore.Context.{Context, is_protected}
use android_device_axion_com.Bore.Context.Invariant.{due_penalty, update_penalty-due}
use android_device_axion_com.Bore.Inherit.{
  Task, Tasks, set_ctx, bore_task_is_eligible, inherit_from_parent, inherit_from_thread_group,
}
use android_device_axion_com.Bore.Inherit.Walk.{IsFamily}
use android_device_axion_com.Bore.Inherit.Value.{
  answer, inherit_from_parent-answer, inherit_from_thread_group-answer,
}
use android_device_axion_com.Bore.Inherit.Frame.{
  OnlyCaches, KeepsIfAny, inherit_from_parent-OnlyCaches, inherit_from_thread_group-OnlyCaches,
  inherit_from_ancestor_hub-OnlyCaches,
}
use android_device_axion_com.Bore.Cache.{zero_lut, init_bore_reciprocal_lut}
use android_device_axion_com.Bore.Probes.{
  Sched, is_off, same_group, inherited, start_context, start_task, probe_bore_update_curr,
  probe_bore_dequeue_task_fair, probe_bore_yield_task_fair, probe_bore_task_fork,
  probe_bore_set_load_weight,
}
use android_device_axion_com.Bore.Probes.Steps.{
  some_inj, IsSound, inherited-AllValid, start_context-IsValid,
}

-- The context of a new task: no burst, and the larger of its own past and what it inherits.
abbrev pub newborn : Task → ℕ → Context
newborn task penalty =
    let past = max task.ctx.prev_penalty penalty in
    record (task.ctx) {
      burst_time = 0;
      prev_penalty = past;
      curr_penalty = 0;
      penalty = if is_protected task.rank then 0 else past;
      stop_update = false;
      futex_waiting = false;
    }

start_context-newborn :
    (task : Task) (penalty : ℕ)
    → penalty ≤ max_burst_penalty
    → record (start_context task.ctx penalty) {
      penalty = due_penalty task.rank (start_context task.ctx penalty);
    }
      ≡ newborn task penalty
unfolding start_context
start_context-newborn task penalty small = ground arith

-- What a fork may inherit without a walk: from the leader's cache over its group, when the parent is of
-- the same group; else from the parent's cache over its children, when that is the type; else nothing.
abbrev pub plain_penalty : Sched → Ptr → Ptr → ℕ → ℕ
plain_penalty s p parent now =
    let t = s.tasks in
    let leader = (t parent).group_leader in
    if same_group s p parent
    then (if leader == null
        then 0
        else answer s.params t (t leader).threads (t leader).ctx (t leader).ctx.group now)
    else if s.params.burst_inherit_type == 1
    then (if parent == null
        then 0
        else answer s.params t (t parent).children (t parent).ctx (t parent).ctx.subtree now)
    else 0

-- The tasks in which one is a newborn with a penalty.
abbrev pub with_newborn : Tasks → Ptr → ℕ → Tasks
with_newborn t p penalty q = if q == p then record (t q) { ctx = newborn (t q) penalty } else t q

set_newborn-OnlyCaches :
    (t t' : Tasks) (p : Ptr) (penalty : ℕ)
    → OnlyCaches t t'
    → OnlyCaches (with_newborn t p penalty) (set_ctx t' p (newborn (t' p) penalty))
unfolding set_ctx
set_newborn-OnlyCaches t t' p penalty same q = elim (Bool-cases (q == p)) [
  | inl here ↦
      rw (here, sym ((==_iff q p).0 here))
        (ap (λ (x : Task). let y : Task = record x { ctx = newborn x penalty } in y) (same q))
  | inr there ↦ rw there (same q)
]

abbrev with_penalty : Tasks → ℕ → Option (Tasks × ℕ)
with_penalty t penalty = some (t, penalty)

module _ (s : Sched) (ok : IsSound s) (p : Ptr) where
  -- What a search finds, but for the walk to an ancestor.
  abbrev FindsPlain : Ptr → ℕ → Option (Tasks × ℕ) → Type 0
  FindsPlain parent now o =
      ((same_group s p parent ≡ false) × (s.params.burst_inherit_type ≡ 2))
      ⊎ ((t : Tasks) × (o ≡ some (t, plain_penalty s p parent now)))

  inherited-plain :
      (fuel : ℕ) (parent now : ℕ) → FindsPlain parent now (inherited fuel s p parent now)
  unfolding inherited
  inherited-plain fuel parent now =
      let t = s.tasks in
      let lut = init_bore_reciprocal_lut zero_lut in
      let group = inherit_from_thread_group s.params lut t parent now in
      let plain = inherit_from_parent s.params lut t parent false now in
      elim (Bool-cases (same_group s p parent)) [
        | inl in_group ↦ inr (
          group.0,
          rw (in_group, ok.table)
              (ap (with_penalty group.0)
                (inherit_from_thread_group-answer s.params zero_lut t ok.all now parent)),
        )
        | inr apart ↦ elim (Bool-cases (s.params.burst_inherit_type == 2)) [
          | inl hub ↦ inl (apart, (==_iff s.params.burst_inherit_type 2).0 hub)
          | inr other ↦ elim (Bool-cases (s.params.burst_inherit_type == 1)) [
            | inl direct ↦ inr (
              plain.0,
              rw (apart, other, direct, ok.table)
                  (ap (with_penalty plain.0)
                    (inherit_from_parent-answer s.params zero_lut t ok.all now parent false).0),
            )
            | inr nothing ↦ inr (t, rw (apart, other, nothing) refl)
          ]
        ]
      ]

  inherited-OnlyCaches :
      (fuel : ℕ) (parent now : ℕ)
      → KeepsIfAny s.params s.lut s.tasks now (inherited fuel s p parent now)
  unfolding inherited
  inherited-OnlyCaches fuel parent now =
      let t = s.tasks in
      let K = KeepsIfAny s.params s.lut t now in
      if_cases K (same_group s p parent)
        (λ _. inherit_from_thread_group-OnlyCaches s.params s.lut t now parent)
        λ _.
          if_cases K (s.params.burst_inherit_type == 2)
            (λ _. inherit_from_ancestor_hub-OnlyCaches s.params s.lut t now fuel parent false)
            λ _.
              if_cases K (s.params.burst_inherit_type == 1)
                (λ _. inherit_from_parent-OnlyCaches s.params s.lut t now parent false)
                (λ _ q. refl)

-- In a sound state with BORE on and a finite family, a fork of an eligible task returns. The new task
-- gets the context of a newborn with a penalty in range: the one of `plain_penalty`, unless the walk to
-- an ancestor is what the type asks for and the parent is of another group. But for burst caches,
-- nothing else of any task changes, and nothing of the module.
pub probe_bore_task_fork-newborn :
    (fuel : ℕ) (s : Sched) (p current now : ℕ)
    → IsSound s
    → IsFamily s.tasks fuel
    → is_off s p ≡ false
    → bore_task_is_eligible (s.tasks p) ≡ true
    → (penalty : ℕ) × (t : Tasks) × (penalty ≤ max_burst_penalty)
      × (((same_group s p current ≡ false) × (s.params.burst_inherit_type ≡ 2))
          ⊎ (penalty ≡ plain_penalty s p current now))
      × OnlyCaches (with_newborn s.tasks p penalty) t
      × (probe_bore_task_fork fuel s p current now ≡ some (record s { tasks = t }))
unfolding probe_bore_task_fork start_task
probe_bore_task_fork-newborn fuel s p current now ok f on fair =
    let ((t, penalty), found, all, small) = inherited-AllValid s ok p fuel current now f in
    let born =
      update_penalty-due s.max_rt_prio s.params (t p).rank (start_context (t p).ctx penalty)
        (start_context-IsValid (t p).ctx penalty (all p) small) none
      ∙ start_context-newborn (t p) penalty small in
    let same : OnlyCaches s.tasks t =
      subst (KeepsIfAny s.params s.lut s.tasks now) found
        (inherited-OnlyCaches s ok p fuel current now) in
    (
      penalty,
      set_ctx t p (newborn (t p) penalty),
      small,
      elim (inherited-plain s ok p fuel current now) [
        | inl walk ↦ inl walk
        | inr (t', e) ↦ inr (ap (λ (r : Tasks × ℕ). r.1) (some_inj (sym found ∙ e)))
      ],
      set_newborn-OnlyCaches s.tasks t p penalty same,
      rw (on, fair, found, born) refl,
    )

-- With `sched_bore` at 0 the five handlers that test it change no task and no caller's number.
pub probes_off :
    (s : Sched)
    → s.params.sched_bore ≡ 0
    → (fuel p n now : ℕ) (number : Option ℕ)
    → (probe_bore_update_curr s p n number ≡ (s, number))
      × (probe_bore_dequeue_task_fair s p n ≡ s)
      × (probe_bore_yield_task_fair s p ≡ s)
      × (probe_bore_task_fork fuel s p n now ≡ some s)
      × (probe_bore_set_load_weight s p number ≡ number)
unfolding probe_bore_update_curr probe_bore_dequeue_task_fair probe_bore_yield_task_fair
    probe_bore_task_fork probe_bore_set_load_weight
probes_off s off fuel p n now number =
    let gone : is_off s p ≡ true = ground arith in
    (rw gone, rw gone, rw gone, rw gone, loads number)
  where
    loads : (m : Option ℕ) → probe_bore_set_load_weight s p m ≡ m
    loads none = refl
    loads (some old) = ground arith
