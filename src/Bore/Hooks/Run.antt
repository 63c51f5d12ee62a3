-- ===== src/Bore/Hooks/Run.antt =====
-- The module from its loading to its unloading, as a sequence of hooks that fire, of writes to its
-- parameters and of changes that the rest of the kernel makes.
use android_device_axion_com.Base.{
  ℕ, ◌≤◌, ◌<◌, ◌≡◌, refl, sym, ◌∙◌, arith, Bool, false, Option, some, List, if◌then◌else◌,
}
use mathlib.Core.Path.{subst}
use android_device_axion_com.Kernel.{Ptr}
use android_device_axion_com.Kernel.Tracepoints.{Tracepoints}
use android_device_axion_com.Bore.Penalty.{Params, max_burst_penalty}
use android_device_axion_com.Bore.Context.{bore_score}
use android_device_axion_com.Bore.Context.Prio.{bore_score-le}
use android_device_axion_com.Bore.Cache.{zero_lut}
use android_device_axion_com.Bore.Inherit.{Tasks}
use android_device_axion_com.Bore.Lifecycle.{
  Hook, tag, Grants, Module, bore_sched_init, bore_sched_exit,
}
use android_device_axion_com.Bore.Lifecycle.AllOrNothing.{AllHooks, exit-LeavesNone}
use android_device_axion_com.Bore.Hooks.{Event, hook_of, number_of, Cpu, fire}
use android_device_axion_com.Bore.Hooks.Life.{
  Fits, IsLoaded, Covers, bore_sched_init-IsLoaded, fire-Fired,
}

module _ (tp : Tracepoints Hook tag) where
  -- A hook that fires, a write to the parameters with a smoothness below 32, or any change that the
  -- rest of the kernel makes to the tasks but to their contexts.
  pub data Turn (m : Module tp) : Module tp → Type 0 where
    fires :
        {m' : Module tp} {number : Option ℕ} (cpu : Cpu) (e : Event)
        → Fits cpu m.sched e
        → fire tp cpu m e ≡ some (m', number)
        → Turn m m'
    tune :
        (prm : Params)
        → prm.burst_smoothness < 32
        → Turn m (record m { sched = record (m.sched) { params = prm } })
    kernel :
        (t : Tasks)
        → ((p : Ptr) → (t p).ctx ≡ (m.sched.tasks p).ctx)
        → Turn m (record m { sched = record (m.sched) { tasks = t } })

  pub data Life (m : Module tp) : Module tp → Type 0 where
    starts : Life m m
    turns : {u v : Module tp} → Life m u → Turn u v → Life m v

  some_inj {ℓ} : {A : Type ℓ} {x y : A} → some x ≡ some y → x ≡ y
  some_inj e = cc

  Turn-IsLoaded : {m m' : Module tp} → IsLoaded tp m → Turn m m' → IsLoaded tp m'
  Turn-IsLoaded {m} ok (fires cpu e fits fired) =
      let (r, returned, loaded, same) = fire-Fired tp cpu m e ok fits in
      subst (λ (x : Module tp × Option ℕ). IsLoaded tp x.0) (some_inj (sym returned ∙ fired)) loaded
  Turn-IsLoaded ok (tune prm h) = record {
    sound = record { table = ok.sound.table; shift = h; all = ok.sound.all };
    hooks = ok.hooks;
  }
  Turn-IsLoaded ok (kernel t same) = record {
    sound = record {
      table = ok.sound.table;
      shift = ok.sound.shift;
      all = λ p. rw (same p) (ok.sound.all p);
    };
    hooks = ok.hooks;
  }

  pub Life-IsLoaded : {m m' : Module tp} → IsLoaded tp m → Life m m' → IsLoaded tp m'
  Life-IsLoaded ok starts = ok
  Life-IsLoaded ok (turns life turn) = Turn-IsLoaded (Life-IsLoaded ok life) turn

  if-some {ℓ} :
      {A : Type ℓ} (b : Bool) (x y : A) → (if b then some x else some y) ≡ some (if b then x else y)
  if-some b x y = ground arith

  module _ (grants : Grants) (threads : List Ptr) (m : Module tp)
      (free : AllHooks tp false m.registry) (fresh : m.sched.lut ≡ zero_lut)
      (shift : m.sched.params.burst_smoothness < 32)
      (covers : Covers tp threads m.sched.tasks) where
    loaded : {m' : Module tp} → Life (bore_sched_init tp grants threads m) m' → IsLoaded tp m'
    loaded life =
        Life-IsLoaded (bore_sched_init-IsLoaded tp grants threads m free fresh shift covers) life

    -- Loaded where none of its hooks is registered, with its table still zero, a smoothness below 32
    -- and every task's context either cleared by the loader or valid before, the module keeps each
    -- penalty at most the maximum and each score at most 39: whatever hooks fire, with finite families
    -- at the forks, whatever parameters with a smoothness below 32 are written, and whatever the rest
    -- of the kernel changes of the tasks but their contexts.
    pub Life-score :
        {m' : Module tp}
        → Life (bore_sched_init tp grants threads m) m'
        → (p : Ptr)
        → ((m'.sched.tasks p).ctx.penalty ≤ max_burst_penalty)
          × (bore_score (m'.sched.tasks p).ctx ≤ 39)
    Life-score life p = let v = (loaded life).sound.all p in (v.scored, bore_score-le _ v.scored)

    -- A module that was loaded where none of its hooks was registered, with its table still zero, a
    -- smoothness below 32 and every task's context either cleared by the loader or valid before, and
    -- that is unloaded, whatever has happened since, leaves no hook registered and no entry under
    -- /proc, and no event changes anything any more.
    pub bore_sched_exit-silences :
        {m' : Module tp}
        → Life (bore_sched_init tp grants threads m) m'
        → let end = bore_sched_exit tp m' in
          AllHooks tp false end.registry
          × (end.bore_proc_entry ≡ false)
          × ((cpu : Cpu) (e : Event) → fire tp cpu end e ≡ some (end, number_of e))
    unfolding fire
    bore_sched_exit-silences {m'} life =
        let (none_left, gone) = exit-LeavesNone tp m' (loaded life).hooks in
        (none_left, gone, λ cpu e. rw (none_left (hook_of e)) refl)
