-- ===== src/Dragonite/Report.antt =====
-- What the driver's operations have in common: the ladder of guards, the task that is held, the report.
use android_device_axion_com.Base.{
  ℕ, ◌≡◌, refl, ap, arith, inl, inr, Bool, true, false, ◌||◌, List, ltb, Bool-cases, if◌then◌else◌,
}
use android_device_axion_com.Kernel.{Ptr}
use android_device_axion_com.Dragonite.{
  Status, success, einval, enomem, esrch, Mask, Stats, World, Kernel, get_task_struct,
  put_task_struct,
}
use android_device_axion_com.Dragonite.Balance.{IsPinned}

-- The references and masks after a task of the caller's was held over an operation.
pub held-IsPinned :
    (k : Kernel) (mask : Mask) (picked : List Ptr) (p : Ptr) (w w' : World)
    → IsPinned k mask picked (get_task_struct p w) w'
    → IsPinned k mask picked w (put_task_struct p w')
unfolding get_task_struct put_task_struct
held-IsPinned k mask picked p w w' i = record {
  refs = λ q. ground (arith, i.refs q);
  allowed = i.allowed;
  nice = i.nice;
}

pub get-stats : (p : Ptr) (w : World) → (get_task_struct p w).stats ≡ w.stats
unfolding get_task_struct
get-stats p w = refl

pub put-stats : (p : Ptr) (w : World) → (put_task_struct p w).stats ≡ w.stats
unfolding put_task_struct
put-stats p w = refl

-- The ladder of guards that the operations share, when one of them fails and when none does.
pub refused3 :
    (a b c : Bool) (w : World) (rest : Status × World)
    → (a || (b || c)) ≡ true
    → (if a then (einval, w) else if b then (enomem, w) else if c then (esrch, w) else rest)
      ≡ ((if a then einval else if b then enomem else esrch), w)
refused3 true b c w rest h = refl
refused3 false true c w rest h = refl
refused3 false false true w rest h = refl
refused3 false false false w rest h = cc

pub passed3 {ℓ} :
    {A : Type ℓ} (a b c : Bool) (x y z rest : A)
    → a ≡ false
    → b ≡ false
    → c ≡ false
    → (if a then x else if b then y else if c then z else rest) ≡ rest
passed3 a b c x y z rest ea eb ec = rw (ea, eb, ec) refl

-- What an operation reports: success when a mask was set, with the counters that count it.
abbrev pub Reports :
    (hit : Bool) (failure : Status) (bump : Stats → Stats) (k : Kernel) (mask : Mask)
    (picked : List Ptr) (w : World)
    → Status × World
    → Type 0
Reports hit failure bump k mask picked w r =
    (r.0 ≡ (if hit then success else failure))
    × IsPinned k mask picked w r.1
    × (r.1.stats ≡ (if hit then bump w.stats else w.stats))

-- Counting changes the counters alone.
pub report :
    (matched hits : ℕ) (failure : Status) (bump : Stats → Stats) (k : Kernel) (mask : Mask)
    (picked : List Ptr) (w w' : World)
    → matched ≡ hits
    → IsPinned k mask picked w w'
    → w'.stats ≡ w.stats
    → Reports
        (ltb 0 hits)
        failure
        bump
        k
        mask
        picked
        w
        (if ltb 0 matched then (success, record w' { stats = bump w'.stats }) else (failure, w'))
report matched hits failure bump k mask picked w w' e i same =
    rw e (elim (Bool-cases (ltb 0 hits)) [
      | inl some ↦
          rw some (refl, record { refs = i.refs; allowed = i.allowed; nice = i.nice }, ap bump same)
      | inr none ↦ rw none (refl, i, same)
    ])
