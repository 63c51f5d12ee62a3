-- ===== src/Dragonite/Boost.antt =====
-- The boost of a thread group's nice values.
use android_device_axion_com.Base.{
  ◌+◌, ◌≡◌, refl, ap, ◌∙◌, arith, inl, inr, ℤ, pos, negsuc, ltb_ℤ, ◌||◌, List, [], ◌∷◌, has,
  Bool-cases, if◌then◌else◌,
}
use android_device_axion_com.Kernel.{Ptr}
use android_device_axion_com.Dragonite.{
  success, einval, esrch, Stats, World, Kernel, is_gone, bad_pid, set_nice, axd_set_boost, update,
}

-- Every listed task gets the nice value, and nothing else changes.
pub set_nice-all :
    (n : ℤ) (ts : List Ptr) (w : World)
    → ((q : Ptr) → (set_nice n ts w).nice q ≡ (if has q ts then n else w.nice q))
      × ((set_nice n ts w).refs ≡ w.refs)
      × ((set_nice n ts w).allowed ≡ w.allowed)
      × ((set_nice n ts w).stats ≡ w.stats)
unfolding set_nice has
set_nice-all n [] w = (λ q. refl, refl, refl, refl)
set_nice-all n (t ∷ ts) w =
    let i = set_nice-all n ts (record w { nice = update w.nice t n }) in
    (λ q. i.0 q ∙ ground arith, i.1, i.2, i.3)

module _ (k : Kernel) (pid boost_level : ℤ) (w : World) where
  -- A boost of a bad pid or of a task that is gone changes nothing. Any other succeeds: every thread of
  -- the group gets nice -20, or 0 when the level is not positive, and no other task is changed.
  pub axd_set_boost-group :
      let p = k.find_task pid in
      let r = axd_set_boost k pid boost_level w in
      let level = if ltb_ℤ (pos 0) boost_level then negsuc 19 else pos 0 in
      if bad_pid k pid || is_gone k p
      then r ≡ ((if bad_pid k pid then einval else esrch), w)
      else ((r.0 ≡ success)
          × ((q : Ptr) → r.1.nice q ≡ (if has q (k.task p).threads then level else w.nice q))
          × (r.1.refs ≡ w.refs)
          × (r.1.allowed ≡ w.allowed)
          × (r.1.stats ≡ record (w.stats) { boost_set_count = w.stats.boost_set_count + 1 }))
  unfolding axd_set_boost
  axd_set_boost-group =
      let p = k.find_task pid in
      let level = if ltb_ℤ (pos 0) boost_level then negsuc 19 else pos 0 in
      let all = set_nice-all level (k.task p).threads w in
      elim (Bool-cases (bad_pid k pid)) [
        | inl bad ↦ rw bad refl
        | inr good ↦ elim (Bool-cases (is_gone k p)) [
          | inl gone ↦ rw (good, gone) refl
          | inr live ↦
              rw (good, live)
                (
                  refl,
                  all.0,
                  all.1,
                  all.2,
                  ap {A = Stats} {B = Stats}
                      (λ s. record s { boost_set_count = s.boost_set_count + 1 }) all.3,
                )
        ]
      ]
