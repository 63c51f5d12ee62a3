-- ===== src/Dragonite/Files/Counters.antt =====
-- What the operations and the handlers do to the driver's counters.
use android_device_axion_com.Base.{
  ◌+◌, ◌≡◌, refl, ap, ◌∙◌, ℤ, pos, ltb_ℤ, negsuc, Bool, true, false, not, ◌||◌, List, [], ◌∷◌, ltb,
  if_cases, if◌then◌else◌,
}
use android_device_axion_com.Kernel.{Ptr}
use android_device_axion_com.Dragonite.{
  Status, success, einval, enomem, esrch, enoent, Text, Mask, Stats, World, Kernel, is_gone,
  bad_mask, bad_pid, get_task_struct, put_task_struct, collect, apply_mask, max_thread_group_tasks,
  axd_comm_matches, max_kswapd_tasks, strncmp_eq, kswapd, axd_set_affinity, axd_reset_affinity,
  axd_set_boost, axd_pin_kswapd,
}
use android_device_axion_com.Dragonite.Balance.{masked-stats}
use android_device_axion_com.Dragonite.Report.{get-stats, put-stats}
use android_device_axion_com.Dragonite.Boost.{set_nice-all}

abbrev pub is_success : Status → Bool
is_success success = true
is_success einval = false
is_success enomem = false
is_success esrch = false
is_success enoent = false

abbrev pub bump_affinity : Stats → Stats
bump_affinity s = record s { affinity_set_count = s.affinity_set_count + 1 }

abbrev pub bump_reset : Stats → Stats
bump_reset s = record s { reset_count = s.reset_count + 1 }

abbrev pub bump_boost : Stats → Stats
bump_boost s = record s { boost_set_count = s.boost_set_count + 1 }

abbrev pub bump_kswapd : Stats → Stats
bump_kswapd s = record s { kswapd_pin_count = s.kswapd_pin_count + 1 }

-- An operation counts its successes, and nothing else.
abbrev pub Counts : (Stats → Stats) → World → Status × World → Type 0
Counts bump w r = r.1.stats ≡ (if is_success r.0 then bump w.stats else w.stats)

module _ (k : Kernel) (w : World) where
  no_match-Counts :
      (bump : Stats → Stats) (threads : List Ptr) (w' : World)
      → w'.stats ≡ w.stats
      → Counts bump w (elim threads as (λ _. Status) [ [] ↦ enoent | t ∷ rest ↦ einval ], w')
  no_match-Counts bump [] w' same = same
  no_match-Counts bump (t ∷ rest) w' same = same

  pub axd_set_affinity-Counts :
      (pid : ℤ) (comm_name : Text) (mask : Mask)
      → Counts bump_affinity w (axd_set_affinity k pid comm_name mask w)
  unfolding axd_set_affinity
  axd_set_affinity-Counts pid comm_name mask =
      let p = k.find_task pid in
      let ts = (k.task p).threads in
      let keep = λ (t : Ptr). axd_comm_matches (k.task t).comm comm_name in
      let held = get_task_struct p w in
      let taken = collect keep max_thread_group_tasks ts 0 held in
      let masked = apply_mask k mask taken.0 0 taken.1 in
      let same : (put_task_struct p masked.1).stats ≡ w.stats =
        put-stats p masked.1
        ∙ masked-stats k mask keep max_thread_group_tasks ts held
        ∙ get-stats p w in
      let C = Counts bump_affinity w in
      if_cases C (bad_pid k pid || bad_mask k mask) (λ _. refl)
        λ _.
          if_cases C (not k.kmalloc) (λ _. refl)
            λ _.
              if_cases C (is_gone k p) (λ _. refl)
                λ _.
                  if_cases C (ltb 0 masked.0) (λ _. ap bump_affinity same)
                    (λ _. no_match-Counts bump_affinity taken.0 (put_task_struct p masked.1) same)

  pub axd_reset_affinity-Counts : (pid : ℤ) → Counts bump_reset w (axd_reset_affinity k pid w)
  unfolding axd_reset_affinity
  axd_reset_affinity-Counts pid =
      let p = k.find_task pid in
      let ts = (k.task p).threads in
      let held = get_task_struct p w in
      let taken = collect (λ t. true) max_thread_group_tasks ts 0 held in
      let masked = apply_mask k k.cpu_possible_mask taken.0 0 taken.1 in
      let same : (put_task_struct p masked.1).stats ≡ w.stats =
        put-stats p masked.1
        ∙ masked-stats k k.cpu_possible_mask (λ t. true) max_thread_group_tasks ts held
        ∙ get-stats p w in
      let C = Counts bump_reset w in
      if_cases C (bad_pid k pid) (λ _. refl)
        λ _.
          if_cases C (not k.kmalloc) (λ _. refl)
            λ _.
              if_cases C (is_gone k p) (λ _. refl)
                λ _. if_cases C (ltb 0 masked.0) (λ _. ap bump_reset same) (λ _. same)

  pub axd_set_boost-Counts :
      (pid boost_level : ℤ) → Counts bump_boost w (axd_set_boost k pid boost_level w)
  unfolding axd_set_boost
  axd_set_boost-Counts pid boost_level =
      let p = k.find_task pid in
      let level = if ltb_ℤ (pos 0) boost_level then negsuc 19 else pos 0 in
      let C = Counts bump_boost w in
      if_cases C (bad_pid k pid) (λ _. refl)
        λ _.
          if_cases C (is_gone k p) (λ _. refl)
            (λ _. ap bump_boost (set_nice-all level (k.task p).threads w).3)

  pub axd_pin_kswapd-Counts : (mask : Mask) → Counts bump_kswapd w (axd_pin_kswapd k mask w)
  unfolding axd_pin_kswapd
  axd_pin_kswapd-Counts mask =
      let keep = λ (t : Ptr). strncmp_eq 6 (k.task t).comm kswapd in
      let taken = collect keep max_kswapd_tasks k.processes 0 w in
      let masked = apply_mask k mask taken.0 0 taken.1 in
      let same = masked-stats k mask keep max_kswapd_tasks k.processes w in
      let C = Counts bump_kswapd w in
      if_cases C (bad_mask k mask) (λ _. refl)
        λ _. if_cases C (ltb 0 masked.0) (λ _. ap bump_kswapd same) (λ _. same)
