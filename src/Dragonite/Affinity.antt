-- ===== src/Dragonite/Affinity.antt =====
-- The operations that set masks: what they return, whom they change, and the references.
use android_device_axion_com.Base.{
  ◌+◌, ◌≡◌, refl, ap, ◌∙◌, arith, inl, inr, ℤ, true, false, not, ◌||◌, List, [], ◌∷◌, ltb, ◌==◌,
  length, Bool-cases, if◌then◌else◌,
}
use android_device_axion_com.Kernel.{Ptr}
use android_device_axion_com.Dragonite.{
  Status, success, einval, enomem, esrch, enoent, Text, Mask, World, Kernel, is_gone, bad_mask,
  bad_pid, get_task_struct, put_task_struct, axd_comm_matches, axd_set_affinity, axd_reset_affinity,
  axd_pin_kswapd, strncmp_eq, kswapd, collect, apply_mask, max_thread_group_tasks, max_kswapd_tasks,
}
use android_device_axion_com.Dragonite.Loops.{chosen, accepting}
use android_device_axion_com.Dragonite.Balance.{
  IsPinned, taken-picked, masked-count, masked-stats, masked-IsPinned,
}
use android_device_axion_com.Dragonite.Report.{
  held-IsPinned, get-stats, put-stats, refused3, passed3, report,
}

no_match :
    (ts : List Ptr)
    → (elim ts as (λ _. Status) [ [] ↦ enoent | t ∷ rest ↦ einval ])
      ≡ (if length ts == 0 then enoent else einval)
no_match [] = refl
no_match (t ∷ ts) = ground arith

module _ (k : Kernel) (pid : ℤ) (w : World) where
  -- A refused call returns the error of the first test that fails, and changes nothing.
  pub axd_set_affinity-refusal :
      (comm_name : Text) (mask : Mask)
      → ((bad_pid k pid || bad_mask k mask) || (not k.kmalloc || is_gone k (k.find_task pid)))
        ≡ true
      → axd_set_affinity k pid comm_name mask w ≡ (
        (if bad_pid k pid || bad_mask k mask
            then einval
            else if not k.kmalloc
            then enomem
            else esrch),
        w,
      )
  unfolding axd_set_affinity
  axd_set_affinity-refusal comm_name mask h = refused3 _ _ _ w _ h

  module _ (comm_name : Text) (mask : Mask) where
    -- The threads that a call is about.
    abbrev pub named : List Ptr
    named =
        chosen (λ t. axd_comm_matches (k.task t).comm comm_name) max_thread_group_tasks
          (k.task (k.find_task pid)).threads

    -- An accepted call pins the first 512 matching threads; it succeeds, and is counted, exactly when
    -- the kernel accepts the mask for one of them, and else tells no match from no success.
    pub axd_set_affinity-pins :
        (bad_pid k pid || bad_mask k mask) ≡ false
        → k.kmalloc ≡ true
        → is_gone k (k.find_task pid) ≡ false
        → let r = axd_set_affinity k pid comm_name mask w in
          let hit = ltb 0 (length (accepting k mask named)) in
          (r.0 ≡ (if hit then success else if length named == 0 then enoent else einval))
          × IsPinned k mask named w r.1
          × (r.1.stats ≡ (
              if hit
              then record (w.stats) { affinity_set_count = w.stats.affinity_set_count + 1 }
              else w.stats))
    unfolding axd_set_affinity
    axd_set_affinity-pins good room live =
        let p = k.find_task pid in
        let keep = λ (t : Ptr). axd_comm_matches (k.task t).comm comm_name in
        let held = get_task_struct p w in
        let ts = (k.task p).threads in
        let hit = ltb 0 (length (accepting k mask named)) in
        let same = taken-picked k mask keep max_thread_group_tasks ts held in
        let masked =
          apply_mask k mask (collect keep max_thread_group_tasks ts 0 held).0 0
            (collect keep max_thread_group_tasks ts 0 held).1 in
        let reported =
          report masked.0 (length (accepting k mask named)) _
            (λ s. record s { affinity_set_count = s.affinity_set_count + 1 }) k mask named w
            (put_task_struct p masked.1) (masked-count k mask keep max_thread_group_tasks ts held)
            (held-IsPinned k mask named p w masked.1
              (masked-IsPinned k mask keep max_thread_group_tasks ts held))
            (put-stats p masked.1
              ∙ masked-stats k mask keep max_thread_group_tasks ts held
              ∙ get-stats p w) in
        rw
          (passed3 (bad_pid k pid || bad_mask k mask) (not k.kmalloc) (is_gone k p) _ _ _ _ good
            (rw room refl) live)
          (
            reported.0 ∙ ap (λ s. if hit then success else s) (rw same (no_match (named))),
            reported.1,
            reported.2,
          )

  -- A refused reset returns the error of the first test that fails, and changes nothing.
  pub axd_reset_affinity-refusal :
      (bad_pid k pid || (not k.kmalloc || is_gone k (k.find_task pid))) ≡ true
      → axd_reset_affinity k pid w
        ≡ ((if bad_pid k pid then einval else if not k.kmalloc then enomem else esrch), w)
  unfolding axd_reset_affinity
  axd_reset_affinity-refusal h = refused3 _ _ _ w _ h

  -- The threads that a reset is about.
  abbrev pub members : List Ptr
  members = chosen (λ t. true) max_thread_group_tasks (k.task (k.find_task pid)).threads

  -- An accepted reset gives the possible CPUs to the first 512 threads of the group; it succeeds, and is
  -- counted, exactly when the kernel accepts that mask for one of them.
  pub axd_reset_affinity-pins :
      bad_pid k pid ≡ false
      → k.kmalloc ≡ true
      → is_gone k (k.find_task pid) ≡ false
      → let r = axd_reset_affinity k pid w in
        let hit = ltb 0 (length (accepting k k.cpu_possible_mask members)) in
        (r.0 ≡ (if hit then success else esrch))
        × IsPinned k k.cpu_possible_mask members w r.1
        × (r.1.stats
            ≡ (if hit then record (w.stats) { reset_count = w.stats.reset_count + 1 } else w.stats))
  unfolding axd_reset_affinity
  axd_reset_affinity-pins good room live =
      let p = k.find_task pid in
      let keep = λ (t : Ptr). true in
      let held = get_task_struct p w in
      let ts = (k.task p).threads in
      let mask = k.cpu_possible_mask in
      let taken = collect keep max_thread_group_tasks ts 0 held in
      let masked = apply_mask k mask taken.0 0 taken.1 in
      rw (passed3 (bad_pid k pid) (not k.kmalloc) (is_gone k p) _ _ _ _ good (rw room refl) live) (
        report masked.0 (length (accepting k mask members)) _
          (λ s. record s { reset_count = s.reset_count + 1 }) k mask members w
          (put_task_struct p masked.1) (masked-count k mask keep max_thread_group_tasks ts held)
          (held-IsPinned k mask members p w masked.1
            (masked-IsPinned k mask keep max_thread_group_tasks ts held))
          (put-stats p masked.1
            ∙ masked-stats k mask keep max_thread_group_tasks ts held
            ∙ get-stats p w))

module _ (k : Kernel) (mask : Mask) (w : World) where
  -- The processes that are pinned as kswapd.
  abbrev pub swappers : List Ptr
  swappers = chosen (λ t. strncmp_eq 6 (k.task t).comm kswapd) max_kswapd_tasks k.processes

  -- Pinning refuses a mask with no online CPU, and changes nothing then. Else, of the first 32 processes
  -- whose name starts with kswapd, those for which the kernel accepts the mask get it; no other mask, no
  -- reference and no nice value changes; it succeeds, and is counted, exactly when there is one of them.
  pub axd_pin_kswapd-pins :
      let r = axd_pin_kswapd k mask w in
      let hit = ltb 0 (length (accepting k mask swappers)) in
      if bad_mask k mask
      then r ≡ (einval, w)
      else ((r.0 ≡ (if hit then success else esrch))
          × IsPinned k mask swappers w r.1
          × (r.1.stats ≡ (
              if hit
              then record (w.stats) { kswapd_pin_count = w.stats.kswapd_pin_count + 1 }
              else w.stats)))
  unfolding axd_pin_kswapd
  axd_pin_kswapd-pins =
      let keep = λ (t : Ptr). strncmp_eq 6 (k.task t).comm kswapd in
      let ts = k.processes in
      let taken = collect keep max_kswapd_tasks ts 0 w in
      let masked = apply_mask k mask taken.0 0 taken.1 in
      elim (Bool-cases (bad_mask k mask)) [
        | inl bad ↦ rw bad refl
        | inr good ↦ rw good (
            report masked.0 (length (accepting k mask swappers)) _
              (λ s. record s { kswapd_pin_count = s.kswapd_pin_count + 1 }) k mask swappers w
              masked.1 (masked-count k mask keep max_kswapd_tasks ts w)
              (masked-IsPinned k mask keep max_kswapd_tasks ts w)
              (masked-stats k mask keep max_kswapd_tasks ts w))
      ]
