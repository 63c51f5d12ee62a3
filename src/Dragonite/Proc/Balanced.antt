-- ===== src/Dragonite/Proc/Balanced.antt =====
-- Whatever is written to the driver's files, the references of every task come out even.
use android_device_axion_com.Base.{
  ℕ, ◌≡◌, refl, ◌∙◌, ℤ, pos, true, not, ◌||◌, List, [], ◌∷◌, ltb, leb, ◌==◌, if_cases, option_cases,
}
use android_device_axion_com.Kernel.{Ptr}
use android_device_axion_com.Dragonite.{
  Status, Text, Mask, World, Kernel, is_gone, bad_mask, bad_pid, get_task_struct, collect,
  apply_mask, max_thread_group_tasks, axd_comm_matches, max_kswapd_tasks, strncmp_eq, kswapd,
  axd_set_affinity, axd_reset_affinity, axd_set_boost, axd_pin_kswapd,
}
use android_device_axion_com.Dragonite.Balance.{masked-IsPinned}
use android_device_axion_com.Dragonite.Report.{held-IsPinned}
use android_device_axion_com.Dragonite.Boost.{set_nice-all}
use android_device_axion_com.Dragonite.Proc.Cases.{parsed_cases}
use android_device_axion_com.Dragonite.Proc.{
  Parsed, parsed, unparsed, Parsers, Write, Result, Driver, nta_pid_write, parse_mask, request,
  affinity_request, nta_affinity_write, nta_reset_write, boost_request, dragonite_boost_write,
  kswapd_request, dragonite_kswapd_write, split_space, c_string,
}

module _ (k : Kernel) (q : Ptr) where
  abbrev Even : World → Status × World → Type 0
  Even w r = r.1.refs q ≡ w.refs q

  axd_set_affinity-refs :
      (pid : ℤ) (comm_name : Text) (mask : Mask) (w : World)
      → Even w (axd_set_affinity k pid comm_name mask w)
  unfolding axd_set_affinity
  axd_set_affinity-refs pid comm_name mask w =
      let p = k.find_task pid in
      let keep = λ (t : Ptr). axd_comm_matches (k.task t).comm comm_name in
      let taken = collect keep max_thread_group_tasks (k.task p).threads 0 (get_task_struct p w) in
      let masked = apply_mask k mask taken.0 0 taken.1 in
      let even =
        (held-IsPinned k mask _ p w _ (
            masked-IsPinned k mask keep max_thread_group_tasks (k.task p).threads
              (get_task_struct p w))).refs
          q in
      if_cases (Even w) (bad_pid k pid || bad_mask k mask) (λ _. refl)
        λ _.
          if_cases (Even w) (not k.kmalloc) (λ _. refl)
            λ _.
              if_cases (Even w) (is_gone k p) (λ _. refl)
                λ _. if_cases (Even w) (ltb 0 masked.0) (λ _. even) (λ _. even)

  axd_reset_affinity-refs : (pid : ℤ) (w : World) → Even w (axd_reset_affinity k pid w)
  unfolding axd_reset_affinity
  axd_reset_affinity-refs pid w =
      let p = k.find_task pid in
      let taken =
        collect (λ t. true) max_thread_group_tasks (k.task p).threads 0 (get_task_struct p w) in
      let masked = apply_mask k k.cpu_possible_mask taken.0 0 taken.1 in
      let even =
        (held-IsPinned k k.cpu_possible_mask _ p w _ (
            masked-IsPinned k k.cpu_possible_mask (λ t. true) max_thread_group_tasks
              (k.task p).threads (get_task_struct p w))).refs
          q in
      if_cases (Even w) (bad_pid k pid) (λ _. refl)
        λ _.
          if_cases (Even w) (not k.kmalloc) (λ _. refl)
            λ _.
              if_cases (Even w) (is_gone k p) (λ _. refl)
                λ _. if_cases (Even w) (ltb 0 masked.0) (λ _. even) (λ _. even)

  axd_pin_kswapd-refs : (mask : Mask) (w : World) → Even w (axd_pin_kswapd k mask w)
  unfolding axd_pin_kswapd
  axd_pin_kswapd-refs mask w =
      let keep = λ (t : Ptr). strncmp_eq 6 (k.task t).comm kswapd in
      let taken = collect keep max_kswapd_tasks k.processes 0 w in
      let masked = apply_mask k mask taken.0 0 taken.1 in
      let even = (masked-IsPinned k mask keep max_kswapd_tasks k.processes w).refs q in
      if_cases (Even w) (bad_mask k mask) (λ _. refl)
        λ _. if_cases (Even w) (ltb 0 masked.0) (λ _. even) (λ _. even)

  axd_set_boost-refs :
      (pid boost_level : ℤ) (w : World) → Even w (axd_set_boost k pid boost_level w)
  unfolding axd_set_boost
  axd_set_boost-refs pid boost_level w =
      let p = k.find_task pid in
      if_cases (Even w) (bad_pid k pid) (λ _. refl)
        λ _.
          if_cases (Even w) (is_gone k p) (λ _. refl)
            λ _. rw (set_nice-all _ (k.task p).threads w).1

module _ (ps : Parsers) (q : Ptr) (d : Driver) where
  open ps use {strim, kstrtoint, kstrtoul, sscanf}

  abbrev Kept : Result × Driver → Type 0
  Kept r = r.1.world.refs q ≡ d.world.refs q

  nta_pid_write-refs : (c : Write) → Kept (nta_pid_write ps c d)
  unfolding nta_pid_write
  nta_pid_write-refs c =
      if_cases Kept (leb 32 c.count) (λ _. refl)
        λ _.
          option_cases Kept c.copied refl λ bytes.
            parsed_cases Kept (kstrtoint 10 (strim (c_string bytes))) (λ e. refl) λ pid. refl

  module _ (k : Kernel) where
    affinity_request-refs : (count : ℕ) (text : Text) → Kept (affinity_request ps k count text d)
    unfolding affinity_request
    affinity_request-refs count text = option_cases Kept (split_space (strim text)) refl λ words.
        let r = request ps words.0 (strim words.1) d.target in
        parsed_cases Kept (parse_mask ps r.2) (λ e. refl)
          λ mask_val.
            if_cases Kept (mask_val == 0) (λ _. refl)
              λ _. axd_set_affinity-refs k q r.0 r.1 mask_val d.world

    nta_affinity_write-refs : (c : Write) → Kept (nta_affinity_write ps k c d)
    unfolding nta_affinity_write
    nta_affinity_write-refs c =
        if_cases Kept (ltb 256 c.count) (λ _. refl)
          λ _.
            if_cases Kept (not c.room) (λ _. refl)
              λ _.
                option_cases Kept c.copied refl
                  λ bytes. affinity_request-refs c.count (c_string bytes)

    nta_reset_write-refs : (c : Write) → Kept (nta_reset_write ps k c d)
    unfolding nta_reset_write
    nta_reset_write-refs c =
        if_cases Kept (leb 32 c.count) (λ _. refl) λ _. axd_reset_affinity-refs k q _ d.world

    boost_request-refs : (count : ℕ) (numbers : List ℤ) → Kept (boost_request ps k count numbers d)
    unfolding boost_request
    boost_request-refs count [] = refl
    boost_request-refs count (pid ∷ []) = axd_set_boost-refs k q pid (pos 1) d.world
    boost_request-refs count (pid ∷ level ∷ rest) = axd_set_boost-refs k q pid level d.world

    dragonite_boost_write-refs : (c : Write) → Kept (dragonite_boost_write ps k c d)
    unfolding dragonite_boost_write
    dragonite_boost_write-refs c =
        if_cases Kept (leb 64 c.count) (λ _. refl)
          λ _.
            option_cases Kept c.copied refl
              λ bytes. boost_request-refs c.count (sscanf (strim (c_string bytes)))

    kswapd_request-refs : (count : ℕ) (o : Parsed ℕ) → Kept (kswapd_request ps k count o d)
    unfolding kswapd_request
    kswapd_request-refs count (unparsed e) = refl
    kswapd_request-refs count (parsed mask_val) =
        if_cases Kept (mask_val == 0) (λ _. refl) λ _. axd_pin_kswapd-refs k q mask_val d.world

    dragonite_kswapd_write-refs : (c : Write) → Kept (dragonite_kswapd_write ps k c d)
    unfolding dragonite_kswapd_write
    dragonite_kswapd_write-refs c =
        if_cases Kept (leb 32 c.count) (λ _. refl)
          λ _. option_cases Kept c.copied refl λ bytes. kswapd_request-refs c.count _

-- A write to one of the driver's files, and a sequence of them. What the kernel answers may change from
-- one write to the next.
pub data Served (ps : Parsers) (d : Driver) : Driver → Type 0 where
  to_pid : (c : Write) → Served ps d (nta_pid_write ps c d).1
  to_affinity : (k : Kernel) (c : Write) → Served ps d (nta_affinity_write ps k c d).1
  to_reset : (k : Kernel) (c : Write) → Served ps d (nta_reset_write ps k c d).1
  to_boost : (k : Kernel) (c : Write) → Served ps d (dragonite_boost_write ps k c d).1
  to_kswapd : (k : Kernel) (c : Write) → Served ps d (dragonite_kswapd_write ps k c d).1

pub data Session (ps : Parsers) (d : Driver) : Driver → Type 0 where
  start : Session ps d d
  serve : {e f : Driver} → Session ps d e → Served ps e f → Session ps d f

Served-refs :
    {ps : Parsers} {d e : Driver} → Served ps d e → (q : Ptr) → e.world.refs q ≡ d.world.refs q
Served-refs {ps} {d} (to_pid c) q = nta_pid_write-refs ps q d c
Served-refs {ps} {d} (to_affinity k c) q = nta_affinity_write-refs ps q d k c
Served-refs {ps} {d} (to_reset k c) q = nta_reset_write-refs ps q d k c
Served-refs {ps} {d} (to_boost k c) q = dragonite_boost_write-refs ps q d k c
Served-refs {ps} {d} (to_kswapd k c) q = dragonite_kswapd_write-refs ps q d k c

-- Whatever is written to the driver's files in a session, and whatever the kernel answers, every task
-- has as many references after it as before.
pub Session-refs :
    {ps : Parsers} {d e : Driver} → Session ps d e → (q : Ptr) → e.world.refs q ≡ d.world.refs q
Session-refs start q = refl
Session-refs (serve s step) q = Served-refs step q ∙ Session-refs s q
