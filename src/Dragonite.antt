-- ===== src/Dragonite.antt =====
-- The driver's operations, kernel/modules/ax_dragonite/ax_dragonite_main.c, over a world of tasks. What
-- the kernel decides (an allocation, the task of a pid, whether a task may run on a mask) is a record
-- of arguments. A cpumask is the number whose bits are its CPUs, a `comm` the bytes before its NUL.
pub mod Loops
pub mod Balance
pub mod Report
pub mod Affinity
pub mod Boost
pub mod Failures
pub mod Proc
pub mod Lifecycle
pub mod Files
use android_device_axion_com.Base.{
  ℕ, zero, suc, ◌+◌, ◌-◌, ℤ, pos, negsuc, ltb_ℤ, Bool, true, false, not, ◌||◌, ◌&&◌, List, [], ◌∷◌,
  ltb, leb, ◌==◌, if◌then◌else◌, bit_and,
}
use android_device_axion_com.Kernel.{Ptr, null}

-- The error numbers that the driver returns, and success.
pub data Status : Type 0 where
  success einval enomem esrch enoent : Status

abbrev pub Text : Type 0
Text = List ℕ

abbrev pub Mask : Type 0
Mask = ℕ

abbrev pub max_thread_group_tasks : ℕ
max_thread_group_tasks = 512

abbrev pub max_kswapd_tasks : ℕ
max_kswapd_tasks = 32

pub record Task : Type 0 where
  pub comm : Text
  pub has_signal : Bool
  pub is_exiting : Bool
  pub threads : List Ptr

-- `g_axd_stats`
pub record Stats : Type 0 where
  pub affinity_set_count : ℕ
  pub boost_set_count : ℕ
  pub reset_count : ℕ
  pub kswapd_pin_count : ℕ

-- The counters of the tasks' references, their masks and nice values, and the driver's counters.
pub record World : Type 0 where
  pub refs : Ptr → ℕ
  pub allowed : Ptr → Mask
  pub nice : Ptr → ℤ
  pub stats : Stats

-- What the kernel answers: `kmalloc_array`, `find_task_by_vpid`, whether `set_cpus_allowed_ptr` returns
-- 0, the tasks themselves and the list of processes.
pub record Kernel : Type 0 where
  pub kmalloc : Bool
  pub find_task : ℤ → Ptr
  pub task : Ptr → Task
  pub processes : List Ptr
  pub accepts : Ptr → Mask → Bool
  pub cpu_online_mask : Mask
  pub cpu_possible_mask : Mask

abbrev pub update {ℓ} : {A : Type ℓ} → (Ptr → A) → Ptr → A → Ptr → A
update f p a q = if q == p then a else f q

unfoldable pub get_task_struct : Ptr → World → World
get_task_struct p w = record w { refs = update w.refs p (w.refs p + 1) }

unfoldable pub put_task_struct : Ptr → World → World
put_task_struct p w = record w { refs = update w.refs p (w.refs p - 1) }

-- `strncmp(a, b, n) == 0` of texts without NUL.
unfoldable pub strncmp_eq : ℕ → Text → Text → Bool
strncmp_eq zero a b = true
strncmp_eq (suc n) [] [] = true
strncmp_eq (suc n) [] (y ∷ ys) = false
strncmp_eq (suc n) (x ∷ xs) [] = false
strncmp_eq (suc n) (x ∷ xs) (y ∷ ys) = x == y && strncmp_eq n xs ys

abbrev is_star : Text → Bool
is_star [] = false
is_star (c ∷ []) = c == b'*'
is_star (c ∷ d ∷ rest) = false

unfoldable pub axd_comm_matches : Text → Text → Bool
axd_comm_matches task_comm comm_name =
    if is_star comm_name then true else strncmp_eq 16 task_comm comm_name

-- The loops that collect tasks: skip those that do not match, stop at the limit, take a reference.
unfoldable pub collect : (Ptr → Bool) → ℕ → List Ptr → ℕ → World → List Ptr × World
collect keep limit [] count w = ([], w)
collect keep limit (t ∷ rest) count w = elim (keep t) [
  | false ↦ collect keep limit rest count w
  | true ↦ elim (leb limit count) [
    | true ↦ ([], w)
    | false ↦
        let (more, w') = collect keep limit rest (count + 1) (get_task_struct t w) in (t ∷ more, w')
  ]
]

unfoldable pub set_nice : ℤ → List Ptr → World → World
set_nice nice [] w = w
set_nice nice (t ∷ rest) w = set_nice nice rest (record w { nice = update w.nice t nice })

abbrev pub kswapd : Text
kswapd = b'k' ∷ b's' ∷ b'w' ∷ b'a' ∷ b'p' ∷ b'd' ∷ []

module _ (k : Kernel) where
  -- One round over a collected task: set its mask, and drop the reference.
  unfoldable pub mask_task : Mask → Ptr → World → World
  mask_task mask t w =
      put_task_struct t
        (if k.accepts t mask then record w { allowed = update w.allowed t mask } else w)

  -- The loops over the collected tasks, which count the masks that were set.
  unfoldable pub apply_mask : Mask → List Ptr → ℕ → World → ℕ × World
  apply_mask mask [] matched w = (matched, w)
  apply_mask mask (t ∷ rest) matched w =
      apply_mask mask rest (if k.accepts t mask then matched + 1 else matched) (mask_task mask t w)

  -- `!task || !task->signal || (task->flags & PF_EXITING)`
  abbrev pub is_gone : Ptr → Bool
  is_gone p = p == null || (not (k.task p).has_signal || (k.task p).is_exiting)

  abbrev pub bad_mask : Mask → Bool
  bad_mask mask = mask == 0 || bit_and mask k.cpu_online_mask == 0

  -- `pid <= AXD_INVALID_PID`
  abbrev pub bad_pid : ℤ → Bool
  bad_pid pid = not (ltb_ℤ (pos 0) pid)

  -- The name and the mask are never NULL.
  unfoldable pub axd_set_affinity : ℤ → Text → Mask → World → Status × World
  axd_set_affinity pid comm_name mask w =
      let p = k.find_task pid in
      let keep = λ (t : Ptr). axd_comm_matches (k.task t).comm comm_name in
      let (threads, w₁) =
        collect keep max_thread_group_tasks (k.task p).threads 0 (get_task_struct p w) in
      let (matched, w₂) = apply_mask mask threads 0 w₁ in
      let w₃ = put_task_struct p w₂ in
      let stats = w₃.stats in
      let counted = record w₃ {
        stats = record stats { affinity_set_count = stats.affinity_set_count + 1 };
      } in
      if bad_pid pid || bad_mask mask
      then (einval, w)
      else if not k.kmalloc
      then (enomem, w)
      else if is_gone p
      then (esrch, w)
      else if ltb 0 matched
      then (success, counted)
      else (elim threads [ [] ↦ enoent | t ∷ rest ↦ einval ], w₃)

  unfoldable pub axd_reset_affinity : ℤ → World → Status × World
  axd_reset_affinity pid w =
      let p = k.find_task pid in
      let (threads, w₁) =
        collect (λ t. true) max_thread_group_tasks (k.task p).threads 0 (get_task_struct p w) in
      let (reset_count, w₂) = apply_mask k.cpu_possible_mask threads 0 w₁ in
      let w₃ = put_task_struct p w₂ in
      let stats = w₃.stats in
      let counted = record w₃ { stats = record stats { reset_count = stats.reset_count + 1 } } in
      if bad_pid pid
      then (einval, w)
      else if not k.kmalloc
      then (enomem, w)
      else if is_gone p
      then (esrch, w)
      else if ltb 0 reset_count
      then (success, counted)
      else (esrch, w₃)

  unfoldable pub axd_set_boost : ℤ → ℤ → World → Status × World
  axd_set_boost pid boost_level w =
      let p = k.find_task pid in
      let target_nice = if ltb_ℤ (pos 0) boost_level then negsuc 19 else pos 0 in
      let w' = set_nice target_nice (k.task p).threads w in
      let stats = w'.stats in
      if bad_pid pid then (einval, w) else if is_gone p then (esrch, w) else (
        success,
        record w' { stats = record stats { boost_set_count = stats.boost_set_count + 1 } },
      )

  unfoldable pub axd_pin_kswapd : Mask → World → Status × World
  axd_pin_kswapd mask w =
      let keep = λ (t : Ptr). strncmp_eq 6 (k.task t).comm kswapd in
      let (kswapd_tasks, w₁) = collect keep max_kswapd_tasks k.processes 0 w in
      let (pinned, w₂) = apply_mask mask kswapd_tasks 0 w₁ in
      let stats = w₂.stats in
      let counted = record w₂ {
        stats = record stats { kswapd_pin_count = stats.kswapd_pin_count + 1 };
      } in
      if bad_mask mask
      then (einval, w)
      else if ltb 0 pinned
      then (success, counted)
      else (esrch, w₂)
