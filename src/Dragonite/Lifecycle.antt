-- ===== src/Dragonite/Lifecycle.antt =====
-- axd_init and axd_exit of kernel/modules/ax_dragonite/ax_dragonite_main.c, with axd_proc_init and
-- axd_proc_exit of ax_dragonite_proc.c, over the kernel's tree of /proc as an interface.
pub mod Leaves
use android_device_axion_com.Base.{
  ℕ, ◌≡◌, Bool, true, false, not, ◌&&◌, ◌||◌, [], codes, text_eq, if◌then◌else◌,
}
use android_device_axion_com.Dragonite.{Text, Stats, World}

-- The tables of handlers that a file of /proc may have.
pub data Ops : Type 0 where
  nta_pid_ops nta_affinity_ops nta_reset_ops : Ops
  dragonite_boost_ops dragonite_kswapd_ops dragonite_stats_ops : Ops

-- Directories at the top of /proc and the files in them; the empty name is the directory itself.
-- `proc_create` takes the name, the mode and the directory.
pub record ProcFs : Type 1 where
  pub State : Type 0
  pub proc_mkdir : Text → State → Bool × State
  pub proc_create : Text → ℕ → Text → Ops → State → Bool × State
  pub remove_proc_subtree : Text → State → State
  pub has : State → (dir file : Text) → Bool

-- A call that fails changes nothing; else it adds its entry. Removing a subtree removes no other entry.
pub record IsProcFs (fs : ProcFs) : Type 0 where
  pub made :
      (n d f : Text) (s : fs.State)
      → let (ok, s') = fs.proc_mkdir n s in
        fs.has s' d f ≡ fs.has s d f || ok && (text_eq d n && text_eq f [])
  pub created :
      (n : Text) (mode : ℕ) (dir : Text) (ops : Ops) (d f : Text) (s : fs.State)
      → let (ok, s') = fs.proc_create n mode dir ops s in
        fs.has s' d f ≡ fs.has s d f || ok && (text_eq d dir && text_eq f n)
  pub removed :
      (n d f : Text) (s : fs.State)
      → fs.has (fs.remove_proc_subtree n s) d f ≡ fs.has s d f && not (text_eq d n)

-- Whether `ax_nta_dir` and `ax_dragonite_dir` are not NULL.
pub record Dirs : Type 0 where
  pub ax_nta_dir : Bool
  pub ax_dragonite_dir : Bool

abbrev pub proc_nta_dir : Text
proc_nta_dir = codes "ax_named_thread_affinity"

abbrev pub proc_dragonite_dir : Text
proc_dragonite_dir = codes "ax_dragonite"

abbrev pub zero_stats : Stats
zero_stats = record {
  affinity_set_count = 0;
  boost_set_count = 0;
  reset_count = 0;
  kswapd_pin_count = 0;
}

module _ (fs : ProcFs) where
  unfoldable pub create_nta : fs.State → fs.State
  create_nta s =
      let (_, s₁) = fs.proc_create (codes "pid") 0o666 proc_nta_dir nta_pid_ops s in
      let (_, s₂) =
        fs.proc_create (codes "named_thread_affinity") 0o222 proc_nta_dir nta_affinity_ops s₁ in
      let (_, s₃) = fs.proc_create (codes "reset") 0o222 proc_nta_dir nta_reset_ops s₂ in s₃

  unfoldable pub create_dragonite : fs.State → fs.State
  create_dragonite s =
      let (_, s₁) = fs.proc_create (codes "boost") 0o222 proc_dragonite_dir dragonite_boost_ops s in
      let (_, s₂) =
        fs.proc_create (codes "kswapd_pin") 0o222 proc_dragonite_dir dragonite_kswapd_ops s₁ in
      let (_, s₃) =
        fs.proc_create (codes "stats") 0o444 proc_dragonite_dir dragonite_stats_ops s₂ in
      s₃

  unfoldable pub axd_proc_init : fs.State → ℕ × Dirs × fs.State
  axd_proc_init s =
      let (nta, s₁) = fs.proc_mkdir proc_nta_dir s in
      let s₂ = if nta then create_nta s₁ else s₁ in
      let (dragonite, s₃) = fs.proc_mkdir proc_dragonite_dir s₂ in
      let s₄ = if dragonite then create_dragonite s₃ else s₃ in
      (0, record { ax_nta_dir = nta; ax_dragonite_dir = dragonite }, s₄)

  unfoldable pub axd_proc_exit : Dirs → fs.State → fs.State
  axd_proc_exit dirs s =
      let s₁ = if dirs.ax_nta_dir then fs.remove_proc_subtree proc_nta_dir s else s in
      if dirs.ax_dragonite_dir then fs.remove_proc_subtree proc_dragonite_dir s₁ else s₁

  -- The test of what `axd_proc_init` returns only leaves out a line of the log.
  unfoldable pub axd_init : World → fs.State → ℕ × World × Dirs × fs.State
  axd_init w s =
      let (ret, dirs, s') = axd_proc_init s in (ret, record w { stats = zero_stats }, dirs, s')

  unfoldable pub axd_exit : Dirs → fs.State → fs.State
  axd_exit dirs s = axd_proc_exit dirs s
