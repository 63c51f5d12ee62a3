-- ===== src/Kernel.antt =====
-- What the scheduler modules read of the kernel's `struct task_struct`, and the eligibility test that
-- bore_sched.h and latency_sched.h both define. A pointer is a number, `NULL` is 0.
pub mod Tracepoints
pub mod Seq
pub mod Sysctl
use android_device_axion_com.Base.{ℕ, Bool, true, false, if◌then◌else◌}

abbrev pub Ptr : Type 0
Ptr = ℕ

abbrev pub null : Ptr
null = 0

-- `p->policy`: the three policies that the source names, and every other number.
pub data Policy : Type 0 where
  sched_normal sched_batch sched_idle : Policy
  other_policy : ℕ → Policy

-- The flags `PF_KTHREAD` and `PF_IDLE` of `p->flags`.
pub record Flags : Type 0 where
  pub pf_kthread : Bool
  pub pf_idle : Bool

abbrev pub is_fair : Policy → Bool
is_fair sched_normal = true
is_fair sched_batch = true
is_fair sched_idle = true
is_fair (other_policy n) = false

-- `bore_task_is_eligible` and `latency_task_is_eligible`.
abbrev pub task_is_eligible : Policy → Flags → Bool
task_is_eligible policy flags =
    if is_fair policy then (if flags.pf_idle then false else true) else false
