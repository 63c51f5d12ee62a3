-- ===== src/Latency/Proc.antt =====
-- /proc/latency_sched and the sysctl table of latency_sched_main.c.
pub mod Page
use android_device_axion_com.Base.{
  ℕ, ◌-◌, ◌^◌, ℤ, pos, negsuc, Bool, true, false, List, [], ◌∷◌, ◌++◌, codes, ltb, if◌then◌else◌,
  Bytes,
}
use android_device_axion_com.Kernel.Seq.{Printf, line}
use android_device_axion_com.Kernel.Sysctl.{CtlTable, proc_dointvec_minmax, proc_doulongvec_minmax}
use android_device_axion_com.Latency.{Sched}

abbrev pub title : Bytes
title = codes "CFS Latency-Nice Scheduler Module (CachyOS / Vincent Guittot)\n"

abbrev pub disabled : Bytes
disabled = codes "status:                      disabled (kernel hooks not present / no-op mode)\n"

abbrev pub enabled_label : Bytes
enabled_label = codes "sched_latency_nice_enabled:  "

abbrev pub max_label : Bytes
max_label = codes "sched_latency_max:           "

-- What ends the two lines.
abbrev pub lf : Bytes
lf = 10 ∷ []

abbrev pub ns : Bytes
ns = codes " ns\n"

module _ (f : Printf) where
  open f use {print_u, print_d}

  unfoldable pub show_params : Sched → Bytes
  show_params s =
      line enabled_label (print_u s.latency_nice_enabled) lf
      ++ (line max_label (print_d s.latency_max) ns ++ [])

  -- The page, where `active` is `latency_hooks_active`.
  unfoldable pub latency_proc_show : (active : Bool) → Sched → Bytes
  latency_proc_show active s = title ++ (if active then show_params s else disabled)

-- The variables that the table's entries point to.
pub data Variable : Type 0 where
  sched_latency_nice_enabled sched_latency_max : Variable

-- 64 bits, read as a `long`.
abbrev pub long_of : ℕ → ℤ
long_of n = if ltb n (2 ^ 63) then pos n else negsuc (2 ^ 64 - n - 1)

unfoldable pub set : Variable → ℕ → Sched → Sched
set sched_latency_nice_enabled n s = record s { latency_nice_enabled = n }
set sched_latency_max n s = record s { latency_max = long_of n }

abbrev pub latency_table : List (CtlTable Variable)
latency_table =
    record {
      procname = codes "sched_latency_nice_enabled";
      data_of = sched_latency_nice_enabled;
      maxlen = 4;
      mode = 0o644;
      proc_handler = proc_dointvec_minmax;
    }
    ∷ record {
      procname = codes "sched_latency_max";
      data_of = sched_latency_max;
      maxlen = 8;
      mode = 0o644;
      proc_handler = proc_doulongvec_minmax;
    }
    ∷ []
