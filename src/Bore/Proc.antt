-- ===== src/Bore/Proc.antt =====
-- /proc/bore and the sysctl table of bore_sched_main.c.
pub mod Page
use android_device_axion_com.Base.{
  ℕ, Bool, true, false, List, [], ◌∷◌, ◌++◌, codes, if◌then◌else◌, Bytes,
}
use android_device_axion_com.Kernel.Seq.{Printf, line}
use android_device_axion_com.Kernel.Sysctl.{CtlTable, proc_dointvec_minmax}
use android_device_axion_com.Bore.Penalty.{Params}

-- The line feed that ends a line.
abbrev pub lf : Bytes
lf = 10 ∷ []

abbrev pub title : Bytes
title = codes "BORE (Burst-Oriented Response Enhancer) CPU Scheduler 6.8.0\n"

abbrev pub disabled : Bytes
disabled = codes "status:                      disabled (kernel hooks not present / no-op mode)\n"

abbrev pub sched_bore_label : Bytes
sched_bore_label = codes "sched_bore:                  "

abbrev pub inherit_type_label : Bytes
inherit_type_label = codes "sched_burst_inherit_type:    "

abbrev pub smoothness_label : Bytes
smoothness_label = codes "sched_burst_smoothness:      "

abbrev pub penalty_offset_label : Bytes
penalty_offset_label = codes "sched_burst_penalty_offset:  "

abbrev pub penalty_scale_label : Bytes
penalty_scale_label = codes "sched_burst_penalty_scale:   "

abbrev pub cache_lifetime_label : Bytes
cache_lifetime_label = codes "sched_burst_cache_lifetime:  "

module _ (f : Printf) where
  open f use {print_u}

  -- The lines of the parameters.
  unfoldable pub show_params : Params → Bytes
  show_params prm =
      line sched_bore_label (print_u prm.sched_bore) lf
      ++ (line inherit_type_label (print_u prm.burst_inherit_type) lf
          ++ (line smoothness_label (print_u prm.burst_smoothness) lf
              ++ (line penalty_offset_label (print_u prm.burst_penalty_offset) lf
                  ++ (line penalty_scale_label (print_u prm.burst_penalty_scale) lf
                      ++ (line cache_lifetime_label (print_u prm.burst_cache_lifetime) lf ++ [])))))

  -- The page, where `active` is `bore_hooks_active`.
  unfoldable pub bore_proc_show : (active : Bool) → Params → Bytes
  bore_proc_show active prm = title ++ (if active then show_params prm else disabled)

-- The variables that the table's entries point to.
pub data Variable : Type 0 where
  sched_bore sched_burst_inherit_type sched_burst_smoothness sched_burst_penalty_offset
        sched_burst_penalty_scale sched_burst_cache_lifetime :
      Variable

unfoldable pub set : Variable → ℕ → Params → Params
set sched_bore n prm = record prm { sched_bore = n }
set sched_burst_inherit_type n prm = record prm { burst_inherit_type = n }
set sched_burst_smoothness n prm = record prm { burst_smoothness = n }
set sched_burst_penalty_offset n prm = record prm { burst_penalty_offset = n }
set sched_burst_penalty_scale n prm = record prm { burst_penalty_scale = n }
set sched_burst_cache_lifetime n prm = record prm { burst_cache_lifetime = n }

-- An entry for a variable of type `uint`.
abbrev pub uint_entry : Bytes → Variable → CtlTable Variable
uint_entry procname v = record {
  procname = procname;
  data_of = v;
  maxlen = 4;
  mode = 0o644;
  proc_handler = proc_dointvec_minmax;
}

abbrev pub bore_table : List (CtlTable Variable)
bore_table =
    uint_entry (codes "sched_bore") sched_bore
    ∷ uint_entry (codes "sched_burst_inherit_type") sched_burst_inherit_type
    ∷ uint_entry (codes "sched_burst_smoothness") sched_burst_smoothness
    ∷ uint_entry (codes "sched_burst_penalty_offset") sched_burst_penalty_offset
    ∷ uint_entry (codes "sched_burst_penalty_scale") sched_burst_penalty_scale
    ∷ uint_entry (codes "sched_burst_cache_lifetime") sched_burst_cache_lifetime
    ∷ []
