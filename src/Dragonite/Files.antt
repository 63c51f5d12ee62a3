-- ===== src/Dragonite/Files.antt =====
-- The pages that ax_dragonite_proc.c prints, and its six files with what each does when it is read and
-- when it is written to.
pub mod Counters
pub mod Page
pub mod Handlers
pub mod Session
pub mod Refused
use android_device_axion_com.Base.{
  ℕ, ◌+◌, ℤ, pos, Bool, true, false, Option, none, some, List, [], ◌∷◌, ◌++◌, codes, if◌then◌else◌,
  Bytes,
}
use android_device_axion_com.Kernel.Seq.{Printf, line}
use android_device_axion_com.Dragonite.{Kernel}
use android_device_axion_com.Dragonite.Lifecycle.{
  Ops, nta_pid_ops, nta_affinity_ops, nta_reset_ops, dragonite_boost_ops, dragonite_kswapd_ops,
  dragonite_stats_ops,
}
use android_device_axion_com.Dragonite.Proc.{
  Parsers, Write, Result, Driver, nta_pid_write, nta_affinity_write, nta_reset_write,
  dragonite_boost_write, dragonite_kswapd_write,
}

abbrev pub lf : Bytes
lf = 10 ∷ []

-- The line of AXD_VERSION.
abbrev pub version_line : Bytes
version_line = codes "ax_dragonite version: 1.0.0\n"

abbrev pub target_label : Bytes
target_label = codes "target_pid: "

abbrev pub affinity_label : Bytes
affinity_label = codes "affinity_sets: "

abbrev pub boost_label : Bytes
boost_label = codes "boost_sets: "

abbrev pub reset_label : Bytes
reset_label = codes "affinity_resets: "

abbrev pub kswapd_label : Bytes
kswapd_label = codes "kswapd_pins: "

module _ (f : Printf) where
  open f use {print_d}

  unfoldable pub nta_pid_show : Driver → Bytes
  nta_pid_show d = line [] (print_d d.target) lf

  unfoldable pub dragonite_stats_show : Driver → Bytes
  dragonite_stats_show d =
      let stats = d.world.stats in
      version_line
      ++ (line target_label (print_d d.target) lf
          ++ (line affinity_label (print_d (pos stats.affinity_set_count)) lf
              ++ (line boost_label (print_d (pos stats.boost_set_count)) lf
                  ++ (line reset_label (print_d (pos stats.reset_count)) lf
                      ++ (line kswapd_label (print_d (pos stats.kswapd_pin_count)) lf ++ [])))))

-- The handlers of a file: the page that `single_open` shows, if there is one, and the write handler.
pub record FileOps : Type 0 where
  pub shows : Option (Driver → Bytes)
  pub writes : Option (Write → Driver → Result × Driver)

abbrev pub axd_proc_ops_rw : (Driver → Bytes) → (Write → Driver → Result × Driver) → FileOps
axd_proc_ops_rw show write = record { shows = some show; writes = some write }

abbrev pub axd_proc_ops_ro : (Driver → Bytes) → FileOps
axd_proc_ops_ro show = record { shows = some show; writes = none }

abbrev pub axd_proc_ops_wo : (Write → Driver → Result × Driver) → FileOps
axd_proc_ops_wo write = record { shows = none; writes = some write }

module _ (f : Printf) (ps : Parsers) (k : Kernel) where
  abbrev pub file_ops : Ops → FileOps
  file_ops nta_pid_ops = axd_proc_ops_rw (nta_pid_show f) (nta_pid_write ps)
  file_ops nta_affinity_ops = axd_proc_ops_wo (nta_affinity_write ps k)
  file_ops nta_reset_ops = axd_proc_ops_wo (nta_reset_write ps k)
  file_ops dragonite_boost_ops = axd_proc_ops_wo (dragonite_boost_write ps k)
  file_ops dragonite_kswapd_ops = axd_proc_ops_wo (dragonite_kswapd_write ps k)
  file_ops dragonite_stats_ops = axd_proc_ops_ro (dragonite_stats_show f)

  -- A write to a file without a handler fails in the kernel, and reaches nothing of the driver.
  abbrev pub handled :
      Option (Write → Driver → Result × Driver) → Write → Driver → Option (Result × Driver)
  handled none c d = none
  handled (some write) c d = some (write c d)

  unfoldable pub write_file : Ops → Write → Driver → Option (Result × Driver)
  write_file ops c d = handled (file_ops ops).writes c d
