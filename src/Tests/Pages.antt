-- ===== src/Tests/Pages.antt =====
-- The pages under /proc with numbers in decimal digits, and handlers that store such numbers.
use android_device_axion_com.Base.{
  ℕ, ◌≤◌, ◌<◌, ◌^◌, ◌≡◌, refl, arith, pos, true, false, some, List, [], ◌∷◌, Bytes, codes, int_onto,
  ap, ◌∙◌, is_digit, read_digits, read_digits-decimal_onto, read_digits-stop,
}
use android_device_axion_com.Kernel.Seq.{Printf, IsPrintf}
use android_device_axion_com.Kernel.Sysctl.{Sysctl, IsSysctl, sysctl_write, written}
use android_device_axion_com.Bore.Penalty.{default_params}
use android_device_axion_com.Bore.Proc.{bore_proc_show, sched_burst_smoothness, set, bore_table}
use android_device_axion_com.Bore.Proc.Page.{
  name_of, read_page, read_page-bore_proc_show, bore_table-page,
}
use android_device_axion_com.Latency.Proc as Latency
use android_device_axion_com.Latency.Proc.Page as LatencyPage
use android_device_axion_com.Dragonite.Lifecycle.{
  dragonite_boost_ops, dragonite_stats_ops, nta_affinity_ops, nta_reset_ops, dragonite_kswapd_ops,
}
use android_device_axion_com.Dragonite.Proc.{
  c_string, dragonite_boost_write, boost_request, nta_affinity_write, affinity_request, split_space,
  request, parse_mask,
}
use android_device_axion_com.Dragonite.Files.{dragonite_stats_show, write_file}
use android_device_axion_com.Dragonite.Files.Session.{Call, accepted, serve_all, left_by}
use android_device_axion_com.Dragonite.Files.Page.{IsPid, read_stats, loaded, axd_init-page}
use android_device_axion_com.Dragonite.Files.Refused.{Unchanged, write_file-refused}
use android_device_axion_com.Dragonite.{
  Text, Stats, Kernel, axd_set_affinity, collect, apply_mask, mask_task, axd_comm_matches,
  strncmp_eq, get_task_struct, put_task_struct,
}
use android_device_axion_com.Tests.Data.{latency}
use android_device_axion_com.Tests.Dragonite.{kernel, world}
use android_device_axion_com.Tests.Proc.{parsers, driver, writes, five}
use android_device_axion_com.Tests.Unloading.{tree, at_boot}

abbrev printf : Printf
printf = record { print_u = λ n. int_onto (pos n) []; print_d = λ z. int_onto z [] }

printf-IsPrintf : IsPrintf printf
printf-IsPrintf = record { unsigned = λ n h. refl; signed = λ z low high. refl }

-- A handler that reads the digits before the line feed.
abbrev sysctl : Sysctl
sysctl = record { stored = λ handler maxlen text. some (read_digits 0 text).0 }

digits_back : (n : ℕ) → n < 10 ^ 20 → some (read_digits 0 (written n)).0 ≡ some n
unfolding int_onto is_digit
digits_back n h =
    ap (λ (r : ℕ × Bytes). some r.0)
      (read_digits-decimal_onto 19 n (10 ∷ []) h ∙ read_digits-stop n 10 [] refl)

sysctl-IsSysctl : IsSysctl sysctl
sysctl-IsSysctl = record {
  int_stored = λ n h. digits_back n (omega arith);
  long_stored = λ n h. digits_back n (omega arith);
}

read_page-bore_proc_show_example :
    read_page (bore_proc_show printf true default_params) ≡ some (some default_params)
read_page-bore_proc_show_example =
    read_page-bore_proc_show printf printf-IsPrintf true default_params (omega arith)

bore_table-page_example :
    read_page (
      bore_proc_show printf true (
        sysctl_write sysctl set bore_table
          (name_of sched_burst_smoothness)
          (written 3)
          default_params))
    ≡ some (some (set sched_burst_smoothness 3 default_params))
bore_table-page_example =
    bore_table-page printf printf-IsPrintf sysctl sysctl-IsSysctl sched_burst_smoothness 3
      default_params (omega arith) (omega arith)

latency_table-page_example :
    let page = λ (name : Bytes) (n : ℕ). LatencyPage.read_page (
      Latency.latency_proc_show printf true
        (sysctl_write sysctl Latency.set Latency.latency_table name (written n) latency)) in
    (page (codes "sched_latency_nice_enabled") 0 ≡ some (some (0, pos 24000000)))
    × (page (codes "sched_latency_max") 8000000 ≡ some (some (1, pos 8000000)))
latency_table-page_example =
    LatencyPage.latency_table-page printf printf-IsPrintf sysctl sysctl-IsSysctl 0 8000000 latency
      (omega arith) (omega arith) (omega arith)

-- A boost of pid 5, and a write to the file of the counters, which has no handler.
abbrev calls : List Call
calls =
    record { kernel = kernel; file = dragonite_boost_ops; write = writes five }
    ∷ record { kernel = kernel; file = dragonite_stats_ops; write = writes five }
    ∷ []

no_target :
    IsPid
      (serve_all printf parsers calls
        (loaded printf printf-IsPrintf parsers tree world at_boot)).target
unfolding write_file dragonite_boost_write boost_request c_string
no_target = omega arith

axd_init-page_example :
    let d = loaded printf printf-IsPrintf parsers tree world at_boot in
    let end = serve_all printf parsers calls d in
    (s : Stats) × (read_stats (dragonite_stats_show printf end) ≡ some (end.target, s))
    × (s.boost_set_count ≡ accepted printf parsers dragonite_boost_ops calls d)
    × (s.reset_count ≡ accepted printf parsers nta_reset_ops calls d)
    × (s.affinity_set_count ≤ accepted printf parsers nta_affinity_ops calls d)
    × (s.kswapd_pin_count ≤ accepted printf parsers dragonite_kswapd_ops calls d)
axd_init-page_example =
    axd_init-page printf printf-IsPrintf parsers tree world at_boot calls (omega arith) no_target

-- "5 * 3", and a kernel whose tasks accept no mask.
abbrev any_name : Text
any_name = b'5' ∷ b' ' ∷ b'*' ∷ b' ' ∷ b'3' ∷ []

abbrev stubborn : Kernel
stubborn = record kernel { accepts = λ p mask. false }

write_file-refused_example : Unchanged driver (
    left_by printf parsers
      (write_file printf parsers stubborn nta_affinity_ops (writes any_name) driver)
      driver)
unfolding write_file nta_affinity_write affinity_request c_string split_space request parse_mask
    axd_set_affinity collect apply_mask mask_task axd_comm_matches strncmp_eq get_task_struct
    put_task_struct
write_file-refused_example =
    write_file-refused printf parsers stubborn nta_affinity_ops (writes any_name) driver refl
