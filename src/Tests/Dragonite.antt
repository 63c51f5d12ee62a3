-- ===== src/Tests/Dragonite.antt =====
-- The theorems on the Dragonite driver, at a group of two threads.
use android_device_axion_com.Base.{
  ◌≡◌, refl, pos, negsuc, true, false, not, [], ◌∷◌, ◌==◌, has, if◌then◌else◌,
}
use android_device_axion_com.Kernel.{Ptr}
use android_device_axion_com.Dragonite.{
  success, World, Kernel, kswapd, axd_set_affinity, axd_set_boost, axd_pin_kswapd, axd_comm_matches,
  strncmp_eq,
}
use android_device_axion_com.Dragonite.Balance.{IsPinned}
use android_device_axion_com.Dragonite.Affinity.{axd_set_affinity-pins, axd_pin_kswapd-pins}
use android_device_axion_com.Dragonite.Boost.{axd_set_boost-group}

-- Pid n is task n. Tasks 5 and 6 are a group; the kernel accepts no mask for task 6.
abbrev pub kernel : Kernel
kernel = record {
  kmalloc = true;
  find_task = λ pid. elim pid [ pos n ↦ n | negsuc n ↦ 0 ];
  task = λ p. record { comm = kswapd; has_signal = true; is_exiting = false; threads = 5 ∷ 6 ∷ [] };
  processes = 5 ∷ [];
  accepts = λ p mask. not (p == 6);
  cpu_online_mask = 15;
  cpu_possible_mask = 255;
}

abbrev pub world : World
world = record {
  refs = λ p. 1;
  allowed = λ p. 255;
  nice = λ p. pos 0;
  stats = record {
    affinity_set_count = 0;
    boost_set_count = 0;
    reset_count = 0;
    kswapd_pin_count = 0;
  };
}

axd_set_affinity-pins_example :
    let r = axd_set_affinity kernel (pos 5) kswapd 3 world in
    (r.0 ≡ success)
    × IsPinned kernel 3 (5 ∷ 6 ∷ []) world r.1
    × (r.1.stats ≡ record (world.stats) { affinity_set_count = 1 })
unfolding axd_comm_matches strncmp_eq
axd_set_affinity-pins_example = axd_set_affinity-pins kernel (pos 5) world kswapd 3 refl refl refl

axd_pin_kswapd-pins_example :
    let r = axd_pin_kswapd kernel 3 world in
    (r.0 ≡ success)
    × IsPinned kernel 3 (5 ∷ []) world r.1
    × (r.1.stats ≡ record (world.stats) { kswapd_pin_count = 1 })
unfolding strncmp_eq
axd_pin_kswapd-pins_example = axd_pin_kswapd-pins kernel 3 world

axd_set_boost-group_example :
    let r = axd_set_boost kernel (pos 5) (pos 1) world in
    (r.0 ≡ success)
    × ((q : Ptr) → r.1.nice q ≡ (if has q (5 ∷ 6 ∷ []) then negsuc 19 else pos 0))
    × (r.1.refs ≡ world.refs)
    × (r.1.allowed ≡ world.allowed)
    × (r.1.stats ≡ record (world.stats) { boost_set_count = 1 })
axd_set_boost-group_example = axd_set_boost-group kernel (pos 5) (pos 1) world
