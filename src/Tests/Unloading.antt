-- ===== src/Tests/Unloading.antt =====
-- The driver of kernel/modules/ax_dragonite on a tree of /proc that refuses one of its files.
use android_device_axion_com.Base.{◌≡◌, refl, Bool, true, not, ◌&&◌, ◌||◌, [], codes, text_eq}
use android_device_axion_com.Dragonite.{Text}
use android_device_axion_com.Dragonite.Lifecycle.{ProcFs, IsProcFs, zero_stats, axd_init, axd_exit}
use android_device_axion_com.Dragonite.Lifecycle.Leaves.{axd_exit-restores}
use android_device_axion_com.Tests.Dragonite.{world}

abbrev pub tree : ProcFs
tree = record {
  State = Text → Text → Bool;
  proc_mkdir = λ n s. (true, λ d f. s d f || (text_eq d n && text_eq f []));
  proc_create = λ n mode dir ops s. (
    not (text_eq n (codes "stats")),
    λ d f. s d f || not (text_eq n (codes "stats")) && (text_eq d dir && text_eq f n),
  );
  remove_proc_subtree = λ n s d f. s d f && not (text_eq d n);
  has = λ s d f. s d f;
}

tree-IsProcFs : IsProcFs tree
tree-IsProcFs = record {
  made = λ n d f s. refl;
  created = λ n mode dir ops d f s. refl;
  removed = λ n d f s. refl;
}

-- /proc with one file.
abbrev pub at_boot : Text → Text → Bool
at_boot d f = text_eq d (codes "stat") && text_eq f []

axd_exit-restores_example :
    let (ret, w, dirs, s) = axd_init tree world at_boot in
    (ret ≡ 0)
    × (w ≡ record world { stats = zero_stats })
    × ((d f : Text) → tree.has (axd_exit tree dirs s) d f ≡ tree.has at_boot d f)
unfolding text_eq
axd_exit-restores_example =
    axd_exit-restores tree tree-IsProcFs world at_boot (λ g. refl) (λ g. refl)
