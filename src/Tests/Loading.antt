-- ===== src/Tests/Loading.antt =====
-- The BORE module loaded at a registry that refuses one hook.
use android_device_axion_com.Base.{ℕ, refl, true, false, [], ◌∷◌}
use android_device_axion_com.Bore.Lifecycle as BoreLife
use android_device_axion_com.Bore.Lifecycle.AllOrNothing as BoreLoad
use android_device_axion_com.Tests.Data.{sched, tag_registry}

abbrev bore_module :
    (refused : ℕ) → BoreLife.Module (tag_registry BoreLife.Hook BoreLife.tag refused)
bore_module refused = record {
  sched = sched;
  bore_hooks_active = false;
  bore_sysctl_header = false;
  bore_proc_entry = false;
  registry = λ n. false;
}

abbrev bore_grants : BoreLife.Grants
bore_grants = record { sysctl = false; proc = true }

bore_sched_init-AllOrNothing_example :
    BoreLoad.AllOrNothing (tag_registry BoreLife.Hook BoreLife.tag 4) (
      BoreLife.bore_sched_init
        (tag_registry BoreLife.Hook BoreLife.tag 4)
        bore_grants
        (1 ∷ [])
        (bore_module 4))
bore_sched_init-AllOrNothing_example =
    BoreLoad.bore_sched_init-AllOrNothing (tag_registry BoreLife.Hook BoreLife.tag 4) bore_grants
      (1 ∷ []) (bore_module 4) (λ k. refl)
