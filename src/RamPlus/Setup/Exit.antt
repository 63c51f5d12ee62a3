-- ===== src/RamPlus/Setup/Exit.antt =====
-- When the setup program ends with 0 for a size that is not 0.
use android_device_axion_com.Base.{
  ℕ, ◌≡◌, ◌≢◌, ◌↔◌, refl, sym, ap, ◌∙◌, arith, ℤ, ltb_ℤ, true, false, Option, some, ◌==◌,
}
use android_device_axion_com.RamPlus.Os.{Os, get_supported, get_requested, unsupported}
use android_device_axion_com.RamPlus.Swaps.{SwapEntry}
use android_device_axion_com.RamPlus.SwapFile.{is_allowed_size, PrepareResult}
use android_device_axion_com.RamPlus.Setup.{
  verify_swap, activate_swap, replace_swap, enable_ram_plus, set_up, main,
}
use android_device_axion_com.RamPlus.Setup.Fails.{unless_passes, fail-Fails}
use android_device_axion_com.RamPlus.Setup.Path.{
  IsVerified, IsActivated, IsReplaced, IsEnabled, size_asked, set_up-IsEnabled,
}

module _ (os : Os) where
  verify_swap-zero :
      (kb : ℕ) (z : ℤ) (o : Option SwapEntry) (s : os.State)
      → IsVerified os kb z o s
      → (verify_swap os kb z o s).0 ≡ 0
  unfolding verify_swap
  verify_swap-zero kb z o s h =
      let below : ltb_ℤ h.swap.priority z ≡ true = ground (arith, h.below) in
      rw (h.found, h.close, below, h.published) refl

  activate_swap-zero :
      (mib : ℕ) (z : ℤ) (r : PrepareResult) (s : os.State)
      → IsActivated os mib z r s
      → (activate_swap os mib z r s).0 ≡ 0
  unfolding activate_swap
  activate_swap-zero mib z r s h =
      rw (h.fine, h.formatted, h.used) (verify_swap-zero _ z _ _ h.verified)

  replace_swap-zero :
      (mib : ℕ) (o : Option ℤ) (s : os.State)
      → IsReplaced os mib o s
      → (replace_swap os mib o s).0 ≡ 0
  unfolding replace_swap
  replace_swap-zero mib o s h =
      rw (h.zram, h.off, h.ensured) (activate_swap-zero mib h.zram_priority _ _ h.activated)

  set_up-zero :
      (mib : ℕ) (s : os.State)
      → mib ≢ 0
      → is_allowed_size mib ≡ true
      → IsEnabled os mib s
      → (set_up os (some mib) s).0 ≡ 0
  unfolding set_up enable_ram_plus
  set_up-zero mib s some_size allowed h =
      let other : (mib == 0) ≡ false = ground arith in
      rw (allowed, other, h.encrypted) (replace_swap-zero mib _ _ h.replaced)

  main-IsEnabled :
      (s : os.State) (mib : ℕ)
      → os.parse_uint (size_asked os s).0 ≡ some mib
      → mib ≢ 0
      → (main os s).0 ≡ 0
      → ((os.ask get_supported s).0 ≡ true)
        × (is_allowed_size mib ≡ true)
        × IsEnabled os mib (size_asked os s).1
  unfolding main
  main-IsEnabled s mib parsed some_size e =
      let (supported, s₁) = os.ask get_supported s in
      let (fit, e₁) = unless_passes supported _ s₁ (fail-Fails os unsupported) e in
      let (text, s₂) = os.ask get_requested s₁ in
      let same = ap (λ (o : Option ℕ). (set_up os o s₂).0) parsed in
      let path = set_up-IsEnabled os mib s₂ some_size (sym same ∙ e₁) in (fit, path.0, path.1)

  main-zero :
      (s : os.State) (mib : ℕ)
      → os.parse_uint (size_asked os s).0 ≡ some mib
      → mib ≢ 0
      → (os.ask get_supported s).0 ≡ true
      → is_allowed_size mib ≡ true
      → IsEnabled os mib (size_asked os s).1
      → (main os s).0 ≡ 0
  unfolding main
  main-zero s mib parsed some_size fit allowed h =
      rw (fit, parsed) (set_up-zero mib (size_asked os s).1 some_size allowed h)

  -- For a size that is not 0, a run exits with 0 exactly when each step succeeds: the device is
  -- supported and encrypted, the size allowed, a zram area found, the old swap out of use, the
  -- directory there, the file prepared, formatted and taken into use, and the area that is then found
  -- in /proc/swaps is published, has a priority below the zram area's, and a size that is at most the
  -- one asked for and less by at most 1024 KB.
  pub main-exit :
      (s : os.State) (mib : ℕ)
      → os.parse_uint (size_asked os s).0 ≡ some mib
      → mib ≢ 0
      → ((main os s).0 ≡ 0) ↔ (
          ((os.ask get_supported s).0 ≡ true)
          × (is_allowed_size mib ≡ true)
          × IsEnabled os mib (size_asked os s).1)
  main-exit s mib parsed some_size =
      (main-IsEnabled s mib parsed some_size, λ h. main-zero s mib parsed some_size h.0 h.1 h.2)
