-- ===== src/RamPlus/Setup/Path.antt =====
-- The one way through the setup program that ends with 0 for a size that is not 0, step by step.
use android_device_axion_com.Base.{
  ℕ, ◌*◌, ◌-◌, ◌≡◌, ◌≢◌, refl, sym, ◌∙◌, arith, ℤ, ltb_ℤ, ◌<ℤ◌, true, false, ◌||◌, Option, none,
  some, ltb, ◌==◌, Bytes, u64,
}
use android_device_axion_com.RamPlus.Os.{
  Os, active, get_supported, get_requested, get_encrypted, swapon, swapoff_failed, file_error,
  invalid_size, encryption_required, zram_not_ready, insufficient_space, allocation_failed,
  format_failed, activation_failed, verification_failed, priority_error,
}
use android_device_axion_com.RamPlus.Swaps.{SwapEntry}
use android_device_axion_com.RamPlus.SwapFile.{
  bytes_per_mib, is_allowed_size, succeeded, publish_status, wait_for_zram_priority,
  ensure_data_directory, prepare_swap_file, run_mkswap, find_ram_plus_swap, disable_swap,
  PrepareResult, prepared, no_space, bad_file, no_allocation,
}
use android_device_axion_com.RamPlus.Setup.{
  verify_swap, activate_swap, replace_swap, enable_ram_plus, set_up,
}
use android_device_axion_com.RamPlus.Setup.Fails.{
  not_zero, unless_passes, if_passes, fail-Fails, fail_prepared_swap-Fails, fail_active_swap-Fails,
}

module _ (os : Os) where
  -- The entry that is found once the area is in use.
  pub record IsVerified (kb : ℕ) (z : ℤ) (o : Option SwapEntry) (s : os.State) : Type 0 where
    pub swap : SwapEntry
    pub found : o ≡ some swap
    pub close : (ltb kb swap.size_kb || ltb 1024 (kb - swap.size_kb)) ≡ false
    pub below : swap.priority <ℤ z
    pub published : (publish_status os swap.size_kb active s).0 ≡ true

  verify_swap-IsVerified :
      (kb : ℕ) (z : ℤ) (o : Option SwapEntry) (s : os.State)
      → (verify_swap os kb z o s).0 ≡ 0
      → IsVerified kb z o s
  unfolding verify_swap
  verify_swap-IsVerified kb z none s e =
      absurd (not_zero s (fail_active_swap-Fails os kb verification_failed) e)
  verify_swap-IsVerified kb z (some swap) s e =
      let (close, e₁) =
        if_passes (ltb kb swap.size_kb || ltb 1024 (kb - swap.size_kb)) _ s
          (fail_active_swap-Fails os swap.size_kb verification_failed) e in
      let (below, e₂) =
        unless_passes (ltb_ℤ swap.priority z) _ s
          (fail_active_swap-Fails os swap.size_kb priority_error) e₁ in
      let (published, s') = publish_status os swap.size_kb active s in
      let (told, _) =
        unless_passes published _ s' (fail_active_swap-Fails os swap.size_kb activation_failed)
          e₂ in
      record { swap = swap; found = refl; close = close; below = ground arith; published = told }

  -- The file is prepared, formatted and taken into use, and then found.
  pub record IsActivated (mib : ℕ) (z : ℤ) (r : PrepareResult) (s : os.State) : Type 0 where
    pub fine : r ≡ prepared
    pub formatted : (run_mkswap os s).0 ≡ true
    pub used : succeeded (os.ask swapon (run_mkswap os s).1).0 ≡ true
    pub verified :
        let s₂ = (os.ask swapon (run_mkswap os s).1).1 in
        IsVerified (u64 (mib * 1024)) z (find_ram_plus_swap os s₂).0 (find_ram_plus_swap os s₂).1

  activate_swap-IsActivated :
      (mib : ℕ) (z : ℤ) (r : PrepareResult) (s : os.State)
      → (activate_swap os mib z r s).0 ≡ 0
      → IsActivated mib z r s
  unfolding activate_swap
  activate_swap-IsActivated mib z no_space s e =
      absurd (not_zero s (fail_prepared_swap-Fails os insufficient_space) e)
  activate_swap-IsActivated mib z bad_file s e =
      absurd (not_zero s (fail_prepared_swap-Fails os file_error) e)
  activate_swap-IsActivated mib z no_allocation s e =
      absurd (not_zero s (fail_prepared_swap-Fails os allocation_failed) e)
  activate_swap-IsActivated mib z prepared s e =
      let (formatted, s₁) = run_mkswap os s in
      let (made, e₁) = unless_passes formatted _ s₁ (fail_prepared_swap-Fails os format_failed) e in
      let (r, s₂) = os.ask swapon s₁ in
      let (used, e₂) =
        unless_passes (succeeded r) _ s₂ (fail_prepared_swap-Fails os activation_failed) e₁ in
      let (swap, s₃) = find_ram_plus_swap os s₂ in
      record {
        fine = refl;
        formatted = made;
        used = used;
        verified = verify_swap-IsVerified (u64 (mib * 1024)) z swap s₃ e₂;
      }

  -- A zram area is there, the old swap is out of use, and the new one is prepared.
  pub record IsReplaced (mib : ℕ) (o : Option ℤ) (s : os.State) : Type 0 where
    pub zram_priority : ℤ
    pub zram : o ≡ some zram_priority
    pub off : (disable_swap os s).0 ≡ true
    pub ensured : (ensure_data_directory os (disable_swap os s).1).0 ≡ true
    pub activated :
        let s₂ = (ensure_data_directory os (disable_swap os s).1).1 in
        let (r, s₃) = prepare_swap_file os (u64 (mib * bytes_per_mib)) s₂ in
        IsActivated mib zram_priority r s₃

  replace_swap-IsReplaced :
      (mib : ℕ) (o : Option ℤ) (s : os.State) → (replace_swap os mib o s).0 ≡ 0 → IsReplaced mib o s
  unfolding replace_swap
  replace_swap-IsReplaced mib none s e = absurd (not_zero s (fail-Fails os zram_not_ready) e)
  replace_swap-IsReplaced mib (some z) s e =
      let (off, s₁) = disable_swap os s in
      let (gone, e₁) = unless_passes off _ s₁ (fail-Fails os swapoff_failed) e in
      let (ensured, s₂) = ensure_data_directory os s₁ in
      let (there, e₂) = unless_passes ensured _ s₂ (fail-Fails os file_error) e₁ in
      let (r, s₃) = prepare_swap_file os (u64 (mib * bytes_per_mib)) s₂ in
      record {
        zram_priority = z;
        zram = refl;
        off = gone;
        ensured = there;
        activated = activate_swap-IsActivated mib z r s₃ e₂;
      }

  -- The calls of a run up to the size that is asked for.
  abbrev pub size_asked : os.State → Bytes × os.State
  size_asked s = os.ask get_requested (os.ask get_supported s).1

  -- The device is encrypted, and what the wait for a zram area finds is used.
  pub record IsEnabled (mib : ℕ) (s : os.State) : Type 0 where
    pub encrypted : (os.ask get_encrypted s).0 ≡ true
    pub replaced :
        let (o, s₂) = wait_for_zram_priority os (os.ask get_encrypted s).1 in IsReplaced mib o s₂

  enable_ram_plus-IsEnabled :
      (mib : ℕ) (s : os.State) → (enable_ram_plus os mib s).0 ≡ 0 → IsEnabled mib s
  unfolding enable_ram_plus
  enable_ram_plus-IsEnabled mib s e =
      let (encrypted, s₁) = os.ask get_encrypted s in
      let (sealed, e₁) = unless_passes encrypted _ s₁ (fail-Fails os encryption_required) e in
      let (o, s₂) = wait_for_zram_priority os s₁ in
      record { encrypted = sealed; replaced = replace_swap-IsReplaced mib o s₂ e₁ }

  pub set_up-IsEnabled :
      (mib : ℕ) (s : os.State)
      → mib ≢ 0
      → (set_up os (some mib) s).0 ≡ 0
      → (is_allowed_size mib ≡ true) × IsEnabled mib s
  unfolding set_up
  set_up-IsEnabled mib s some_size e =
      let (allowed, e₁) = unless_passes (is_allowed_size mib) _ s (fail-Fails os invalid_size) e in
      let other : (mib == 0) ≡ false = ground arith in
      let e₂ : (enable_ram_plus os mib s).0 ≡ 0 = sym (rw other refl) ∙ e₁ in
      (allowed, enable_ram_plus-IsEnabled mib s e₂)
