-- ===== src/RamPlus/Setup/Sound.antt =====
-- How a run of the setup program ends: each part of `main` ends well from what holds where it starts.
use android_device_axion_com.Base.{
  ℕ, ◌*◌, ◌-◌, ◌+◌, ◌≤◌, ◌≡◌, ◌≢◌, inr, ℤ, ltb_ℤ, true, false, refl, ap, sym, ◌∙◌, ◌||◌, Option,
  none, some, ltb, ◌==◌, Bytes, u64, arith,
}
use android_device_axion_com.RamPlus.Os.{
  Os, IsAndroid, unsupported, invalid_size, swapoff_failed, file_error, encryption_required,
  zram_not_ready, insufficient_space, allocation_failed, format_failed, activation_failed,
  verification_failed, priority_error, active, get_supported, get_requested, get_encrypted, fstat,
}
use android_device_axion_com.RamPlus.Swaps.{SwapEntry}
use android_device_axion_com.RamPlus.Holds.{
  Holds, Holds-pure, Holds-if, Holds-unless, Holds-end, Holds-from, Holds-bind, Holds-quiet,
  IsQuiet-ask,
}
use android_device_axion_com.RamPlus.SwapFile.{
  is_allowed_size, bytes_per_mib, succeeded, prepare_swap_file, PrepareResult, prepared, no_space,
  bad_file, no_allocation,
}
use android_device_axion_com.RamPlus.Setup.{
  verify_swap, activate_swap, replace_swap, enable_ram_plus, set_up, main,
}
use android_device_axion_com.RamPlus.Setup.Assertions.{IsTidy, IsWilling, Rest, Idle, Up, Ended}
use android_device_axion_com.RamPlus.Setup.Steps.{
  Holds-publish_status, disable_swap-Rest, open_swap-Idle, swapon-Ready,
}
use android_device_axion_com.RamPlus.Setup.Quiet.{
  IsQuiet-wait_for_zram, IsQuiet-ensure_data_directory, IsQuiet-prepare_open_file,
  IsQuiet-run_mkswap, IsQuiet-find_ram_plus_swap,
}
use android_device_axion_com.RamPlus.Setup.Failing.{
  fail-Ended, fail_prepared_swap-Ended, fail_active_swap-Ended, disable_ram_plus-Ended,
}

size_close : (n k : ℕ) → (ltb n k || ltb 1024 (n - k)) ≡ false → (k ≤ n) × (n ≤ k + 1024)
size_close n k e = ground arith

is_zero : (n : ℕ) → (n == 0) ≡ true → n ≡ 0
is_zero n e = ground arith

not_zero : (n : ℕ) → (n == 0) ≡ false → n ≢ 0
not_zero n e = ground arith

size_small : (mib : ℕ) → is_allowed_size mib ≡ true → u64 (mib * 1024) ≡ mib * 1024
size_small mib e = ground arith

module _ {os : Os} (law : IsAndroid os) {req : Bytes} {C : Type 0}
    (willing : C → IsWilling os) where
  prepare_swap_file-Ready :
      (n : ℕ)
      → Holds os
          (λ v. Idle req C v.disk)
          (prepare_swap_file os n)
          λ r v. Idle req C v.disk × (r ≡ prepared → v.disk.present ≡ true)
  unfolding prepare_swap_file
  prepare_swap_file-Ready n = Holds-bind (open_swap-Idle os law) λ r.
      Holds-unless r (λ _. Holds-pure bad_file λ v h. (h.0, λ e. cc))
        λ e.
          Holds-quiet (IsQuiet-ask law fstat refl)
            λ st. Holds-end (IsQuiet-prepare_open_file os law st n) λ a v h. (h.0, λ _. h.1 e)

  verify_swap-Ended :
      (mib : ℕ) (p : ℤ) (s : Option SwapEntry)
      → os.parse_uint req ≡ some mib
      → is_allowed_size mib ≡ true
      → mib ≢ 0
      → Holds os
          (λ v. Up req C v.disk)
          (verify_swap os (mib * 1024) p s)
          (Ended req C os.parse_uint)
  unfolding verify_swap IsTidy
  verify_swap-Ended mib p none parsed allowed some_size =
      fail_active_swap-Ended law willing (mib * 1024) verification_failed
  verify_swap-Ended mib p (some s) parsed allowed some_size =
      Holds-if (ltb (mib * 1024) s.size_kb || ltb 1024 (mib * 1024 - s.size_kb))
        (λ _. fail_active_swap-Ended law willing s.size_kb verification_failed)
        λ e.
          Holds-unless (ltb_ℤ s.priority p)
            (λ _. fail_active_swap-Ended law willing s.size_kb priority_error)
            λ _. Holds-bind (Holds-publish_status os law (Up req C) s.size_kb active) λ q.
              Holds-unless q
                (λ _.
                  Holds-from (λ v h. h.0)
                    (fail_active_swap-Ended law willing s.size_kb activation_failed))
                λ published. Holds-pure 0 λ v h. record {
                  tidy = inr h.0.kept;
                  done = λ _. record {
                    mib = mib;
                    parsed = parsed;
                    allowed = allowed;
                    done = inr (
                      some_size,
                      record {
                        on = h.0.on;
                        kept = h.0.kept;
                        told = (h.1 published).0;
                        at_most = rw (h.1 published).1 (size_close (mib * 1024) s.size_kb e).0;
                        at_least = rw (h.1 published).1 (size_close (mib * 1024) s.size_kb e).1;
                      },
                    );
                  };
                  failed = λ e. absurd (e refl);
                }

  verify_u64-Ended :
      (mib : ℕ) (p : ℤ) (s : Option SwapEntry)
      → os.parse_uint req ≡ some mib
      → is_allowed_size mib ≡ true
      → mib ≢ 0
      → Holds os
          (λ v. Up req C v.disk)
          (verify_swap os (u64 (mib * 1024)) p s)
          (Ended req C os.parse_uint)
  verify_u64-Ended mib p s parsed allowed some_size =
      rw (size_small mib allowed) (verify_swap-Ended mib p s parsed allowed some_size)

  activate_swap-Ended :
      (mib : ℕ) (p : ℤ) (r : PrepareResult)
      → os.parse_uint req ≡ some mib
      → is_allowed_size mib ≡ true
      → mib ≢ 0
      → Holds os
          (λ v. Idle req C v.disk × (r ≡ prepared → v.disk.present ≡ true))
          (activate_swap os mib p r)
          (Ended req C os.parse_uint)
  unfolding activate_swap
  activate_swap-Ended mib p no_space parsed allowed some_size =
      Holds-from (λ v h. h.0) (fail_prepared_swap-Ended law willing insufficient_space)
  activate_swap-Ended mib p bad_file parsed allowed some_size =
      Holds-from (λ v h. h.0) (fail_prepared_swap-Ended law willing file_error)
  activate_swap-Ended mib p no_allocation parsed allowed some_size =
      Holds-from (λ v h. h.0) (fail_prepared_swap-Ended law willing allocation_failed)
  activate_swap-Ended mib p prepared parsed allowed some_size =
      Holds-quiet (IsQuiet-run_mkswap os law) λ w.
        Holds-unless w
          (λ _. Holds-from (λ v h. h.0) (fail_prepared_swap-Ended law willing format_failed))
          λ _.
            Holds-bind
              (Holds-from (λ v h. record { asked = h.0.asked; off = h.0.off; kept = h.1 refl })
                (swapon-Ready os law))
              λ r.
                Holds-unless (succeeded r)
                  (λ e.
                    Holds-from (λ v h. h.1 e)
                      (fail_prepared_swap-Ended law willing activation_failed))
                  λ e. Holds-quiet (IsQuiet-find_ram_plus_swap os law) λ s.
                    Holds-from (λ v h. h.0 e) (verify_u64-Ended mib p s parsed allowed some_size)

  replace_swap-Ended :
      (mib : ℕ) (p : Option ℤ)
      → os.parse_uint req ≡ some mib
      → is_allowed_size mib ≡ true
      → mib ≢ 0
      → Holds os (λ v. Rest req C v.disk) (replace_swap os mib p) (Ended req C os.parse_uint)
  unfolding replace_swap
  replace_swap-Ended mib none parsed allowed some_size = fail-Ended law willing zram_not_ready
  replace_swap-Ended mib (some p) parsed allowed some_size =
      Holds-bind (disable_swap-Rest os law willing) λ r.
        Holds-unless r (λ _. Holds-from (λ v h. h.0) (fail-Ended law willing swapoff_failed))
          λ e. Holds-quiet (IsQuiet-ensure_data_directory os law) λ d.
            Holds-unless d (λ _. Holds-from (λ v h. h.0) (fail-Ended law willing file_error))
              λ _.
                Holds-bind
                  (Holds-from (λ v h. record { asked = h.0.asked; off = h.1 e })
                    (prepare_swap_file-Ready (u64 (mib * bytes_per_mib))))
                  λ r. activate_swap-Ended mib p r parsed allowed some_size

  set_up-Ended :
      (n : Option ℕ)
      → os.parse_uint req ≡ n
      → Holds os (λ v. Rest req C v.disk) (set_up os n) (Ended req C os.parse_uint)
  unfolding set_up enable_ram_plus
  set_up-Ended none parsed = fail-Ended law willing invalid_size
  set_up-Ended (some mib) parsed =
      Holds-unless (is_allowed_size mib) (λ _. fail-Ended law willing invalid_size)
        λ allowed.
          Holds-if (mib == 0)
            (λ e. disable_ram_plus-Ended law willing (parsed ∙ ap some (is_zero mib e)))
            λ e. Holds-quiet (IsQuiet-ask law get_encrypted refl) λ c.
              Holds-unless c (λ _. fail-Ended law willing encryption_required)
                λ _.
                  Holds-quiet (IsQuiet-wait_for_zram os law 60)
                    λ p. replace_swap-Ended mib p parsed allowed (not_zero mib e)

  get_requested-Rest :
      Holds os
        (λ v. Rest req C v.disk)
        (os.ask get_requested)
        λ text v. Rest req C v.disk × (text ≡ req)
  get_requested-Rest = record {
    at = λ s h. (rw (law.quiet get_requested s refl) h, law.get_size s ∙ h.asked);
  }

  pub main-Ended : Holds os (λ v. Rest req C v.disk) (main os) (Ended req C os.parse_uint)
  unfolding main
  main-Ended = Holds-quiet (IsQuiet-ask law get_supported refl) λ s.
      Holds-unless s (λ _. fail-Ended law willing unsupported)
        λ _. Holds-bind (get_requested-Rest) λ text. record {
          at = λ s h. (set_up-Ended (os.parse_uint text) (ap os.parse_uint (sym h.1))).at s h.0;
        }
