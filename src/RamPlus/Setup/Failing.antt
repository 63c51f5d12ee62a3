-- ===== src/RamPlus/Setup/Failing.antt =====
-- The ends of a run that fails, and a run for no swap file.
use android_device_axion_com.Base.{
  ℕ, ◌≡◌, inl, Bool, true, false, refl, some, Bytes, if◌then◌else◌, arith,
}
use android_device_axion_com.RamPlus.Os.{
  Os, IsAndroid, View, Status, swapoff_failed, file_error, disabled,
}
use android_device_axion_com.RamPlus.Holds.{
  Holds, Holds-pure, Holds-if, Holds-unless, Holds-from, Holds-bind,
}
use android_device_axion_com.RamPlus.Setup.{
  fail, fail_prepared_swap, fail_active_swap, disable_ram_plus,
}
use android_device_axion_com.RamPlus.Setup.Assertions.{IsGone, IsWilling, Rest, Idle, Up, Ended}
use android_device_axion_com.RamPlus.Setup.Steps.{
  Holds-publish_status, disable_swap-Rest, disable_swap-Up, remove_swap_file-Idle,
}

module _ {os : Os} (law : IsAndroid os) {req : Bytes} {C : Type 0}
    (willing : C → IsWilling os) where
  pub Rest-Ended : (v : View) → Rest req C v.disk → Ended req C os.parse_uint 1 v
  Rest-Ended v h = record { tidy = h.tidy; done = λ e. absurd (omega arith); failed = λ _. h.gone }

  pub fail-Ended :
      (t : Status) → Holds os (λ v. Rest req C v.disk) (fail os t) (Ended req C os.parse_uint)
  unfolding fail
  fail-Ended t =
      Holds-bind (Holds-publish_status os law (Rest req C) 0 t)
        λ r. Holds-pure 1 λ v h. Rest-Ended v h.0

  pub fail_prepared_swap-Ended :
      (t : Status)
      → Holds os (λ v. Idle req C v.disk) (fail_prepared_swap os t) (Ended req C os.parse_uint)
  unfolding fail_prepared_swap
  fail_prepared_swap-Ended t =
      Holds-bind (remove_swap_file-Idle os law willing)
        λ r. Holds-from (λ v h. h.0) (Holds-if r (λ _. fail-Ended t) (λ _. fail-Ended file_error))

  pub fail_active_swap-Ended :
      (n : ℕ) (t : Status)
      → Holds os (λ v. Up req C v.disk) (fail_active_swap os n t) (Ended req C os.parse_uint)
  unfolding fail_active_swap
  fail_active_swap-Ended n t = Holds-bind (disable_swap-Up os law willing) λ r.
      Holds-if r (λ e. Holds-from (λ v h. h.0 e) (fail_prepared_swap-Ended t))
        (λ e.
          Holds-bind
            (Holds-from (λ v h. h.1 e) (Holds-publish_status os law (Rest req C) n swapoff_failed))
            λ _. Holds-pure 1 λ v h. Rest-Ended v h.0)

  -- `requested_mib` is 0.
  disabled-Ended :
      (p : Bool) (v : View)
      → os.parse_uint req ≡ some 0
      → (Rest req C v.disk × IsGone v.disk) × (p ≡ true → (v.status ≡ disabled) × (v.active_kb ≡ 0))
      → Ended req C os.parse_uint (if p then 0 else 1) v
  disabled-Ended false v parsed h = Rest-Ended v h.0.0
  disabled-Ended true v parsed h = record {
    tidy = h.0.0.tidy;
    done = λ _. record {
      mib = 0;
      parsed = parsed;
      allowed = refl;
      done = inl (refl, record { gone = h.0.1; kb = (h.1 refl).1; told = (h.1 refl).0 });
    };
    failed = λ e c. h.0.1;
  }

  pub disable_ram_plus-Ended :
      os.parse_uint req ≡ some 0
      → Holds os (λ v. Rest req C v.disk) (disable_ram_plus os) (Ended req C os.parse_uint)
  unfolding disable_ram_plus IsGone
  disable_ram_plus-Ended parsed = Holds-bind (disable_swap-Rest os law willing) λ r.
      Holds-unless r (λ _. Holds-from (λ v h. h.0) (fail-Ended swapoff_failed))
        λ e.
          Holds-bind
            (Holds-from (λ v h. record { asked = h.0.asked; off = h.1 e })
              (remove_swap_file-Idle os law willing))
            λ r.
              Holds-unless r (λ _. Holds-from (λ v h. h.0) (fail-Ended file_error))
                λ e.
                  Holds-bind
                    (Holds-from (λ v h. (h.0, (h.1.off, h.2 e)))
                      (Holds-publish_status os law (λ d. Rest req C d × IsGone d) 0 disabled))
                    λ p. Holds-pure (if p then 0 else 1) λ v. disabled-Ended p v parsed
