-- ===== src/RamPlus/Setup/Fails.antt =====
-- The ends of the setup program that return 1, and how a run gets past them.
use android_device_axion_com.Base.{ℕ, ◌≡◌, ◌≢◌, refl, arith, Bool, true, false, not, if◌then◌else◌}
use android_device_axion_com.RamPlus.Os.{Os, Status, swapoff_failed, file_error}
use android_device_axion_com.RamPlus.Prog.{Prog, pure, ◌>>=◌}
use android_device_axion_com.RamPlus.SwapFile.{publish_status, disable_swap}
use android_device_axion_com.RamPlus.Setup.{fail, fail_prepared_swap, fail_active_swap}

-- A program that never ends with 0.
pub record Fails {S : Type 0} (m : Prog S ℕ) : Type 0 where
  pub at : (s : S) → (m s).0 ≡ 1

module _ {S : Type 0} where
  pub not_zero : {m : Prog S ℕ} (s : S) → Fails m → (m s).0 ≢ 0
  not_zero s fails e = omega (arith, fails.at s)

  -- Past a test that fails the run.
  pub unless_passes :
      (b : Bool) {m : Prog S ℕ} (n : Prog S ℕ) (s : S)
      → Fails m
      → ((if not b then m else n) s).0 ≡ 0
      → (b ≡ true) × ((n s).0 ≡ 0)
  unless_passes true n s fails e = (refl, e)
  unless_passes false n s fails e = absurd (not_zero s fails e)

  pub if_passes :
      (b : Bool) {m : Prog S ℕ} (n : Prog S ℕ) (s : S)
      → Fails m
      → ((if b then m else n) s).0 ≡ 0
      → (b ≡ false) × ((n s).0 ≡ 0)
  if_passes false n s fails e = (refl, e)
  if_passes true n s fails e = absurd (not_zero s fails e)

  pub if_Fails : (b : Bool) {m n : Prog S ℕ} → Fails m → Fails n → Fails (if b then m else n)
  if_Fails true hm hn = hm
  if_Fails false hm hn = hn

  pub bind_Fails :
      {A : Type 0} {m : Prog S A} {f : A → Prog S ℕ} → ((a : A) → Fails (f a)) → Fails (m >>= f)
  bind_Fails {m} h = record { at = λ s. (h (m s).0).at (m s).1 }

  pub pure-Fails : Fails (pure {S = S} 1)
  pure-Fails = record { at = λ s. refl }

module _ (os : Os) where
  pub fail-Fails : (t : Status) → Fails (fail os t)
  unfolding fail
  fail-Fails t = record { at = λ s. refl }

  pub fail_prepared_swap-Fails : (t : Status) → Fails (fail_prepared_swap os t)
  unfolding fail_prepared_swap
  fail_prepared_swap-Fails t =
      bind_Fails λ removed. if_Fails removed (fail-Fails t) (fail-Fails file_error)

  pub fail_active_swap-Fails : (n : ℕ) (t : Status) → Fails (fail_active_swap os n t)
  unfolding fail_active_swap
  fail_active_swap-Fails n t = bind_Fails {m = disable_swap os} λ off.
      if_Fails off (fail_prepared_swap-Fails t)
        (bind_Fails {m = publish_status os n swapoff_failed} λ _. pure-Fails)
