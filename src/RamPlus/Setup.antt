-- ===== src/RamPlus/Setup.antt =====
-- config/ramplus/ax_ram_plus_setup.cpp: the program that init starts once after the boot, to make and
-- activate a swap file of the size that a property asks for. `main` is cut where its early returns
-- leave it, and its answer is the exit status.
pub mod Assertions
pub mod Steps
pub mod Quiet
pub mod Failing
pub mod Sound
pub mod Outcome
pub mod Fails
pub mod Path
pub mod Exit
use android_device_axion_com.Base.{
  ℕ, ◌-◌, ◌*◌, ℤ, ltb_ℤ, not, ◌||◌, Option, none, some, ltb, ◌==◌, if◌then◌else◌, u64,
}
use android_device_axion_com.RamPlus.Swaps.{SwapEntry}
use android_device_axion_com.RamPlus.Os.{
  Status, unsupported, invalid_size, swapoff_failed, file_error, disabled, encryption_required,
  zram_not_ready, insufficient_space, allocation_failed, format_failed, activation_failed,
  verification_failed, priority_error, active, get_supported, get_requested, get_encrypted, swapon,
  Os,
}
use android_device_axion_com.RamPlus.Prog.{Prog, pure, ◌>>=◌}
use android_device_axion_com.RamPlus.SwapFile.{
  bytes_per_mib, is_allowed_size, succeeded, publish_status, wait_for_zram_priority,
  ensure_data_directory, prepare_swap_file, run_mkswap, find_ram_plus_swap, disable_swap,
  remove_swap_file, PrepareResult, prepared, no_space, bad_file, no_allocation,
}

module _ (os : Os) where
  unfoldable pub fail : Status → Prog os.State ℕ
  fail status = do _ ← publish_status os 0 status; pure 1

  unfoldable pub fail_prepared_swap : Status → Prog os.State ℕ
  fail_prepared_swap status = do
    removed ← remove_swap_file os
    if removed then fail status else fail file_error

  unfoldable pub fail_active_swap : ℕ → Status → Prog os.State ℕ
  fail_active_swap active_kb status = do
    off ← disable_swap os
    if off
        then fail_prepared_swap status
        else do _ ← publish_status os active_kb swapoff_failed; pure 1

  -- `main` for a size of 0.
  unfoldable pub disable_ram_plus : Prog os.State ℕ
  disable_ram_plus = do
    off ← disable_swap os
    if not off then fail swapoff_failed else do
      removed ← remove_swap_file os
      if not removed
          then fail file_error
          else do published ← publish_status os 0 disabled; pure (if published then 0 else 1)

  -- `main` from the tests of what `FindRamPlusSwap` returns.
  unfoldable pub verify_swap : ℕ → ℤ → Option SwapEntry → Prog os.State ℕ
  verify_swap requested_kb zram_priority none = fail_active_swap requested_kb verification_failed
  verify_swap requested_kb zram_priority (some swap) =
      if ltb requested_kb swap.size_kb || ltb 1024 (requested_kb - swap.size_kb)
      then fail_active_swap swap.size_kb verification_failed
      else if not (ltb_ℤ swap.priority zram_priority)
      then fail_active_swap swap.size_kb priority_error
      else do
        published ← publish_status os swap.size_kb active
        if not published then fail_active_swap swap.size_kb activation_failed else pure 0

  -- `main` from the switch on what `PrepareSwapFile` returns.
  unfoldable pub activate_swap : ℕ → ℤ → PrepareResult → Prog os.State ℕ
  activate_swap requested_mib zram_priority no_space = fail_prepared_swap insufficient_space
  activate_swap requested_mib zram_priority bad_file = fail_prepared_swap file_error
  activate_swap requested_mib zram_priority no_allocation = fail_prepared_swap allocation_failed
  activate_swap requested_mib zram_priority prepared = do
    formatted ← run_mkswap os
    if not formatted then fail_prepared_swap format_failed else do
      r ← os.ask swapon
      if not (succeeded r) then fail_prepared_swap activation_failed else do
        swap ← find_ram_plus_swap os
        verify_swap (u64 (requested_mib * 1024)) zram_priority swap

  -- `main` from the test of what `WaitForZramPriority` returns.
  unfoldable pub replace_swap : ℕ → Option ℤ → Prog os.State ℕ
  replace_swap requested_mib none = fail zram_not_ready
  replace_swap requested_mib (some zram_priority) = do
    off ← disable_swap os
    if not off then fail swapoff_failed else do
      ensured ← ensure_data_directory os
      if not ensured then fail file_error else do
        r ← prepare_swap_file os (u64 (requested_mib * bytes_per_mib))
        activate_swap requested_mib zram_priority r

  -- `main` for a size that is not 0.
  unfoldable pub enable_ram_plus : ℕ → Prog os.State ℕ
  enable_ram_plus requested_mib = do
    encrypted ← os.ask get_encrypted
    if not encrypted
        then fail encryption_required
        else do zram_priority ← wait_for_zram_priority os; replace_swap requested_mib zram_priority

  -- `main` from the test of what `ParseUint` returns.
  unfoldable pub set_up : Option ℕ → Prog os.State ℕ
  set_up none = fail invalid_size
  set_up (some requested_mib) =
      if not (is_allowed_size requested_mib)
      then fail invalid_size
      else if requested_mib == 0
      then disable_ram_plus
      else enable_ram_plus requested_mib

  unfoldable pub main : Prog os.State ℕ
  main = do
    supported ← os.ask get_supported
    if not supported
        then fail unsupported
        else do text ← os.ask get_requested; set_up (os.parse_uint text)
