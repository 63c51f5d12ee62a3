-- ===== src/RamPlus/SwapFile.antt =====
-- config/ramplus/ax_ram_plus_setup.cpp: the steps that the setup program is made of, which look for
-- the areas in use, prepare the swap file, and take it out of use. An early return is the other branch
-- of a test. `TEMP_FAILURE_RETRY` and the loop on `waitpid` repeat a call that a signal interrupts: the
-- call of the model is the last one. Log lines and the closing of the file are left out. Nothing
-- overflows but what has its `u64`, since an offset stays below the end of the file.
pub mod Zeroes
pub mod Poll
pub mod Prepared
use android_device_axion_com.Base.{
  ℕ, zero, suc, ◌+◌, ◌-◌, ◌*◌, min, ℤ, pos, pos_part, ltb_ℤ, Bool, true, false, not, ◌&&◌, ◌||◌,
  Option, none, some, ltb, leb, ◌==◌, if◌then◌else◌, u64, Bytes,
}
use android_device_axion_com.RamPlus.Swaps.{
  SwapEntry, read_swap_entries, find_lowest_zram_priority, find_swap,
}
use android_device_axion_com.RamPlus.Os.{
  FileStat, Lstat, Status, Errno, ok, einval, enoent, other, unseen, seen, Wait, lost, exited,
  signalled, read_swaps, sleep, lstat, mkdir, chmod, statvfs, fstat, fchmod, fsync, fork, wait,
  ftruncate, write, open_swap, swapoff, unlink, set_active_kb, set_status, Os,
}
use android_device_axion_com.RamPlus.Prog.{Prog, pure, ◌>>=◌}

pub data PrepareResult : Type 0 where
  prepared no_space bad_file no_allocation : PrepareResult

abbrev pub bytes_per_mib : ℕ
bytes_per_mib = 1024 * 1024

abbrev pub write_chunk_bytes : ℕ
write_chunk_bytes = 4 * bytes_per_mib

abbrev pub is_allowed_size : ℕ → Bool
is_allowed_size n = n == 0 || n == 2048 || n == 4096 || n == 6144 || n == 8192

-- `WIFEXITED(status) && WEXITSTATUS(status) == 0`
abbrev pub exited_well : Wait → Bool
exited_well lost = false
exited_well (exited n) = n == 0
exited_well signalled = false

abbrev pub succeeded : Errno → Bool
succeeded ok = true
succeeded einval = false
succeeded enoent = false
succeeded other = false

-- The test of `DisableSwap`, and that of `RemoveSwapFile`.
abbrev pub is_off : Errno → Bool
is_off ok = true
is_off einval = true
is_off enoent = true
is_off other = false

abbrev pub is_removed : Errno → Bool
is_removed ok = true
is_removed einval = false
is_removed enoent = true
is_removed other = false

-- What `ReadSwapEntries` and `FindLowestZramPriority` find, or `FindRamPlusSwap`.
abbrev pub zram_of : Option Bytes → Option ℤ
zram_of none = none
zram_of (some contents) = find_lowest_zram_priority (read_swap_entries contents)

abbrev pub swap_of : Option Bytes → Option SwapEntry
swap_of none = none
swap_of (some contents) = find_swap (read_swap_entries contents)

-- The `allocated_bytes` and `current_bytes` of `PrepareSwapFile`.
abbrev pub allocated_bytes : FileStat → ℕ
allocated_bytes st = if ltb_ℤ (pos 0) st.blocks then u64 (pos_part st.blocks * 512) else 0

abbrev pub current_bytes : FileStat → ℕ
current_bytes st = if ltb_ℤ (pos 0) st.size then pos_part st.size else 0

-- The test at the end of `HasAllocationSpace`.
abbrev pub is_enough : ℕ → Option (ℕ × ℕ) → Option Bool
is_enough required none = none
is_enough required (some (bavail, frsize)) = some (leb required (u64 (bavail * frsize)))

module _ (os : Os) where
  unfoldable pub publish_status : ℕ → Status → Prog os.State Bool
  publish_status active_kb status = do
    size_set ← os.ask (set_active_kb active_kb)
    status_set ← os.ask (set_status status)
    pure (size_set && status_set)

  unfoldable pub or_else : Option ℤ → Prog os.State (Option ℤ) → Prog os.State (Option ℤ)
  or_else (some priority) rest = pure (some priority)
  or_else none rest = rest

  unfoldable pub wait_for_zram : ℕ → Prog os.State (Option ℤ)
  wait_for_zram zero = pure none
  wait_for_zram (suc attempts) = do
    contents ← os.ask read_swaps
    or_else (zram_of contents) (do _ ← os.ask sleep; wait_for_zram attempts)

  abbrev pub wait_for_zram_priority : Prog os.State (Option ℤ)
  wait_for_zram_priority = wait_for_zram 60

  unfoldable pub secure_directory : Prog os.State Bool
  secure_directory = do r ← os.ask chmod; pure (succeeded r)

  unfoldable pub enter_directory : Lstat → Prog os.State Bool
  enter_directory (seen is_dir) = if is_dir then secure_directory else pure false
  enter_directory (unseen enoent) = do
    r ← os.ask mkdir
    if succeeded r then secure_directory else pure false
  enter_directory (unseen ok) = pure false
  enter_directory (unseen einval) = pure false
  enter_directory (unseen other) = pure false

  unfoldable pub ensure_data_directory : Prog os.State Bool
  ensure_data_directory = do st ← os.ask lstat; enter_directory st

  unfoldable pub has_allocation_space : ℕ → ℕ → Prog os.State (Option Bool)
  has_allocation_space current requested = if leb requested current then pure (some true) else do
    fs ← os.ask statvfs
    pure (is_enough (u64 (requested - current + 4096 * bytes_per_mib)) fs)

  unfoldable pub write_loop : ℕ → ℕ → ℕ → Prog os.State Bool
  write_loop zero offset end = pure (leb end offset)
  write_loop (suc fuel) offset end =
      let size = min write_chunk_bytes (end - offset) in
      if not (ltb offset end) then pure true else do
        r ← os.ask (write size offset)
        if not r then pure false else write_loop fuel (offset + size) end

  unfoldable pub write_zeroes : ℕ → ℕ → Prog os.State Bool
  write_zeroes start end = write_loop (end - start) start end

  -- From the test of what `HasAllocationSpace` returns.
  unfoldable pub fill_swap_file :
      Option Bool → (allocated current requested : ℕ) → Prog os.State PrepareResult
  fill_swap_file none allocated current requested = pure bad_file
  fill_swap_file (some false) allocated current requested = pure no_space
  fill_swap_file (some true) allocated current requested = do
    resized ← os.ask (ftruncate requested)
    if not (succeeded resized) then pure no_allocation else do
      let preserved = min current requested
      written ← write_zeroes (if ltb allocated preserved then 0 else preserved) requested
      if not written
          then pure no_allocation
          else do synced ← os.ask fsync; pure (if succeeded synced then prepared else bad_file)

  -- From the test of what `fstat` returns.
  unfoldable pub prepare_open_file : Option FileStat → ℕ → Prog os.State PrepareResult
  prepare_open_file none requested = pure bad_file
  prepare_open_file (some st) requested = if not st.is_regular then pure bad_file else do
    secured ← os.ask fchmod
    if not (succeeded secured) then pure bad_file else do
      has_space ← has_allocation_space (min (allocated_bytes st) requested) requested
      fill_swap_file has_space (allocated_bytes st) (current_bytes st) requested

  unfoldable pub prepare_swap_file : ℕ → Prog os.State PrepareResult
  prepare_swap_file requested = do
    opened ← os.ask open_swap
    if not opened then pure bad_file else do st ← os.ask fstat; prepare_open_file st requested

  unfoldable pub run_mkswap : Prog os.State Bool
  run_mkswap = do
    forked ← os.ask fork
    if not forked then pure false else do status ← os.ask wait; pure (exited_well status)

  unfoldable pub find_ram_plus_swap : Prog os.State (Option SwapEntry)
  find_ram_plus_swap = do contents ← os.ask read_swaps; pure (swap_of contents)

  unfoldable pub disable_swap : Prog os.State Bool
  disable_swap = do r ← os.ask swapoff; pure (is_off r)

  unfoldable pub remove_swap_file : Prog os.State Bool
  remove_swap_file = do r ← os.ask unlink; pure (is_removed r)
