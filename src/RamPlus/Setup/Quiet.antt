-- ===== src/RamPlus/Setup/Quiet.antt =====
-- The steps that change neither the swap file nor the two properties.
use android_device_axion_com.Base.{
  ℕ, zero, suc, ◌+◌, ◌-◌, ◌*◌, u64, ℤ, ◌≡◌, Bool, true, false, refl, Option, none, some, ltb, leb,
  min, not, if◌then◌else◌,
}
use android_device_axion_com.RamPlus.Os.{
  Os, IsAndroid, Call, FileStat, Lstat, unseen, seen, ok, einval, enoent, other, is_quiet, Answer,
  read_swaps, sleep, lstat, mkdir, chmod, statvfs, fchmod, fsync, fork, wait, ftruncate, write,
}
use android_device_axion_com.RamPlus.Prog.{Prog, ◌>>=◌}
use android_device_axion_com.RamPlus.Holds.{
  IsQuiet, IsQuiet-pure, IsQuiet-bind, IsQuiet-if, IsQuiet-ask,
}
use android_device_axion_com.RamPlus.SwapFile.{
  allocated_bytes, current_bytes, is_enough, bytes_per_mib, enter_directory, or_else, wait_for_zram,
  swap_of, exited_well, zram_of, ensure_data_directory, secure_directory, has_allocation_space,
  write_loop, write_zeroes, fill_swap_file, prepare_open_file, run_mkswap, find_ram_plus_swap,
  write_chunk_bytes, bad_file, no_space, no_allocation, prepared, succeeded,
}

module _ (os : Os) (law : IsAndroid os) where
  module _ {A : Type 0} where
    ask_then :
        (c : Call) {f : Answer c → Prog os.State A}
        → is_quiet c ≡ true
        → ((a : Answer c) → IsQuiet os (f a))
        → IsQuiet os (os.ask c >>= f)
    ask_then c h hf = IsQuiet-bind (IsQuiet-ask law c h) hf

  IsQuiet-or_else :
      (z : Option ℤ) {m : Prog os.State (Option ℤ)} → IsQuiet os m → IsQuiet os (or_else os z m)
  unfolding or_else
  IsQuiet-or_else (some p) h = IsQuiet-pure (some p)
  IsQuiet-or_else none h = h

  pub IsQuiet-wait_for_zram : (n : ℕ) → IsQuiet os (wait_for_zram os n)
  unfolding wait_for_zram
  IsQuiet-wait_for_zram zero = IsQuiet-pure none
  IsQuiet-wait_for_zram (suc n) =
      ask_then read_swaps refl
        λ t. IsQuiet-or_else (zram_of t) (ask_then sleep refl λ _. IsQuiet-wait_for_zram n)

  IsQuiet-secure_directory : IsQuiet os (secure_directory os)
  unfolding secure_directory
  IsQuiet-secure_directory = ask_then chmod refl λ r. IsQuiet-pure (succeeded r)

  IsQuiet-enter_directory : (st : Lstat) → IsQuiet os (enter_directory os st)
  unfolding enter_directory
  IsQuiet-enter_directory (seen is_dir) =
      IsQuiet-if is_dir IsQuiet-secure_directory (IsQuiet-pure false)
  IsQuiet-enter_directory (unseen ok) = IsQuiet-pure false
  IsQuiet-enter_directory (unseen einval) = IsQuiet-pure false
  IsQuiet-enter_directory (unseen other) = IsQuiet-pure false
  IsQuiet-enter_directory (unseen enoent) =
      ask_then mkdir refl
        λ r. IsQuiet-if (succeeded r) IsQuiet-secure_directory (IsQuiet-pure false)

  pub IsQuiet-ensure_data_directory : IsQuiet os (ensure_data_directory os)
  unfolding ensure_data_directory
  IsQuiet-ensure_data_directory = ask_then lstat refl IsQuiet-enter_directory

  IsQuiet-has_allocation_space : (a b : ℕ) → IsQuiet os (has_allocation_space os a b)
  unfolding has_allocation_space
  IsQuiet-has_allocation_space a b =
      IsQuiet-if (leb b a) (IsQuiet-pure _) (
        ask_then statvfs refl
          λ fs. IsQuiet-pure (is_enough (u64 (b - a + 4096 * bytes_per_mib)) fs))

  IsQuiet-write_loop : (n a b : ℕ) → IsQuiet os (write_loop os n a b)
  unfolding write_loop
  IsQuiet-write_loop zero a b = IsQuiet-pure _
  IsQuiet-write_loop (suc n) a b = IsQuiet-if (not (ltb a b)) (IsQuiet-pure _) (
      ask_then (write (min write_chunk_bytes (b - a)) a) refl λ r.
        IsQuiet-if (not r) (IsQuiet-pure false)
          (IsQuiet-write_loop n (a + min write_chunk_bytes (b - a)) b))

  IsQuiet-fill_swap_file : (r : Option Bool) (a b c : ℕ) → IsQuiet os (fill_swap_file os r a b c)
  unfolding fill_swap_file write_zeroes
  IsQuiet-fill_swap_file none a b c = IsQuiet-pure bad_file
  IsQuiet-fill_swap_file (some false) a b c = IsQuiet-pure no_space
  IsQuiet-fill_swap_file (some true) a b c =
      let keep = min b c in
      ask_then (ftruncate c) refl λ r. IsQuiet-if (not (succeeded r)) (IsQuiet-pure no_allocation) (
        IsQuiet-bind
          (IsQuiet-write_loop (c - (if ltb a keep then 0 else keep))
            (if ltb a keep then 0 else keep) c)
          λ w.
            IsQuiet-if (not w) (IsQuiet-pure no_allocation)
              (ask_then fsync refl λ f. IsQuiet-pure (if succeeded f then prepared else bad_file)))

  pub IsQuiet-prepare_open_file :
      (st : Option FileStat) (n : ℕ) → IsQuiet os (prepare_open_file os st n)
  unfolding prepare_open_file
  IsQuiet-prepare_open_file none n = IsQuiet-pure bad_file
  IsQuiet-prepare_open_file (some st) n = IsQuiet-if (not st.is_regular) (IsQuiet-pure bad_file) (
      ask_then fchmod refl λ c. IsQuiet-if (not (succeeded c)) (IsQuiet-pure bad_file) (
        IsQuiet-bind (IsQuiet-has_allocation_space (min (allocated_bytes st) n) n)
          λ r. IsQuiet-fill_swap_file r (allocated_bytes st) (current_bytes st) n))

  pub IsQuiet-run_mkswap : IsQuiet os (run_mkswap os)
  unfolding run_mkswap
  IsQuiet-run_mkswap = ask_then fork refl λ r.
      IsQuiet-if (not r) (IsQuiet-pure false) (ask_then wait refl λ w. IsQuiet-pure (exited_well w))

  pub IsQuiet-find_ram_plus_swap : IsQuiet os (find_ram_plus_swap os)
  unfolding find_ram_plus_swap
  IsQuiet-find_ram_plus_swap = ask_then read_swaps refl λ t. IsQuiet-pure (swap_of t)
