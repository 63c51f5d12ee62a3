-- ===== src/Tests/Setup.antt =====
-- Runs of the setup program on a concrete machine.
use android_device_axion_com.Base.{
  ◌⊎◌, ◌≤◌, ◌*◌, ℕ, zero, suc, ◌<◌, ◌≡◌, ◌≢◌, ◌↔◌, inl, refl, arith, pos, true, false, none, some,
  text_eq, starts_with, is_digit, read_digits,
}
use android_device_axion_com.RamPlus.Os.{FileStat, get_supported, read_swaps, write}
use android_device_axion_com.RamPlus.Swaps.{
  is_space, skip_space, span_word, read_word, read_unsigned, read_signed, read_uint64, read_int,
  read_entry, read_entries, after_line, read_swap_entries, lowest_zram, find_lowest_zram_priority,
  find_swap,
}
use android_device_axion_com.RamPlus.SwapFile.{
  is_allowed_size, prepared, publish_status, or_else, wait_for_zram, wait_for_zram_priority,
  secure_directory, enter_directory, ensure_data_directory, has_allocation_space, write_loop,
  write_zeroes, fill_swap_file, prepare_open_file, prepare_swap_file, run_mkswap,
  find_ram_plus_swap, disable_swap, remove_swap_file,
}
use android_device_axion_com.RamPlus.SwapFile.Prepared.{prepare_open_file-IsBacked}
use android_device_axion_com.RamPlus.SwapFile.Poll.{polled, found, wait_for_zram_priority-polled}
use android_device_axion_com.RamPlus.Setup.{
  fail, fail_prepared_swap, verify_swap, activate_swap, replace_swap, enable_ram_plus, set_up, main,
}
use android_device_axion_com.RamPlus.Setup.Assertions.{IsTidy, IsGone, IsDone}
use android_device_axion_com.RamPlus.Setup.Outcome.{main-IsDone, main-IsTidy, main-IsGone}
use android_device_axion_com.RamPlus.Setup.Path.{IsEnabled, size_asked}
use android_device_axion_com.RamPlus.Setup.Exit.{main-exit}
use android_device_axion_com.Tests.Machine.{Machine, phone, phone-IsAndroid, phone-IsWilling, fresh}

fresh-IsTidy : IsTidy ((phone true).view fresh).disk
unfolding IsTidy
fresh-IsTidy = inl refl

fresh-IsGone : IsGone ((phone false).view fresh).disk
unfolding IsGone
fresh-IsGone = (refl, refl)

run_succeeds : (main (phone true) fresh).0 ≡ 0
unfolding main set_up enable_ram_plus replace_swap activate_swap verify_swap publish_status or_else
    wait_for_zram secure_directory enter_directory ensure_data_directory has_allocation_space
    write_loop write_zeroes fill_swap_file prepare_open_file prepare_swap_file run_mkswap
    find_ram_plus_swap disable_swap read_swap_entries read_entries read_entry after_line read_uint64
    read_int read_signed read_unsigned read_digits read_word span_word skip_space is_digit is_space
    find_swap find_lowest_zram_priority lowest_zram text_eq starts_with
run_succeeds = refl

run_fails : (main (phone false) fresh).0 ≢ 0
unfolding main set_up fail fail_prepared_swap remove_swap_file enable_ram_plus replace_swap
    activate_swap publish_status or_else wait_for_zram secure_directory enter_directory
    ensure_data_directory has_allocation_space write_loop write_zeroes fill_swap_file
    prepare_open_file prepare_swap_file run_mkswap disable_swap read_swap_entries read_entries
    read_entry after_line read_uint64 read_int read_signed read_unsigned read_digits read_word
    span_word skip_space is_digit is_space find_lowest_zram_priority lowest_zram text_eq starts_with
run_fails e = omega arith

main-IsDone_example :
    IsDone
      (phone true).parse_uint
      ((phone true).view fresh).disk.requested
      ((phone true).view (main (phone true) fresh).1)
main-IsDone_example =
    main-IsDone (phone true) (phone-IsAndroid true) fresh fresh-IsTidy run_succeeds

main-IsTidy_example : IsTidy ((phone true).view (main (phone true) fresh).1).disk
main-IsTidy_example = main-IsTidy (phone true) (phone-IsAndroid true) fresh fresh-IsTidy

main-IsGone_example : IsGone ((phone false).view (main (phone false) fresh).1).disk
main-IsGone_example =
    main-IsGone (phone false) (phone-IsAndroid false) fresh (phone-IsWilling false) fresh-IsGone
      run_fails

all_written : (size offset : ℕ) (m : Machine) → ((phone true).ask (write size offset) m).0 ≡ true
all_written size offset m = refl

none_before : (j : ℕ) → j < 2 → found (phone true) (polled (phone true) j fresh) ≡ none
unfolding found polled read_swap_entries read_entries read_entry after_line read_uint64 read_int
    read_signed read_unsigned read_digits read_word span_word skip_space is_digit is_space
    find_lowest_zram_priority lowest_zram starts_with
none_before zero h = refl
none_before (suc zero) h = refl
none_before (suc (suc j)) h = absurd (omega arith)

found_then : found (phone true) (polled (phone true) 2 fresh) ≡ some (pos 100)
unfolding found polled read_swap_entries read_entries read_entry after_line read_uint64 read_int
    read_signed read_unsigned read_digits read_word span_word skip_space is_digit is_space
    find_lowest_zram_priority lowest_zram starts_with
found_then = refl

wait_for_zram_priority-polled_example :
    wait_for_zram_priority (phone true) fresh
    ≡ (some (pos 100), ((phone true).ask read_swaps (polled (phone true) 2 fresh)).1)
wait_for_zram_priority-polled_example =
    wait_for_zram_priority-polled (phone true) 2 fresh (pos 100) (omega arith) none_before
      found_then

-- 5 MiB are missing at the end of the file.
abbrev short_file : FileStat
short_file = record {
  is_regular = true;
  blocks = pos (2043 * 2048);
  size = pos (2043 * 1024 * 1024);
}

prepares : (prepare_open_file (phone true) (some short_file) 2147483648 fresh).0 ≡ prepared
unfolding prepare_open_file has_allocation_space fill_swap_file write_zeroes write_loop
prepares = refl

prepare_open_file-IsBacked_example :
    ((phone true).filled
        (prepare_open_file (phone true) (some short_file) 2147483648 fresh).1
        2147483647
      ≡ true)
    ⊎ ((2147483647 < 2043 * 1024 * 1024) × (2043 * 1024 * 1024 ≤ 2043 * 2048 * 512))
prepare_open_file-IsBacked_example =
    prepare_open_file-IsBacked (phone-IsAndroid true) 2147483647 2147483648 short_file fresh
      (omega arith) prepares

main-exit_example :
    ((main (phone true) fresh).0 ≡ 0)
    ↔ (((phone true).ask get_supported fresh).0 ≡ true)
      × (is_allowed_size 2048 ≡ true)
      × IsEnabled (phone true) 2048 (size_asked (phone true) fresh).1
unfolding read_digits is_digit
main-exit_example = main-exit (phone true) fresh 2048 refl (λ e. omega arith)
