-- ===== src/RamPlus/Lmkd.antt =====
-- The hooks of config/ramplus/lmkd/ram_plus_lmkd_hooks.cpp, which the low-memory killer calls. The
-- module's variable is the state. An `int64_t` is an integer; where an operation on them overflows,
-- which is undefined in C++, the result is `none`.
pub mod Free
use android_device_axion_com.Base.{
  ℕ, ◌^◌, ltb, leb, ◌&&◌, some, none, neg_part, ℤ, pos, pos_part, quot_ℤ, ◌+ℤ◌, ◌-ℤ◌, ◌*ℤ◌, min_ℤ,
  max_ℤ, ltb_ℤ, ◌≤ℤ◌, Bool, true, not, ◌||◌, Option, if◌then◌else◌, Bytes,
}
use android_device_axion_com.RamPlus.Swaps.{read_ram_plus_swap_kb, ◌>>=◌}

-- `gRamPlusSwapKb`
pub record Hooks : Type 0 where
  pub swap_kb : ℤ

-- The argument is what /proc/swaps holds, if it can be opened.
unfoldable pub lmkd_update_props_hook : Option Bytes → Hooks → Bool × Hooks
lmkd_update_props_hook swaps h = (true, record { swap_kb = read_ram_plus_swap_kb swaps })

unfoldable pub lmkd_init_hook : Hooks → Bool × Hooks
lmkd_init_hook h = (true, h)

unfoldable pub lmkd_free_memory_before_kill_hook : Hooks → ℤ × Hooks
lmkd_free_memory_before_kill_hook h = (pos 0, h)

unfoldable pub lmkd_no_kill_candidates_hook : Hooks → Hooks
lmkd_no_kill_candidates_hook h = h

-- What an operation on `int64_t` gives: nothing that C++ defines when the number does not fit.
abbrev pub int64 : ℤ → Option ℤ
int64 z = if ltb (pos_part z) (2 ^ 63) && leb (neg_part z) (2 ^ 63) then some z else none

unfoldable pub lmkd_adjust_free_swap_hook :
    Hooks
    → (free_swap easy_available compression_ratio compression_ratio_div adjusted_free_swap : ℤ)
    → Option ℤ
lmkd_adjust_free_swap_hook h free_swap easy_available ratio ratio_div adjusted_free_swap =
    let disk_total = max_ℤ (pos 0) h.swap_kb in
    let disk_free = min_ℤ free_swap disk_total in
    if not (ltb_ℤ (pos 0) disk_total)
      || (not (ltb_ℤ (pos 0) ratio) || not (ltb_ℤ (pos 0) ratio_div))
    then some adjusted_free_swap
    else do
      beyond ← int64 (free_swap -ℤ disk_total)
      let zram_free = max_ℤ (pos 0) beyond
      product ← int64 (easy_available *ℤ ratio)
      int64 (disk_free +ℤ min_ℤ zram_free (quot_ℤ product (pos_part ratio_div)))
