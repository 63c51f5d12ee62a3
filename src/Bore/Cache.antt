-- ===== src/Bore/Cache.antt =====
-- The burst caches of kernel/modules/bore_sched/bore_sched_main.c: the table of reciprocals, the test
-- for an old entry and the entry that replaces it.
pub mod Average
pub mod Age
use android_device_axion_com.Base.{
  ℕ, zero, suc, ◌+◌, ◌-◌, ◌*◌, ◌/◌, ◌^◌, Bool, max, ltb, ◌==◌, if◌then◌else◌, u16, u32, u48, u64,
}
use android_device_axion_com.Bore.Penalty.{Params}
use android_device_axion_com.Bore.Context.{BurstCache, Context}

abbrev pub burst_cache_sample_limit : ℕ
burst_cache_sample_limit = 63

abbrev pub burst_cache_scan_limit : ℕ
burst_cache_scan_limit = 126

-- `bore_reciprocal_lut`; only the indices up to the sample limit are read.
abbrev pub Lut : Type 0
Lut = ℕ → ℕ

-- The table as the loader leaves it.
abbrev pub zero_lut : Lut
zero_lut i = 0

-- The first `n` rounds of the loop, which write the entries 1 to `n`.
unfoldable pub fill_lut : ℕ → Lut → Lut
fill_lut zero lut = lut
fill_lut (suc n) lut =
    λ j. if j == suc n then u32 (u64 (0xffffffff + suc n) / suc n) else fill_lut n lut j

unfoldable pub init_bore_reciprocal_lut : Lut → Lut
init_bore_reciprocal_lut lut = fill_lut burst_cache_sample_limit lut

unfoldable pub burst_cache_expired : Params → BurstCache → ℕ → Bool
burst_cache_expired prm bc now =
    let timestamp = u64 (bc.timestamp * 2 ^ 16) in
    ltb prm.burst_cache_lifetime (u64 (now + 2 ^ 64 - timestamp))

unfoldable pub average_penalty : Lut → ℕ → ℕ → ℕ
average_penalty lut count total =
    if count == 1 then total else u32 (u64 (total * lut count) / 2 ^ 32)

unfoldable pub update_burst_cache : Lut → Context → ℕ → ℕ → ℕ → BurstCache
update_burst_cache lut ctx count total now = record {
  penalty = u16 (max (average_penalty lut count total) ctx.penalty);
  timestamp = u48 (now / 2 ^ 16);
}
