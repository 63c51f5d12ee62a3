-- ===== src/Bore/Cache/Age.antt =====
-- How long a cache entry lives.
use android_device_axion_com.Base.{ℕ, ◌-◌, ◌*◌, ◌/◌, ◌^◌, ◌≤◌, ◌<◌, ◌≡◌, arith, ltb}
use android_device_axion_com.Bore.Penalty.{Params}
use android_device_axion_com.Bore.Context.{Context}
use android_device_axion_com.Bore.Cache.{Lut, burst_cache_expired, update_burst_cache}

-- An entry written at `now`, read at a later time of 64 bits, counts as old after its lifetime, from `now` rounded down to 2 ^ 16 ns.
pub update_burst_cache-expired :
    (prm : Params) (lut : Lut) (ctx : Context) (count total now later : ℕ)
    → now ≤ later
    → later < 2 ^ 64
    → burst_cache_expired prm (update_burst_cache lut ctx count total now) later
      ≡ ltb prm.burst_cache_lifetime (later - now / 2 ^ 16 * 2 ^ 16)
unfolding burst_cache_expired update_burst_cache
update_burst_cache-expired prm lut ctx count total now later le h = ground arith
