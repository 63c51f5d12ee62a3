-- ===== src/RamPlus/Lmkd/Free.antt =====
-- How much swap the killer counts as free.
use native.Mathlib.Nat.{le-div_iff_mul-le}
use android_device_axion_com.Base.{
  zero, suc, false, negsuc, pos_part, Option, ◌==◌, ◌||◌, if◌then◌else◌, ℕ, ◌+◌, ◌-◌, ◌*◌, ◌/◌, ◌<◌,
  ◌≤◌, ◌^◌, some, ◌≡◌, refl, arith, min, ℤ, pos, ltb_ℤ, max_ℤ, min_ℤ, quot_ℤ, true, ◌+ℤ◌, ◌-ℤ◌,
  ◌*ℤ◌,
}
use android_device_axion_com.RamPlus.Lmkd.{int64, lmkd_adjust_free_swap_hook}

positive : (n : ℕ) → 0 < n → ltb_ℤ (pos 0) (pos n) ≡ true
positive n h = ground arith

nonzero : (n : ℕ) → (suc n == 0) ≡ false
nonzero n = ground arith

not_positive : (n : ℕ) → ltb_ℤ (pos 0) (negsuc n) ≡ false
not_positive n = ground arith

max_neg : (n : ℕ) → max_ℤ (pos 0) (negsuc n) ≡ pos 0
max_neg n = ground arith

max_pos : (n : ℕ) → max_ℤ (pos 0) (pos n) ≡ pos n
max_pos n = ground arith

min_pos : (a b : ℕ) → min_ℤ (pos a) (pos b) ≡ pos (min a b)
min_pos a b = ground arith

max_sub : (a b : ℕ) → max_ℤ (pos 0) (pos a -ℤ pos b) ≡ pos (a - b)
unfolding ◌-ℤ◌
max_sub a b = ground arith

quot_mul : (a b n : ℕ) → quot_ℤ (pos a *ℤ pos b) n ≡ pos (a * b / n)
unfolding ◌*ℤ◌
quot_mul a b n = ground arith

add_pos : (a b : ℕ) → pos a +ℤ pos b ≡ pos (a + b)
unfolding ◌+ℤ◌
add_pos a b = ground arith

int64_pos : (n : ℕ) → n < 2 ^ 63 → int64 (pos n) ≡ some (pos n)
int64_pos n h = ground arith

int64_sub : (a b : ℕ) → a < 2 ^ 63 → b < 2 ^ 63 → int64 (pos a -ℤ pos b) ≡ some (pos a -ℤ pos b)
unfolding ◌-ℤ◌
int64_sub a b ha hb = ground arith

mul_pos : (a b : ℕ) → pos a *ℤ pos b ≡ pos (a * b)
unfolding ◌*ℤ◌
mul_pos a b = ground arith

quot_pos : (a n : ℕ) → quot_ℤ (pos a) n ≡ pos (a / n)
quot_pos a n = ground arith

-- The largest amount up to `room` that `capacity` holds, where `ratio_div` of it need one unit each.
pub record IsLargest (room capacity ratio_div amount : ℕ) : Type 0 where
  pub fits_room : amount ≤ room
  pub fits : amount * ratio_div ≤ capacity
  pub largest : (n : ℕ) → n ≤ room → n * ratio_div ≤ capacity → n ≤ amount

min-IsLargest :
    (room capacity ratio_div : ℕ)
    → 0 < ratio_div
    → IsLargest room capacity ratio_div (min room (capacity / ratio_div))
min-IsLargest room capacity v h = record {
  fits_room = omega arith;
  fits = (le-div_iff_mul-le {k = v} {x = min room (capacity / v)} {y = capacity} h).0 (omega arith);
  largest =
      λ n within held. omega (arith, (le-div_iff_mul-le {k = v} {x = n} {y = capacity} h).1 held);
}

module _ (free easy : ℕ) (adjusted : ℤ) where
  -- The part of the free swap that is not RAM Plus swap.
  split :
      (d ratio ratio_div : ℕ)
      → 0 < d
      → 0 < ratio
      → 0 < ratio_div
      → d < 2 ^ 63
      → free < 2 ^ 63
      → easy * ratio < 2 ^ 63
      → lmkd_adjust_free_swap_hook
          (record { swap_kb = pos d })
          (pos free)
          (pos easy)
          (pos ratio)
          (pos ratio_div)
          adjusted
        ≡ some (pos (min free d + min (free - d) (easy * ratio / ratio_div)))
  unfolding lmkd_adjust_free_swap_hook
  split d ratio ratio_div hd hr hv small available fits =
      rw
        (
          max_pos d,
          positive d hd,
          positive ratio hr,
          positive ratio_div hv,
          int64_sub free d available small,
          max_sub free d,
          mul_pos easy ratio,
          int64_pos (easy * ratio) fits,
          quot_pos (easy * ratio) ratio_div,
          min_pos free d,
          min_pos (free - d) (easy * ratio / ratio_div),
          add_pos (min free d) (min (free - d) (easy * ratio / ratio_div)),
        )
        (int64_pos _ (omega arith))

  -- What the hook answers, from the sizes and the ratio that are above 0.
  abbrev pub Counts : (d ratio ratio_div : ℕ) → Option ℤ → Type 0
  Counts d ratio ratio_div r =
      if d == 0 || (ratio == 0 || ratio_div == 0)
      then r ≡ some adjusted
      else ((amount : ℕ) × IsLargest (free - d) (easy * ratio) ratio_div amount
          × (r ≡ some (pos (min free d + amount))))

  -- For free swap and available memory that are not negative and 64-bit numbers whose product does not
  -- overflow: without RAM Plus swap, or with a ratio that is not of two positive numbers, the answer is
  -- the one that was passed in; else it is the free swap up to the RAM Plus swap and, of the rest, the
  -- largest amount that the easily available memory holds when it is compressed.
  pub lmkd_adjust_free_swap_hook-largest :
      (swap_kb ratio ratio_div : ℤ)
      → pos_part swap_kb < 2 ^ 63
      → free < 2 ^ 63
      → easy * pos_part ratio < 2 ^ 63
      → Counts (pos_part swap_kb) (pos_part ratio) (pos_part ratio_div) (
          lmkd_adjust_free_swap_hook
            (record { swap_kb = swap_kb })
            (pos free)
            (pos easy)
            ratio
            ratio_div
            adjusted)
  unfolding lmkd_adjust_free_swap_hook
  lmkd_adjust_free_swap_hook-largest (negsuc n) ratio ratio_div small available fits =
      rw (max_neg n) refl
  lmkd_adjust_free_swap_hook-largest (pos zero) ratio ratio_div small available fits = refl
  lmkd_adjust_free_swap_hook-largest (pos (suc d)) (negsuc n) ratio_div small available fits =
      rw (max_pos (suc d), positive (suc d) (omega arith), nonzero d, not_positive n) refl
  lmkd_adjust_free_swap_hook-largest (pos (suc d)) (pos zero) ratio_div small available fits =
      rw (max_pos (suc d), positive (suc d) (omega arith), nonzero d) refl
  lmkd_adjust_free_swap_hook-largest (pos (suc d)) (pos (suc r)) (negsuc n) small available fits =
      rw
        (
          max_pos (suc d),
          positive (suc d) (omega arith),
          nonzero d,
          positive (suc r) (omega arith),
          nonzero r,
          not_positive n,
        )
        refl
  lmkd_adjust_free_swap_hook-largest (pos (suc d)) (pos (suc r)) (pos zero) small available fits =
      rw
        (
          max_pos (suc d),
          positive (suc d) (omega arith),
          nonzero d,
          positive (suc r) (omega arith),
          nonzero r,
        )
        refl
  lmkd_adjust_free_swap_hook-largest (pos (suc d)) (pos (suc r)) (pos (suc v)) small available
        fits =
      rw (nonzero d, nonzero r, nonzero v)
        (
          min (free - suc d) (easy * suc r / suc v),
          min-IsLargest (free - suc d) (easy * suc r) (suc v) (omega arith),
          split (suc d) (suc r) (suc v) (omega arith) (omega arith) (omega arith) small available
              fits,
        )
