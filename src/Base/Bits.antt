-- ===== src/Base/Bits.antt =====
-- `&` with a low mask, `|` of disjoint fields and the sign masks of branch-free code, as arithmetic.
use Prim.Native.Nat.{
  ℕ, zero, suc, ◌+◌, ◌-◌, ◌*◌, ◌/◌, ◌%◌, ◌^◌, ◌≤◌, ◌<◌, min, max, bit_and, bit_or,
}
use Prim.Native.Nat.{digits, bitwise, bit_and-bitwise, bit_or-bitwise}
use mathlib.Core.Path.{◌≡◌, refl, ap, ◌∙◌}
use native.Mathlib.Nat.{le_refl, pow-suc, one-le-pow}
use native.Mathlib.Omega.{arith}
use android_device_axion_com.Base.Tests.{ltb, if◌then◌else◌}
use android_device_axion_com.Base.Word.{not32, sar31}

-- The fuel of the native operations' meaning: one unit more than the first operand changes nothing.
module _ (rest : ℕ → ℕ) (op : ℕ → ℕ → ℕ) where
  one_spare : (fuel x y : ℕ) → x ≤ fuel → digits rest op (suc fuel) x y ≡ digits rest op fuel x y
  one_spare zero x y enough = let none : x ≡ 0 = omega arith in rw none
  one_spare (suc fuel) zero y enough = refl
  one_spare (suc fuel) (suc x) y enough =
      ap (λ (high : ℕ). high * 2 + op (suc x % 2) (y % 2))
        (one_spare fuel (suc x / 2) (y / 2) (omega arith))

  any_spare :
      (more fuel total x y : ℕ)
      → total ≡ more + fuel
      → x ≤ fuel
      → digits rest op total x y ≡ digits rest op fuel x y
  any_spare zero fuel total x y sum enough = let same : total ≡ fuel = omega arith in rw same
  any_spare (suc more) fuel total x y sum enough =
      let same : total ≡ suc (more + fuel) = omega arith in
      rw same (
        one_spare (more + fuel) x y (omega arith)
        ∙ any_spare more fuel (more + fuel) x y refl enough)

  lowest :
      (x y : ℕ)
      → bitwise rest op (suc x) y ≡ op (suc x % 2) (y % 2) + 2 * bitwise rest op (suc x / 2) (y / 2)
  lowest x y =
      let half = suc x / 2 in
      omega (arith, any_spare (x - half) half x half (y / 2) (omega arith) (omega arith))

bit_or_step : (x y : ℕ) → bit_or x y ≡ max (x % 2) (y % 2) + 2 * bit_or (x / 2) (y / 2)
bit_or_step zero y = omega (arith, bit_or-bitwise 0 y, bit_or-bitwise 0 (y / 2))
bit_or_step (suc x) y =
    omega
      (arith, bit_or-bitwise (suc x) y, bit_or-bitwise (suc x / 2) (y / 2), lowest (λ n. n) max x y)

bit_and_step : (x y : ℕ) → bit_and x y ≡ min (x % 2) (y % 2) + 2 * bit_and (x / 2) (y / 2)
bit_and_step zero y = omega (arith, bit_and-bitwise 0 y, bit_and-bitwise 0 (y / 2))
bit_and_step (suc x) y =
    omega (
      arith,
      bit_and-bitwise (suc x) y,
      bit_and-bitwise (suc x / 2) (y / 2),
      lowest (λ n. 0) min x y,
    )

-- Both operations with 0.
with_zero : (fuel x : ℕ) → x ≤ fuel → (bit_or x 0 ≡ x) × (bit_and x 0 ≡ 0)
with_zero fuel zero enough = (refl, refl)
with_zero zero (suc x) enough = absurd (omega arith)
with_zero (suc fuel) (suc x) enough =
    let (kept, cleared) = with_zero fuel (suc x / 2) (omega arith) in
    (omega (arith, kept, bit_or_step (suc x) 0), omega (arith, cleared, bit_and_step (suc x) 0))

pub bit_or-zero : (x : ℕ) → bit_or x 0 ≡ x
bit_or-zero x = (with_zero x x (le_refl x)).0

pub bit_and-zero : (x : ℕ) → bit_and x 0 ≡ 0
bit_and-zero x = (with_zero x x (le_refl x)).1

one_place_more : (hi w : ℕ) → hi * 2 ^ suc w ≡ hi * 2 ^ w + hi * 2 ^ w
one_place_more hi w = let power = pow-suc 2 w in omega (arith, ap (λ (n : ℕ). hi * n) power)

-- Or-ing a word of `w` bits into a number shifted by as many places adds it.
pub bit_or_fields : (w hi lo : ℕ) → lo < 2 ^ w → bit_or (hi * 2 ^ w) lo ≡ hi * 2 ^ w + lo
bit_or_fields zero hi lo small = let none : lo ≡ 0 = omega arith in ground (arith, bit_or-zero hi)
bit_or_fields (suc w) hi lo small =
    let double = one_place_more hi w in
    let top : lo / 2 < 2 ^ w = omega (arith, pow-suc 2 w) in
    ground (arith, double, bit_or_fields w hi (lo / 2) top, bit_or_step (hi * 2 ^ suc w) lo)

pub zero-bit_or : (a : ℕ) → a < 2 ^ 32 → bit_or 0 a ≡ a
zero-bit_or a h = omega (arith, bit_or_fields 32 0 a h)

masked_fields : (w hi lo : ℕ) → lo < 2 ^ w → bit_and (hi * 2 ^ w + lo) (2 ^ w - 1) ≡ lo
masked_fields zero hi lo small = rw bit_and-zero (omega arith)
masked_fields (suc w) hi lo small =
    let double = one_place_more hi w in
    let twice = pow-suc 2 w in
    let top : lo / 2 < 2 ^ w = omega (arith, twice) in
    ground (
      arith,
      double,
      twice,
      masked_fields w hi (lo / 2) top,
      bit_and_step (hi * 2 ^ suc w + lo) (2 ^ suc w - 1),
    )

-- And-ing with the mask of the lowest `w` bits leaves the remainder.
pub bit_and_mask : (w x : ℕ) → bit_and x (2 ^ w - 1) ≡ x % 2 ^ w
bit_and_mask w x = ground (arith, masked_fields w (x / 2 ^ w) (x % 2 ^ w), one-le-pow w 2)

pub bit_and_ones : (a : ℕ) → a < 2 ^ 32 → bit_and a (2 ^ 32 - 1) ≡ a
bit_and_ones a h = omega (arith, bit_and_mask 32 a)

-- x & ~(x >> 31) keeps what is not negative.
pub bit_and-not32-sar31 :
    (x : ℕ) → x < 2 ^ 32 → bit_and x (not32 (sar31 x)) ≡ (if ltb x (2 ^ 31) then x else 0)
bit_and-not32-sar31 x h = ground (arith, bit_and-zero x, bit_and_ones x h)

-- x & (x >> 31) keeps what is negative.
pub bit_and-sar31 : (x : ℕ) → x < 2 ^ 32 → bit_and x (sar31 x) ≡ (if ltb x (2 ^ 31) then 0 else x)
bit_and-sar31 x h = ground (arith, bit_and-zero x, bit_and_ones x h)
