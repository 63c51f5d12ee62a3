-- ===== src/Base/Pow.antt =====
-- Powers of two at variable exponents, and the position of the highest one bit.
use Prim.Native.Nat.{ℕ, zero, suc, ◌+◌, ◌*◌, ◌/◌, ◌^◌, ◌≤◌, ◌<◌}
use mathlib.Core.Path.{◌≡◌, ap}
use native.Mathlib.Nat.{pow-suc, one-le-pow, add-zero, pow-le-pow_right, div-mul-le_self}
use native.Mathlib.Nat.{le-div_iff_mul-le}
use native.Mathlib.Omega.{arith}

pub two_pow-pos : (n : ℕ) → 0 < 2 ^ n
two_pow-pos n = one-le-pow n 2 (omega arith)

pub two_pow-add : (a b : ℕ) → 2 ^ (a + b) ≡ 2 ^ a * 2 ^ b
two_pow-add a zero = rw add-zero (omega arith)
two_pow-add a (suc b) =
    let e : a + suc b ≡ suc (a + b) = omega arith in
    rw e (
      omega (
        arith,
        pow-suc 2 (a + b),
        ap (λ (t : ℕ). t * 2) (two_pow-add a b),
        pow-suc 2 b,
        ap (λ (t : ℕ). 2 ^ a * t) (pow-suc 2 b),
      ))

pub two_pow-le : (a b : ℕ) → a ≤ b → 2 ^ a ≤ 2 ^ b
two_pow-le a b h = pow-le-pow_right (omega arith) h

-- Division keeps the order of the dividends.
pub div-le-div : (a b : ℕ) (c : ℕ) → 0 < c → a ≤ b → a / c ≤ b / c
div-le-div a b c pos h = (le-div_iff_mul-le pos).1 (omega (arith, div-mul-le_self a c))
