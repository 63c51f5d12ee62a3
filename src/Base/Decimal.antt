-- ===== src/Base/Decimal.antt =====
-- Numbers in decimal digits: how they are printed, and the digits read back.
use Prim.Native.Nat.{ℕ, zero, suc, ◌+◌, ◌-◌, ◌*◌, ◌/◌, ◌%◌, ◌^◌, ◌<◌}
use native.Mathlib.Nat.{pow-suc}
use mathlib.Core.Path.{◌≡◌, refl, ap, ◌∙◌}
use mathlib.Core.Logic.{inl, inr}
use mathlib.Core.Bool.{Bool, true, false, ◌&&◌}
use mathlib.Core.List.{[], ◌∷◌, ◌++◌}
use native.Mathlib.Omega.{arith}
use android_device_axion_com.Base.Tests.{ltb, leb, if◌then◌else◌, Bool-cases}
use android_device_axion_com.Base.Int.{ℤ, pos, negsuc}
use android_device_axion_com.Base.Texts.{Bytes}

-- A number in decimal digits, before a tail. Twenty digits are enough for 64 bits.
unfoldable pub decimal_onto : ℕ → ℕ → Bytes → Bytes
decimal_onto zero n tail = tail
decimal_onto (suc f) n tail = elim (ltb n 10) [
  | true ↦ (n + b'0') ∷ tail
  | false ↦ decimal_onto f (n / 10) ((n % 10 + b'0') ∷ tail)
]

unfoldable pub int_onto : ℤ → Bytes → Bytes
int_onto (pos n) tail = decimal_onto 20 n tail
int_onto (negsuc n) tail = b'-' ∷ decimal_onto 20 (suc n) tail

unfoldable pub is_digit : ℕ → Bool
is_digit c = leb b'0' c && leb c b'9'

unfoldable pub read_digits : ℕ → Bytes → ℕ × Bytes
read_digits v [] = (v, [])
read_digits v (c ∷ cs) =
    let on : ℕ × Bytes = read_digits (v * 10 + (c - b'0')) cs in
    if is_digit c then on else (v, c ∷ cs)

decimal_onto-small :
    (f n : ℕ) (t : Bytes) → ltb n 10 ≡ true → decimal_onto (suc f) n t ≡ (n + b'0') ∷ t
unfolding decimal_onto
decimal_onto-small f n t h = rw (decimal_onto, h) refl

decimal_onto-large :
    (f n : ℕ) (t : Bytes)
    → ltb n 10 ≡ false
    → decimal_onto (suc f) n t ≡ decimal_onto f (n / 10) ((n % 10 + b'0') ∷ t)
unfolding decimal_onto
decimal_onto-large f n t h = rw (decimal_onto, h) refl

-- A printed number begins with a digit.
pub decimal_onto-digit :
    (f n : ℕ) (t : Bytes)
    → n < 10 ^ suc f
    → (c : ℕ) × (cs : Bytes) × (decimal_onto (suc f) n t ≡ c ∷ cs) × (is_digit c ≡ true)
unfolding is_digit
decimal_onto-digit zero n t h = (n + b'0', t, decimal_onto-small 0 n t (ground arith), ground arith)
decimal_onto-digit (suc f) n t h = elim (Bool-cases (ltb n 10)) [
  | inl small ↦ (n + b'0', t, decimal_onto-small (suc f) n t small, ground arith)
  | inr large ↦
      let (c, cs, e, d) =
        decimal_onto-digit f (n / 10) ((n % 10 + b'0') ∷ t) (omega (arith, pow-suc 10 (suc f))) in
      (c, cs, decimal_onto-large (suc f) n t large ∙ e, d)
]

read_digits-digit :
    (v d : ℕ) (t : Bytes) → d < 10 → read_digits v ((d + b'0') ∷ t) ≡ read_digits (v * 10 + d) t
unfolding read_digits is_digit
read_digits-digit v d t h = ground arith

read_digits-first : (d : ℕ) (t : Bytes) → d < 10 → read_digits 0 ((d + b'0') ∷ t) ≡ read_digits d t
read_digits-first d t h =
    let plain : 0 * 10 + d ≡ d = omega arith in
    read_digits-digit 0 d t h ∙ ap (λ (v : ℕ). read_digits v t) plain

-- The digits of a number are read back, before more of them.
pub read_digits-decimal_onto :
    (f n : ℕ) (t : Bytes)
    → n < 10 ^ suc f
    → read_digits 0 (decimal_onto (suc f) n t) ≡ read_digits n t
read_digits-decimal_onto zero n t h =
    rw (decimal_onto-small 0 n t (ground arith)) (read_digits-first n t (ground arith))
read_digits-decimal_onto (suc f) n t h = elim (Bool-cases (ltb n 10)) [
  | inl small ↦ rw (decimal_onto-small (suc f) n t small) (read_digits-first n t (ground arith))
  | inr large ↦
      let whole : n / 10 * 10 + n % 10 ≡ n = omega arith in
      rw (decimal_onto-large (suc f) n t large) (
        read_digits-decimal_onto f (n / 10) ((n % 10 + b'0') ∷ t)
          (omega (arith, pow-suc 10 (suc f)))
        ∙ read_digits-digit (n / 10) (n % 10) t (omega arith)
        ∙ ap (λ (v : ℕ). read_digits v t) whole)
]

-- Other bytes end the digits.
pub read_digits-stop :
    (n c : ℕ) (t : Bytes) → is_digit c ≡ false → read_digits n (c ∷ t) ≡ (n, c ∷ t)
unfolding read_digits
read_digits-stop n c t other = rw other refl

-- What follows a number may be printed later.
pub decimal_onto-append :
    (f n : ℕ) (s t : Bytes) → decimal_onto f n (s ++ t) ≡ decimal_onto f n s ++ t
unfolding decimal_onto
decimal_onto-append zero n s t = refl
decimal_onto-append (suc f) n s t = elim (Bool-cases (ltb n 10)) [
  | inl small ↦ rw (decimal_onto, small) refl
  | inr large ↦ rw (decimal_onto, large) (decimal_onto-append f (n / 10) ((n % 10 + b'0') ∷ s) t)
]

pub int_onto-append : (z : ℤ) (s t : Bytes) → int_onto z (s ++ t) ≡ int_onto z s ++ t
unfolding int_onto
int_onto-append (pos n) s t = decimal_onto-append 20 n s t
int_onto-append (negsuc n) s t = ap (λ (u : Bytes). b'-' ∷ u) (decimal_onto-append 20 (suc n) s t)
