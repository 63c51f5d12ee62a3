-- ===== src/Kernel/Seq.antt =====
-- Pages of /proc that a module prints with `seq_printf`, a kernel function that is not in the repository:
-- how it prints a number is an interface. The reader is the inverse that a page's user needs.
use mathlib.Core.List.{append_assoc}
use android_device_axion_com.Base.{
  ℕ, suc, ◌-◌, ◌^◌, ◌<◌, ◌≡◌, refl, sym, ap, ◌∙◌, arith, ℤ, pos, negsuc, neg_ℤ, ◌≤ℤ◌, ◌<ℤ◌, false,
  Option, none, some, [], ◌∷◌, ◌++◌, ◌==◌, ==_self, if◌then◌else◌, Bytes, is_digit, read_digits,
  decimal_onto, int_onto, decimal_onto-digit, read_digits-decimal_onto, read_digits-stop,
  int_onto-append,
}

-- What `%u` prints, and what `%d`, `%ld` and `%lld` print.
pub record Printf : Type 0 where
  pub print_u : ℕ → Bytes
  pub print_d : ℤ → Bytes

-- A number of the conversion's type is printed in decimal digits, behind a sign if it is negative.
pub record IsPrintf (f : Printf) : Type 0 where
  pub unsigned : (n : ℕ) → n < 2 ^ 32 → f.print_u n ≡ int_onto (pos n) []
  pub signed : (z : ℤ) → negsuc (2 ^ 63 - 1) ≤ℤ z → z <ℤ pos (2 ^ 63) → f.print_d z ≡ int_onto z []

-- A line that is printed: a label, a number, and what ends the line.
unfoldable pub line : Bytes → Bytes → Bytes → Bytes
line label number end = label ++ (number ++ end)

-- The text behind a prefix, if it stands there.
unfoldable pub after : Bytes → Bytes → Option Bytes
after [] t = some t
after (x ∷ xs) [] = none
after (x ∷ xs) (y ∷ ys) = let rest = after xs ys in if x == y then rest else none

infixl 5 ◌>>=◌
unfoldable pub ◌>>=◌ {ℓ κ} : {A : Type ℓ} {B : Type κ} → Option A → (A → Option B) → Option B
none >>= f = none
some a >>= f = f a

-- The integer whose digits stand first.
unfoldable pub read_ℤ : Bytes → ℤ × Bytes
read_ℤ [] = (pos 0, [])
read_ℤ (c ∷ cs) =
    if c == b'-'
    then (neg_ℤ (pos (read_digits 0 cs).0), (read_digits 0 cs).1)
    else (pos (read_digits 0 (c ∷ cs)).0, (read_digits 0 (c ∷ cs)).1)

-- The number between a label and the end of its line, and the text behind the line.
unfoldable pub read_line : Bytes → Bytes → Bytes → Option (ℤ × Bytes)
read_line label end t = do
  number ← after label t
  rest ← after end (read_ℤ number).1
  some ((read_ℤ number).0, rest)

pub after-append : (p t : Bytes) → after p (p ++ t) ≡ some t
unfolding after
after-append [] t = refl
after-append (x ∷ xs) t = rw (==_self x, after-append xs t) refl

-- A number with at most 20 digits.
abbrev pub Short : ℤ → Type 0
Short z = (negsuc (10 ^ 20 - 1) <ℤ z) × (z <ℤ pos (10 ^ 20))

pub read_ℤ-int_onto :
    (z : ℤ) (c : ℕ) (t : Bytes)
    → Short z
    → is_digit c ≡ false
    → read_ℤ (int_onto z (c ∷ t)) ≡ (z, c ∷ t)
unfolding read_ℤ int_onto
read_ℤ-int_onto (pos n) c t short other =
    let (d, ds, e, digit) = decimal_onto-digit 19 n (c ∷ t) (omega (arith, short.1)) in
    let plain : (d == b'-') ≡ false = unfold is_digit in ground arith in
    let back : read_digits 0 (d ∷ ds) ≡ (n, c ∷ t) =
      ap (read_digits 0) (sym e)
      ∙ read_digits-decimal_onto 19 n (c ∷ t) (omega (arith, short.1))
      ∙ read_digits-stop n c t other in
    rw (e, plain, back) refl
read_ℤ-int_onto (negsuc n) c t short other =
    let back : read_digits 0 (decimal_onto 20 (suc n) (c ∷ t)) ≡ (suc n, c ∷ t) =
      read_digits-decimal_onto 19 (suc n) (c ∷ t) (omega (arith, short.0))
      ∙ read_digits-stop (suc n) c t other in
    let minus : neg_ℤ (pos (suc n)) ≡ negsuc n = ground arith in
    rw back (ap (λ (w : ℤ). (w, c ∷ t)) minus)

-- A line with a number of at most 20 digits is read back, if no digit follows the number.
pub read_line-line :
    (label : Bytes) (z : ℤ) (number : Bytes) (c : ℕ) (end rest : Bytes)
    → number ≡ int_onto z []
    → Short z
    → is_digit c ≡ false
    → read_line label (c ∷ end) (line label number (c ∷ end) ++ rest) ≡ some (z, rest)
unfolding read_line line ◌>>=◌
read_line-line label z number c end rest printed short other =
    rw
      (
        printed,
        append_assoc label (int_onto z [] ++ c ∷ end) rest,
        after-append label ((int_onto z [] ++ c ∷ end) ++ rest),
        append_assoc (int_onto z []) (c ∷ end) rest,
        sym (int_onto-append z [] (c ∷ (end ++ rest))),
        read_ℤ-int_onto z c (end ++ rest) short other,
        after-append (c ∷ end) rest,
      )
      refl

-- A step that succeeds, and what the next makes of its result.
pub >>=_step {ℓ κ} :
    {A : Type ℓ} {B : Type κ} (o : Option A) (g : A → Option B) {a : A} {r : Option B}
    → o ≡ some a
    → g a ≡ r
    → (o >>= g) ≡ r
unfolding ◌>>=◌
>>=_step o g e h = rw e h
