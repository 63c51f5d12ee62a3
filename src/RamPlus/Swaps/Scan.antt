-- ===== src/RamPlus/Swaps/Scan.antt =====
-- What each extraction does at the front of a printed text.
use android_device_axion_com.Base.{
  ℕ, zero, suc, ◌^◌, ◌≤◌, ◌<◌, ◌≡◌, refl, sym, ap, ◌∙◌, arith, true, false, some, [], ◌∷◌, ◌++◌,
  All, length, ◌==◌, Bytes, Bool, decimal_onto, is_digit, read_digits, decimal_onto-digit,
  read_digits-decimal_onto,
}
use android_device_axion_com.RamPlus.Swaps.{
  is_space, skip_space, span_word, read_word, read_unsigned, read_signed,
}
use android_device_axion_com.RamPlus.Swaps.Rows.{IsBlank, IsInk, IsWord}

pub skip_space-append : (gap t : Bytes) → All IsBlank gap → skip_space (gap ++ t) ≡ skip_space t
unfolding skip_space
skip_space-append [] t h = refl
skip_space-append (c ∷ cs) t (blank, h) = rw (blank, skip_space-append cs t h) refl

pub skip_space-ink : (c : ℕ) (t : Bytes) → IsInk c → skip_space (c ∷ t) ≡ c ∷ t
unfolding skip_space
skip_space-ink c t ink = rw ink refl

span_word-append :
    (n : ℕ) (w : Bytes) (g : ℕ) (t : Bytes)
    → All IsInk w
    → length w ≤ n
    → IsBlank g
    → span_word n (w ++ g ∷ t) ≡ (w, g ∷ t)
unfolding span_word
span_word-append zero [] g t ink short blank = refl
span_word-append (suc n) [] g t ink short blank = rw blank refl
span_word-append zero (c ∷ cs) g t ink short blank = absurd (omega arith)
span_word-append (suc n) (c ∷ cs) g t (ink, inks) short blank =
    rw (ink, span_word-append n cs g t inks (omega arith) blank) refl

-- A word that a blank ends is read whole.
pub read_word-append :
    (n limit : ℕ) (w : Bytes) (g : ℕ) (t : Bytes)
    → IsWord n w
    → n ≤ limit
    → IsBlank g
    → read_word limit (w ++ g ∷ t) ≡ some (w, g ∷ t)
unfolding read_word
read_word-append n limit [] g t h fits blank = absurd (h.some_byte refl)
read_word-append n limit (c ∷ cs) g t h fits blank =
    rw
      (
        skip_space-ink c (cs ++ g ∷ t) h.ink.0,
        span_word-append limit (c ∷ cs) g t h.ink (omega (arith, h.short)) blank,
      )
      refl

pub read_digits-end : (n g : ℕ) (t : Bytes) → IsBlank g → read_digits n (g ∷ t) ≡ (n, g ∷ t)
unfolding read_digits is_digit is_space
read_digits-end n g t blank = ground arith

digit-IsInk : (c : ℕ) → is_digit c ≡ true → IsInk c
unfolding is_digit is_space
digit-IsInk c d = ground arith

read_unsigned-digits :
    (b : Bool) (c : ℕ) (cs : Bytes) (n : ℕ) (rest : Bytes)
    → is_digit c ≡ true
    → read_digits 0 (c ∷ cs) ≡ (n, rest)
    → read_unsigned b (c ∷ cs) ≡ some (b, n, rest)
unfolding read_unsigned
read_unsigned-digits b c cs n rest d back = rw (d, back) refl

read_signed-digits :
    (c : ℕ) (cs : Bytes) (n : ℕ) (rest : Bytes)
    → is_digit c ≡ true
    → read_digits 0 (c ∷ cs) ≡ (n, rest)
    → read_signed (c ∷ cs) ≡ some (false, n, rest)
unfolding read_signed
read_signed-digits c cs n rest d back =
    let minus : (c == b'-') ≡ false = unfold is_digit in ground arith in
    let plus : (c == b'+') ≡ false = unfold is_digit in ground arith in
    rw (minus, plus) (read_unsigned-digits false c cs n rest d back)

-- A printed number that a blank ends is read back.
pub read_signed-decimal_onto :
    (n g : ℕ) (t : Bytes)
    → n < 10 ^ 20
    → IsBlank g
    → read_signed (skip_space (decimal_onto 20 n (g ∷ t))) ≡ some (false, n, g ∷ t)
read_signed-decimal_onto n g t h blank =
    let (c, cs, e, d) = decimal_onto-digit 19 n (g ∷ t) h in
    let back : read_digits 0 (c ∷ cs) ≡ (n, g ∷ t) =
      ap (read_digits 0) (sym e)
      ∙ read_digits-decimal_onto 19 n (g ∷ t) h
      ∙ read_digits-end n g t blank in
    rw (e, skip_space-ink c cs (digit-IsInk c d)) (read_signed-digits c cs n (g ∷ t) d back)

pub read_signed-minus :
    (n g : ℕ) (t : Bytes)
    → n < 10 ^ 20
    → IsBlank g
    → read_signed (skip_space (b'-' ∷ decimal_onto 20 n (g ∷ t))) ≡ some (true, n, g ∷ t)
unfolding read_signed
read_signed-minus n g t h blank =
    let (c, cs, e, d) = decimal_onto-digit 19 n (g ∷ t) h in
    let back : read_digits 0 (c ∷ cs) ≡ (n, g ∷ t) =
      ap (read_digits 0) (sym e)
      ∙ read_digits-decimal_onto 19 n (g ∷ t) h
      ∙ read_digits-end n g t blank in
    rw (skip_space-ink b'-' (decimal_onto 20 n (g ∷ t)) (unfold is_space in refl), e)
      (read_unsigned-digits true c cs n (g ∷ t) d back)
