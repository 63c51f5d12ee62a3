-- ===== src/RamPlus/Swaps/Fields.antt =====
-- Each field of a printed row is read back, behind a gap.
use android_device_axion_com.Base.{
  ℕ, suc, ◌-◌, ◌^◌, ◌≤◌, ◌<◌, ◌≡◌, refl, ap, ◌∙◌, arith, ℤ, pos, negsuc, ◌≤ℤ◌, ◌<ℤ◌, true, some,
  ◌∷◌, ◌++◌, ltb, leb, Bytes, decimal_onto, int_onto,
}
use android_device_axion_com.RamPlus.Swaps.{
  skip_space, read_word, read_uint64, read_int, word_of, span_word,
}
use android_device_axion_com.RamPlus.Swaps.Rows.{Gap, gap_onto, IsBlank, IsGap, IsWord}
use android_device_axion_com.RamPlus.Swaps.Scan.{
  skip_space-append, read_word-append, read_signed-decimal_onto, read_signed-minus,
}

skip_space-gap : (g : Gap) (t : Bytes) → IsGap g → skip_space (gap_onto g t) ≡ skip_space t
skip_space-gap g t (blank, more) = skip_space-append (g.first ∷ g.more) t (blank, more)

pub read_word-gap :
    (n limit : ℕ) (g : Gap) (w : Bytes) (e : ℕ) (t : Bytes)
    → IsGap g
    → IsWord n w
    → n ≤ limit
    → IsBlank e
    → read_word limit (gap_onto g (w ++ e ∷ t)) ≡ some (w, e ∷ t)
unfolding read_word
read_word-gap n limit g w e t gap word fits blank =
    ap (λ (s : Bytes). word_of (span_word limit s)) (skip_space-gap g (w ++ e ∷ t) gap)
    ∙ read_word-append n limit w e t word fits blank

pub read_uint64-gap :
    (g : Gap) (n e : ℕ) (t : Bytes)
    → IsGap g
    → n < 2 ^ 63
    → IsBlank e
    → read_uint64 (gap_onto g (decimal_onto 20 n (e ∷ t))) ≡ some (n, e ∷ t)
unfolding read_uint64
read_uint64-gap g n e t gap small blank =
    let fits : ltb n (2 ^ 64) ≡ true = ground arith in
    rw
      (
        read_uint64,
        skip_space-gap g (decimal_onto 20 n (e ∷ t)) gap,
        read_signed-decimal_onto n e t (omega arith) blank,
        fits,
      )
      refl

pub read_int-gap :
    (g : Gap) (n e : ℕ) (t : Bytes)
    → IsGap g
    → n < 2 ^ 63
    → IsBlank e
    → read_int 63 (gap_onto g (decimal_onto 20 n (e ∷ t))) ≡ some (pos n, e ∷ t)
unfolding read_int
read_int-gap g n e t gap small blank =
    let fits : ltb n (2 ^ 63) ≡ true = ground arith in
    rw
      (
        read_int,
        skip_space-gap g (decimal_onto 20 n (e ∷ t)) gap,
        read_signed-decimal_onto n e t (omega arith) blank,
        fits,
      )
      refl

pub read_int-int_onto :
    (g : Gap) (z : ℤ) (e : ℕ) (t : Bytes)
    → IsGap g
    → negsuc (2 ^ 31 - 1) ≤ℤ z
    → z <ℤ pos (2 ^ 31)
    → IsBlank e
    → read_int 31 (gap_onto g (int_onto z (e ∷ t))) ≡ some (z, e ∷ t)
unfolding read_int int_onto
read_int-int_onto g (pos n) e t gap low high blank =
    let fits : ltb n (2 ^ 31) ≡ true = ground arith in
    rw
      (
        read_int,
        skip_space-gap g (decimal_onto 20 n (e ∷ t)) gap,
        read_signed-decimal_onto n e t (omega arith) blank,
        fits,
      )
      refl
read_int-int_onto g (negsuc n) e t gap low high blank =
    let fits : leb (suc n) (2 ^ 31) ≡ true = ground arith in
    rw
      (
        read_int,
        skip_space-gap g (b'-' ∷ decimal_onto 20 (suc n) (e ∷ t)) gap,
        read_signed-minus (suc n) e t (omega arith) blank,
        fits,
      )
      (ground arith)
