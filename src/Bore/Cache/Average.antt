-- ===== src/Bore/Cache/Average.antt =====
-- Multiplying by a reciprocal from the table divides exactly.
use native.Mathlib.Nat.{
  div-add-mod, mod-lt, mul-le-mul, div-one, div-le_self, div-lt_iff_lt-mul, lt_of_mul-lt-mul_right,
}
use android_device_axion_com.Base.{
  ℕ, zero, suc, ◌+◌, ◌-◌, ◌*◌, ◌/◌, ◌%◌, ◌^◌, ◌≤◌, ◌<◌, ◌≡◌, sym, arith, inl, inr, ◌∙◌, ◌==◌,
  ==_iff, Bool-cases, u32, u64, ap,
}
use android_device_axion_com.Bore.Cache.{Lut, fill_lut, init_bore_reciprocal_lut, average_penalty}

reciprocal_fits :
    (i : ℕ)
    → i < 2 ^ 32
    → (0xffffffff + i) / i < 2 ^ 32
    → u32 (u64 (0xffffffff + i) / i) ≡ (0xffffffff + i) / i
reciprocal_fits i small h =
    let whole : u64 (0xffffffff + i) ≡ 0xffffffff + i = omega arith in rw whole (omega arith)

-- 2 ^ 32 / i rounded up, for i > 1.
fill_lut-get :
    (n i : ℕ) (lut : Lut) → n < 2 ^ 32 → 1 < i → i ≤ n → fill_lut n lut i ≡ (0xffffffff + i) / i
unfolding fill_lut
fill_lut-get zero i lut small h le = absurd (omega arith)
fill_lut-get (suc n) i lut small h le =
    let fits : (0xffffffff + i) / i < 2 ^ 32 =
      (div-lt_iff_lt-mul {k = i} (omega arith)).1 (omega arith) in
    elim (Bool-cases (i == suc n)) [
      | inl last ↦ rw (last, ← (==_iff i (suc n)).0 last) (reciprocal_fits i (omega arith) fits)
      | inr earlier ↦ rw earlier (fill_lut-get n i lut (omega arith) h (ground arith))
    ]

-- The product of a sum with the rounded reciprocal, shifted back, is the quotient.
module _ (c total : ℕ) (low : 1 < c) (high : c ≤ 63) (fits : total < 2 ^ 26) where
  abbrev recip : ℕ
  recip = (0xffffffff + c) / c

  abbrev excess : ℕ
  excess = c - 1 - (0xffffffff + c) % c

  recip-mul : c * recip ≡ 2 ^ 32 + excess
  recip-mul =
      omega (arith, div-add-mod (0xffffffff + c) c, mod-lt (0xffffffff + c) {m = c} (omega arith))

  remainder-lt : (total / c) * excess + (total % c) * recip < 2 ^ 32
  remainder-lt = lt_of_mul-lt-mul_right c (
      omega (
        arith,
        ap (λ (t : ℕ). t * excess) (div-add-mod total c),
        ap (λ (t : ℕ). total % c * t) recip-mul,
        mod-lt total {m = c} (omega arith),
        total-excess,
      ))
    where
      total-excess : total * excess ≤ 2 ^ 26 * 62
      total-excess = mul-le-mul {n₂ = 2 ^ 26} {m₂ = 62} (omega arith) (omega arith)

  product : total * recip ≡ total / c * 2 ^ 32 + (total / c * excess + total % c * recip)
  product = omega (
    arith,
    ap (λ (t : ℕ). t * recip) (div-add-mod total c),
    ap (λ (t : ℕ). total / c * t) recip-mul,
  )

  exact : u32 (u64 (total * recip) / 2 ^ 32) ≡ total / c
  exact = omega (arith, product, remainder-lt, div-le_self total c)

average-none : (lut : Lut) → average_penalty (init_bore_reciprocal_lut lut) 0 0 ≡ 0
unfolding average_penalty
average-none lut = omega arith

average-pos :
    (lut : Lut) (count total : ℕ)
    → 0 < count
    → count ≤ 63
    → total < 2 ^ 26
    → average_penalty (init_bore_reciprocal_lut lut) count total ≡ total / count
unfolding average_penalty init_bore_reciprocal_lut
average-pos lut count total pos le small = elim (Bool-cases (count == 1)) [
  | inl one ↦
      rw one (sym (div-one total) ∙ ap (λ (t : ℕ). total / t) (sym ((==_iff count 1).0 one)))
  | inr many ↦
      let low : 1 < count = ground arith in
      rw (many, fill_lut-get 63 count lut (omega arith) low le) (exact count total low le small)
]

-- With the module's table, the average of up to 63 numbers of 16 bits is their sum divided by their
-- count, rounded down, and 0 when there are none.
pub average_penalty-exact :
    (lut : Lut) (count total : ℕ)
    → count ≤ 63
    → total ≤ count * 65535
    → average_penalty (init_bore_reciprocal_lut lut) count total ≡ total / count
average_penalty-exact lut zero total le small =
    let none : total ≡ 0 = omega arith in rw none (average-none lut)
average_penalty-exact lut (suc n) total le small =
    average-pos lut (suc n) total (omega arith) le (omega arith)
