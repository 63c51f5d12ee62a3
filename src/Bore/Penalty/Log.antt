-- ===== src/Bore/Penalty/Log.antt =====
-- `log2p1_u64_u32fp` at its only precision, 8 bits: a fixed-point logarithm.
use native.Mathlib.Nat.{
  mul-div-mul_right, pow-suc, mul-lt-mul_of_pos_right, add-sub_of_le, mul_comm,
}
use native.Mathlib.Nat.{div-lt_iff_lt-mul}
use android_device_axion_com.Base.{
  ℕ, zero, suc, ◌+◌, ◌-◌, ◌*◌, ◌/◌, ◌^◌, ◌≤◌, ◌<◌, ◌≡◌, refl, ap, ap₂, false, ◌∙◌, sym, arith, ◌==◌,
  inl, inr, Bool-cases, leb, leb→le, ==_iff, bit_or, bit_or_fields, u32, u64, two_pow-pos,
  two_pow-add, two_pow-le, div-le-div,
}
use android_device_axion_com.Bore.Penalty.{bit_length, clz64, log2p1_u64_u32fp}

-- `v` lies in the octave of 2 ^ e.
pub record InOctave (e v : ℕ) : Type 0 where
  pub low : 2 ^ e ≤ v
  pub high : v < 2 ^ suc e

bit_length-suc : (f v : ℕ) → 0 < v → bit_length (suc f) v ≡ suc (bit_length f (v / 2))
unfolding bit_length
bit_length-suc f v h = ground arith

bit_length-zero : (f : ℕ) → bit_length f 0 ≡ 0
unfolding bit_length
bit_length-zero zero = refl
bit_length-zero (suc f) = refl

half-octave : (e v : ℕ) → InOctave e (v / 2) → InOctave (suc e) v
half-octave e v o = record {
  low = omega (arith, pow-suc 2 e, o.low);
  high = omega (arith, pow-suc 2 (suc e), o.high);
}

-- The octave of a positive number.
pub octave : (f v : ℕ) → 0 < v → v < 2 ^ f → (e : ℕ) × (e < f) × InOctave e v
octave zero v pos h = absurd (omega arith)
octave (suc f) v pos h = elim (Bool-cases (v == 1)) [
  | inl one ↦ (0, omega arith, record { low = ground arith; high = ground arith })
  | inr more ↦
      let (e, lt, o) = octave f (v / 2) (ground arith) (omega (arith, pow-suc 2 f)) in
      (suc e, omega arith, half-octave e v o)
]

octave-half : (e v : ℕ) → InOctave (suc e) v → InOctave e (v / 2)
octave-half e v o = record {
  low = omega (arith, pow-suc 2 e, o.low);
  high = omega (arith, pow-suc 2 (suc e), o.high);
}

octave-pos : (e v : ℕ) → InOctave e v → 0 < v
octave-pos e v o = omega (arith, two_pow-pos e, o.low)

-- `bit_length` finds the octave.
bit_length-octave : (f e v : ℕ) → e < f → InOctave e v → bit_length f v ≡ suc e
bit_length-octave zero e v lt o = absurd (omega arith)
bit_length-octave (suc f) zero v lt o =
    let one : v / 2 ≡ 0 = omega (arith, o.high) in
    bit_length-suc f v (octave-pos zero v o) ∙ ap suc (rw one (bit_length-zero f))
bit_length-octave (suc f) (suc e) v lt o =
    bit_length-suc f v (octave-pos (suc e) v o)
    ∙ ap suc (bit_length-octave f e (v / 2) (omega arith) (octave-half e v o))

-- Shifting the highest bit of `v` out of 64 bits leaves the fraction.
module _ (e k v : ℕ) (o : InOctave e v) (full : e + k ≡ 63) where
  split : 2 ^ e * 2 ^ k ≡ 2 ^ 63
  split = sym (two_pow-add e k) ∙ ap (λ (t : ℕ). 2 ^ t) full

  shifted-lt : v * 2 ^ k < 2 ^ 64
  shifted-lt = omega (
    arith,
    split,
    mul-lt-mul_of_pos_right o.high (two_pow-pos k),
    ap (λ (t : ℕ). t * 2 ^ k) (pow-suc 2 e),
  )

  rest-mul : v * 2 ^ k ≡ (v - 2 ^ e) * 2 ^ k + 2 ^ 63
  rest-mul = omega (arith, split, ap (λ (t : ℕ). t * 2 ^ k) (add-sub_of_le o.low))

  fraction_bits : u64 (u64 (v * 2 ^ k) * 2) ≡ (v - 2 ^ e) * 2 ^ k * 2
  fraction_bits = omega (arith, shifted-lt, rest-mul)

  fraction : (v - 2 ^ e) * 2 ^ k * 2 / 2 ^ 56 ≡ (v - 2 ^ e) * 256 / 2 ^ e
  fraction =
      sym (mul-div-mul_right ((v - 2 ^ e) * 2 ^ k * 2) (2 ^ 56) (two_pow-pos e))
      ∙ ap₂ ◌/◌ (omega (arith, ap (λ (t : ℕ). (v - 2 ^ e) * t) split)) (mul_comm (2 ^ 56) (2 ^ e))
      ∙ mul-div-mul_right ((v - 2 ^ e) * 256) (2 ^ e) (two_pow-pos 56)

  fraction-lt : (v - 2 ^ e) * 256 / 2 ^ e < 256
  fraction-lt = (div-lt_iff_lt-mul (two_pow-pos e)).1 (omega (arith, o.high, pow-suc 2 e))

  clz : bit_length 64 v ≡ suc e → clz64 v ≡ k
  unfolding clz64
  clz found = omega arith

  assemble : (m : ℕ) → m < 256 → bit_or (u32 ((64 - k) * 2 ^ 8)) (u32 m) ≡ (e + 1) * 256 + m
  assemble m small =
      let whole : u32 ((64 - k) * 2 ^ 8) ≡ (e + 1) * 2 ^ 8 = omega arith in
      let part : u32 m ≡ m = omega arith in rw (whole, part) (bit_or_fields 8 (e + 1) m small)

  -- The logarithm of `v`, base two and rounded down to 8 binary places, plus one.
  log2p1_lem :
      bit_length 64 v ≡ suc e → log2p1_u64_u32fp v 8 ≡ (e + 1) * 256 + (v - 2 ^ e) * 256 / 2 ^ e
  unfolding log2p1_u64_u32fp
  log2p1_lem found =
      let positive : (v == 0) ≡ false = ground (arith, o.low, two_pow-pos e) in
      rw (positive, clz found, fraction_bits, fraction) (assemble _ fraction-lt)

-- Of a number of 64 bits in the octave of 2 ^ e, the logarithm is e + 1 and the fraction of the octave
-- that lies below the number, rounded down to 8 binary places.
pub log2p1-octave :
    (e v : ℕ)
    → e < 64
    → InOctave e v
    → log2p1_u64_u32fp v 8 ≡ (e + 1) * 256 + (v - 2 ^ e) * 256 / 2 ^ e
log2p1-octave e v small o =
    log2p1_lem e (63 - e) v o (omega arith) (bit_length-octave 64 e v small o)

log2p1-zero : log2p1_u64_u32fp 0 8 ≡ 0
unfolding log2p1_u64_u32fp
log2p1-zero = refl

-- The value lies within the octave's 256 steps.
log2p1_range :
    (e v : ℕ)
    → e < 64
    → InOctave e v
    → ((e + 1) * 256 ≤ log2p1_u64_u32fp v 8) × (log2p1_u64_u32fp v 8 < (e + 2) * 256)
log2p1_range e v small o =
    let top = fraction-lt e (63 - e) v o (omega arith) in
    rw (log2p1-octave e v small o) (omega arith, omega arith)

pub log2p1-lt : (v : ℕ) → v < 2 ^ 64 → log2p1_u64_u32fp v 8 < 16640
log2p1-lt zero h = omega (arith, log2p1-zero)
log2p1-lt (suc n) h =
    let (e, lt, o) = octave 64 (suc n) (omega arith) h in omega (arith, log2p1_range e (suc n) lt o)

octave-le : (d e v w : ℕ) → InOctave d v → InOctave e w → v ≤ w → d ≤ e
octave-le d e v w o o' h = elim (Bool-cases (leb d e)) [
  | inl below ↦ leb→le d e below
  | inr above ↦ absurd (omega (arith, two_pow-le (suc e) d (ground arith), o.low, o'.high))
]

log2p1_mono_pos :
    (d e v w : ℕ)
    → d < 64
    → e < 64
    → InOctave d v
    → InOctave e w
    → v ≤ w
    → log2p1_u64_u32fp v 8 ≤ log2p1_u64_u32fp w 8
log2p1_mono_pos d e v w dl el o o' h = elim (Bool-cases (d == e)) [
  | inl same ↦
      let eq : e ≡ d = sym ((==_iff d e).0 same) in
      let o'' : InOctave d w = rw (← eq) o' in
      rw (log2p1-octave d v dl o, log2p1-octave d w dl o'')
        (omega (
          arith,
          div-le-div ((v - 2 ^ d) * 256) ((w - 2 ^ d) * 256) (2 ^ d) (two_pow-pos d) (omega arith),
        ))
  | inr other ↦
      let below : d < e = ground (arith, octave-le d e v w o o' h) in
      omega (arith, log2p1_range d v dl o, log2p1_range e w el o')
]

-- The logarithm does not fall as its argument grows.
pub log2p1_mono : (v w : ℕ) → w < 2 ^ 64 → v ≤ w → log2p1_u64_u32fp v 8 ≤ log2p1_u64_u32fp w 8
log2p1_mono zero w h le = omega (arith, log2p1-zero)
log2p1_mono (suc n) zero h le = absurd (omega arith)
log2p1_mono (suc n) (suc m) h le =
    let (d, dl, o) = octave 64 (suc n) (omega arith) (omega arith) in
    let (e, el, o') = octave 64 (suc m) (omega arith) h in
    log2p1_mono_pos d e (suc n) (suc m) dl el o o' le
