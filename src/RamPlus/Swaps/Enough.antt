-- ===== src/RamPlus/Swaps/Enough.antt =====
-- The fuel of the loops on the rows of /proc/swaps, against the bytes that each row takes.
use android_device_axion_com.Base.{
  ℕ, zero, suc, ◌+◌, ◌*◌, ◌-◌, ◌^◌, ◌≤◌, ◌≡◌, refl, sym, ℤ, pos, Bool, true, false, Bool-cases, inl,
  inr, Option, none, some, [], ◌∷◌, length, text_eq, ltb, leb, ◌==◌, arith, if◌then◌else◌, Bytes,
  is_digit, read_digits,
}
use android_device_axion_com.RamPlus.Swaps.{
  ◌>>=◌, hooks_swap_path, is_space, skip_space, span_word, word_of, read_word, read_unsigned,
  read_signed, read_uint64, read_int, SwapEntry, read_entry, read_entries, scan_line, scan_lines,
}

-- What is read leaves at most `n` bytes, where it succeeds.
record Leaves {A : Type 0} (left : A → ℕ) (n : ℕ) (r : Option A) : Type 0 where
  pub at : (a : A) → r ≡ some a → left a ≤ n

module _ {A : Type 0} {left : A → ℕ} {n : ℕ} where
  Leaves-none : Leaves left n none
  Leaves-none = record { at = λ a e. cc }

  Leaves-some : (a : A) → left a ≤ n → Leaves left n (some a)
  Leaves-some a h = record { at = λ b e. let same : a ≡ b = cc in rw same at h }

  Leaves-if :
      (b : Bool) {x y : Option A}
      → Leaves left n x
      → Leaves left n y
      → Leaves left n (if b then x else y)
  Leaves-if true hx hy = hx
  Leaves-if false hx hy = hy

  Leaves-le : {m : ℕ} {r : Option A} → m ≤ n → Leaves left m r → Leaves left n r
  Leaves-le h l = record { at = λ a e. omega (arith, h, l.at a e) }

module _ {A B : Type 0} {left : A → ℕ} {left' : B → ℕ} {n k : ℕ} where
  Leaves-bind :
      {r : Option A} {f : A → Option B}
      → Leaves left n r
      → ((a : A) → left a ≤ n → Leaves left' k (f a))
      → Leaves left' k (r >>= f)
  Leaves-bind {r = none} h hf = Leaves-none
  Leaves-bind {r = some a} h hf = hf a (h.at a refl)

skip_space-le : (t : Bytes) → length (skip_space t) ≤ length t
unfolding skip_space
skip_space-le [] = omega arith
skip_space-le (c ∷ cs) = elim (Bool-cases (is_space c)) [
  | inl e ↦ rw e (omega (arith, skip_space-le cs))
  | inr e ↦ rw e (omega arith)
]

span_word-length :
    (n : ℕ) (t : Bytes) → length (span_word n t).0 + length (span_word n t).1 ≡ length t
unfolding span_word
span_word-length zero t = omega arith
span_word-length (suc n) [] = omega arith
span_word-length (suc n) (c ∷ cs) = elim (Bool-cases (is_space c)) [
  | inl e ↦ rw e (omega arith)
  | inr e ↦ rw e (omega (arith, span_word-length n cs))
]

word_of-Leaves :
    (w t : Bytes) (n : ℕ)
    → length w + length t ≤ suc n
    → Leaves (λ (x : Bytes × Bytes). length x.1) n (word_of (w, t))
word_of-Leaves [] t n h = Leaves-none
word_of-Leaves (c ∷ cs) t n h = Leaves-some _ (omega arith)

read_word-Leaves :
    (limit n : ℕ) (t : Bytes)
    → length t ≤ suc n
    → Leaves (λ (x : Bytes × Bytes). length x.1) n (read_word limit t)
unfolding read_word
read_word-Leaves limit n t h =
    word_of-Leaves _ _ n (omega (arith, h, skip_space-le t, span_word-length limit (skip_space t)))

read_digits-le : (v : ℕ) (t : Bytes) → length (read_digits v t).1 ≤ length t
unfolding read_digits
read_digits-le v [] = omega arith
read_digits-le v (c ∷ cs) = elim (Bool-cases (is_digit c)) [
  | inl e ↦ rw e (omega (arith, read_digits-le (v * 10 + (c - b'0')) cs))
  | inr e ↦ rw e (omega arith)
]

read_unsigned-Leaves :
    (s : Bool) (t : Bytes)
    → Leaves (λ (x : Bool × ℕ × Bytes). length x.2) (length t) (read_unsigned s t)
unfolding read_unsigned
read_unsigned-Leaves s [] = Leaves-none
read_unsigned-Leaves s (c ∷ cs) =
    Leaves-if (is_digit c) (Leaves-some _ (read_digits-le 0 (c ∷ cs))) Leaves-none

read_signed-Leaves :
    (n : ℕ) (t : Bytes)
    → length t ≤ n
    → Leaves (λ (x : Bool × ℕ × Bytes). length x.2) n (read_signed t)
unfolding read_signed
read_signed-Leaves n [] h = Leaves-none
read_signed-Leaves n (c ∷ cs) h =
    Leaves-if (c == b'-') (Leaves-le (omega arith) (read_unsigned-Leaves true cs)) (
      Leaves-if (c == b'+') (Leaves-le (omega arith) (read_unsigned-Leaves false cs))
        (Leaves-le (omega arith) (read_unsigned-Leaves false (c ∷ cs))))

read_uint64-Leaves :
    (n : ℕ) (t : Bytes) → length t ≤ n → Leaves (λ (x : ℕ × Bytes). length x.1) n (read_uint64 t)
unfolding read_uint64
read_uint64-Leaves n t h =
    Leaves-bind (read_signed-Leaves n (skip_space t) (omega (arith, h, skip_space-le t)))
      λ r l. Leaves-if (ltb r.1 (2 ^ 64)) (Leaves-some _ l) Leaves-none

read_int-Leaves :
    (w n : ℕ) (t : Bytes) → length t ≤ n → Leaves (λ (x : ℤ × Bytes). length x.1) n (read_int w t)
unfolding read_int
read_int-Leaves w n t h =
    Leaves-bind (read_signed-Leaves n (skip_space t) (omega (arith, h, skip_space-le t))) λ r l.
      Leaves-if r.0 (Leaves-if (leb r.1 (2 ^ w)) (Leaves-some _ l) Leaves-none)
        (Leaves-if (ltb r.1 (2 ^ w)) (Leaves-some _ l) Leaves-none)

read_entry-Leaves :
    (n : ℕ) (t : Bytes)
    → length t ≤ suc n
    → Leaves (λ (x : SwapEntry × Bytes). length x.1) n (read_entry t)
unfolding read_entry
read_entry-Leaves n t h = Leaves-bind (read_word-Leaves (length t) n t h) λ path l.
    Leaves-bind (read_word-Leaves (length path.1) n path.1 (omega arith)) λ type l.
      Leaves-bind (read_uint64-Leaves n type.1 l) λ size_kb l.
        Leaves-bind (read_uint64-Leaves n size_kb.1 l)
          λ used_kb l. Leaves-bind (read_int-Leaves 31 n used_kb.1 l) λ priority l. Leaves-some _ l

scan_line-Leaves :
    (n : ℕ) (t : Bytes)
    → length t ≤ suc n
    → Leaves (λ (x : Bytes × ℤ × Bytes). length x.2) n (scan_line t)
unfolding scan_line
scan_line-Leaves n t h = Leaves-bind (read_word-Leaves 255 n t h) λ path l.
    Leaves-bind (read_word-Leaves 31 n path.1 (omega arith)) λ type l.
      Leaves-bind (read_int-Leaves 63 n type.1 l) λ size_kb l.
        Leaves-bind (read_int-Leaves 63 n size_kb.1 l)
          λ used_kb l. Leaves-bind (read_int-Leaves 31 n used_kb.1 l) λ priority l. Leaves-some _ l

read_entries-nil : (n : ℕ) → read_entries n [] ≡ []
unfolding read_entries read_entry read_word span_word skip_space
read_entries-nil zero = refl
read_entries-nil (suc n) = refl

scan_lines-nil : (n : ℕ) → scan_lines n [] ≡ pos 0
unfolding scan_lines scan_line read_word span_word skip_space
scan_lines-nil zero = refl
scan_lines-nil (suc n) = refl

read_entries-fuel :
    (n m : ℕ) (t : Bytes) → length t ≤ n → length t ≤ m → read_entries n t ≡ read_entries m t
unfolding read_entries
read_entries-fuel zero zero t h k = refl
read_entries-fuel zero (suc m) [] h k = sym (read_entries-nil (suc m))
read_entries-fuel zero (suc m) (c ∷ cs) h k = absurd (omega arith)
read_entries-fuel (suc n) zero [] h k = read_entries-nil (suc n)
read_entries-fuel (suc n) zero (c ∷ cs) h k = absurd (omega arith)
read_entries-fuel (suc n) (suc m) t h k = go (read_entries-fuel n m) (read_entry t) refl
  where
    go :
        ((rest : Bytes)
          → length rest ≤ n
          → length rest ≤ m
          → read_entries n rest ≡ read_entries m rest)
        → (r : Option (SwapEntry × Bytes)) → read_entry t ≡ r
        → read_entries (suc n) t ≡ read_entries (suc m) t
    go on none e = rw (read_entries, e) refl
    go on (some (entry, rest)) e =
        rw
          (
            read_entries,
            e,
            on rest ((read_entry-Leaves n t h).at (entry, rest) e)
                ((read_entry-Leaves m t k).at (entry, rest) e),
          )
          refl

scan_lines-fuel :
    (n m : ℕ) (t : Bytes) → length t ≤ n → length t ≤ m → scan_lines n t ≡ scan_lines m t
unfolding scan_lines
scan_lines-fuel zero zero t h k = refl
scan_lines-fuel zero (suc m) [] h k = sym (scan_lines-nil (suc m))
scan_lines-fuel zero (suc m) (c ∷ cs) h k = absurd (omega arith)
scan_lines-fuel (suc n) zero [] h k = scan_lines-nil (suc n)
scan_lines-fuel (suc n) zero (c ∷ cs) h k = absurd (omega arith)
scan_lines-fuel (suc n) (suc m) t h k = go (scan_lines-fuel n m) (scan_line t) refl
  where
    go :
        ((rest : Bytes) → length rest ≤ n → length rest ≤ m → scan_lines n rest ≡ scan_lines m rest)
        → (r : Option (Bytes × ℤ × Bytes)) → scan_line t ≡ r
        → scan_lines (suc n) t ≡ scan_lines (suc m) t
    go on none e = rw (scan_lines, e) refl
    go on (some (path, size_kb, rest)) e = elim (Bool-cases (text_eq path hooks_swap_path)) [
      | inl same ↦ rw (scan_lines, e, same) refl
      | inr other ↦
          rw (scan_lines, e, other)
            (on rest ((scan_line-Leaves n t h).at (path, size_kb, rest) e)
              ((scan_line-Leaves m t k).at (path, size_kb, rest) e))
    ]

-- The fuel of both loops is enough for any text: more of it changes nothing.
pub read_entries-enough :
    (n m : ℕ) (t : Bytes)
    → length t ≤ n
    → length t ≤ m
    → (read_entries n t ≡ read_entries (length t) t) × (scan_lines m t ≡ scan_lines (length t) t)
read_entries-enough n m t h k = (
  read_entries-fuel n (length t) t h (omega arith),
  scan_lines-fuel m (length t) t k (omega arith),
)
