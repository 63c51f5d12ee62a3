-- ===== src/RamPlus/Swaps/Lines.antt =====
-- A printed row is read back as one entry, by either program.
use android_device_axion_com.Base.{
  ℕ, zero, suc, ◌≤◌, ◌≡◌, refl, ap, ◌∙◌, arith, ℤ, pos, none, some, [], ◌∷◌, ◌++◌, All, length,
  length-append, Bytes, decimal_onto, int_onto,
}
use android_device_axion_com.RamPlus.Swaps.{
  is_space, skip_space, read_word, read_uint64, read_int, read_entry, scan_line, word_of, span_word,
}
use android_device_axion_com.RamPlus.Swaps.Rows.{
  gap_onto, Row, row_onto, IsBlank, IsWord, IsRow, entry_of,
}
use android_device_axion_com.RamPlus.Swaps.Scan.{skip_space-append, read_word-append}
use android_device_axion_com.RamPlus.Swaps.Fields.{
  read_word-gap, read_uint64-gap, read_int-gap, read_int-int_onto,
}

-- A word behind blanks, at the start of a line.
read_word-lead :
    (n limit : ℕ) (lead w : Bytes) (e : ℕ) (t : Bytes)
    → All IsBlank lead
    → IsWord n w
    → n ≤ limit
    → IsBlank e
    → read_word limit (lead ++ (w ++ e ∷ t)) ≡ some (w, e ∷ t)
unfolding read_word
read_word-lead n limit lead w e t blanks word fits blank =
    ap (λ (s : Bytes). word_of (span_word limit s)) (skip_space-append lead (w ++ e ∷ t) blanks)
    ∙ read_word-append n limit w e t word fits blank

exact-IsWord : (n : ℕ) (w : Bytes) → IsWord n w → IsWord (length w) w
exact-IsWord n w h = record { ink = h.ink; some_byte = h.some_byte; short = omega arith }

read_entry-fields :
    (t path t₁ kind t₂ : Bytes) (size : ℕ) (t₃ : Bytes) (used : ℕ) (t₄ : Bytes) (priority : ℤ)
    (t₅ : Bytes)
    → read_word (length t) t ≡ some (path, t₁)
    → read_word (length t₁) t₁ ≡ some (kind, t₂)
    → read_uint64 t₂ ≡ some (size, t₃)
    → read_uint64 t₃ ≡ some (used, t₄)
    → read_int 31 t₄ ≡ some (priority, t₅)
    → read_entry t ≡ some (record { path = path; size_kb = size; priority = priority }, t₅)
unfolding read_entry
read_entry-fields t path t₁ kind t₂ size t₃ used t₄ priority t₅ a b c d e =
    rw (read_entry, a, b, c, d, e) refl

scan_line-fields :
    (t path t₁ kind t₂ : Bytes) (size : ℤ) (t₃ : Bytes) (used : ℤ) (t₄ : Bytes) (priority : ℤ)
    (t₅ : Bytes)
    → read_word 255 t ≡ some (path, t₁)
    → read_word 31 t₁ ≡ some (kind, t₂)
    → read_int 63 t₂ ≡ some (size, t₃)
    → read_int 63 t₃ ≡ some (used, t₄)
    → read_int 31 t₄ ≡ some (priority, t₅)
    → scan_line t ≡ some (path, size, t₅)
unfolding scan_line
scan_line-fields t path t₁ kind t₂ size t₃ used t₄ priority t₅ a b c d e =
    rw (scan_line, a, b, c, d, e) refl

-- The parts of a row that each extraction leaves.
module _ (r : Row) (tail : Bytes) where
  abbrev after_used : Bytes
  after_used = gap_onto r.used_gap (int_onto r.priority (10 ∷ tail))

  abbrev after_size : Bytes
  after_size = gap_onto r.size_gap (decimal_onto 20 r.used_kb after_used)

  abbrev after_kind : Bytes
  after_kind = gap_onto r.kind_gap (decimal_onto 20 r.size_kb after_size)

  abbrev after_path : Bytes
  after_path = gap_onto r.path_gap (r.kind ++ after_kind)

module _ (r : Row) (h : IsRow r) (lead tail : Bytes) (blanks : All IsBlank lead) where
  path_fits : length r.path ≤ length (lead ++ (r.path ++ after_path r tail))
  path_fits = omega (
    arith,
    length-append {0} lead (r.path ++ after_path r tail),
    length-append {0} r.path (after_path r tail),
  )

  kind_fits : length r.kind ≤ length (after_path r tail)
  kind_fits = omega (
    arith,
    length-append {0} r.path_gap.more (r.kind ++ after_kind r tail),
    length-append {0} r.kind (after_kind r tail),
  )

  newline : IsBlank 10
  newline = unfold is_space in refl

  pub read_entry-row : read_entry (lead ++ row_onto r tail) ≡ some (entry_of r, 10 ∷ tail)
  unfolding row_onto
  read_entry-row =
      read_entry-fields (lead ++ (r.path ++ after_path r tail)) r.path (after_path r tail) r.kind
        (after_kind r tail) r.size_kb (after_size r tail) r.used_kb (after_used r tail) r.priority
        (10 ∷ tail)
        (read_word-lead (length r.path) _ lead r.path r.path_gap.first _ blanks
          (exact-IsWord 255 r.path h.path_word) path_fits h.gaps.0.0)
        (read_word-gap (length r.kind) _ r.path_gap r.kind r.kind_gap.first _ h.gaps.0
          (exact-IsWord 31 r.kind h.kind_word) kind_fits h.gaps.1.0)
        (read_uint64-gap r.kind_gap r.size_kb r.size_gap.first _ h.gaps.1 h.size_fits h.gaps.2.0)
        (read_uint64-gap r.size_gap r.used_kb r.used_gap.first _ h.gaps.2 h.used_fits h.gaps.3.0)
        (read_int-int_onto r.used_gap r.priority 10 tail h.gaps.3 h.low h.high newline)

  pub scan_line-row : scan_line (lead ++ row_onto r tail) ≡ some (r.path, pos r.size_kb, 10 ∷ tail)
  unfolding row_onto
  scan_line-row =
      scan_line-fields (lead ++ (r.path ++ after_path r tail)) r.path (after_path r tail) r.kind
        (after_kind r tail) (pos r.size_kb) (after_size r tail) (pos r.used_kb) (after_used r tail)
        r.priority (10 ∷ tail)
        (read_word-lead 255 255 lead r.path r.path_gap.first _ blanks h.path_word (omega arith)
          h.gaps.0.0)
        (read_word-gap 31 31 r.path_gap r.kind r.kind_gap.first _ h.gaps.0 h.kind_word (omega arith)
          h.gaps.1.0)
        (read_int-gap r.kind_gap r.size_kb r.size_gap.first _ h.gaps.1 h.size_fits h.gaps.2.0)
        (read_int-gap r.size_gap r.used_kb r.used_gap.first _ h.gaps.2 h.used_fits h.gaps.3.0)
        (read_int-int_onto r.used_gap r.priority 10 tail h.gaps.3 h.low h.high newline)

-- Blanks alone hold no entry.
read_word-blank :
    (limit : ℕ) (lead : Bytes) → All IsBlank lead → read_word limit (lead ++ []) ≡ none
unfolding read_word skip_space
read_word-blank limit lead blanks =
    ap (λ (s : Bytes). word_of (span_word limit s)) (skip_space-append lead [] blanks) ∙ empty limit
  where
    empty : (n : ℕ) → word_of (span_word n []) ≡ none
    empty zero = unfold span_word in refl
    empty (suc n) = unfold span_word in refl

pub read_entry-blank : (lead : Bytes) → All IsBlank lead → read_entry (lead ++ []) ≡ none
unfolding read_entry
read_entry-blank lead blanks =
    rw (read_entry, read_word-blank (length (lead ++ [])) lead blanks) refl

pub scan_line-blank : (lead : Bytes) → All IsBlank lead → scan_line (lead ++ []) ≡ none
unfolding scan_line
scan_line-blank lead blanks = rw (scan_line, read_word-blank 255 lead blanks) refl
