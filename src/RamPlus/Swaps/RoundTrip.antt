-- ===== src/RamPlus/Swaps/RoundTrip.antt =====
-- Both programs read back the rows that the kernel prints, and find the same swap area.
use android_device_axion_com.Base.{
  ℕ, zero, suc, ◌+◌, ◌/◌, ◌%◌, ◌≤◌, ◌<◌, ◌≡◌, refl, ap, ◌∙◌, arith, ℤ, pos, negsuc, false, Option,
  none, some, List, [], ◌∷◌, ◌++◌, map, All, length, length-append, has, inl, inr, Bool-cases,
  Bytes, text_eq, decimal_onto, int_onto,
}
use android_device_axion_com.RamPlus.Swaps.{
  is_space, SwapEntry, read_entries, after_line, read_swap_entries, find_swap, scan_lines,
  after_fgets, read_ram_plus_swap_kb, swap_path,
}
use android_device_axion_com.RamPlus.Swaps.Rows.{
  Gap, gap_onto, Row, row_onto, rows_text, swaps_text, IsBlank, IsRow, entry_of,
}
use android_device_axion_com.RamPlus.Swaps.Lines.{
  read_entry-row, scan_line-row, read_entry-blank, scan_line-blank,
}

abbrev lf : Bytes
lf = 10 ∷ []

lf-IsBlank : All IsBlank lf
lf-IsBlank = unfold is_space in (refl, tt)

-- The loops, behind blanks, with as much fuel as there are rows.
read_entries-rows :
    (fuel : ℕ) (lead : Bytes) (rs : List Row)
    → All IsBlank lead
    → All IsRow rs
    → length rs ≤ fuel
    → read_entries fuel (lead ++ rows_text rs) ≡ map entry_of rs
unfolding read_entries rows_text
read_entries-rows zero lead [] blanks h enough = refl
read_entries-rows zero lead (r ∷ rs) blanks h enough = absurd (omega arith)
read_entries-rows (suc fuel) lead [] blanks h enough =
    rw (read_entries, read_entry-blank lead blanks) refl
read_entries-rows (suc fuel) lead (r ∷ rs) blanks (row, h) enough =
    rw (read_entries, read_entry-row r row lead (rows_text rs) blanks)
      (ap (λ (es : List SwapEntry). entry_of r ∷ es)
        (read_entries-rows fuel lf rs lf-IsBlank h (omega arith)))

-- The size of an entry that may be there.
abbrev pub size_of : Option SwapEntry → ℤ
size_of none = pos 0
size_of (some e) = pos e.size_kb

scan_lines-rows :
    (fuel : ℕ) (lead : Bytes) (rs : List Row)
    → All IsBlank lead
    → All IsRow rs
    → length rs ≤ fuel
    → scan_lines fuel (lead ++ rows_text rs) ≡ size_of (find_swap (map entry_of rs))
unfolding scan_lines rows_text find_swap
scan_lines-rows zero lead [] blanks h enough = refl
scan_lines-rows zero lead (r ∷ rs) blanks h enough = absurd (omega arith)
scan_lines-rows (suc fuel) lead [] blanks h enough =
    rw (scan_lines, scan_line-blank lead blanks) refl
scan_lines-rows (suc fuel) lead (r ∷ rs) blanks (row, h) enough =
    let line = scan_line-row r row lead (rows_text rs) blanks in
    elim (Bool-cases (text_eq r.path swap_path)) [
      | inl same ↦ rw (scan_lines, line, same) (ground arith)
      | inr other ↦
          rw (scan_lines, line, other) (scan_lines-rows fuel lf rs lf-IsBlank h (omega arith))
    ]

length-decimal_onto : (f n : ℕ) (t : Bytes) → length t ≤ length (decimal_onto f n t)
unfolding decimal_onto
length-decimal_onto zero n t = omega arith
length-decimal_onto (suc f) n t =
    ground (arith, length-decimal_onto f (n / 10) ((n % 10 + b'0') ∷ t))

length-int_onto : (z : ℤ) (t : Bytes) → length t ≤ length (int_onto z t)
unfolding int_onto
length-int_onto (pos n) t = length-decimal_onto 20 n t
length-int_onto (negsuc n) t = omega (arith, length-decimal_onto 20 (suc n) t)

length-gap_onto : (g : Gap) (t : Bytes) → length t < length (gap_onto g t)
length-gap_onto g t = omega (arith, length-append {0} g.more t)

-- A row is at least a byte long, so a text has fuel for its rows.
length-row_onto : (r : Row) (t : Bytes) → length t < length (row_onto r t)
unfolding row_onto
length-row_onto r t =
    let int = int_onto r.priority (10 ∷ t) in
    let used = gap_onto r.used_gap int in
    let size = gap_onto r.size_gap (decimal_onto 20 r.used_kb used) in
    let kind = gap_onto r.kind_gap (decimal_onto 20 r.size_kb size) in
    omega (
      arith,
      length-int_onto r.priority (10 ∷ t),
      length-gap_onto r.used_gap int,
      length-decimal_onto 20 r.used_kb used,
      length-gap_onto r.size_gap (decimal_onto 20 r.used_kb used),
      length-decimal_onto 20 r.size_kb size,
      length-gap_onto r.kind_gap (decimal_onto 20 r.size_kb size),
      length-append {0} r.kind kind,
      length-gap_onto r.path_gap (r.kind ++ kind),
      length-append {0} r.path (gap_onto r.path_gap (r.kind ++ kind)),
    )

length-rows_text : (rs : List Row) → length rs ≤ length (rows_text rs)
unfolding rows_text
length-rows_text [] = omega arith
length-rows_text (r ∷ rs) = omega (arith, length-rows_text rs, length-row_onto r (rows_text rs))

after_line-header : (header t : Bytes) → has 10 header ≡ false → after_line (header ++ 10 ∷ t) ≡ t
unfolding after_line has
after_line-header [] t h = refl
after_line-header (c ∷ cs) t h = ground (arith, after_line-header cs t)

after_fgets-header :
    (n : ℕ) (header t : Bytes)
    → has 10 header ≡ false
    → length header < n
    → after_fgets n (header ++ 10 ∷ t) ≡ t
unfolding after_fgets has
after_fgets-header zero header t h short = absurd (omega arith)
after_fgets-header (suc n) [] t h short = refl
after_fgets-header (suc n) (c ∷ cs) t h short = ground (arith, after_fgets-header n cs t)

-- A text with a header is not empty.
read_ram_plus_swap_kb-some :
    (header t : Bytes)
    → read_ram_plus_swap_kb (some (header ++ 10 ∷ t))
      ≡ scan_lines
          (length (after_fgets 511 (header ++ 10 ∷ t)))
          (after_fgets 511 (header ++ 10 ∷ t))
unfolding read_ram_plus_swap_kb
read_ram_plus_swap_kb-some [] t = refl
read_ram_plus_swap_kb-some (c ∷ cs) t = refl

scanned :
    (header : Bytes) (rs : List Row)
    → has 10 header ≡ false
    → All IsRow rs
    → length header < 511
    → read_ram_plus_swap_kb (some (swaps_text header rs)) ≡ size_of (find_swap (map entry_of rs))
unfolding swaps_text
scanned header rs one_line rows short =
    read_ram_plus_swap_kb-some header (rows_text rs)
    ∙ rw (after_fgets-header 511 header (rows_text rs) one_line short)
        (scan_lines-rows (length (rows_text rs)) [] rs tt rows (length-rows_text rs))

module _ (header : Bytes) (rs : List Row) (one_line : has 10 header ≡ false)
    (rows : All IsRow rs) where
  -- The setup program reads back every row that is printed below a header of one line.
  pub read_swap_entries-swaps_text : read_swap_entries (swaps_text header rs) ≡ map entry_of rs
  unfolding read_swap_entries swaps_text
  read_swap_entries-swaps_text =
      rw (after_line-header header (rows_text rs) one_line)
        (read_entries-rows (length (rows_text rs)) [] rs tt rows (length-rows_text rs))

  -- On rows below a header of one line of less than 511 bytes, the low-memory killer finds the size of
  -- the entry that the setup program finds, and 0 where it finds none.
  pub read_ram_plus_swap_kb-find_swap :
      length header < 511
      → read_ram_plus_swap_kb (some (swaps_text header rs))
        ≡ size_of (find_swap (read_swap_entries (swaps_text header rs)))
  read_ram_plus_swap_kb-find_swap short =
      rw read_swap_entries-swaps_text (scanned header rs one_line rows short)
