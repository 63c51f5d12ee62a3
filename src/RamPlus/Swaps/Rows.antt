-- ===== src/RamPlus/Swaps/Rows.antt =====
-- /proc/swaps as the kernel prints it: a header and a row for each swap area, whose fields stand
-- apart by at least one blank.
use android_device_axion_com.Base.{
  ℕ, ◌-◌, ◌^◌, ◌≤◌, ◌<◌, ◌≡◌, ◌≢◌, ℤ, pos, negsuc, ◌≤ℤ◌, ◌<ℤ◌, true, false, List, [], ◌∷◌, ◌++◌,
  All, length, Bytes, decimal_onto, int_onto,
}
use android_device_axion_com.RamPlus.Swaps.{is_space, SwapEntry}

-- One blank, and more.
pub record Gap : Type 0 where
  pub first : ℕ
  pub more : Bytes

abbrev pub gap_onto : Gap → Bytes → Bytes
gap_onto g tail = g.first ∷ (g.more ++ tail)

pub record Row : Type 0 where
  pub path : Bytes
  pub kind : Bytes
  pub size_kb : ℕ
  pub used_kb : ℕ
  pub priority : ℤ
  pub path_gap : Gap
  pub kind_gap : Gap
  pub size_gap : Gap
  pub used_gap : Gap

unfoldable pub row_onto : Row → Bytes → Bytes
row_onto r tail =
    let used = gap_onto r.used_gap (int_onto r.priority (10 ∷ tail)) in
    let size = gap_onto r.size_gap (decimal_onto 20 r.used_kb used) in
    let kind = gap_onto r.kind_gap (decimal_onto 20 r.size_kb size) in
    r.path ++ gap_onto r.path_gap (r.kind ++ kind)

unfoldable pub rows_text : List Row → Bytes
rows_text [] = []
rows_text (r ∷ rs) = row_onto r (rows_text rs)

unfoldable pub swaps_text : Bytes → List Row → Bytes
swaps_text header rs = header ++ 10 ∷ rows_text rs

abbrev pub IsBlank : ℕ → Type 0
IsBlank c = is_space c ≡ true

abbrev pub IsInk : ℕ → Type 0
IsInk c = is_space c ≡ false

abbrev pub IsGap : Gap → Type 0
IsGap g = IsBlank g.first × All IsBlank g.more

-- A word of at most `n` bytes.
pub record IsWord (n : ℕ) (w : Bytes) : Type 0 where
  pub ink : All IsInk w
  pub some_byte : w ≢ []
  pub short : length w ≤ n

-- The bounds are those of `char path[256]`, `char type[32]`, `long long` and `int`.
pub record IsRow (r : Row) : Type 0 where
  pub path_word : IsWord 255 r.path
  pub kind_word : IsWord 31 r.kind
  pub size_fits : r.size_kb < 2 ^ 63
  pub used_fits : r.used_kb < 2 ^ 63
  pub low : negsuc (2 ^ 31 - 1) ≤ℤ r.priority
  pub high : r.priority <ℤ pos (2 ^ 31)
  pub gaps : IsGap r.path_gap × IsGap r.kind_gap × IsGap r.size_gap × IsGap r.used_gap

-- The entry that a row stands for.
abbrev pub entry_of : Row → SwapEntry
entry_of r = record { path = r.path; size_kb = r.size_kb; priority = r.priority }
