-- ===== src/RamPlus/Swaps.antt =====
-- How the two programs of RAM Plus read /proc/swaps: with the extractions of a C++ stream in
-- config/ramplus/ax_ram_plus_setup.cpp, with fgets and fscanf in
-- config/ramplus/lmkd/ram_plus_lmkd_hooks.cpp. Both are of the languages' standard libraries. A loop
-- over the lines runs on fuel, as much as the text has bytes. The text has no NUL.
pub mod Scan
pub mod Rows
pub mod Fields
pub mod Lines
pub mod RoundTrip
pub mod Lowest
pub mod Enough
use android_device_axion_com.Base.{
  ℕ, zero, suc, ◌+◌, ◌-◌, ◌*◌, ◌%◌, ◌^◌, ◌≡◌, ℤ, pos, neg_ℤ, min_ℤ, max_ℤ, Bool, true, false, ◌&&◌,
  ◌||◌, Option, none, some, List, [], ◌∷◌, length, ltb, leb, ◌==◌, if◌then◌else◌, Bytes, codes,
  text_eq, starts_with, is_digit, read_digits,
}

abbrev pub swap_path : Bytes
swap_path = codes "/data/system/axion_ram_plus/swapfile"

-- The constant of the same name in the hooks of the low-memory killer.
abbrev pub hooks_swap_path : Bytes
hooks_swap_path = codes "/data/system/axion_ram_plus/swapfile"

-- `isspace`
unfoldable pub is_space : ℕ → Bool
is_space c = c == 32 || leb 9 c && leb c 13

unfoldable pub skip_space : Bytes → Bytes
skip_space [] = []
skip_space (c ∷ cs) = let rest = skip_space cs in if is_space c then rest else c ∷ cs

-- The bytes before the next space, at most `n` of them, and the rest.
unfoldable pub span_word : ℕ → Bytes → Bytes × Bytes
span_word zero cs = ([], cs)
span_word (suc n) [] = ([], [])
span_word (suc n) (c ∷ cs) =
    let on : Bytes × Bytes = (c ∷ (span_word n cs).0, (span_word n cs).1) in
    if is_space c then ([], c ∷ cs) else on

-- A word, which is not empty.
abbrev pub word_of : Bytes × Bytes → Option (Bytes × Bytes)
word_of ([], rest) = none
word_of (c ∷ cs, rest) = some (c ∷ cs, rest)

unfoldable pub read_word : ℕ → Bytes → Option (Bytes × Bytes)
read_word limit t = word_of (span_word limit (skip_space t))

-- Whether a minus sign stands before the digits, and their value.
unfoldable pub read_unsigned : Bool → Bytes → Option (Bool × ℕ × Bytes)
read_unsigned negative [] = none
read_unsigned negative (c ∷ cs) =
    if is_digit c
    then some (negative, (read_digits 0 (c ∷ cs)).0, (read_digits 0 (c ∷ cs)).1)
    else none

unfoldable pub read_signed : Bytes → Option (Bool × ℕ × Bytes)
read_signed [] = none
read_signed (c ∷ cs) =
    if c == b'-'
    then read_unsigned true cs
    else if c == b'+'
    then read_unsigned false cs
    else read_unsigned false (c ∷ cs)

infixl 5 ◌>>=◌
abbrev pub ◌>>=◌ {ℓ κ} : {A : Type ℓ} {B : Type κ} → Option A → (A → Option B) → Option B
none >>= f = none
some a >>= f = f a

-- `stream >> x` for a `uint64_t`: a minus sign negates modulo 2 ^ 64, and a number that does not fit
-- fails.
unfoldable pub read_uint64 : Bytes → Option (ℕ × Bytes)
read_uint64 t = do
  r ← read_signed (skip_space t)
  let (negative, v, rest) = r
  if ltb v (2 ^ 64) then some (if negative then (2 ^ 64 - v) % 2 ^ 64 else v, rest) else none

-- A signed number of `w + 1` bits. One that does not fit fails in C++, and is undefined in `fscanf`.
unfoldable pub read_int : ℕ → Bytes → Option (ℤ × Bytes)
read_int w t = do
  r ← read_signed (skip_space t)
  let (negative, v, rest) = r
  if negative
      then (if leb v (2 ^ w) then some (neg_ℤ (pos v), rest) else none)
      else (if ltb v (2 ^ w) then some (pos v, rest) else none)

pub record SwapEntry : Type 0 where
  pub path : Bytes
  pub size_kb : ℕ
  pub priority : ℤ

-- `stream >> path >> type >> size_kb >> used_kb >> priority`
unfoldable pub read_entry : Bytes → Option (SwapEntry × Bytes)
read_entry t = do
  path ← read_word (length t) t
  type ← read_word (length path.1) path.1
  size_kb ← read_uint64 type.1
  used_kb ← read_uint64 size_kb.1
  priority ← read_int 31 used_kb.1
  some (record { path = path.0; size_kb = size_kb.0; priority = priority.0 }, priority.1)

unfoldable pub read_entries : ℕ → Bytes → List SwapEntry
read_entries zero t = []
read_entries (suc fuel) t = elim (read_entry t) [
  | none ↦ []
  | some (e, rest) ↦ e ∷ read_entries fuel rest
]

-- What `std::getline` leaves.
unfoldable pub after_line : Bytes → Bytes
after_line [] = []
after_line (c ∷ cs) = if c == 10 then cs else after_line cs

-- `ReadSwapEntries`, once the file is read.
unfoldable pub read_swap_entries : Bytes → List SwapEntry
read_swap_entries contents = let t = after_line contents in read_entries (length t) t

abbrev pub is_zram : SwapEntry → Bool
is_zram e = starts_with e.path (codes "/dev/block/zram") || starts_with e.path (codes "/dev/zram")

unfoldable pub lowest_zram : Option ℤ → List SwapEntry → Option ℤ
lowest_zram priority [] = priority
lowest_zram priority (e ∷ rest) =
    lowest_zram
      (if is_zram e
        then some (elim priority [ none ↦ e.priority | some p ↦ min_ℤ p e.priority ])
        else priority)
      rest

unfoldable pub find_lowest_zram_priority : List SwapEntry → Option ℤ
find_lowest_zram_priority entries = lowest_zram none entries

-- The search of `FindRamPlusSwap`.
unfoldable pub find_swap : List SwapEntry → Option SwapEntry
find_swap [] = none
find_swap (e ∷ rest) = let on = find_swap rest in if text_eq e.path swap_path then some e else on

-- `fscanf(swaps, "%255s %31s %lld %lld %d", …) == 5`: the path, the size and the rest.
unfoldable pub scan_line : Bytes → Option (Bytes × ℤ × Bytes)
scan_line t = do
  path ← read_word 255 t
  type ← read_word 31 path.1
  size_kb ← read_int 63 type.1
  used_kb ← read_int 63 size_kb.1
  priority ← read_int 31 used_kb.1
  some (path.0, size_kb.0, priority.1)

unfoldable pub scan_lines : ℕ → Bytes → ℤ
scan_lines zero t = pos 0
scan_lines (suc fuel) t = elim (scan_line t) [
  | none ↦ pos 0
  | some (path, size_kb, rest) ↦ elim (text_eq path hooks_swap_path) [
    | true ↦ max_ℤ (pos 0) size_kb
    | false ↦ scan_lines fuel rest
  ]
]

-- What `fgets` leaves after a line of at most `n` bytes.
unfoldable pub after_fgets : ℕ → Bytes → Bytes
after_fgets zero cs = cs
after_fgets (suc n) [] = []
after_fgets (suc n) (c ∷ cs) = if c == 10 then cs else after_fgets n cs

-- `ReadRamPlusSwapKb`: `none` is a file that cannot be opened.
unfoldable pub read_ram_plus_swap_kb : Option Bytes → ℤ
read_ram_plus_swap_kb none = pos 0
read_ram_plus_swap_kb (some contents) =
    let t = after_fgets 511 contents in
    elim contents [ [] ↦ pos 0 | c ∷ cs ↦ scan_lines (length t) t ]
