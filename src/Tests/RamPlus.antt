-- ===== src/Tests/RamPlus.antt =====
-- The readers of /proc/swaps, the hooks and the setup program at concrete data.
use android_device_axion_com.Base.{
  ℕ, ◌+◌, ◌≡◌, inl, inr, refl, arith, pos, negsuc, Bool, true, false, Bool-cases, not, ◌&&◌, some,
  List, ◌∷◌, [], All, has, map, Bytes, codes,
}
use android_device_axion_com.RamPlus.Swaps.{
  is_space, read_swap_entries, find_lowest_zram_priority, find_swap, read_ram_plus_swap_kb,
}
use android_device_axion_com.RamPlus.Swaps.Rows.{Row, Gap, IsRow, IsInk, swaps_text, entry_of}
use android_device_axion_com.RamPlus.Swaps.RoundTrip.{
  read_swap_entries-swaps_text, read_ram_plus_swap_kb-find_swap, size_of,
}
use android_device_axion_com.RamPlus.Swaps.Lowest.{IsLowest, find_lowest_zram_priority-IsLowest}
use android_device_axion_com.RamPlus.Lmkd.{lmkd_adjust_free_swap_hook}
use android_device_axion_com.RamPlus.Lmkd.Free.{IsLargest, lmkd_adjust_free_swap_hook-largest}

abbrev header : Bytes
header = codes "Filename  Type  Size  Used  Priority"

abbrev space : Gap
space = record { first = 32; more = [] }

abbrev tab : Gap
tab = record { first = 9; more = 9 ∷ [] }

abbrev zram_row : Row
zram_row = record {
  path = codes "/dev/block/zram0";
  kind = codes "partition";
  size_kb = 4194300;
  used_kb = 120;
  priority = pos 100;
  path_gap = space;
  kind_gap = tab;
  size_gap = tab;
  used_gap = tab;
}

abbrev file_row : Row
file_row = record {
  path = codes "/data/system/axion_ram_plus/swapfile";
  kind = codes "file";
  size_kb = 2097148;
  used_kb = 0;
  priority = negsuc 1;
  path_gap = space;
  kind_gap = tab;
  size_gap = tab;
  used_gap = tab;
}

abbrev rows : List Row
rows = zram_row ∷ file_row ∷ []

header-one_line : has 10 header ≡ false
unfolding has
header-one_line = refl

abbrev all_ink : Bytes → Bool
all_ink [] = true
all_ink (c ∷ cs) = not (is_space c) && all_ink cs

all_ink-IsInk : (w : Bytes) → all_ink w ≡ true → All IsInk w
all_ink-IsInk [] h = tt
all_ink-IsInk (c ∷ cs) h = elim (Bool-cases (is_space c)) [
  | inl blank ↦ absurd (ground arith)
  | inr ink ↦ (ink, all_ink-IsInk cs (ground arith))
]

rows-IsRow : All IsRow rows
unfolding is_space
rows-IsRow = (
  record {
    path_word = record {
      ink = all_ink-IsInk (codes "/dev/block/zram0") refl;
      some_byte = λ e. cc;
      short = omega arith;
    };
    kind_word = record {
      ink = all_ink-IsInk (codes "partition") refl;
      some_byte = λ e. cc;
      short = omega arith;
    };
    size_fits = omega arith;
    used_fits = omega arith;
    low = omega arith;
    high = omega arith;
    gaps = ((refl, tt), (refl, (refl, tt)), (refl, (refl, tt)), (refl, (refl, tt)));
  },
  (
    record {
      path_word = record {
        ink = all_ink-IsInk (codes "/data/system/axion_ram_plus/swapfile") refl;
        some_byte = λ e. cc;
        short = omega arith;
      };
      kind_word = record {
        ink = all_ink-IsInk (codes "file") refl;
        some_byte = λ e. cc;
        short = omega arith;
      };
      size_fits = omega arith;
      used_fits = omega arith;
      low = omega arith;
      high = omega arith;
      gaps = ((refl, tt), (refl, (refl, tt)), (refl, (refl, tt)), (refl, (refl, tt)));
    },
    tt,
  ),
)

read_swap_entries-swaps_text_example :
    read_swap_entries (swaps_text header rows) ≡ map entry_of rows
read_swap_entries-swaps_text_example =
    read_swap_entries-swaps_text header rows header-one_line rows-IsRow

read_ram_plus_swap_kb-find_swap_example :
    read_ram_plus_swap_kb (some (swaps_text header rows))
    ≡ size_of (find_swap (read_swap_entries (swaps_text header rows)))
read_ram_plus_swap_kb-find_swap_example =
    read_ram_plus_swap_kb-find_swap header rows header-one_line rows-IsRow (omega arith)

lmkd_adjust_free_swap_hook-largest_example :
    (amount : ℕ) × IsLargest 902852 1500000 2 amount
    × (lmkd_adjust_free_swap_hook
          (record { swap_kb = pos 2097148 })
          (pos 3000000)
          (pos 500000)
          (pos 3)
          (pos 2)
          (pos 7)
        ≡ some (pos (2097148 + amount)))
lmkd_adjust_free_swap_hook-largest_example =
    lmkd_adjust_free_swap_hook-largest 3000000 500000 (pos 7) (pos 2097148) (pos 3) (pos 2)
      (omega arith) (omega arith) (omega arith)

find_lowest_zram_priority-IsLowest_example :
    IsLowest (map entry_of rows) (find_lowest_zram_priority (map entry_of rows))
find_lowest_zram_priority-IsLowest_example = find_lowest_zram_priority-IsLowest (map entry_of rows)
