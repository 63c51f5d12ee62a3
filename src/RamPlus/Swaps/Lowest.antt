-- ===== src/RamPlus/Swaps/Lowest.antt =====
-- `FindLowestZramPriority` and its specification.
use android_device_axion_com.Base.{
  ◌≡◌, refl, sym, ◌∙◌, ◌⊎◌, inl, inr, ℤ, ◌≤ℤ◌, min_ℤ, ltb_ℤ, true, false, Bool-cases, Option, none,
  some, List, [], ◌∷◌, All, arith,
}
use android_device_axion_com.RamPlus.Swaps.{
  SwapEntry, is_zram, lowest_zram, find_lowest_zram_priority,
}

-- One of the entries is of zram and has the priority `p`.
unfoldable pub HasZram : ℤ → List SwapEntry → Type 0
HasZram p [] = ⊥
HasZram p (e ∷ rest) = ((is_zram e ≡ true) × (e.priority ≡ p)) ⊎ HasZram p rest

-- The entry is not of zram, or its priority is `p` or higher.
unfoldable pub IsBelow : ℤ → SwapEntry → Type 0
IsBelow p e = (is_zram e ≡ false) ⊎ (p ≤ℤ e.priority)

-- No entry is of zram, or `p` is the lowest priority of those that are.
unfoldable pub IsLowest : List SwapEntry → Option ℤ → Type 0
IsLowest entries none = All (λ e. is_zram e ≡ false) entries
IsLowest entries (some p) = All (IsBelow p) entries × HasZram p entries

min_cases : (a b : ℤ) → (min_ℤ a b ≤ℤ a) × (min_ℤ a b ≤ℤ b) × ((min_ℤ a b ≡ a) ⊎ (min_ℤ a b ≡ b))
min_cases a b = elim (Bool-cases (ltb_ℤ b a)) [
  | inl e ↦ rw e (ground arith, ground arith, inr refl)
  | inr e ↦ rw e (ground arith, ground arith, inl refl)
]

-- What the loop ends with, once it has seen the priority `q`.
record Found (q : ℤ) (entries : List SwapEntry) (r : Option ℤ) : Type 0 where
  pub p : ℤ
  pub is_some : r ≡ some p
  pub below : p ≤ℤ q
  pub lower : All (IsBelow p) entries
  pub from : (p ≡ q) ⊎ HasZram p entries

from_min :
    (q p : ℤ) (e : SwapEntry) (rest : List SwapEntry)
    → is_zram e ≡ true
    → (p ≡ min_ℤ q e.priority) ⊎ HasZram p rest
    → (p ≡ q) ⊎ HasZram p (e ∷ rest)
unfolding HasZram
from_min q p e rest zram (inr h) = inr (inr h)
from_min q p e rest zram (inl h) = elim (min_cases q e.priority).2 [
  | inl old ↦ inl (h ∙ old)
  | inr new ↦ inr (inl (zram, sym (h ∙ new)))
]

lowest_zram-Found :
    (q : ℤ) (entries : List SwapEntry) → Found q entries (lowest_zram (some q) entries)
unfolding lowest_zram HasZram IsBelow
lowest_zram-Found q [] = record {
  p = q;
  is_some = refl;
  below = omega arith;
  lower = tt;
  from = inl refl;
}
lowest_zram-Found q (e ∷ rest) = elim (Bool-cases (is_zram e)) [
  | inr other ↦
      let on = lowest_zram-Found q rest in
      rw other (record {
        p = on.p;
        is_some = on.is_some;
        below = on.below;
        lower = (inl other, on.lower);
        from = elim (on.from) [ inl h ↦ inl h | inr h ↦ inr (inr h) ];
      })
  | inl zram ↦
      let on = lowest_zram-Found (min_ℤ q e.priority) rest in
      let (le_q, le_e, either) = min_cases q e.priority in
      rw zram (record {
        p = on.p;
        is_some = on.is_some;
        below = omega (arith, on.below, le_q);
        lower = (inr (omega (arith, on.below, le_e)), on.lower);
        from = from_min q on.p e rest zram on.from;
      })
]

skip-IsLowest :
    (e : SwapEntry) (rest : List SwapEntry) (r : Option ℤ)
    → is_zram e ≡ false
    → IsLowest rest r
    → IsLowest (e ∷ rest) r
unfolding IsLowest IsBelow HasZram
skip-IsLowest e rest none other h = (other, h)
skip-IsLowest e rest (some p) other h = ((inl other, h.0), inr h.1)

-- What `FindLowestZramPriority` finds: nothing if no entry is of zram, else the lowest priority of an
-- entry of zram.
pub find_lowest_zram_priority-IsLowest :
    (entries : List SwapEntry) → IsLowest entries (find_lowest_zram_priority entries)
unfolding find_lowest_zram_priority lowest_zram IsLowest IsBelow HasZram
find_lowest_zram_priority-IsLowest [] = tt
find_lowest_zram_priority-IsLowest (e ∷ rest) = elim (Bool-cases (is_zram e)) [
  | inr other ↦
      rw other (
        skip-IsLowest e rest (lowest_zram none rest) other
          (find_lowest_zram_priority-IsLowest rest))
  | inl zram ↦
      let on = lowest_zram-Found e.priority rest in
      rw (zram, on.is_some)
        ((inr on.below, on.lower), elim (on.from) [ inl h ↦ inl (zram, sym h) | inr h ↦ inr h ])
]
