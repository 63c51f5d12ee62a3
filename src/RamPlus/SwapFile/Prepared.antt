-- ===== src/RamPlus/SwapFile/Prepared.antt =====
-- `PrepareSwapFile`: which bytes of a prepared file have blocks.
use android_device_axion_com.Base.{
  ℤ, pos, negsuc, pos_part, ltb_ℤ, u64, ◌*◌, ℕ, ◌≤◌, ◌<◌, ◌≡◌, ◌⊎◌, inl, inr, min, Bool, true,
  false, Bool-cases, Option, none, some, refl, ◌∙◌, ltb, not, if◌then◌else◌, arith,
}
use android_device_axion_com.RamPlus.Os.{Os, IsAndroid, FileStat, fchmod, fsync, ftruncate}
use android_device_axion_com.RamPlus.Prog.{Prog, pure, ◌>>=◌}
use android_device_axion_com.RamPlus.SwapFile.{
  PrepareResult, prepared, no_space, bad_file, no_allocation, succeeded, allocated_bytes,
  current_bytes, has_allocation_space, fill_swap_file, prepare_open_file, write_zeroes,
}
use android_device_axion_com.RamPlus.SwapFile.Zeroes.{write_zeroes-filled}

-- Where `m` ends with `prepared`, it ends in a state with `R`.
record Prepares (os : Os) (R : os.State → Type 0) (m : Prog os.State PrepareResult) : Type 0 where
  pub at : (s : os.State) → (m s).0 ≡ prepared → R (m s).1

module _ {os : Os} {R : os.State → Type 0} where
  Prepares-not : (r : PrepareResult) → (r ≡ prepared → ⊥) → Prepares os R (pure r)
  Prepares-not r h = record { at = λ s e. absurd (h e) }

  Prepares-unless :
      (b : Bool) {m n : Prog os.State PrepareResult}
      → Prepares os R m
      → (b ≡ true → Prepares os R n)
      → Prepares os R (if not b then m else n)
  Prepares-unless false hm hn = hm
  Prepares-unless true hm hn = hn refl

  Prepares-then :
      {A : Type 0} (m : Prog os.State A) {f : A → Prog os.State PrepareResult}
      → ((a : A) → Prepares os R (f a))
      → Prepares os R (m >>= f)
  Prepares-then m hf = record { at = λ s e. (hf (m s).0).at (m s).1 e }

-- Byte `i` was filled by the run, or it is one of the bytes that are kept of the old file, and the
-- file has blocks for as many.
unfoldable pub IsBacked : (os : Os) (allocated kept i : ℕ) → os.State → Type 0
IsBacked os allocated kept i s = (os.filled s i ≡ true) ⊎ ((i < kept) × (kept ≤ allocated))

where_filled :
    (allocated kept i : ℕ)
    → ((if ltb allocated kept then 0 else kept) ≤ i) ⊎ ((i < kept) × (kept ≤ allocated))
where_filled allocated kept i = elim (Bool-cases (ltb allocated kept)) [
  | inl e ↦ inl (rw e (omega arith))
  | inr e ↦ elim (Bool-cases (ltb i kept)) [
    | inl l ↦ inr (ground arith, ground arith)
    | inr l ↦ inl (rw e (ground arith))
  ]
]

module _ {os : Os} (law : IsAndroid os) (allocated kept i : ℕ) where
  synced_after : os.State → Bool → Prog os.State PrepareResult
  synced_after s written =
      if not written
      then pure no_allocation
      else do synced ← os.ask fsync; pure (if succeeded synced then prepared else bad_file)

  sync-IsBacked :
      (written : Bool) (s : os.State)
      → (written ≡ true → IsBacked os allocated kept i s)
      → (synced_after s written s).0 ≡ prepared
      → IsBacked os allocated kept i (synced_after s written s).1
  unfolding synced_after IsBacked
  sync-IsBacked false s h e = cc
  sync-IsBacked true s h e = elim (h refl) [ inl f ↦ inl (law.sync i s ∙ f) | inr k ↦ inr k ]

  written-IsBacked :
      (n : ℕ) (s : os.State)
      → i < n
      → (write_zeroes os (if ltb allocated kept then 0 else kept) n s).0 ≡ true
      → IsBacked os allocated kept i
          (write_zeroes os (if ltb allocated kept then 0 else kept) n s).1
  unfolding IsBacked
  written-IsBacked n s h e = elim (where_filled allocated kept i) [
    | inl from ↦
        inl (write_zeroes-filled os law (if ltb allocated kept then 0 else kept) n i s e from h)
    | inr old ↦ inr old
  ]

module _ {os : Os} (law : IsAndroid os) (i requested : ℕ) where
  fill_swap_file-IsBacked :
      (space : Option Bool) (allocated current : ℕ)
      → i < requested
      → Prepares os
          (IsBacked os allocated (min current requested) i)
          (fill_swap_file os space allocated current requested)
  unfolding fill_swap_file synced_after
  fill_swap_file-IsBacked none allocated current h = Prepares-not bad_file λ e. cc
  fill_swap_file-IsBacked (some false) allocated current h = Prepares-not no_space λ e. cc
  fill_swap_file-IsBacked (some true) allocated current h =
      let kept = min current requested in
      Prepares-then (os.ask (ftruncate requested)) λ r.
        Prepares-unless (succeeded r) (Prepares-not no_allocation λ e. cc) λ _. record {
          at = λ s.
              sync-IsBacked law allocated kept i _ _
                (written-IsBacked law allocated kept i requested s h);
        }

  kept_or_filled :
      (st : FileStat) (s : os.State)
      → i < requested
      → (prepare_open_file os (some st) requested s).0 ≡ prepared
      → IsBacked os
          (allocated_bytes st)
          (min (current_bytes st) requested)
          i
          (prepare_open_file os (some st) requested s).1
  unfolding prepare_open_file
  kept_or_filled st s h done =
      (Prepares-unless st.is_regular (Prepares-not bad_file λ e. cc) λ _.
          Prepares-then (os.ask fchmod) λ c.
            Prepares-unless (succeeded c) (Prepares-not bad_file λ e. cc) λ _.
              Prepares-then (has_allocation_space os (min (allocated_bytes st) requested) requested)
                λ space. fill_swap_file-IsBacked space (allocated_bytes st) (current_bytes st) h).at
        s done

  sizes :
      (blocks size : ℤ)
      → i < min (if ltb_ℤ (pos 0) size then pos_part size else 0) requested
      → min (if ltb_ℤ (pos 0) size then pos_part size else 0) requested
        ≤ (if ltb_ℤ (pos 0) blocks then u64 (pos_part blocks * 512) else 0)
      → (i < pos_part size) × (min (pos_part size) requested ≤ pos_part blocks * 512)
  sizes (pos b) (pos n) below enough = ground arith
  sizes (pos b) (negsuc n) below enough = ground arith
  sizes (negsuc b) (pos n) below enough = ground arith
  sizes (negsuc b) (negsuc n) below enough = ground arith

  -- Every byte of a swap file that is prepared was filled by the run, or it lies below the size that the
  -- old file had, and the blocks of 512 bytes that the old file had are enough for its bytes up to the
  -- size requested.
  pub prepare_open_file-IsBacked :
      (st : FileStat) (s : os.State)
      → i < requested
      → (prepare_open_file os (some st) requested s).0 ≡ prepared
      → (os.filled (prepare_open_file os (some st) requested s).1 i ≡ true)
        ⊎ ((i < pos_part st.size) × (min (pos_part st.size) requested ≤ pos_part st.blocks * 512))
  prepare_open_file-IsBacked st s h done =
      unfold IsBacked in
      elim (kept_or_filled st s h done) [
        | inl new ↦ inl new
        | inr (kept, enough) ↦ inr (sizes st.blocks st.size kept enough)
      ]
