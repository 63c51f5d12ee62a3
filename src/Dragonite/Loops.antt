-- ===== src/Dragonite/Loops.antt =====
-- The two loops of the driver without their accumulators: which tasks are collected, how the
-- references move, and what the masks become.
use android_device_axion_com.Base.{
  ℕ, zero, suc, ◌+◌, ◌-◌, ◌≡◌, refl, ◌∙◌, arith, Bool, ◌&&◌, List, [], ◌∷◌, ◌==◌, length, take,
  select, has, count, if_cases, if◌then◌else◌,
}
use android_device_axion_com.Kernel.{Ptr}
use android_device_axion_com.Dragonite.{
  Mask, World, Kernel, get_task_struct, put_task_struct, collect, mask_task, apply_mask, update,
}

-- The tasks that are collected: the first that match, as many as there is room for.
abbrev pub chosen : (Ptr → Bool) → ℕ → List Ptr → List Ptr
chosen keep room ts = take room (select keep ts)

-- Everything of a world but the references.
pub record SameButRefs (v w : World) : Type 0 where
  pub allowed : v.allowed ≡ w.allowed
  pub nice : v.nice ≡ w.nice
  pub stats : v.stats ≡ w.stats

module _ (keep : Ptr → Bool) (limit : ℕ) where
  pub collect-chosen :
      (ts : List Ptr) (room n : ℕ) (w : World)
      → n + room ≡ limit
      → (collect keep limit ts n w).0 ≡ chosen keep room ts
  unfolding collect
  collect-chosen [] zero n w e = refl
  collect-chosen [] (suc room) n w e = refl
  collect-chosen (t ∷ ts) zero n w e = ground (arith, collect-chosen ts zero n w e)
  collect-chosen (t ∷ ts) (suc room) n w e = ground (
    arith,
    collect-chosen ts room (n + 1) (get_task_struct t w),
    collect-chosen ts (suc room) n w e,
  )

  -- Each collected task has one more reference for each time that it was collected.
  pub collect-refs :
      (ts : List Ptr) (room n : ℕ) (w : World) (q : Ptr)
      → n + room ≡ limit
      → (collect keep limit ts n w).1.refs q ≡ w.refs q + count q (chosen keep room ts)
  unfolding collect count get_task_struct
  collect-refs [] zero n w q e = omega arith
  collect-refs [] (suc room) n w q e = omega arith
  collect-refs (t ∷ ts) zero n w q e = ground (arith, collect-refs ts zero n w q e)
  collect-refs (t ∷ ts) (suc room) n w q e = ground (
    arith,
    collect-refs ts room (n + 1) (get_task_struct t w) q,
    collect-refs ts (suc room) n w q e,
  )

  pub collect-SameButRefs :
      (ts : List Ptr) (n : ℕ) (w : World) → SameButRefs (collect keep limit ts n w).1 w
  unfolding collect get_task_struct
  collect-SameButRefs [] n w = record { allowed = refl; nice = refl; stats = refl }
  collect-SameButRefs (t ∷ ts) n w =
      ground
        (arith, collect-SameButRefs ts n w, collect-SameButRefs ts (n + 1) (get_task_struct t w))

module _ (k : Kernel) (mask : Mask) where
  -- The collected tasks that accept the mask.
  abbrev pub accepting : List Ptr → List Ptr
  accepting = select (λ p. k.accepts p mask)

  mask_task-refs :
      (t : Ptr) (w : World) (q : Ptr)
      → (mask_task k mask t w).refs q ≡ w.refs q - (if q == t then 1 else 0)
  unfolding mask_task put_task_struct
  mask_task-refs t w q = ground arith

  mask_task-allowed :
      (t : Ptr) (w : World) (q : Ptr)
      → (mask_task k mask t w).allowed q
        ≡ (if q == t && k.accepts q mask then mask else w.allowed q)
  unfolding mask_task put_task_struct
  mask_task-allowed t w q = ground arith

  mask_task-frame :
      (t : Ptr) (w : World)
      → ((mask_task k mask t w).nice ≡ w.nice) × ((mask_task k mask t w).stats ≡ w.stats)
  unfolding mask_task put_task_struct
  mask_task-frame t w =
      if_cases (λ (v : World). (v.nice ≡ w.nice) × (v.stats ≡ w.stats)) (k.accepts t mask)
        {x = record w { allowed = update w.allowed t mask }} {y = w} (λ _. (refl, refl))
        (λ _. (refl, refl))

  pub apply_mask-matched :
      (ts : List Ptr) (n : ℕ) (w : World) → (apply_mask k mask ts n w).0 ≡ n + length (accepting ts)
  unfolding apply_mask
  apply_mask-matched [] n w = omega arith
  apply_mask-matched (t ∷ ts) n w =
      ground (
        arith,
        apply_mask-matched ts (if k.accepts t mask then n + 1 else n) (mask_task k mask t w),
      )

  pub apply_mask-refs :
      (ts : List Ptr) (n : ℕ) (w : World) (q : Ptr)
      → (apply_mask k mask ts n w).1.refs q ≡ w.refs q - count q ts
  unfolding apply_mask count
  apply_mask-refs [] n w q = omega arith
  apply_mask-refs (t ∷ ts) n w q =
      omega (arith, apply_mask-refs ts _ (mask_task k mask t w) q, mask_task-refs t w q)

  -- A task of the list that accepts the mask ends with it, and no other mask changes.
  pub apply_mask-allowed :
      (ts : List Ptr) (n : ℕ) (w : World) (q : Ptr)
      → (apply_mask k mask ts n w).1.allowed q
        ≡ (if has q ts && k.accepts q mask then mask else w.allowed q)
  unfolding apply_mask has
  apply_mask-allowed [] n w q = refl
  apply_mask-allowed (t ∷ ts) n w q = ground (
    arith,
    apply_mask-allowed ts (if k.accepts t mask then n + 1 else n) (mask_task k mask t w) q,
    mask_task-allowed t w q,
  )

  pub apply_mask-frame :
      (ts : List Ptr) (n : ℕ) (w : World)
      → ((apply_mask k mask ts n w).1.nice ≡ w.nice)
        × ((apply_mask k mask ts n w).1.stats ≡ w.stats)
  unfolding apply_mask
  apply_mask-frame [] n w = (refl, refl)
  apply_mask-frame (t ∷ ts) n w =
      let now = mask_task-frame t w in
      let later = apply_mask-frame ts _ (mask_task k mask t w) in (later.0 ∙ now.0, later.1 ∙ now.1)
