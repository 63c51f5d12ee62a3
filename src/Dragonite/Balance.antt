-- ===== src/Dragonite/Balance.antt =====
-- Collecting tasks and then masking them, as one operation: the references come out even.
use android_device_axion_com.Base.{
  ℕ, ◌≡◌, refl, ◌∙◌, arith, Bool, ◌&&◌, List, length, has, if◌then◌else◌,
}
use android_device_axion_com.Kernel.{Ptr}
use android_device_axion_com.Dragonite.{Mask, World, Kernel, collect, apply_mask}
use android_device_axion_com.Dragonite.Loops.{
  chosen, accepting, collect-chosen, collect-refs, collect-SameButRefs, apply_mask-matched,
  apply_mask-refs, apply_mask-allowed, apply_mask-frame,
}

-- From `w` to `w'` the picked tasks that accept the mask get it; nothing else changes but the
-- driver's counters, and every reference that was taken is dropped.
pub record IsPinned (k : Kernel) (mask : Mask) (picked : List Ptr) (w w' : World) : Type 0 where
  pub refs : (q : Ptr) → w'.refs q ≡ w.refs q
  pub allowed :
      (q : Ptr) → w'.allowed q ≡ (if has q picked && k.accepts q mask then mask else w.allowed q)
  pub nice : w'.nice ≡ w.nice

module _ (k : Kernel) (mask : Mask) (keep : Ptr → Bool) (limit : ℕ) (ts : List Ptr)
    (w : World) where
  abbrev picked : List Ptr
  picked = chosen keep limit ts

  abbrev taken : List Ptr × World
  taken = collect keep limit ts 0 w

  abbrev masked : ℕ × World
  masked = apply_mask k mask taken.0 0 taken.1

  pub taken-picked : taken.0 ≡ picked
  taken-picked = collect-chosen keep limit ts limit 0 w (omega arith)

  pub masked-count : masked.0 ≡ length (accepting k mask picked)
  masked-count = apply_mask-matched k mask taken.0 0 taken.1 ∙ rw taken-picked (omega arith)

  masked-refs : (q : Ptr) → masked.1.refs q ≡ w.refs q
  masked-refs q =
      apply_mask-refs k mask taken.0 0 taken.1 q
      ∙ rw taken-picked (omega (arith, collect-refs keep limit ts limit 0 w q (omega arith)))

  pub masked-stats : masked.1.stats ≡ w.stats
  masked-stats =
      (apply_mask-frame k mask taken.0 0 taken.1).1 ∙ (collect-SameButRefs keep limit ts 0 w).stats

  pub masked-IsPinned : IsPinned k mask picked w masked.1
  masked-IsPinned = record {
    refs = masked-refs;
    allowed = λ q.
        apply_mask-allowed k mask taken.0 0 taken.1 q
        ∙ rw (taken-picked, (collect-SameButRefs keep limit ts 0 w).allowed) refl;
    nice =
        (apply_mask-frame k mask taken.0 0 taken.1).0
        ∙ (collect-SameButRefs keep limit ts 0 w).nice;
  }
