-- ===== src/Dragonite/Failures.antt =====
-- The driver's operations when they fail, kernel/modules/ax_dragonite/ax_dragonite_main.c.
use android_device_axion_com.Base.{
  ◌≡◌, refl, ◌∙◌, arith, ◌⊎◌, inl, inr, ℤ, Bool, true, false, not, ◌||◌, ◌&&◌, List, [], ◌∷◌, ltb,
  length, has, Bool-cases, if_cases, if◌then◌else◌,
}
use android_device_axion_com.Kernel.{Ptr}
use android_device_axion_com.Dragonite.{
  Status, success, Text, Mask, Stats, World, Kernel, is_gone, bad_mask, bad_pid, axd_set_affinity,
  axd_reset_affinity, axd_set_boost, axd_pin_kswapd,
}
use android_device_axion_com.Dragonite.Loops.{accepting}
use android_device_axion_com.Dragonite.Balance.{IsPinned}
use android_device_axion_com.Dragonite.Affinity.{
  axd_set_affinity-refusal, named, axd_set_affinity-pins, axd_reset_affinity-refusal, members,
  axd_reset_affinity-pins, swappers, axd_pin_kswapd-pins,
}

-- A world as good as another: no reference, mask, nice value or counter differs.
pub record IsKept (w w' : World) : Type 0 where
  pub refs : (q : Ptr) → w'.refs q ≡ w.refs q
  pub allowed : (q : Ptr) → w'.allowed q ≡ w.allowed q
  pub nice : w'.nice ≡ w.nice
  pub stats : w'.stats ≡ w.stats

pub IsKept-refl : (w : World) → IsKept w w
IsKept-refl w = record { refs = λ q. refl; allowed = λ q. refl; nice = refl; stats = refl }

-- An operation that succeeds, or keeps the world.
abbrev pub Settles : World → Status × World → Type 0
Settles w r = (r.0 ≡ success) ⊎ IsKept w r.1

refusal-Settles : (w : World) (r : Status × World) (s : Status) → r ≡ (s, w) → Settles w r
refusal-Settles w r s e = rw e (inr (IsKept-refl w))

or_false : (a b : Bool) → (a || b) ≡ false → (a ≡ false) × (b ≡ false)
or_false a b h = ground arith

-- What follows from both branches of a condition follows from the condition.
either_way : {A B C : Type 0} (b : Bool) → (A → C) → (B → C) → (if b then A else B) → C
either_way true f g x = f x
either_way false f g x = g x

module _ (k : Kernel) (mask : Mask) where
  -- A mask that no task accepts is set for none.
  accepting-none :
      (ts : List Ptr) (q : Ptr)
      → ltb 0 (length (accepting k mask ts)) ≡ false
      → (has q ts && k.accepts q mask) ≡ false
  unfolding has
  accepting-none [] q h = refl
  accepting-none (t ∷ ts) q h = grind (arith, accepting-none ts q)

  module _ (picked : List Ptr) (w : World) (s : Stats) where
    pinned-Settles :
        (r : Status × World) (failure : Status)
        → let hit = ltb 0 (length (accepting k mask picked)) in
          (r.0 ≡ (if hit then success else failure))
            × IsPinned k mask picked w r.1
            × (r.1.stats ≡ (if hit then s else w.stats))
          → Settles w r
    pinned-Settles r failure (status, pins, counted) =
        elim (Bool-cases (ltb 0 (length (accepting k mask picked)))) [
          | inl some ↦ inl (status ∙ rw some refl)
          | inr none ↦ inr (record {
            refs = pins.refs;
            allowed = λ q. pins.allowed q ∙ rw (accepting-none picked q none) refl;
            nice = pins.nice;
            stats = counted ∙ rw none refl;
          })
        ]

module _ (k : Kernel) (w : World) where
  pub axd_set_affinity-Settles :
      (pid : ℤ) (comm_name : Text) (mask : Mask)
      → Settles w (axd_set_affinity k pid comm_name mask w)
  axd_set_affinity-Settles pid comm_name mask =
      let a = bad_pid k pid || bad_mask k mask in
      let b = not k.kmalloc in
      let c = is_gone k (k.find_task pid) in
      elim (Bool-cases (a || (b || c))) [
        | inl bad ↦ refusal-Settles w _ _ (axd_set_affinity-refusal k pid w comm_name mask bad)
        | inr fine ↦
            let (good, rest) = or_false a (b || c) fine in
            let (room, live) = or_false b c rest in
            pinned-Settles k mask (named k pid w comm_name mask) w _ _ _
              (axd_set_affinity-pins k pid w comm_name mask good (ground arith) live)
      ]

  pub axd_reset_affinity-Settles : (pid : ℤ) → Settles w (axd_reset_affinity k pid w)
  axd_reset_affinity-Settles pid =
      let a = bad_pid k pid in
      let b = not k.kmalloc in
      let c = is_gone k (k.find_task pid) in
      elim (Bool-cases (a || (b || c))) [
        | inl bad ↦ refusal-Settles w _ _ (axd_reset_affinity-refusal k pid w bad)
        | inr fine ↦
            let (good, rest) = or_false a (b || c) fine in
            let (room, live) = or_false b c rest in
            pinned-Settles k k.cpu_possible_mask (members k pid w) w _ _ _
              (axd_reset_affinity-pins k pid w good (ground arith) live)
      ]

  pub axd_pin_kswapd-Settles : (mask : Mask) → Settles w (axd_pin_kswapd k mask w)
  axd_pin_kswapd-Settles mask =
      either_way (bad_mask k mask) (λ bad. refusal-Settles w _ _ bad)
        (λ pinned. pinned-Settles k mask (swappers k mask w) w _ _ _ pinned)
        (axd_pin_kswapd-pins k mask w)

  pub axd_set_boost-Settles : (pid level : ℤ) → Settles w (axd_set_boost k pid level w)
  unfolding axd_set_boost
  axd_set_boost-Settles pid level =
      if_cases (Settles w) (bad_pid k pid) (λ _. inr (IsKept-refl w))
        λ _.
          if_cases (Settles w) (is_gone k (k.find_task pid)) (λ _. inr (IsKept-refl w))
            λ _. inl refl
