-- ===== src/Latency/Gran.antt =====
-- `wakeup_latency_gran` is clamped, and turns its sign when the two entities change places.
use android_device_axion_com.Base.{
  ◌≡◌, ◌⊎◌, inl, inr, refl, sym, ap, ◌∙◌, arith, ℤ, pos, neg_ℤ, ◌-ℤ◌, ltb_ℤ, ◌≤ℤ◌, ◌<ℤ◌, true, ◌||◌,
  if◌then◌else◌,
}
use android_device_axion_com.Kernel.{Ptr}
use android_device_axion_com.Latency.{Sched, wakeup_latency_gran}

clamp : ℤ → ℤ → ℤ
clamp m x = if ltb_ℤ m x then m else if ltb_ℤ x (neg_ℤ m) then neg_ℤ m else x

clamp_neg : (m x : ℤ) → pos 0 ≤ℤ m → clamp m (neg_ℤ x) ≡ neg_ℤ (clamp m x)
unfolding clamp
clamp_neg m x sane = ground arith

sub_neg : (a b : ℤ) → a -ℤ b ≡ neg_ℤ (b -ℤ a)
unfolding ◌-ℤ◌
sub_neg a b = ground arith

-- With a negative offset on either side, the result is the clamped difference.
gran-clamp :
    (s : Sched) (curr se : Ptr)
    → ((s.tasks curr).entity.latency_offset <ℤ pos 0)
      ⊎ ((s.tasks se).entity.latency_offset <ℤ pos 0)
    → wakeup_latency_gran s curr se
      ≡ clamp s.latency_max
          ((s.tasks se).entity.latency_offset -ℤ (s.tasks curr).entity.latency_offset)
unfolding wakeup_latency_gran clamp
gran-clamp s curr se h =
    let lead = (s.tasks se).entity.latency_offset in
    let lag = (s.tasks curr).entity.latency_offset in
    let mixed : (ltb_ℤ lead (pos 0) || ltb_ℤ lag (pos 0)) ≡ true = either lead lag h in
    rw mixed refl
  where
    either : (a b : ℤ) → (b <ℤ pos 0) ⊎ (a <ℤ pos 0) → (ltb_ℤ a (pos 0) || ltb_ℤ b (pos 0)) ≡ true
    either a b (inl h) = ground arith
    either a b (inr h) = ground arith

swap {ℓ κ} : {A : Type ℓ} {B : Type κ} → A ⊎ B → B ⊎ A
swap (inl a) = inr a
swap (inr b) = inl b

module _ (s : Sched) (curr se : Ptr) (sane : pos 0 ≤ℤ s.latency_max) where
  -- With a maximum that is not negative, the result lies within it on both sides.
  pub wakeup_latency_gran_bounds :
      (neg_ℤ s.latency_max ≤ℤ wakeup_latency_gran s curr se)
      × (wakeup_latency_gran s curr se ≤ℤ s.latency_max)
  unfolding wakeup_latency_gran
  wakeup_latency_gran_bounds = ground arith

  -- With a maximum that is not negative, and one of the two offsets negative, the entity that wakes and the one that runs see opposite
  -- offsets.
  pub wakeup_latency_gran_antisymmetric :
      ((s.tasks curr).entity.latency_offset <ℤ pos 0)
        ⊎ ((s.tasks se).entity.latency_offset <ℤ pos 0)
      → wakeup_latency_gran s curr se ≡ neg_ℤ (wakeup_latency_gran s se curr)
  wakeup_latency_gran_antisymmetric h =
      let lead = (s.tasks se).entity.latency_offset in
      let lag = (s.tasks curr).entity.latency_offset in
      gran-clamp s curr se h
      ∙ ap (clamp s.latency_max) (sub_neg lead lag)
      ∙ clamp_neg s.latency_max (lag -ℤ lead) sane
      ∙ ap neg_ℤ (sym (gran-clamp s se curr (swap h)))
