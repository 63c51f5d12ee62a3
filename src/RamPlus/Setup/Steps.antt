-- ===== src/RamPlus/Setup/Steps.antt =====
-- What the steps that change something do to the swap file and to the two properties.
use android_device_axion_com.Base.{
  ℕ, ◌≡◌, ◌≢◌, ◌⊎◌, inl, inr, Bool, true, false, refl, ◌∙◌, ap, ◌&&◌, Bytes, if◌then◌else◌,
}
use android_device_axion_com.RamPlus.Os.{
  Os, IsAndroid, View, Disk, Status, Errno, ok, einval, enoent, other, swapoff, unlink,
  set_active_kb, set_status, swapped_on, swapped_off, unlinked, opened, open_swap, swapon,
}
use android_device_axion_com.RamPlus.Holds.{Holds}
use android_device_axion_com.RamPlus.SwapFile.{
  succeeded, is_off, is_removed, publish_status, disable_swap, remove_swap_file,
}
use android_device_axion_com.RamPlus.Setup.Assertions.{
  IsTidy, IsGone, IsWilling, Rest, Idle, Ready, Up,
}

published_kb :
    (a b : Bool) (n : ℕ) (t : Status) (v w x : View)
    → w ≡ record v { active_kb = if a then n else w.active_kb }
    → x ≡ record w { status = if b then t else x.status }
    → (x.disk ≡ v.disk) × ((a && b) ≡ true → (x.status ≡ t) × (x.active_kb ≡ n))
published_kb true true n t v w x hw hx = (
  ap (λ y. y.disk) hx ∙ ap (λ y. y.disk) hw,
  λ _. (ap (λ y. y.status) hx, ap (λ y. y.active_kb) hx ∙ ap (λ y. y.active_kb) hw),
)
published_kb true false n t v w x hw hx = (ap (λ y. y.disk) hx ∙ ap (λ y. y.disk) hw, λ e. cc)
published_kb false b n t v w x hw hx = (ap (λ y. y.disk) hx ∙ ap (λ y. y.disk) hw, λ e. cc)

off-IsTidy : (d : Disk) → d.in_use ≡ false → IsTidy d
unfolding IsTidy
off-IsTidy d off = inl off

gone-off : (d : Disk) → IsTidy d → d.present ≡ false → d.in_use ≡ false
unfolding IsTidy
gone-off d (inl off) gone = off
gone-off d (inr kept) gone = cc

module _ {req : Bytes} {C : Type 0} where
  off-Rest :
      (r : Errno) (d : Disk)
      → (r ≡ einval → d.in_use ≡ false)
      → (r ≡ enoent → d.present ≡ false)
      → Rest req C d
      → Rest req C (swapped_off r d) × (is_off r ≡ true → (swapped_off r d).in_use ≡ false)
  unfolding IsTidy IsGone
  off-Rest ok d hi he h =
      (record { asked = h.asked; tidy = inl refl; gone = λ c. (refl, (h.gone c).1) }, λ _. refl)
  off-Rest einval d hi he h = (h, λ _. hi refl)
  off-Rest enoent d hi he h = (h, λ _. gone-off d h.tidy (he refl))
  off-Rest other d hi he h = (h, λ e. cc)

  off-Up :
      (r : Errno) (d : Disk)
      → (r ≡ einval → d.in_use ≡ false)
      → (r ≡ enoent → d.present ≡ false)
      → (C → r ≢ other)
      → Up req C d
      → (is_off r ≡ true → Idle req C (swapped_off r d))
        × (is_off r ≡ false → Rest req C (swapped_off r d))
  unfolding IsTidy
  off-Up ok d hi he w h = (λ _. record { asked = h.asked; off = refl }, λ e. cc)
  off-Up einval d hi he w h = (λ _. record { asked = h.asked; off = hi refl }, λ e. cc)
  off-Up enoent d hi he w h = let gone = he refl in let kept = h.kept in (λ _. cc, λ e. cc)
  off-Up other d hi he w h =
      (λ e. cc, λ _. record { asked = h.asked; tidy = inr h.kept; gone = λ c. absurd (w c refl) })

  removed-Idle :
      (r : Errno) (d : Disk)
      → (r ≡ enoent → d.present ≡ false)
      → (C → (r ≡ ok) ⊎ (r ≡ enoent))
      → Idle req C d
      → Rest req C (unlinked r d)
        × Idle req C (unlinked r d)
        × (is_removed r ≡ true → (unlinked r d).present ≡ false)
  unfolding IsTidy IsGone
  removed-Idle ok d he w h = (
    record {
      asked = h.asked;
      tidy = off-IsTidy (record d { present = false }) h.off;
      gone = λ c. (h.off, refl);
    },
    record { asked = h.asked; off = h.off },
    λ _. refl,
  )
  removed-Idle einval d he w h = (
    record {
      asked = h.asked;
      tidy = off-IsTidy d h.off;
      gone = λ c. elim (w c) [ inl e ↦ cc | inr e ↦ cc ];
    },
    h,
    λ e. cc,
  )
  removed-Idle enoent d he w h = (
    record { asked = h.asked; tidy = off-IsTidy d h.off; gone = λ c. (h.off, he refl) },
    h,
    λ _. he refl,
  )
  removed-Idle other d he w h = (
    record {
      asked = h.asked;
      tidy = off-IsTidy d h.off;
      gone = λ c. elim (w c) [ inl e ↦ cc | inr e ↦ cc ];
    },
    h,
    λ e. cc,
  )

  opened-Idle :
      (r : Bool) (d : Disk)
      → Idle req C d
      → Idle req C (opened r d) × (r ≡ true → (opened r d).present ≡ true)
  opened-Idle true d h = (record { asked = h.asked; off = h.off }, λ _. refl)
  opened-Idle false d h = (h, λ e. cc)

  switched-Ready :
      (r : Errno) (d : Disk)
      → Ready req C d
      → (succeeded r ≡ true → Up req C (swapped_on r d))
        × (succeeded r ≡ false → Idle req C (swapped_on r d))
  switched-Ready ok d h = (λ _. record { asked = h.asked; on = refl; kept = h.kept }, λ e. cc)
  switched-Ready einval d h = (λ e. cc, λ _. record { asked = h.asked; off = h.off })
  switched-Ready enoent d h = (λ e. cc, λ _. record { asked = h.asked; off = h.off })
  switched-Ready other d h = (λ e. cc, λ _. record { asked = h.asked; off = h.off })

module _ (os : Os) (law : IsAndroid os) where
  pub Holds-publish_status :
      (B : Disk → Type 0) (n : ℕ) (t : Status)
      → Holds os
          (λ v. B v.disk)
          (publish_status os n t)
          λ r v. B v.disk × (r ≡ true → (v.status ≡ t) × (v.active_kb ≡ n))
  unfolding publish_status
  Holds-publish_status B n t = record {
    at = λ s h.
        let (a, s') = os.ask (set_active_kb n) s in
        let (b, s'') = os.ask (set_status t) s' in
        let (same, told) =
          published_kb a b n t (os.view s) (os.view s') (os.view s'') (law.set_kb n s)
            (law.set_text t s') in
        (rw same h, told);
  }

  module _ {req : Bytes} {C : Type 0} where
    pub open_swap-Idle :
        Holds os
          (λ v. Idle req C v.disk)
          (os.ask open_swap)
          λ r v. Idle req C v.disk × (r ≡ true → v.disk.present ≡ true)
    open_swap-Idle = record {
      at = λ s h. rw (law.create s) (opened-Idle (os.ask open_swap s).0 (os.view s).disk h);
    }

    pub swapon-Ready :
        Holds os
          (λ v. Ready req C v.disk)
          (os.ask swapon)
          λ r v. (succeeded r ≡ true → Up req C v.disk) × (succeeded r ≡ false → Idle req C v.disk)
    swapon-Ready = record {
      at = λ s h. rw (law.on s) (switched-Ready (os.ask swapon s).0 (os.view s).disk h);
    }

  module _ {req : Bytes} {C : Type 0} (willing : C → IsWilling os) where
    pub disable_swap-Rest :
        Holds os
          (λ v. Rest req C v.disk)
          (disable_swap os)
          λ r v. Rest req C v.disk × (r ≡ true → v.disk.in_use ≡ false)
    unfolding disable_swap
    disable_swap-Rest = record {
      at = λ s h.
          rw (law.off s) (
            off-Rest (os.ask swapoff s).0 (os.view s).disk (law.off_unused s) (law.off_missing s)
              h);
    }

    pub disable_swap-Up :
        Holds os
          (λ v. Up req C v.disk)
          (disable_swap os)
          λ r v. (r ≡ true → Idle req C v.disk) × (r ≡ false → Rest req C v.disk)
    unfolding disable_swap
    disable_swap-Up = record {
      at = λ s h. rw (law.off s) (
          off-Up (os.ask swapoff s).0 (os.view s).disk (law.off_unused s) (law.off_missing s)
            (λ c. (willing c).off s) h);
    }

    pub remove_swap_file-Idle :
        Holds os
          (λ v. Idle req C v.disk)
          (remove_swap_file os)
          λ r v. Rest req C v.disk × Idle req C v.disk × (r ≡ true → v.disk.present ≡ false)
    unfolding remove_swap_file
    remove_swap_file-Idle = record {
      at = λ s h. rw (law.remove s) (
          removed-Idle (os.ask unlink s).0 (os.view s).disk (law.remove_missing s)
            (λ c. (willing c).remove s) h);
    }
