-- ===== src/Bore/Inherit/Sample.antt =====
-- What the loop over children or threads collects: the first 63 eligible of the first 126 tasks.
use native.Mathlib.Nat.{div-le_of_le-mul}
use android_device_axion_com.Base.{
  ℕ, zero, suc, ◌+◌, ◌*◌, ◌/◌, ◌^◌, ◌≤◌, ◌<◌, ◌≡◌, refl, ◌∙◌, arith, max, List, [], ◌∷◌, length,
  take, select, sum_by, length-take-le, sum_by-le, add32,
}
use android_device_axion_com.Kernel.{Ptr}
use android_device_axion_com.Bore.Penalty.{max_burst_penalty}
use android_device_axion_com.Bore.Context.{Context}
use android_device_axion_com.Bore.Context.Invariant.{IsValid}
use android_device_axion_com.Bore.Cache.{Lut, init_bore_reciprocal_lut, update_burst_cache}
use android_device_axion_com.Bore.Cache.Average.{average_penalty-exact}
use android_device_axion_com.Bore.Inherit.{Tasks, bore_task_is_eligible, scan}

-- The tasks that are sampled, stated without a loop.
unfoldable pub sample : Tasks → List Ptr → ℕ → ℕ → List Ptr
sample t ps scans picks = take picks (select (λ p. bore_task_is_eligible (t p)) (take scans ps))

abbrev pub penalties : Tasks → List Ptr → ℕ
penalties t = sum_by (λ p. (t p).ctx.penalty)

module _ (t : Tasks) (small : (p : Ptr) → (t p).ctx.penalty < 2 ^ 16) where
  -- The loop with `picks` tasks still to take and `scans` still to look at.
  scan_from :
      (ps : List Ptr) (scans picks count total scanned : ℕ)
      → count + picks ≡ 63
      → scanned + scans ≡ 126
      → total ≤ count * 65535
      → scan t ps count total scanned
        ≡ (count + length (sample t ps scans picks), total + penalties t (sample t ps scans picks))
  unfolding scan sample
  scan_from [] zero zero count total scanned a b h = ground arith
  scan_from [] zero (suc n) count total scanned a b h = ground arith
  scan_from [] (suc m) zero count total scanned a b h = ground arith
  scan_from [] (suc m) (suc n) count total scanned a b h = ground arith
  scan_from (p ∷ ps) zero zero count total scanned a b h = ground arith
  scan_from (p ∷ ps) (suc m) zero count total scanned a b h = ground arith
  scan_from (p ∷ ps) zero (suc n) count total scanned a b h = ground arith
  scan_from (p ∷ ps) (suc m) (suc n) count total scanned a b h =
      let add : add32 total (t p).ctx.penalty ≡ total + (t p).ctx.penalty =
        omega (arith, small p) in
      ground (
        arith,
        add,
        small p,
        scan_from ps m n (count + 1) (add32 total (t p).ctx.penalty) (scanned + 1),
        scan_from ps m (suc n) count total (scanned + 1),
      )

  -- When every penalty fits 16 bits, the loop counts the sample and adds up its penalties.
  pub scan-sample :
      (ps : List Ptr)
      → scan t ps 0 0 0 ≡ (length (sample t ps 126 63), penalties t (sample t ps 126 63))
  scan-sample ps = scan_from ps 126 63 0 0 0 refl refl (omega arith) ∙ ground arith

-- The penalty that a refreshed cache holds: the average of the sample, or the owner's if larger.
abbrev pub fresh_penalty : Tasks → List Ptr → Context → ℕ
fresh_penalty t ps ctx =
    let picked = sample t ps 126 63 in max (penalties t picked / length picked) ctx.penalty

module _ (t : Tasks) (valid : (p : Ptr) → IsValid (t p).ctx) (ps : List Ptr) where
  pub sample-length-le : length (sample t ps 126 63) ≤ 63
  unfolding sample
  sample-length-le = length-take-le 63 _

  pub penalties-le :
      penalties t (sample t ps 126 63) ≤ length (sample t ps 126 63) * max_burst_penalty
  penalties-le = sum_by-le _ max_burst_penalty _ (λ p. (valid p).scored)

  penalties-scaled :
      penalties t (sample t ps 126 63) ≤ max_burst_penalty * length (sample t ps 126 63)
  penalties-scaled = omega (arith, penalties-le)

  pub fresh_penalty-le : (ctx : Context) → IsValid ctx → fresh_penalty t ps ctx ≤ max_burst_penalty
  fresh_penalty-le ctx v =
      omega (arith, v.scored, div-le_of_le-mul (length (sample t ps 126 63)) penalties-le)

  -- A refresh from the loop's count and total holds that penalty.
  pub update_burst_cache-fresh :
      (lut : Lut) (ctx : Context) (now : ℕ)
      → IsValid ctx
      → (update_burst_cache
          (init_bore_reciprocal_lut lut)
          ctx
          (scan t ps 0 0 0).0
          (scan t ps 0 0 0).1
          now).penalty
        ≡ fresh_penalty t ps ctx
  unfolding update_burst_cache
  update_burst_cache-fresh lut ctx now v =
      rw
        (
          scan-sample t (λ p. omega (arith, (valid p).scored)) ps,
          average_penalty-exact lut (length (sample t ps 126 63)) (penalties t (sample t ps 126 63))
              sample-length-le (omega (arith, penalties-le)),
        )
        (omega (arith, fresh_penalty-le ctx v))
