-- ===== src/Tests/Bore.antt =====
-- The theorems on the BORE module, at a burst of 200 ms, a family of four and a failing registry.
use android_device_axion_com.Base.{
  ℕ, ◌+◌, ◌-◌, ◌*◌, ◌/◌, ◌≤◌, ◌≡◌, ◌⊎◌, refl, arith, min, max, false, none, some, [], ◌∷◌, map,
  ◌==◌, if◌then◌else◌, length,
}
use android_device_axion_com.Kernel.{Ptr, null}
use android_device_axion_com.Bore.Penalty.{
  default_params, max_burst_penalty, calc_burst_penalty, log2p1_u64_u32fp, binary_smooth,
}
use android_device_axion_com.Bore.Penalty.Log.{log2p1-octave}
use android_device_axion_com.Bore.Penalty.Clamp.{calc_burst_penalty-clamp}
use android_device_axion_com.Bore.Penalty.Smooth.{rise, binary_smooth-cases}
use android_device_axion_com.Bore.Context.{bore_score, effective_prio_bore}
use android_device_axion_com.Bore.Context.Prio.{effective_prio_bore-clamp}
use android_device_axion_com.Bore.Cache.{
  init_bore_reciprocal_lut, zero_lut, average_penalty, burst_cache_expired,
}
use android_device_axion_com.Bore.Cache.Average.{average_penalty-exact}
use android_device_axion_com.Bore.Inherit.{
  Tasks, bore_task_is_eligible, scan, inherit_from_parent, inherit_from_ancestor_hub,
}
use android_device_axion_com.Bore.Inherit.Sample.{sample, penalties, fresh_penalty, scan-sample}
use android_device_axion_com.Bore.Inherit.Walk.{Rises, Chain}
use android_device_axion_com.Bore.Inherit.Value.{
  AllValid, parent_of, answer, fresh_cache, subtree_with, inherit_from_parent-answer,
}
use android_device_axion_com.Bore.Inherit.Frame.{OnlyCaches}
use android_device_axion_com.Bore.Inherit.Hub.{inherit_from_ancestor_hub-answers}
use android_device_axion_com.Bore.Probes.{
  Sched, same_group, probe_bore_update_curr, probe_bore_task_fork,
}
use android_device_axion_com.Bore.Probes.Update.{probe_bore_update_curr-due}
use android_device_axion_com.Bore.Probes.Fork.{
  plain_penalty, with_newborn, probe_bore_task_fork-newborn,
}
use android_device_axion_com.Tests.Data.{
  rank, busy, busy-IsValid, busy-IsCurrent, default-NoWrap, family, family-IsFamily, sched,
  sched-IsSound,
}

ran : Sched
ran = (probe_bore_update_curr sched 3 1000000 none).0

probe_bore_update_curr-due_example :
    let burst_time = busy.burst_time + 1000000 in
    let measured = calc_burst_penalty default_params burst_time in
    (probe_bore_update_curr sched 3 1000000 none).0.tasks 3 ≡ record (family 3) {
      ctx = record busy {
        burst_time = burst_time;
        curr_penalty = measured;
        penalty = max measured busy.prev_penalty;
      };
    }
probe_bore_update_curr-due_example =
    probe_bore_update_curr-due sched 3 1000000 none default-NoWrap busy-IsValid busy-IsCurrent
      (omega arith) refl refl 3

average_penalty-exact_example : average_penalty (init_bore_reciprocal_lut zero_lut) 7 50000 ≡ 7142
average_penalty-exact_example = average_penalty-exact zero_lut 7 50000 (omega arith) (omega arith)

calc_burst_penalty-clamp_example :
    calc_burst_penalty default_params 200000000
    ≡ min max_burst_penalty ((log2p1_u64_u32fp 200000000 8 - 24 * 256) * 1536 / 1024)
calc_burst_penalty-clamp_example =
    calc_burst_penalty-clamp default_params 200000000 default-NoWrap (omega arith)

log2p1-octave_example : log2p1_u64_u32fp 5 8 ≡ 832
log2p1-octave_example =
    log2p1-octave 2 5 (omega arith) (record { low = omega arith; high = omega arith })

binary_smooth-cases_example : binary_smooth default_params 1723 300 ≡ 300 + rise 1 1423
binary_smooth-cases_example =
    binary_smooth-cases default_params 1723 300 (omega arith) (omega arith) (omega arith)

effective_prio_bore-clamp_example :
    effective_prio_bore 100 default_params rank busy ≡ min 39 (125 + bore_score busy - 100)
effective_prio_bore-clamp_example =
    effective_prio_bore-clamp 100 default_params rank busy (omega arith) (omega arith)

scan-sample_example : scan family (3 ∷ 4 ∷ []) 0 0 0 ≡ (
  length (sample family (3 ∷ 4 ∷ []) 126 63),
  penalties family (sample family (3 ∷ 4 ∷ []) 126 63),
)
scan-sample_example = scan-sample family (λ p. omega arith) (3 ∷ 4 ∷ [])

inherit_from_parent-answer_example :
    let r =
      inherit_from_parent default_params
        (init_bore_reciprocal_lut zero_lut)
        family
        2
        false
        80000000 in
    (r.1 ≡ fresh_penalty family (3 ∷ 4 ∷ []) busy)
    × ((q : Ptr)
        → r.0 q ≡ (
            if q == 2
            then record (family q) {
              ctx = subtree_with (family q).ctx (fresh_cache family (3 ∷ 4 ∷ []) busy 80000000);
            }
            else family q))
unfolding sample burst_cache_expired
inherit_from_parent-answer_example =
    inherit_from_parent-answer default_params zero_lut family (λ p. busy-IsValid) 80000000 2 false

inherit_from_ancestor_hub-answers_example :
    (r : Tasks × ℕ) × (inherit_from_ancestor_hub default_params
        (init_bore_reciprocal_lut zero_lut)
        3
        family
        3
        false
        80000000
      ≡ some r)
    × ((parent_of family 3 false ≡ null) × (r ≡ (family, 0))
        ⊎ ((h : Ptr) × Rises family 0 3 h
            × (ends : Ptr → Ptr) × ((p : Ptr) → Chain family p (ends p))
            × ((r.1
                  ≡ answer default_params family
                      (map ends (family h).children)
                      (family h).ctx
                      (family h).ctx.subtree
                      80000000)
                × AllValid r.0
                × (r.1 ≤ max_burst_penalty))))
inherit_from_ancestor_hub-answers_example =
    inherit_from_ancestor_hub-answers family 3 family-IsFamily default_params zero_lut
      (λ p. busy-IsValid) 80000000 3 false

probe_bore_task_fork-newborn_example :
    (penalty : ℕ) × (t : Tasks) × (penalty ≤ max_burst_penalty)
    × (((same_group sched 4 3 ≡ false) × (sched.params.burst_inherit_type ≡ 2))
        ⊎ (penalty ≡ plain_penalty sched 4 3 80000000))
    × OnlyCaches (with_newborn family 4 penalty) t
    × (probe_bore_task_fork 3 sched 4 3 80000000 ≡ some (record sched { tasks = t }))
unfolding bore_task_is_eligible
probe_bore_task_fork-newborn_example =
    probe_bore_task_fork-newborn 3 sched 4 3 80000000 sched-IsSound family-IsFamily refl refl
