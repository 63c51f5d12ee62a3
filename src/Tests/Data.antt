-- ===== src/Tests/Data.antt =====
-- A family of tasks, a module on it, and a tracepoint registry that refuses one tag.
use android_device_axion_com.Base.{
  ℕ, ◌<◌, ◌≡◌, ◌≢◌, refl, arith, Bool, pos, negsuc, true, false, ◌||◌, [], ◌∷◌, ◌==◌, if◌then◌else◌,
}
use android_device_axion_com.Kernel.{Ptr, sched_normal, Flags}
use android_device_axion_com.Kernel.Tracepoints.{Tracepoints}
use android_device_axion_com.Bore.Penalty.{
  default_params, calc_burst_penalty, bit_length, clz64, log2p1_u64_u32fp,
}
use android_device_axion_com.Bore.Penalty.Clamp.{NoWrap}
use android_device_axion_com.Bore.Context.{Context, Rank}
use android_device_axion_com.Bore.Context.Invariant.{IsValid}
use android_device_axion_com.Bore.Cache.{init_bore_reciprocal_lut, zero_lut}
use android_device_axion_com.Bore.Inherit.{Tasks}
use android_device_axion_com.Bore.Inherit.Walk.{IsFamily}
use android_device_axion_com.Bore.Probes.{Sched}
use android_device_axion_com.Bore.Probes.Steps.{IsSound}
use android_device_axion_com.Bore.Probes.Update.{IsCurrent}
use android_device_axion_com.Latency

abbrev pub plain : Flags
plain = record { pf_kthread = false; pf_idle = false }

abbrev pub rank : Rank
rank = record { static_prio = 125; flags = plain }

-- A burst of 200 ms.
abbrev pub busy : Context
busy = record {
  burst_time = 200000000;
  prev_penalty = 300;
  curr_penalty = 1723;
  penalty = 1723;
  stop_update = false;
  futex_waiting = false;
  subtree = record { timestamp = 0; penalty = 17 };
  group = record { timestamp = 0; penalty = 0 };
}

pub busy-IsValid : IsValid busy
busy-IsValid = omega arith

pub busy-IsCurrent : IsCurrent default_params rank busy
unfolding calc_burst_penalty bit_length clz64 log2p1_u64_u32fp
busy-IsCurrent = record { measured = refl; due = refl }

pub default-NoWrap : NoWrap default_params
default-NoWrap = omega arith

-- 1 has the sole child 2, and 2 has the children 3 and 4.
abbrev pub family : Tasks
family p = record {
  policy = sched_normal;
  rank = rank;
  real_parent = if p == 2 then 1 else if p == 3 || p == 4 then 2 else 0;
  group_leader = p;
  children = if p == 1 then 2 ∷ [] else if p == 2 then 3 ∷ 4 ∷ [] else [];
  threads = p ∷ [];
  ctx = busy;
}

abbrev pub family_depth : Ptr → ℕ
family_depth p = if p == 2 then 1 else if p == 3 || p == 4 then 2 else 0

abbrev pub family_height : Ptr → ℕ
family_height p = if p == 1 then 1 else 0

pub family_depth-lt : (p : Ptr) → family_depth p < 3
family_depth-lt p = ground arith

pub family_height-lt : (p : Ptr) → family_height p < 3
family_height-lt p = ground arith

pub family_parent :
    (p : Ptr)
    → (family p).real_parent ≢ p
    → (family p).real_parent ≢ 0
    → family_depth (family p).real_parent < family_depth p
family_parent p apart rooted = ground arith

pub family_sole_child :
    (p c : Ptr) → (family p).children ≡ c ∷ [] → family_height c < family_height p
family_sole_child p c only = ground arith

abbrev pub family-IsFamily : IsFamily family 3
family-IsFamily = record {
  depth = family_depth;
  height = family_height;
  depth-lt = family_depth-lt;
  height-lt = family_height-lt;
  parent = family_parent;
  sole_child = family_sole_child;
}

abbrev pub sched : Sched
sched = record {
  max_rt_prio = 100;
  params = default_params;
  lut = init_bore_reciprocal_lut zero_lut;
  tasks = family;
}

pub sched-IsSound : IsSound sched
sched-IsSound = record { table = refl; shift = omega arith; all = λ p. busy-IsValid }

-- A registry holds the tags of its hooks. Registering the tag `refused` fails.
module _ (Hook : Type 0) (tag : Hook → ℕ) (refused : ℕ) where
  abbrev pub grant : Hook → (ℕ → Bool) → ℕ × (ℕ → Bool)
  grant h r = if tag h == refused then (1, r) else (0, λ n. if tag h == n then true else r n)

  pub grant_ok :
      (h : Hook) (r : ℕ → Bool) (k : Hook)
      → (grant h r).0 ≡ 0
      → (grant h r).1 (tag k) ≡ (if tag h == tag k then true else r (tag k))
  grant_ok h r k e = ground arith

  pub grant_error :
      (h : Hook) (r : ℕ → Bool) (k : Hook) → (grant h r).0 ≢ 0 → (grant h r).1 (tag k) ≡ r (tag k)
  grant_error h r k e = ground arith

  abbrev pub tag_registry : Tracepoints Hook tag
  tag_registry = record {
    Registry = ℕ → Bool;
    registered = λ r h. r (tag h);
    register = grant;
    unregister = λ h r n. if tag h == n then false else r n;
    register_ok = grant_ok;
    register_error = grant_error;
    unregister_lem = λ h r k. refl;
  }

abbrev pub boosted : Latency.Task
boosted = record {
  policy = sched_normal;
  task_flags = plain;
  static_prio = 100;
  entity = record { latency_offset = negsuc 999; latency_nice = pos 0; flags = 0 };
}

-- Task 1 leads, task 2 lags.
abbrev pub latency : Latency.Sched
latency = record {
  latency_nice_enabled = 1;
  latency_max = pos 24000000;
  tasks = λ p. if p == 1 then boosted else record boosted {
    static_prio = 130;
    entity = record { latency_offset = pos 500; latency_nice = pos 0; flags = 0 };
  };
}
