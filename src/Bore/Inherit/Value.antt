-- ===== src/Bore/Inherit/Value.antt =====
-- The penalties that the three ways of inheriting return, and that they keep every context valid.
use android_device_axion_com.Base.{
  ℕ, ◌/◌, ◌%◌, ◌^◌, ◌≤◌, ◌≡◌, refl, ap, arith, inl, inr, Bool, not, ◌&&◌, List, ◌==◌, ==_self,
  ==_iff, Bool-cases, if◌then◌else◌,
}
use android_device_axion_com.Kernel.{Ptr, null}
use android_device_axion_com.Bore.Penalty.{Params, max_burst_penalty}
use android_device_axion_com.Bore.Context.{BurstCache, Context}
use android_device_axion_com.Bore.Context.Invariant.{IsValid}
use android_device_axion_com.Bore.Cache.{
  Lut, init_bore_reciprocal_lut, burst_cache_expired, update_burst_cache,
}
use android_device_axion_com.Bore.Inherit.{
  Tasks, set_ctx, scan, inherit_from_parent, inherit_from_thread_group,
}
use android_device_axion_com.Bore.Inherit.Sample.{
  fresh_penalty, fresh_penalty-le, update_burst_cache-fresh,
}

-- Every task's context is valid.
abbrev pub AllValid : Tasks → Type 0
AllValid t = (p : Ptr) → IsValid (t p).ctx

pub set_ctx-AllValid :
    (t : Tasks) (p : Ptr) (ctx : Context) → AllValid t → IsValid ctx → AllValid (set_ctx t p ctx)
unfolding set_ctx
set_ctx-AllValid t p ctx all v q = elim (Bool-cases (q == p)) [
  | inl here ↦ rw here v
  | inr there ↦ rw there (all q)
]

pub set_ctx_self : (t : Tasks) (p : Ptr) (ctx : Context) → (set_ctx t p ctx p).ctx ≡ ctx
unfolding set_ctx
set_ctx_self t p ctx = rw (==_self p)

-- The caches of a context, by name.
abbrev pub subtree_with : Context → BurstCache → Context
subtree_with ctx bc = record ctx { subtree = bc }

abbrev pub group_with : Context → BurstCache → Context
group_with ctx bc = record ctx { group = bc }

-- A task whose cache is written keeps the rest, and the others keep all.
pub set_subtree :
    (t : Tasks) (p q : Ptr) (bc : BurstCache)
    → set_ctx t p (subtree_with (t p).ctx bc) q
      ≡ (if q == p then record (t q) { ctx = subtree_with (t q).ctx bc } else t q)
unfolding set_ctx
set_subtree t p q bc = elim (Bool-cases (q == p)) [
  | inl here ↦ rw (here, (==_iff q p).0 here) refl
  | inr there ↦ rw there refl
]

pub set_group :
    (t : Tasks) (p q : Ptr) (bc : BurstCache)
    → set_ctx t p (group_with (t p).ctx bc) q
      ≡ (if q == p then record (t q) { ctx = group_with (t q).ctx bc } else t q)
unfolding set_ctx
set_group t p q bc = elim (Bool-cases (q == p)) [
  | inl here ↦ rw (here, (==_iff q p).0 here) refl
  | inr there ↦ rw there refl
]

pub subtree-IsValid :
    (ctx : Context) (bc : BurstCache)
    → IsValid ctx
    → bc.penalty ≤ max_burst_penalty
    → IsValid (subtree_with ctx bc)
subtree-IsValid ctx bc v h = omega arith

group-IsValid :
    (ctx : Context) (bc : BurstCache)
    → IsValid ctx
    → bc.penalty ≤ max_burst_penalty
    → IsValid (group_with ctx bc)
group-IsValid ctx bc v h = omega arith

-- What a cache answers: what it holds while it is young, and the refreshed penalty once it is old.
abbrev pub answer : Params → Tasks → List Ptr → Context → BurstCache → ℕ → ℕ
answer prm t ps ctx bc now =
    if burst_cache_expired prm bc now then fresh_penalty t ps ctx else bc.penalty

-- A cache that is refreshed at a time.
abbrev pub fresh_cache : Tasks → List Ptr → Context → ℕ → BurstCache
fresh_cache t ps ctx now = record {
  timestamp = now / 2 ^ 16 % 2 ^ 48;
  penalty = fresh_penalty t ps ctx;
}

-- The task that `clone_flags` makes the parent.
abbrev pub parent_of : Tasks → Ptr → Bool → Ptr
parent_of t caller clone_parent = if clone_parent then (t caller).real_parent else caller

module _ (prm : Params) (lut0 : Lut) (t : Tasks) (all : AllValid t) (now : ℕ) where
  abbrev lut : Lut
  lut = init_bore_reciprocal_lut lut0

  pub fresh :
      (ps : List Ptr) (ctx : Context)
      → IsValid ctx
      → (update_burst_cache lut ctx (scan t ps 0 0 0).0 (scan t ps 0 0 0).1 now).penalty
        ≡ fresh_penalty t ps ctx
  fresh ps ctx v = update_burst_cache-fresh t all ps lut0 ctx now v

  -- A refresh from the loop's count and total, in full.
  fresh-cache :
      (ps : List Ptr) (ctx : Context)
      → IsValid ctx
      → update_burst_cache lut ctx (scan t ps 0 0 0).0 (scan t ps 0 0 0).1 now
        ≡ fresh_cache t ps ctx now
  unfolding update_burst_cache
  fresh-cache ps ctx v =
      ap
        (λ (n : ℕ).
          let bc : BurstCache = record { timestamp = now / 2 ^ 16 % 2 ^ 48; penalty = n } in bc)
        (fresh ps ctx v)

  -- Where every context is valid, `inherit_from_parent` answers from the parent's cache over its
  -- children, and 0 without a parent. When there is a parent and its cache is old, the parent's cache
  -- becomes the refreshed one; nothing else of any task changes.
  pub inherit_from_parent-answer :
      (caller : Ptr) (clone_parent : Bool)
      → let parent = parent_of t caller clone_parent in
        let ctx = (t parent).ctx in
        let r = inherit_from_parent prm lut t caller clone_parent now in
        (r.1 ≡ (if parent == null then 0 else answer prm t (t parent).children ctx ctx.subtree now))
        × ((q : Ptr)
            → r.0 q ≡ (
                if not (parent == null) && (burst_cache_expired prm ctx.subtree now && q == parent)
                then record (t q) {
                  ctx = subtree_with (t q).ctx (fresh_cache t (t parent).children ctx now);
                }
                else t q))
  unfolding inherit_from_parent
  inherit_from_parent-answer caller clone_parent =
      let parent = parent_of t caller clone_parent in
      let ctx = (t parent).ctx in
      let cache = fresh-cache (t parent).children ctx (all parent) in
      elim (Bool-cases (parent == null)) [
        | inl gone ↦ rw gone (refl, λ q. refl)
        | inr there ↦ elim (Bool-cases (burst_cache_expired prm ctx.subtree now)) [
          | inl old ↦
              rw (there, old, cache)
                (
                  ap (λ (c : Context). c.subtree.penalty) (set_ctx_self t parent _),
                  λ q. set_subtree t parent q _,
                )
          | inr young ↦ rw (there, young) (refl, λ q. refl)
        ]
      ]

  -- Where every context is valid, `inherit_from_thread_group` answers from the leader's cache over the
  -- threads of the group; without a leader it answers 0.
  pub inherit_from_thread_group-answer :
      (p : Ptr)
      → let leader = (t p).group_leader in
        (inherit_from_thread_group prm lut t p now).1 ≡ (
          if leader == null
          then 0
          else answer prm t (t leader).threads (t leader).ctx (t leader).ctx.group now)
  unfolding inherit_from_thread_group set_ctx
  inherit_from_thread_group-answer p =
      let leader = (t p).group_leader in
      ground (arith, fresh (t leader).threads (t leader).ctx (all leader))

  answer-le :
      (ps : List Ptr) (ctx : Context) (bc : BurstCache)
      → IsValid ctx
      → bc.penalty ≤ max_burst_penalty
      → answer prm t ps ctx bc now ≤ max_burst_penalty
  answer-le ps ctx bc v h = ground (arith, fresh_penalty-le t all ps ctx v)

  pub refreshed-le :
      (ps : List Ptr) (ctx : Context)
      → IsValid ctx
      → (update_burst_cache lut ctx (scan t ps 0 0 0).0 (scan t ps 0 0 0).1 now).penalty
        ≤ max_burst_penalty
  refreshed-le ps ctx v = rw (fresh ps ctx v) (fresh_penalty-le t all ps ctx v)

  -- Whatever the parent, the penalty is in range and every context stays valid.
  pub inherit_from_parent-AllValid :
      (caller : Ptr) (clone_parent : Bool)
      → let r = inherit_from_parent prm lut t caller clone_parent now in
        AllValid r.0 × (r.1 ≤ max_burst_penalty)
  unfolding inherit_from_parent
  inherit_from_parent-AllValid caller clone_parent =
      let parent = parent_of t caller clone_parent in
      let ctx = (t parent).ctx in
      let v = all parent in
      let small = refreshed-le (t parent).children ctx v in
      let (count, total) = scan t (t parent).children 0 0 0 in
      elim (Bool-cases (parent == null)) [
        | inl gone ↦ rw gone (all, omega arith)
        | inr there ↦ elim (Bool-cases (burst_cache_expired prm ctx.subtree now)) [
          | inl old ↦
              rw (there, old)
                (let kept = set_ctx-AllValid t parent _ all (subtree-IsValid ctx _ v small) in
                  (kept, (kept parent).subtree))
          | inr young ↦ rw (there, young) (all, v.subtree)
        ]
      ]

  pub inherit_from_thread_group-AllValid :
      (p : Ptr)
      → let r = inherit_from_thread_group prm lut t p now in
        AllValid r.0 × (r.1 ≤ max_burst_penalty)
  unfolding inherit_from_thread_group
  inherit_from_thread_group-AllValid p =
      let leader = (t p).group_leader in
      let ctx = (t leader).ctx in
      let v = all leader in
      let small = refreshed-le (t leader).threads ctx v in
      elim (Bool-cases (leader == null)) [
        | inl gone ↦ rw gone (all, omega arith)
        | inr there ↦ elim (Bool-cases (burst_cache_expired prm ctx.group now)) [
          | inl old ↦
              rw (there, old)
                (let kept = set_ctx-AllValid t leader _ all (group-IsValid ctx _ v small) in
                  (kept, (kept leader).group))
          | inr young ↦ rw (there, young) (all, v.group)
        ]
      ]
