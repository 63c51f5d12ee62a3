-- ===== src/Bore/Inherit/Frame.antt =====
-- The searches of bore_sched_main.c for a penalty to inherit write burst caches, and nothing else.
use android_device_axion_com.Base.{
  ℕ, ◌≡◌, refl, ◌∙◌, inl, inr, Bool, Option, none, some, ◌==◌, Bool-cases, if_cases, option_cases,
  if◌then◌else◌,
}
use android_device_axion_com.Kernel.{Ptr, null}
use android_device_axion_com.Bore.Penalty.{Params}
use android_device_axion_com.Bore.Context.{BurstCache}
use android_device_axion_com.Bore.Cache.{Lut, burst_cache_expired}
use android_device_axion_com.Bore.Inherit.{
  Task, Tasks, set_ctx, inherit_from_parent, inherit_from_thread_group, climb, scan_chains,
  consult_hub, inherit_from_ancestor_hub,
}
use android_device_axion_com.Bore.Inherit.Value.{
  subtree_with, group_with, parent_of, set_subtree, set_group,
}

-- A task with other caches.
abbrev pub with_caches : Task → BurstCache → BurstCache → Task
with_caches task subtree group = record task {
  ctx = record (task.ctx) { subtree = subtree; group = group };
}

-- The second task is the first but for its caches.
abbrev pub IsSameButCaches : Task → Task → Type 0
IsSameButCaches u v = v ≡ with_caches u v.ctx.subtree v.ctx.group

-- No task differs but in its caches.
abbrev pub OnlyCaches : Tasks → Tasks → Type 0
OnlyCaches t t' = (q : Ptr) → IsSameButCaches (t q) (t' q)

equal : (u v : Task) → v ≡ u → IsSameButCaches u v
equal u v e = rw e refl

subtree_written :
    (u v : Task) (bc : BurstCache)
    → v ≡ record u { ctx = subtree_with u.ctx bc }
    → IsSameButCaches u v
subtree_written u v bc e = rw e refl

group_written :
    (u v : Task) (bc : BurstCache)
    → v ≡ record u { ctx = group_with u.ctx bc }
    → IsSameButCaches u v
group_written u v bc e = rw e refl

set_subtree-OnlyCaches :
    (t : Tasks) (p : Ptr) (bc : BurstCache) → OnlyCaches t (set_ctx t p (subtree_with (t p).ctx bc))
set_subtree-OnlyCaches t p bc q = elim (Bool-cases (q == p)) [
  | inl here ↦ subtree_written (t q) _ bc (set_subtree t p q bc ∙ rw here refl)
  | inr there ↦ equal (t q) _ (set_subtree t p q bc ∙ rw there refl)
]

set_group-OnlyCaches :
    (t : Tasks) (p : Ptr) (bc : BurstCache) → OnlyCaches t (set_ctx t p (group_with (t p).ctx bc))
set_group-OnlyCaches t p bc q = elim (Bool-cases (q == p)) [
  | inl here ↦ group_written (t q) _ bc (set_group t p q bc ∙ rw here refl)
  | inr there ↦ equal (t q) _ (set_group t p q bc ∙ rw there refl)
]

module _ (prm : Params) (lut : Lut) (t : Tasks) (now : ℕ) where
  abbrev Keeps : Tasks → Type 0
  Keeps = OnlyCaches t

  -- A search that has not run out of fuel.
  abbrev pub KeepsIfAny : Option (Tasks × ℕ) → Type 0
  KeepsIfAny none = Unit
  KeepsIfAny (some r) = OnlyCaches t r.0

  pub inherit_from_parent-OnlyCaches :
      (caller : Ptr) (clone_parent : Bool)
      → OnlyCaches t (inherit_from_parent prm lut t caller clone_parent now).0
  unfolding inherit_from_parent
  inherit_from_parent-OnlyCaches caller clone_parent =
      let parent = parent_of t caller clone_parent in
      if_cases (λ (r : Tasks × ℕ). Keeps r.0) (parent == null) (λ _ q. refl)
        λ _.
          if_cases Keeps (burst_cache_expired prm (t parent).ctx.subtree now)
            (λ _. set_subtree-OnlyCaches t parent _) (λ _ q. refl)

  pub inherit_from_thread_group-OnlyCaches :
      (p : Ptr) → OnlyCaches t (inherit_from_thread_group prm lut t p now).0
  unfolding inherit_from_thread_group
  inherit_from_thread_group-OnlyCaches p =
      let leader = (t p).group_leader in
      if_cases (λ (r : Tasks × ℕ). Keeps r.0) (leader == null) (λ _ q. refl)
        λ _.
          if_cases Keeps (burst_cache_expired prm (t leader).ctx.group now)
            (λ _. set_group-OnlyCaches t leader _) (λ _ q. refl)

  consult_hub-OnlyCaches : (fuel : ℕ) (h : Ptr) → KeepsIfAny (consult_hub prm lut fuel t now h)
  unfolding consult_hub
  consult_hub-OnlyCaches fuel h =
      if_cases KeepsIfAny (burst_cache_expired prm (t h).ctx.subtree now)
        (λ _.
          option_cases KeepsIfAny (scan_chains fuel t (t h).children 0 0 0) tt
            λ found. set_subtree-OnlyCaches t h _)
        (λ _ q. refl)

  pub inherit_from_ancestor_hub-OnlyCaches :
      (fuel : ℕ) (parent : Ptr) (clone_parent : Bool)
      → KeepsIfAny (inherit_from_ancestor_hub prm lut fuel t parent clone_parent now)
  unfolding inherit_from_ancestor_hub
  inherit_from_ancestor_hub-OnlyCaches fuel parent clone_parent =
      let start = parent_of t parent clone_parent in
      if_cases KeepsIfAny (start == null) (λ _ q. refl)
        λ _.
          option_cases KeepsIfAny (climb fuel t start (if clone_parent then 1 else 0)) tt
            (consult_hub-OnlyCaches fuel)
