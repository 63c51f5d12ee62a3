-- ===== src/Bore/Inherit/Hub.antt =====
-- `inherit_from_ancestor_hub`: its walks end in a finite family, at the hub and at the ends of chains
-- that the relations of `Walk` describe.
use android_device_axion_com.Base.{
  ℕ, ◌≤◌, ◌≡◌, refl, ap, ◌∙◌, arith, inl, inr, Bool, some, map, ◌==◌, ==_iff, ◌⊎◌, Bool-cases,
  if◌then◌else◌,
}
use android_device_axion_com.Kernel.{Ptr, null}
use android_device_axion_com.Bore.Penalty.{Params, max_burst_penalty}
use android_device_axion_com.Bore.Context.{Context}
use android_device_axion_com.Bore.Cache.{
  Lut, init_bore_reciprocal_lut, burst_cache_expired, update_burst_cache,
}
use android_device_axion_com.Bore.Inherit.{
  Tasks, set_ctx, descend, scan, consult_hub, inherit_from_ancestor_hub,
}
use android_device_axion_com.Bore.Inherit.Value.{
  AllValid, set_ctx_self, set_ctx-AllValid, subtree_with, subtree-IsValid, answer, parent_of, fresh,
  refreshed-le,
}
use android_device_axion_com.Bore.Inherit.Walk.{
  IsFamily, Rises, Chain, climb-Rises, descend-Chain, scan_chains-scan,
}

module _ (t : Tasks) (size : ℕ) (f : IsFamily t size) where
  -- Where the chain of sole children from a task ends.
  tip : Ptr → Ptr
  tip p = (descend-Chain t size f size p (f.height-lt p)).0

  tip-Chain : (p : Ptr) → Chain t p (tip p)
  unfolding tip
  tip-Chain p = (descend-Chain t size f size p (f.height-lt p)).2

  descend-tip : (p : Ptr) → descend size t p ≡ some (tip p)
  unfolding tip
  descend-tip p = (descend-Chain t size f size p (f.height-lt p)).1

  module _ (prm : Params) (lut0 : Lut) (all : AllValid t) (now : ℕ) where
    -- What the hub's cache answers over the ends of the chains from its children.
    abbrev HubAnswers : Ptr → (Ptr → Ptr) → Tasks × ℕ → Type 0
    HubAnswers h ends r =
        (r.1 ≡ answer prm t (map ends (t h).children) (t h).ctx (t h).ctx.subtree now)
        × AllValid r.0
        × (r.1 ≤ max_burst_penalty)

    consult_hub-answers :
        (h : Ptr)
        → (r : Tasks × ℕ) × (consult_hub prm (init_bore_reciprocal_lut lut0) size t now h ≡ some r)
          × HubAnswers h tip r
    unfolding consult_hub
    consult_hub-answers h =
        let ctx = (t h).ctx in
        let ends = map tip (t h).children in
        let scanned = scan_chains-scan size t tip descend-tip (t h).children 0 0 0 in
        let small = refreshed-le prm lut0 t all now ends ctx (all h) in
        elim (Bool-cases (burst_cache_expired prm ctx.subtree now)) [
          | inl old ↦
              let (count, total) = scan t ends 0 0 0 in
              let bc = update_burst_cache (init_bore_reciprocal_lut lut0) ctx count total now in
              let t' = set_ctx t h (subtree_with ctx bc) in
              let kept = set_ctx-AllValid t h _ all (subtree-IsValid ctx bc (all h) small) in
              (
                (t', (t' h).ctx.subtree.penalty),
                rw (old, scanned) refl,
                rw old (
                  ap (λ (c : Context). c.subtree.penalty) (set_ctx_self t h (subtree_with ctx bc))
                      ∙ fresh prm lut0 t all now ends ctx (all h),
                  kept,
                  (kept h).subtree,
                ),
              )
          | inr young ↦
              ((t, ctx.subtree.penalty), rw young refl, rw young (refl, all, (all h).subtree))
        ]

    -- In a finite family with valid contexts the search ends. Without a task to start from it answers 0; else it answers
    -- from the cache of the hub that the walk up reaches, over the ends of the chains below it.
    pub inherit_from_ancestor_hub-answers :
        (parent : Ptr) (clone_parent : Bool)
        → (r : Tasks × ℕ) × (inherit_from_ancestor_hub prm
              (init_bore_reciprocal_lut lut0)
              size
              t
              parent
              clone_parent
              now
            ≡ some r)
          × ((parent_of t parent clone_parent ≡ null) × (r ≡ (t, 0))
              ⊎ ((h : Ptr) × Rises t
                    (if clone_parent then 1 else 0)
                    (parent_of t parent clone_parent)
                    h
                  × (ends : Ptr → Ptr) × ((p : Ptr) → Chain t p (ends p))
                  × HubAnswers h ends r))
    unfolding inherit_from_ancestor_hub
    inherit_from_ancestor_hub-answers parent clone_parent =
        let start = parent_of t parent clone_parent in
        elim (Bool-cases (start == null)) [
          | inl gone ↦ ((t, 0), rw gone refl, inl ((==_iff start null).0 gone, refl))
          | inr there ↦
              let (h, found, rises) =
                climb-Rises t size f size (if clone_parent then 1 else 0) start (ground arith)
                  (f.depth-lt start) in
              let (r, consulted, answers) = consult_hub-answers h in
              (r, rw (there, found) consulted, inr (h, rises, tip, tip-Chain, answers))
        ]

    pub inherit_from_ancestor_hub-AllValid :
        (parent : Ptr) (clone_parent : Bool)
        → (r : Tasks × ℕ) × (inherit_from_ancestor_hub prm
              (init_bore_reciprocal_lut lut0)
              size
              t
              parent
              clone_parent
              now
            ≡ some r)
          × AllValid r.0
          × (r.1 ≤ max_burst_penalty)
    inherit_from_ancestor_hub-AllValid parent clone_parent =
        let (r, done, cases) = inherit_from_ancestor_hub-answers parent clone_parent in
        elim cases [
          | inl (gone, e) ↦ (r, done, rw e all, rw e (omega arith))
          | inr (h, rises, ends, chains, (answered, valid, small)) ↦ (r, done, valid, small)
        ]
