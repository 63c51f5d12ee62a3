-- ===== src/Kernel/Tracepoints.antt =====
-- The kernel's tracepoint registry, which is not in the repository, as an interface: what
-- `register_trace_*` and `unregister_trace_*` do, for the hooks of one module. A tag tells hooks apart.
use android_device_axion_com.Base.{
  ℕ, ◌+◌, ◌≡◌, ◌≢◌, arith, Bool, true, false, ltb, ◌==◌, if_cases, if◌then◌else◌,
}

-- A registration returns 0 and adds the probe, or returns an error and changes nothing.
pub record Tracepoints (Hook : Type 0) (tag : Hook → ℕ) : Type 1 where
  pub Registry : Type 0
  pub registered : Registry → Hook → Bool
  pub register : Hook → Registry → ℕ × Registry
  pub unregister : Hook → Registry → Registry
  pub register_ok :
      (h : Hook) (r : Registry) (k : Hook)
      → (register h r).0 ≡ 0
      → registered (register h r).1 k ≡ (if tag h == tag k then true else registered r k)
  pub register_error :
      (h : Hook) (r : Registry) (k : Hook)
      → (register h r).0 ≢ 0
      → registered (register h r).1 k ≡ registered r k
  pub unregister_lem :
      (h : Hook) (r : Registry) (k : Hook)
      → registered (unregister h r) k ≡ (if tag h == tag k then false else registered r k)

module _ {Hook : Type 0} {tag : Hook → ℕ} (tp : Tracepoints Hook tag) where
  open tp use {
    Registry, registered, register, unregister, register_ok, register_error, unregister_lem,
  }

  -- `ret = register_trace_…(…); if (ret) goto fail;`
  unfoldable pub attempt {ℓ} : {S : Type ℓ} → Hook → Registry → (Registry → S) → (Registry → S) → S
  attempt h r fail ok = let (ret, r') = register h r in if ret == 0 then ok r' else fail r'

  -- The hooks with a tag below `n`, and no others, are registered.
  abbrev pub Upto : ℕ → Registry → Type 0
  Upto n r = (k : Hook) → registered r k ≡ ltb (tag k) n

  pub attempt_cases {ℓ κ} :
      {S : Type ℓ} (P : S → Type κ) (h : Hook) (r : Registry) {fail ok : Registry → S}
      → Upto (tag h) r
      → ((r' : Registry) → Upto (tag h) r' → P (fail r'))
      → ((r' : Registry) → Upto (tag h + 1) r' → P (ok r'))
      → P (attempt h r fail ok)
  unfolding attempt
  attempt_cases P h r u failed done =
      if_cases P ((register h r).0 == 0) (λ e. done _ (λ k. ground (arith, register_ok h r k, u k)))
        (λ e. failed _ (λ k. ground (arith, register_error h r k, u k)))

  -- What every registry after the attempt has, whether or not it failed.
  pub attempt_either {ℓ κ} :
      {S : Type ℓ} (P : S → Type κ) (h : Hook) (r : Registry) {fail ok : Registry → S}
      → ((r' : Registry) → P (fail r'))
      → ((r' : Registry) → P (ok r'))
      → P (attempt h r fail ok)
  unfolding attempt
  attempt_either P h r failed done =
      if_cases P ((register h r).0 == 0) (λ e. done _) (λ e. failed _)

  pub Upto-unregister :
      (h : Hook) (r : Registry) → Upto (tag h + 1) r → Upto (tag h) (unregister h r)
  Upto-unregister h r u k = ground (arith, unregister_lem h r k, u k)
