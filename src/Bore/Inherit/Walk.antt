-- ===== src/Bore/Inherit/Walk.antt =====
-- The walks of `inherit_from_ancestor_hub`, up to the hub and down to the end of each chain, described
-- as relations; and the loop over chains, as the plain loop over their ends.
use android_device_axion_com.Base.{
  ℕ, zero, suc, ◌+◌, ◌≤◌, ◌<◌, ◌≡◌, ◌≢◌, ◌⊎◌, inl, inr, refl, ◌∙◌, arith, true, false, some, List,
  [], ◌∷◌, map, min, length, ◌==◌, Bool-cases, add32,
}
use android_device_axion_com.Kernel.{Ptr, null}
use android_device_axion_com.Bore.Inherit.{
  Task, Tasks, first_ne_head, second_ne_head, count_children_upto2, passes, scan, climb, descend,
  scan_chains,
}

-- The walk up stops at the root and at a task with more children than `limit`.
abbrev pub StopsAt : Tasks → ℕ → Ptr → Type 0
StopsAt t limit h =
    ((t h).real_parent ≡ h) ⊎ ((t h).real_parent ≡ null) ⊎ (limit < length (t h).children)

-- From `a` the walk up leads to `h`; above the first step the limit is 1.
pub data Rises (t : Tasks) : ℕ → Ptr → Ptr → Type 0 where
  hub : {limit : ℕ} {h : Ptr} → StopsAt t limit h → Rises t limit h h
  up :
      {limit : ℕ} {a h : Ptr}
      → (t a).real_parent ≢ a
      → (t a).real_parent ≢ null
      → length (t a).children ≤ limit
      → Rises t 1 (t a).real_parent h
      → Rises t limit a h

-- Each sole child in turn, down to a task that has none or several.
pub data Chain (t : Tasks) : Ptr → Ptr → Type 0 where
  end : {a : Ptr} → length (t a).children ≢ 1 → Chain t a a
  down : {a c d : Ptr} → (t a).children ≡ c ∷ [] → Chain t c d → Chain t a d

-- A finite family: parents are less deep than their children, and children are less high.
pub record IsFamily (t : Tasks) (fuel : ℕ) : Type 0 where
  pub depth : Ptr → ℕ
  pub height : Ptr → ℕ
  pub depth-lt : (a : Ptr) → depth a < fuel
  pub height-lt : (a : Ptr) → height a < fuel
  pub parent :
      (a : Ptr)
      → (t a).real_parent ≢ a
      → (t a).real_parent ≢ null
      → depth (t a).real_parent < depth a
  pub sole_child : (a c : Ptr) → (t a).children ≡ c ∷ [] → height c < height a

upto2 : (cs : List Ptr) → first_ne_head cs + second_ne_head cs ≡ min 2 (length cs)
upto2 [] = omega arith
upto2 (a ∷ []) = omega arith
upto2 (a ∷ b ∷ cs) = omega arith

pub count_children_upto2-min : (p : Task) → count_children_upto2 p ≡ min 2 (length p.children)
unfolding count_children_upto2
count_children_upto2-min p = upto2 p.children

-- The test of the loop, read on the tree.
passes-false :
    (t : Tasks) (a : Ptr) (limit : ℕ) → limit ≤ 1 → passes t a limit ≡ false → StopsAt t limit a
unfolding passes
passes-false t a limit small h = ground (arith, count_children_upto2-min (t a))

passes-true :
    (t : Tasks) (a : Ptr) (limit : ℕ)
    → limit ≤ 1
    → passes t a limit ≡ true
    → ((t a).real_parent ≢ a) × ((t a).real_parent ≢ null) × (length (t a).children ≤ limit)
unfolding passes
passes-true t a limit small h =
    (ground arith, ground arith, ground (arith, count_children_upto2-min (t a)))

singleton : (cs : List Ptr) → length cs ≡ 1 → (c : Ptr) × (cs ≡ c ∷ [])
singleton [] e = absurd (omega arith)
singleton (c ∷ []) e = (c, refl)
singleton (c ∷ d ∷ cs) e = absurd (omega arith)

module _ (t : Tasks) (fuel : ℕ) (a : Ptr) where
  descend-suc : (c : Ptr) → (t a).children ≡ c ∷ [] → descend (suc fuel) t a ≡ descend fuel t c
  unfolding descend
  descend-suc c only = ground (arith, count_children_upto2-min (t a))

  descend-stop : (count_children_upto2 (t a) == 1) ≡ false → descend (suc fuel) t a ≡ some a
  unfolding descend
  descend-stop stop = rw stop

module _ (t : Tasks) (size : ℕ) (f : IsFamily t size) where
  -- With as much fuel as the family is deep, and a limit of at most 1, the walk up ends, and where the
  -- relation says.
  pub climb-Rises :
      (fuel limit : ℕ) (a : Ptr)
      → limit ≤ 1
      → f.depth a < fuel
      → (h : Ptr) × (climb fuel t a limit ≡ some h) × Rises t limit a h
  unfolding climb
  climb-Rises zero limit a small enough = absurd (omega arith)
  climb-Rises (suc fuel) limit a small enough = elim (Bool-cases (passes t a limit)) [
    | inl on ↦
        let (apart, rooted, few) = passes-true t a limit small on in
        let (h, found, rises) =
          climb-Rises fuel 1 (t a).real_parent (omega arith)
            (omega (arith, f.parent a apart rooted)) in
        (h, rw on found, up apart rooted few rises)
    | inr stop ↦ (a, rw stop, hub (passes-false t a limit small stop))
  ]

  -- With as much fuel as the family is high, the walk down ends, at the end of the chain of sole
  -- children.
  pub descend-Chain :
      (fuel : ℕ) (a : Ptr)
      → f.height a < fuel
      → (d : Ptr) × (descend fuel t a ≡ some d) × Chain t a d
  descend-Chain zero a enough = absurd (omega arith)
  descend-Chain (suc fuel) a enough = elim (Bool-cases (count_children_upto2 (t a) == 1)) [
    | inl on ↦
        let (c, only) = singleton (t a).children (ground (arith, count_children_upto2-min (t a))) in
        let (d, found, chain) = descend-Chain fuel c (omega (arith, f.sole_child a c only)) in
        (d, descend-suc t fuel a c only ∙ found, down only chain)
    | inr stop ↦
        (a, descend-stop t fuel a stop, end (ground (arith, count_children_upto2-min (t a))))
  ]

-- The loop over chains, where the walk from each child ends, is the loop over the ends.
pub scan_chains-scan :
    (fuel : ℕ) (t : Tasks) (tip : Ptr → Ptr)
    → ((p : Ptr) → descend fuel t p ≡ some (tip p))
    → (ps : List Ptr) (count total scanned : ℕ)
    → scan_chains fuel t ps count total scanned ≡ some (scan t (map tip ps) count total scanned)
unfolding scan_chains scan
scan_chains-scan fuel t tip ends [] count total scanned = refl
scan_chains-scan fuel t tip ends (p ∷ ps) count total scanned = ground (
  arith,
  ends p,
  scan_chains-scan fuel t tip ends ps (count + 1) (add32 total (t (tip p)).ctx.penalty)
      (scanned + 1),
  scan_chains-scan fuel t tip ends ps count total (scanned + 1),
)
