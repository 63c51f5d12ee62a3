-- ===== src/Dragonite/Lifecycle/Leaves.antt =====
-- What is left in /proc of a driver that is loaded and unloaded.
use android_device_axion_com.Base.{
  ℕ, ◌≡◌, refl, sym, ◌∙◌, ◌⊎◌, inl, inr, Bool, true, false, Bool-cases, not, ◌&&◌, ◌||◌, arith,
  text_eq, text_eq-eq, if◌then◌else◌,
}
use android_device_axion_com.Dragonite.{Text, World}
use android_device_axion_com.Dragonite.Lifecycle.{
  ProcFs, IsProcFs, proc_nta_dir, proc_dragonite_dir, zero_stats, create_nta, create_dragonite,
  axd_proc_init, axd_proc_exit, axd_init, axd_exit, Ops,
}

none_added : (b c ok here : Bool) → b ≡ c || ok && here → (here ≡ false) ⊎ (ok ≡ false) → b ≡ c
none_added b c ok here h e = ground arith

not_both : (a b : Bool) → a ≡ false → (a && b) ≡ false
not_both a b e = ground arith

removed_here : (b c here : Bool) → b ≡ c && not here → here ≡ true → b ≡ false
removed_here b c here h e = ground arith

kept_elsewhere : (b c here : Bool) → b ≡ c && not here → here ≡ false → b ≡ c
kept_elsewhere b c here h e = ground arith

module _ (fs : ProcFs) (law : IsProcFs fs) (d f : Text) where
  create-other :
      (n : Text) (mode : ℕ) (dir : Text) (ops : Ops) (s : fs.State)
      → text_eq d dir ≡ false
      → fs.has (fs.proc_create n mode dir ops s).1 d f ≡ fs.has s d f
  create-other n mode dir ops s e =
      none_added _ _ _ _ (law.created n mode dir ops d f s) (inl (not_both _ _ e))

  create_nta-other :
      (s : fs.State) → text_eq d proc_nta_dir ≡ false → fs.has (create_nta fs s) d f ≡ fs.has s d f
  unfolding create_nta
  create_nta-other s e =
      create-other _ _ _ _ _ e ∙ create-other _ _ _ _ _ e ∙ create-other _ _ _ _ _ e

  create_dragonite-other :
      (s : fs.State)
      → text_eq d proc_dragonite_dir ≡ false
      → fs.has (create_dragonite fs s) d f ≡ fs.has s d f
  unfolding create_dragonite
  create_dragonite-other s e =
      create-other _ _ _ _ _ e ∙ create-other _ _ _ _ _ e ∙ create-other _ _ _ _ _ e

  -- A directory `n` that is made, unless that fails, and then filled by `c`.
  filled-other :
      (n : Text) (c : fs.State → fs.State) (s : fs.State)
      → ((t : fs.State) → text_eq d n ≡ false → fs.has (c t) d f ≡ fs.has t d f)
      → (text_eq d n ≡ false) ⊎ ((fs.proc_mkdir n s).0 ≡ false)
      → fs.has
          (if (fs.proc_mkdir n s).0 then c (fs.proc_mkdir n s).1 else (fs.proc_mkdir n s).1)
          d
          f
        ≡ fs.has s d f
  filled-other n c s other (inr e) = rw e (none_added _ _ _ _ (law.made n d f s) (inr e))
  filled-other n c s other (inl e) = elim (Bool-cases (fs.proc_mkdir n s).0) [
    | inl made ↦ rw made (
        other (fs.proc_mkdir n s).1 e
        ∙ none_added _ _ _ _ (law.made n d f s) (inl (not_both _ _ e)))
    | inr failed ↦ rw failed (none_added _ _ _ _ (law.made n d f s) (inr failed))
  ]

  removed-other :
      (n : Text) (made : Bool) (s : fs.State)
      → (text_eq d n ≡ false) ⊎ (made ≡ false)
      → fs.has (if made then fs.remove_proc_subtree n s else s) d f ≡ fs.has s d f
  removed-other n false s e = refl
  removed-other n true s (inl e) = kept_elsewhere _ _ _ (law.removed n d f s) e
  removed-other n true s (inr e) = cc

  removed-own :
      (n : Text) (made : Bool) (s : fs.State)
      → text_eq d n ≡ true
      → made ≡ true
      → fs.has (if made then fs.remove_proc_subtree n s else s) d f ≡ false
  removed-own n true s e h = removed_here _ _ _ (law.removed n d f s) e
  removed-own n false s e h = cc

  apart : text_eq d proc_nta_dir ≡ true → text_eq d proc_dragonite_dir ≡ false
  unfolding text_eq
  apart e = rw (text_eq-eq d proc_nta_dir e) refl

  -- The state after `axd_proc_init`, and whether each directory could be made.
  abbrev loaded : fs.State → fs.State
  loaded s = (axd_proc_init fs s).2

  abbrev nta_made : fs.State → Bool
  nta_made s = (axd_proc_init fs s).1.ax_nta_dir

  abbrev dragonite_made : fs.State → Bool
  dragonite_made s = (axd_proc_init fs s).1.ax_dragonite_dir

  abbrev left : fs.State → fs.State
  left s = axd_proc_exit fs (axd_proc_init fs s).1 (loaded s)

  left-same :
      (s : fs.State)
      → (text_eq d proc_nta_dir ≡ false) ⊎ (nta_made s ≡ false)
      → (text_eq d proc_dragonite_dir ≡ false) ⊎ (dragonite_made s ≡ false)
      → fs.has (left s) d f ≡ fs.has s d f
  unfolding axd_proc_init axd_proc_exit
  left-same s nta dragonite =
      removed-other proc_dragonite_dir _ _ dragonite
      ∙ removed-other proc_nta_dir _ _ nta
      ∙ filled-other proc_dragonite_dir (create_dragonite fs) _ create_dragonite-other dragonite
      ∙ filled-other proc_nta_dir (create_nta fs) s create_nta-other nta

  left-nta :
      (s : fs.State)
      → text_eq d proc_nta_dir ≡ true
      → nta_made s ≡ true
      → fs.has (left s) d f ≡ false
  unfolding axd_proc_init axd_proc_exit
  left-nta s e made =
      removed-other proc_dragonite_dir _ _ (inl (apart e)) ∙ removed-own proc_nta_dir _ _ e made

  left-dragonite :
      (s : fs.State)
      → text_eq d proc_dragonite_dir ≡ true
      → dragonite_made s ≡ true
      → fs.has (left s) d f ≡ false
  unfolding axd_proc_init axd_proc_exit
  left-dragonite s e made = removed-own proc_dragonite_dir _ _ e made

  left-before :
      (s : fs.State)
      → ((g : Text) → fs.has s proc_nta_dir g ≡ false)
      → ((g : Text) → fs.has s proc_dragonite_dir g ≡ false)
      → fs.has (left s) d f ≡ fs.has s d f
  left-before s nta dragonite = elim (Bool-cases (text_eq d proc_nta_dir)) [
    | inl e ↦ elim (Bool-cases (nta_made s)) [
      | inl made ↦ left-nta s e made ∙ sym (rw (text_eq-eq d proc_nta_dir e) (nta f))
      | inr failed ↦ left-same s (inr failed) (inl (apart e))
    ]
    | inr other ↦ elim (Bool-cases (text_eq d proc_dragonite_dir)) [
      | inr e ↦ left-same s (inl other) (inl e)
      | inl e ↦ elim (Bool-cases (dragonite_made s)) [
        | inl made ↦
            left-dragonite s e made ∙ sym (rw (text_eq-eq d proc_dragonite_dir e) (dragonite f))
        | inr failed ↦ left-same s (inl other) (inr failed)
      ]
    ]
  ]

module _ (fs : ProcFs) (law : IsProcFs fs) where
  -- Loading the driver always succeeds, with its counters at 0 and nothing else of its world changed.
  -- Whichever calls fail, unloading it then leaves in /proc what was there before, if its two
  -- directories were not.
  pub axd_exit-restores :
      (w : World) (s : fs.State)
      → ((g : Text) → fs.has s proc_nta_dir g ≡ false)
      → ((g : Text) → fs.has s proc_dragonite_dir g ≡ false)
      → let (ret, w', dirs, s') = axd_init fs w s in
        (ret ≡ 0)
        × (w' ≡ record w { stats = zero_stats })
        × ((d f : Text) → fs.has (axd_exit fs dirs s') d f ≡ fs.has s d f)
  unfolding axd_init axd_exit axd_proc_init
  axd_exit-restores w s nta dragonite = (refl, refl, λ d f. left-before fs law d f s nta dragonite)
