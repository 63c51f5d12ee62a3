-- ===== src/Dragonite/Files/Handlers.antt =====
-- What one write to a file of the driver leaves in its counters.
use android_device_axion_com.Base.{
  ℕ, ◌≡◌, refl, ℤ, pos, Bool, true, false, not, ◌⊎◌, inl, inr, List, [], ◌∷◌, ltb, ltb_ℤ, leb, ◌==◌,
  if_cases, option_cases, if◌then◌else◌,
}
use android_device_axion_com.Dragonite.{
  Status, success, einval, enomem, esrch, enoent, Text, Stats, World, Kernel, axd_set_affinity,
  axd_reset_affinity, axd_set_boost, axd_pin_kswapd,
}
use android_device_axion_com.Dragonite.Proc.Cases.{parsed_cases}
use android_device_axion_com.Dragonite.Proc.{
  Parsed, parsed, unparsed, Parsers, Write, Result, written, efault, unreadable, refused, Driver,
  passes_affinity, passes_kswapd, passes_success, finish, nta_pid_write, parse_mask, request,
  affinity_request, nta_affinity_write, reset_pid, nta_reset_write, boost_request,
  dragonite_boost_write, kswapd_request, dragonite_kswapd_write, split_space, c_string,
}
use android_device_axion_com.Dragonite.Files.Counters.{
  bump_affinity, bump_reset, bump_boost, bump_kswapd, Counts, axd_set_affinity-Counts,
  axd_reset_affinity-Counts, axd_set_boost-Counts, axd_pin_kswapd-Counts,
}

abbrev pub is_written : Result → Bool
is_written (written n) = true
is_written efault = false
is_written (unreadable e) = false
is_written (refused s) = false

-- A handler counts each write that it accepts, or only some of them.
abbrev pub Exact : (Stats → Stats) → Driver → Result × Driver → Type 0
Exact bump d r = r.1.world.stats ≡ (if is_written r.0 then bump d.world.stats else d.world.stats)

abbrev pub Loose : (Stats → Stats) → Driver → Result × Driver → Type 0
Loose bump d r =
    (r.1.world.stats ≡ d.world.stats)
    ⊎ ((r.1.world.stats ≡ bump d.world.stats) × (is_written r.0 ≡ true))

finish-Exact :
    (bump : Stats → Stats) (count : ℕ) (d : Driver) (r : Status × World)
    → Counts bump d.world r
    → Exact bump d (finish passes_success count d r)
finish-Exact bump count d (success, w) e = e
finish-Exact bump count d (einval, w) e = e
finish-Exact bump count d (enomem, w) e = e
finish-Exact bump count d (esrch, w) e = e
finish-Exact bump count d (enoent, w) e = e

-- A handler that accepts a success, and maybe some failures.
finish-Loose :
    (ok : Status → Bool) (bump : Stats → Stats) (count : ℕ) (d : Driver) (r : Status × World)
    → ok success ≡ true
    → Counts bump d.world r
    → Loose bump d (finish ok count d r)
finish-Loose ok bump count d (success, w) fine e = inr (e, rw fine refl)
finish-Loose ok bump count d (einval, w) fine e = inl e
finish-Loose ok bump count d (enomem, w) fine e = inl e
finish-Loose ok bump count d (esrch, w) fine e = inl e
finish-Loose ok bump count d (enoent, w) fine e = inl e

module _ (ps : Parsers) (d : Driver) where
  pub nta_pid_write-stats : (c : Write) → (nta_pid_write ps c d).1.world.stats ≡ d.world.stats
  unfolding nta_pid_write
  nta_pid_write-stats c =
      let Same = λ (r : Result × Driver). r.1.world.stats ≡ d.world.stats in
      if_cases Same (leb 32 c.count) (λ _. refl)
        λ _. option_cases Same c.copied refl λ bytes.
          parsed_cases Same (ps.kstrtoint 10 (ps.strim (c_string bytes))) (λ e. refl) λ pid. refl

  module _ (k : Kernel) where
    affinity_request-Loose :
        (count : ℕ) (text : Text) → Loose bump_affinity d (affinity_request ps k count text d)
    unfolding affinity_request
    affinity_request-Loose count text =
        let L = Loose bump_affinity d in
        option_cases L (split_space (ps.strim text)) (inl refl) λ words.
          let r = request ps words.0 (ps.strim words.1) d.target in
          parsed_cases L (parse_mask ps r.2) (λ e. inl refl)
            λ mask_val.
              if_cases L (mask_val == 0) (λ _. inl refl)
                λ _.
                  finish-Loose passes_affinity bump_affinity count d
                    (axd_set_affinity k r.0 r.1 mask_val d.world) refl
                    (axd_set_affinity-Counts k d.world r.0 r.1 mask_val)

    pub nta_affinity_write-Loose : (c : Write) → Loose bump_affinity d (nta_affinity_write ps k c d)
    unfolding nta_affinity_write
    nta_affinity_write-Loose c =
        let L = Loose bump_affinity d in
        if_cases L (ltb 256 c.count) (λ _. inl refl)
          λ _.
            if_cases L (not c.room) (λ _. inl refl)
              λ _.
                option_cases L c.copied (inl refl)
                  λ bytes. affinity_request-Loose c.count (c_string bytes)

    pub nta_reset_write-Exact : (c : Write) → Exact bump_reset d (nta_reset_write ps k c d)
    unfolding nta_reset_write
    nta_reset_write-Exact c =
        let named = reset_pid ps k c in
        let pid = if ltb_ℤ (pos 1) named then named else d.target in
        if_cases (Exact bump_reset d) (leb 32 c.count) (λ _. refl)
          λ _.
            finish-Exact bump_reset c.count d (axd_reset_affinity k pid d.world)
              (axd_reset_affinity-Counts k d.world pid)

    boost_request-Exact :
        (count : ℕ) (numbers : List ℤ) → Exact bump_boost d (boost_request ps k count numbers d)
    unfolding boost_request
    boost_request-Exact count [] = refl
    boost_request-Exact count (pid ∷ []) =
        finish-Exact bump_boost count d (axd_set_boost k pid (pos 1) d.world)
          (axd_set_boost-Counts k d.world pid (pos 1))
    boost_request-Exact count (pid ∷ level ∷ rest) =
        finish-Exact bump_boost count d (axd_set_boost k pid level d.world)
          (axd_set_boost-Counts k d.world pid level)

    pub dragonite_boost_write-Exact :
        (c : Write) → Exact bump_boost d (dragonite_boost_write ps k c d)
    unfolding dragonite_boost_write
    dragonite_boost_write-Exact c =
        let E = Exact bump_boost d in
        if_cases E (leb 64 c.count) (λ _. refl)
          λ _.
            option_cases E c.copied refl
              λ bytes. boost_request-Exact c.count (ps.sscanf (ps.strim (c_string bytes)))

    kswapd_request-Loose :
        (count : ℕ) (o : Parsed ℕ) → Loose bump_kswapd d (kswapd_request ps k count o d)
    unfolding kswapd_request
    kswapd_request-Loose count (unparsed e) = inl refl
    kswapd_request-Loose count (parsed mask_val) =
        if_cases (Loose bump_kswapd d) (mask_val == 0) (λ _. inl refl)
          λ _.
            finish-Loose passes_kswapd bump_kswapd count d (axd_pin_kswapd k mask_val d.world) refl
              (axd_pin_kswapd-Counts k d.world mask_val)

    pub dragonite_kswapd_write-Loose :
        (c : Write) → Loose bump_kswapd d (dragonite_kswapd_write ps k c d)
    unfolding dragonite_kswapd_write
    dragonite_kswapd_write-Loose c =
        let L = Loose bump_kswapd d in
        if_cases L (leb 32 c.count) (λ _. inl refl)
          λ _.
            option_cases L c.copied (inl refl)
              λ bytes. kswapd_request-Loose c.count (parse_mask ps (ps.strim (c_string bytes)))
