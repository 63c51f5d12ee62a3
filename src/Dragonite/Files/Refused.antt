-- ===== src/Dragonite/Files/Refused.antt =====
-- What a write that a file of the driver does not take leaves behind.
use android_device_axion_com.Base.{
  ℕ, ◌≡◌, refl, ◌⊎◌, inl, inr, ℤ, pos, Bool, true, false, not, List, [], ◌∷◌, ltb, leb, ◌==◌, ltb_ℤ,
  if_cases, option_cases, if◌then◌else◌,
}
use android_device_axion_com.Kernel.Seq.{Printf}
use android_device_axion_com.Dragonite.{
  Status, success, Text, World, Kernel, axd_set_affinity, axd_reset_affinity, axd_set_boost,
  axd_pin_kswapd,
}
use android_device_axion_com.Dragonite.Failures.{
  IsKept, IsKept-refl, Settles, axd_set_affinity-Settles, axd_reset_affinity-Settles,
  axd_pin_kswapd-Settles, axd_set_boost-Settles,
}
use android_device_axion_com.Dragonite.Lifecycle.{
  Ops, nta_pid_ops, nta_affinity_ops, nta_reset_ops, dragonite_boost_ops, dragonite_kswapd_ops,
  dragonite_stats_ops,
}
use android_device_axion_com.Dragonite.Proc.Cases.{parsed_cases}
use android_device_axion_com.Dragonite.Proc.{
  Parsed, parsed, unparsed, Parsers, Write, Result, Driver, passes_affinity, passes_kswapd,
  passes_success, finish, nta_pid_write, parse_mask, request, affinity_request, nta_affinity_write,
  reset_pid, nta_reset_write, boost_request, dragonite_boost_write, kswapd_request,
  dragonite_kswapd_write, split_space, c_string,
}
use android_device_axion_com.Dragonite.Files.{write_file}
use android_device_axion_com.Dragonite.Files.Handlers.{is_written}
use android_device_axion_com.Dragonite.Files.Session.{took, left_by}

-- A driver as good as another.
abbrev pub Unchanged : Driver → Driver → Type 0
Unchanged d d' = (d'.target ≡ d.target) × IsKept d.world d'.world

-- A handler that takes the write, or changes nothing.
abbrev TakesOrKeeps : Driver → Result × Driver → Type 0
TakesOrKeeps d r = (is_written r.0 ≡ true) ⊎ Unchanged d r.1

same : (d : Driver) → Unchanged d d
same d = (refl, IsKept-refl d.world)

finish-TakesOrKeeps :
    (ok : Status → Bool) (count : ℕ) (d : Driver) (r : Status × World)
    → ok success ≡ true
    → Settles d.world r
    → TakesOrKeeps d (finish ok count d r)
finish-TakesOrKeeps ok count d r fine (inl e) = inl (rw (e, fine) refl)
finish-TakesOrKeeps ok count d r fine (inr kept) = inr (refl, kept)

module _ (ps : Parsers) (d : Driver) where
  open ps use {strim, kstrtoint, kstrtoul, sscanf}

  abbrev Kept : Result × Driver → Type 0
  Kept = TakesOrKeeps d

  nta_pid_write-keeps : (c : Write) → Kept (nta_pid_write ps c d)
  unfolding nta_pid_write
  nta_pid_write-keeps c =
      if_cases Kept (leb 32 c.count) (λ _. inr (same d))
        λ _. option_cases Kept c.copied (inr (same d)) λ bytes.
          parsed_cases Kept (kstrtoint 10 (strim (c_string bytes))) (λ e. inr (same d))
            λ pid. inl refl

  module _ (k : Kernel) where
    affinity_request-keeps : (count : ℕ) (text : Text) → Kept (affinity_request ps k count text d)
    unfolding affinity_request
    affinity_request-keeps count text =
        option_cases Kept (split_space (strim text)) (inr (same d)) λ words.
          let r = request ps words.0 (strim words.1) d.target in
          parsed_cases Kept (parse_mask ps r.2) (λ e. inr (same d))
            λ mask_val.
              if_cases Kept (mask_val == 0) (λ _. inr (same d))
                λ _.
                  finish-TakesOrKeeps passes_affinity count d
                    (axd_set_affinity k r.0 r.1 mask_val d.world) refl
                    (axd_set_affinity-Settles k d.world r.0 r.1 mask_val)

    nta_affinity_write-keeps : (c : Write) → Kept (nta_affinity_write ps k c d)
    unfolding nta_affinity_write
    nta_affinity_write-keeps c =
        if_cases Kept (ltb 256 c.count) (λ _. inr (same d))
          λ _.
            if_cases Kept (not c.room) (λ _. inr (same d))
              λ _.
                option_cases Kept c.copied (inr (same d))
                  λ bytes. affinity_request-keeps c.count (c_string bytes)

    nta_reset_write-keeps : (c : Write) → Kept (nta_reset_write ps k c d)
    unfolding nta_reset_write
    nta_reset_write-keeps c =
        let named = reset_pid ps k c in
        let pid = if ltb_ℤ (pos 1) named then named else d.target in
        if_cases Kept (leb 32 c.count) (λ _. inr (same d))
          λ _.
            finish-TakesOrKeeps passes_success c.count d (axd_reset_affinity k pid d.world) refl
              (axd_reset_affinity-Settles k d.world pid)

    boost_request-keeps : (count : ℕ) (numbers : List ℤ) → Kept (boost_request ps k count numbers d)
    unfolding boost_request
    boost_request-keeps count [] = inr (same d)
    boost_request-keeps count (pid ∷ []) =
        finish-TakesOrKeeps passes_success count d (axd_set_boost k pid (pos 1) d.world) refl
          (axd_set_boost-Settles k d.world pid (pos 1))
    boost_request-keeps count (pid ∷ level ∷ rest) =
        finish-TakesOrKeeps passes_success count d (axd_set_boost k pid level d.world) refl
          (axd_set_boost-Settles k d.world pid level)

    dragonite_boost_write-keeps : (c : Write) → Kept (dragonite_boost_write ps k c d)
    unfolding dragonite_boost_write
    dragonite_boost_write-keeps c =
        if_cases Kept (leb 64 c.count) (λ _. inr (same d))
          λ _.
            option_cases Kept c.copied (inr (same d))
              λ bytes. boost_request-keeps c.count (sscanf (strim (c_string bytes)))

    kswapd_request-keeps : (count : ℕ) (o : Parsed ℕ) → Kept (kswapd_request ps k count o d)
    unfolding kswapd_request
    kswapd_request-keeps count (unparsed e) = inr (same d)
    kswapd_request-keeps count (parsed mask_val) =
        if_cases Kept (mask_val == 0) (λ _. inr (same d))
          λ _.
            finish-TakesOrKeeps passes_kswapd count d (axd_pin_kswapd k mask_val d.world) refl
              (axd_pin_kswapd-Settles k d.world mask_val)

    dragonite_kswapd_write-keeps : (c : Write) → Kept (dragonite_kswapd_write ps k c d)
    unfolding dragonite_kswapd_write
    dragonite_kswapd_write-keeps c =
        if_cases Kept (leb 32 c.count) (λ _. inr (same d))
          λ _. option_cases Kept c.copied (inr (same d)) λ bytes. kswapd_request-keeps c.count _

not_taken :
    (d : Driver) (r : Result × Driver) → is_written r.0 ≡ false → TakesOrKeeps d r → Unchanged d r.1
not_taken d r h (inl e) = cc
not_taken d r h (inr kept) = kept

module _ (f : Printf) (ps : Parsers) (k : Kernel) where
  -- A write that its file does not take, whether it has no handler, or the text cannot be copied or
  -- read, or is refused, or the operation fails, changes no target, reference, mask, nice value or counter.
  pub write_file-refused :
      (file : Ops) (c : Write) (d : Driver)
      → took f ps (write_file f ps k file c d) ≡ false
      → Unchanged d (left_by f ps (write_file f ps k file c d) d)
  unfolding write_file
  write_file-refused nta_pid_ops c d h = not_taken d _ h (nta_pid_write-keeps ps d c)
  write_file-refused nta_affinity_ops c d h = not_taken d _ h (nta_affinity_write-keeps ps d k c)
  write_file-refused nta_reset_ops c d h = not_taken d _ h (nta_reset_write-keeps ps d k c)
  write_file-refused dragonite_boost_ops c d h =
      not_taken d _ h (dragonite_boost_write-keeps ps d k c)
  write_file-refused dragonite_kswapd_ops c d h =
      not_taken d _ h (dragonite_kswapd_write-keeps ps d k c)
  write_file-refused dragonite_stats_ops c d h = same d
