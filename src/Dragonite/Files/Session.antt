-- ===== src/Dragonite/Files/Session.antt =====
-- What a sequence of writes to the driver's files leaves in its counters.
use android_device_axion_com.Base.{
  ℕ, ◌+◌, ◌≤◌, ◌≡◌, refl, arith, Bool, true, false, ◌&&◌, inl, inr, ◌⊎◌, Option, none, some, List,
  [], ◌∷◌, ◌==◌, if◌then◌else◌,
}
use android_device_axion_com.Kernel.Seq.{Printf}
use android_device_axion_com.Dragonite.{Stats, Kernel}
use android_device_axion_com.Dragonite.Lifecycle.{
  Ops, nta_pid_ops, nta_affinity_ops, nta_reset_ops, dragonite_boost_ops, dragonite_kswapd_ops,
  dragonite_stats_ops,
}
use android_device_axion_com.Dragonite.Proc.{Parsers, Write, Result, Driver}
use android_device_axion_com.Dragonite.Files.{write_file}
use android_device_axion_com.Dragonite.Files.Counters.{
  bump_affinity, bump_reset, bump_boost, bump_kswapd,
}
use android_device_axion_com.Dragonite.Files.Handlers.{
  is_written, nta_pid_write-stats, nta_affinity_write-Loose, nta_reset_write-Exact,
  dragonite_boost_write-Exact, dragonite_kswapd_write-Loose,
}

-- One write to a file, with what the kernel answers during it.
pub record Call : Type 0 where
  pub kernel : Kernel
  pub file : Ops
  pub write : Write

abbrev pub bit : Bool → ℕ
bit b = if b then 1 else 0

-- Tells the files apart.
abbrev pub file_tag : Ops → ℕ
file_tag nta_pid_ops = 0
file_tag nta_affinity_ops = 1
file_tag nta_reset_ops = 2
file_tag dragonite_boost_ops = 3
file_tag dragonite_kswapd_ops = 4
file_tag dragonite_stats_ops = 5

-- How many of the counted writes a driver's counters may have after some calls, from those before.
abbrev pub Tally : (boost reset affinity kswapd : ℕ) → Stats → Stats → Type 0
Tally boost reset affinity kswapd s s' =
    (s'.boost_set_count ≡ s.boost_set_count + boost)
    × (s'.reset_count ≡ s.reset_count + reset)
    × (s.affinity_set_count ≤ s'.affinity_set_count)
    × (s'.affinity_set_count ≤ s.affinity_set_count + affinity)
    × (s.kswapd_pin_count ≤ s'.kswapd_pin_count)
    × (s'.kswapd_pin_count ≤ s.kswapd_pin_count + kswapd)

module _ (s s' : Stats) where
  Tally-same : s' ≡ s → Tally 0 0 0 0 s s'
  Tally-same e = rw e (omega arith)

  Tally-boost : (a : Bool) → s' ≡ (if a then bump_boost s else s) → Tally (bit a) 0 0 0 s s'
  Tally-boost true e = rw e (omega arith)
  Tally-boost false e = rw e (omega arith)

  Tally-reset : (a : Bool) → s' ≡ (if a then bump_reset s else s) → Tally 0 (bit a) 0 0 s s'
  Tally-reset true e = rw e (omega arith)
  Tally-reset false e = rw e (omega arith)

  Tally-affinity :
      (a : Bool) → (s' ≡ s) ⊎ ((s' ≡ bump_affinity s) × (a ≡ true)) → Tally 0 0 (bit a) 0 s s'
  Tally-affinity true (inl e) = rw e (omega arith)
  Tally-affinity false (inl e) = rw e (omega arith)
  Tally-affinity a (inr (e, taken)) = rw (e, taken) (omega arith)

  Tally-kswapd :
      (a : Bool) → (s' ≡ s) ⊎ ((s' ≡ bump_kswapd s) × (a ≡ true)) → Tally 0 0 0 (bit a) s s'
  Tally-kswapd true (inl e) = rw e (omega arith)
  Tally-kswapd false (inl e) = rw e (omega arith)
  Tally-kswapd a (inr (e, taken)) = rw (e, taken) (omega arith)

module _ (f : Printf) (ps : Parsers) where
  abbrev pub outcome : Call → Driver → Option (Result × Driver)
  outcome c d = write_file f ps c.kernel c.file c.write d

  -- The driver after a call, and whether the file took what was written.
  abbrev pub left_by : Option (Result × Driver) → Driver → Driver
  left_by none d = d
  left_by (some r) d = r.1

  abbrev pub took : Option (Result × Driver) → Bool
  took none = false
  took (some r) = is_written r.0

  abbrev pub serve_all : List Call → Driver → Driver
  serve_all [] d = d
  serve_all (c ∷ rest) d = serve_all rest (left_by (outcome c d) d)

  -- How many of the calls wrote to a file that took the write.
  abbrev pub accepted : Ops → List Call → Driver → ℕ
  accepted file [] d = 0
  accepted file (c ∷ rest) d =
      bit (file_tag file == file_tag c.file && took (outcome c d))
      + accepted file rest (left_by (outcome c d) d)

  -- Whether a call wrote to a file, and the file took it.
  abbrev pub taken_by : Ops → Call → Driver → Bool
  taken_by file c d = file_tag file == file_tag c.file && took (outcome c d)

  write-Tally :
      (k : Kernel) (file : Ops) (w : Write) (d : Driver)
      → let c : Call = record { kernel = k; file = file; write = w } in
        Tally
          (bit (taken_by dragonite_boost_ops c d))
          (bit (taken_by nta_reset_ops c d))
          (bit (taken_by nta_affinity_ops c d))
          (bit (taken_by dragonite_kswapd_ops c d))
          d.world.stats
          (left_by (outcome c d) d).world.stats
  unfolding write_file
  write-Tally k nta_pid_ops w d = Tally-same _ _ (nta_pid_write-stats ps d w)
  write-Tally k nta_affinity_ops w d = Tally-affinity _ _ _ (nta_affinity_write-Loose ps d k w)
  write-Tally k nta_reset_ops w d = Tally-reset _ _ _ (nta_reset_write-Exact ps d k w)
  write-Tally k dragonite_boost_ops w d = Tally-boost _ _ _ (dragonite_boost_write-Exact ps d k w)
  write-Tally k dragonite_kswapd_ops w d =
      Tally-kswapd _ _ _ (dragonite_kswapd_write-Loose ps d k w)
  write-Tally k dragonite_stats_ops w d = Tally-same _ _ refl

  -- From any counters, and whatever the kernel answers, a sequence of writes to the files raises the
  -- boosts by the writes that the boost file took and the resets by those that the reset file took, and
  -- the affinities and the pins of kswapd by at most those that theirs took.
  pub serve_all-Tally :
      (calls : List Call) (d : Driver)
      → Tally
          (accepted dragonite_boost_ops calls d)
          (accepted nta_reset_ops calls d)
          (accepted nta_affinity_ops calls d)
          (accepted dragonite_kswapd_ops calls d)
          d.world.stats
          (serve_all calls d).world.stats
  serve_all-Tally [] d = omega arith
  serve_all-Tally (c ∷ rest) d =
      let d' = left_by (outcome c d) d in
      omega (arith, write-Tally c.kernel c.file c.write d, serve_all-Tally rest d')
