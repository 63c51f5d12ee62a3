-- ===== src/Dragonite/Files/Page.antt =====
-- The two pages read back, and what they show after writes to the files.
use android_device_axion_com.Base.{
  ℕ, ◌-◌, ◌≤◌, ◌<◌, ◌^◌, ◌≡◌, refl, sym, ap, ◌∙◌, arith, ℤ, pos, negsuc, pos_part, ◌≤ℤ◌, ◌<ℤ◌,
  Option, some, List, [], ◌∷◌, ◌++◌, length, Bytes, is_digit,
}
use mathlib.Core.List.{append-nil}
use android_device_axion_com.Kernel.Seq.{
  Printf, IsPrintf, line, after, after-append, ◌>>=◌, read_line, read_line-line, >>=_step,
}
use android_device_axion_com.Dragonite.{Text, Stats, World}
use android_device_axion_com.Dragonite.Lifecycle.{
  Ops, nta_affinity_ops, nta_reset_ops, dragonite_boost_ops, dragonite_kswapd_ops, ProcFs, axd_init,
}
use android_device_axion_com.Dragonite.Proc.{parsed, Parsers, Write, Driver, nta_pid_write}
use android_device_axion_com.Dragonite.Proc.Target.{IsRead, nta_pid_write-sets}
use android_device_axion_com.Dragonite.Files.{
  lf, version_line, target_label, affinity_label, boost_label, reset_label, kswapd_label,
  nta_pid_show, dragonite_stats_show,
}
use android_device_axion_com.Dragonite.Files.Session.{
  Call, accepted, outcome, left_by, serve_all, serve_all-Tally,
}

-- A reader of the page of the counters, by its labels.
unfoldable pub read_counters : Bytes → Option (ℤ × Stats)
read_counters t = do
  target ← read_line target_label lf t
  affinity ← read_line affinity_label lf target.1
  boost ← read_line boost_label lf affinity.1
  reset ← read_line reset_label lf boost.1
  kswapd ← read_line kswapd_label lf reset.1
  some (
    target.0,
    record {
      affinity_set_count = pos_part affinity.0;
      boost_set_count = pos_part boost.0;
      reset_count = pos_part reset.0;
      kswapd_pin_count = pos_part kswapd.0;
    },
  )

unfoldable pub read_stats : Bytes → Option (ℤ × Stats)
read_stats t = after version_line t >>= read_counters

-- A value of the type `pid_t`, and counters that have not wrapped.
abbrev pub IsPid : ℤ → Type 0
IsPid z = (negsuc (2 ^ 31 - 1) ≤ℤ z) × (z <ℤ pos (2 ^ 31))

abbrev pub IsCounted : Stats → Type 0
IsCounted s =
    (s.affinity_set_count < 2 ^ 63)
    × (s.boost_set_count < 2 ^ 63)
    × (s.reset_count < 2 ^ 63)
    × (s.kswapd_pin_count < 2 ^ 63)

module _ (f : Printf) (ok : IsPrintf f) where
  read_line-pid :
      (label : Bytes) (z : ℤ) (rest : Bytes)
      → IsPid z
      → read_line label lf (line label (f.print_d z) lf ++ rest) ≡ some (z, rest)
  read_line-pid label z rest h =
      read_line-line label z (f.print_d z) 10 [] rest (ok.signed z (omega arith) (omega arith))
        (omega arith) (unfold is_digit in refl)

  read_line-count :
      (label : Bytes) (n : ℕ) (rest : Bytes)
      → n < 2 ^ 63
      → read_line label lf (line label (f.print_d (pos n)) lf ++ rest) ≡ some (pos n, rest)
  read_line-count label n rest h =
      read_line-line label (pos n) (f.print_d (pos n)) 10 [] rest
        (ok.signed (pos n) (omega arith) (omega arith)) (omega arith) (unfold is_digit in refl)

  -- With numbers printed in decimal digits, the page of the counters is read back: the target pid and
  -- every counter, as long as none has reached 2 ^ 63.
  pub read_stats-dragonite_stats_show :
      (d : Driver)
      → IsPid d.target
      → IsCounted d.world.stats
      → read_stats (dragonite_stats_show f d) ≡ some (d.target, d.world.stats)
  unfolding read_stats read_counters dragonite_stats_show
  read_stats-dragonite_stats_show d pid h =
      let s = d.world.stats in
      >>=_step _ _ (after-append version_line _) (
        >>=_step _ _ (read_line-pid target_label d.target _ pid) (
          >>=_step _ _ (read_line-count affinity_label s.affinity_set_count _ h.0) (
            >>=_step _ _ (read_line-count boost_label s.boost_set_count _ h.1) (
              >>=_step _ _ (read_line-count reset_label s.reset_count _ h.2)
                (>>=_step _ _ (read_line-count kswapd_label s.kswapd_pin_count [] h.3) refl)))))

  -- With numbers printed in decimal digits, the pid file shows the pid of the last write that it took.
  pub nta_pid_show-pid :
      (ps : Parsers) (c : Write) (content : Text) (pid : ℤ) (d : Driver)
      → IsRead c 31 content
      → ps.kstrtoint 10 (ps.strim content) ≡ parsed pid
      → IsPid pid
      → read_line [] lf (nta_pid_show f (nta_pid_write ps c d).1) ≡ some (pid, [])
  unfolding nta_pid_show
  nta_pid_show-pid ps c content pid d r number h =
      rw (nta_pid_write-sets ps c content pid d r number) (
        ap (read_line [] lf) (sym (append-nil (line [] (f.print_d pid) lf)))
        ∙ read_line-pid [] pid [] h)

  module _ (ps : Parsers) where
    accepted-le :
        (file : Ops) (calls : List Call) (d : Driver) → accepted f ps file calls d ≤ length calls
    accepted-le file [] d = omega arith
    accepted-le file (c ∷ rest) d =
        ground (arith, accepted-le file rest (left_by f ps (outcome f ps c d) d))

    -- The driver as `axd_init` leaves it, with no target.
    abbrev pub loaded : (fs : ProcFs) → World → fs.State → Driver
    loaded fs w tree = record { world = (axd_init fs w tree).1; target = pos 0 }

    -- With numbers printed in decimal digits, after fewer than 2 ^ 63 writes to the files of a driver
    -- that has just been loaded, with a pid as the target, the page of the counters shows the target,
    -- as many boosts and resets as the writes that the boost file and the reset file took, and at most
    -- as many affinities and pins of kswapd as the writes that theirs took.
    pub axd_init-page :
        (fs : ProcFs) (w : World) (tree : fs.State) (calls : List Call)
        → length calls < 2 ^ 63
        → IsPid (serve_all f ps calls (loaded fs w tree)).target
        → let d = loaded fs w tree in
          let end = serve_all f ps calls d in
          (s : Stats) × (read_stats (dragonite_stats_show f end) ≡ some (end.target, s))
          × (s.boost_set_count ≡ accepted f ps dragonite_boost_ops calls d)
          × (s.reset_count ≡ accepted f ps nta_reset_ops calls d)
          × (s.affinity_set_count ≤ accepted f ps nta_affinity_ops calls d)
          × (s.kswapd_pin_count ≤ accepted f ps dragonite_kswapd_ops calls d)
    unfolding axd_init
    axd_init-page fs w tree calls few pid =
        let d = loaded fs w tree in
        let end = serve_all f ps calls d in
        let t = serve_all-Tally f ps calls d in
        let small = λ (file : Ops). accepted-le file calls d in
        (
          end.world.stats,
          read_stats-dragonite_stats_show end pid (
            omega (arith, t, small nta_affinity_ops),
            omega (arith, t, small dragonite_boost_ops),
            omega (arith, t, small nta_reset_ops),
            omega (arith, t, small dragonite_kswapd_ops),
          ),
          omega (arith, t),
          omega (arith, t),
          omega (arith, t),
          omega (arith, t),
        )
