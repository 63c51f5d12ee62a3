-- ===== src/Latency/Proc/Page.antt =====
-- The page read back, and what a write to the sysctl table makes of it.
use android_device_axion_com.Base.{
  ℕ, ◌-◌, ◌^◌, ◌<◌, ◌≡◌, refl, arith, ℤ, pos, negsuc, pos_part, ◌≤ℤ◌, ◌<ℤ◌, Bool, true, false,
  Option, none, some, [], Bytes, codes, is_digit, if◌then◌else◌, text_eq,
}
use android_device_axion_com.Kernel.Seq.{
  Printf, IsPrintf, line, after, after-append, ◌>>=◌, read_line, read_line-line, >>=_step,
}
use android_device_axion_com.Kernel.Sysctl.{Sysctl, IsSysctl, sysctl_write, written}
use android_device_axion_com.Latency.{Sched}
use android_device_axion_com.Latency.Proc.{
  lf, ns, title, disabled, enabled_label, max_label, show_params, latency_proc_show, set, long_of,
  latency_table,
}

-- What the page of an active module shows: `latency_nice_enabled` and `latency_max`.
abbrev pub Shown : Type 0
Shown = ℕ × ℤ

abbrev pub shown : Sched → Shown
shown s = (s.latency_nice_enabled, s.latency_max)

-- A reader of the page, by its labels.
unfoldable pub read_params : Bytes → Option Shown
read_params t = do
  enabled ← read_line enabled_label lf t
  maximum ← read_line max_label ns enabled.1
  some (pos_part enabled.0, maximum.0)

-- Below the title, the page says that the module is off, or holds its parameters.
unfoldable pub read_body : Bytes → Option (Option Shown)
read_body body = elim (after disabled body) [
  | some rest ↦ some none
  | none ↦ read_params body >>= (λ (r : Shown). some (some r))
]

unfoldable pub read_page : Bytes → Option (Option Shown)
read_page t = after title t >>= read_body

-- The parameters fit a `uint` and a `long`.
abbrev pub Fits : Sched → Type 0
Fits s =
    (s.latency_nice_enabled < 2 ^ 32)
    × (negsuc (2 ^ 63 - 1) ≤ℤ s.latency_max)
    × (s.latency_max <ℤ pos (2 ^ 63))

module _ (f : Printf) (ok : IsPrintf f) where
  read_params-show : (s : Sched) → Fits s → read_params (show_params f s) ≡ some (shown s)
  unfolding read_params show_params
  read_params-show s h =
      >>=_step _ _
        (read_line-line enabled_label (pos s.latency_nice_enabled)
          (f.print_u s.latency_nice_enabled) 10 [] _ (ok.unsigned s.latency_nice_enabled h.0)
          (ground arith) (unfold is_digit in refl))
        (>>=_step _ _
          (read_line-line max_label s.latency_max (f.print_d s.latency_max) 32 (codes "ns\n") []
            (ok.signed s.latency_max h.1 h.2) (ground arith) (unfold is_digit in refl))
          refl)

  read_body-show :
      (active : Bool) (s : Sched)
      → Fits s
      → read_body (if active then show_params f s else disabled)
        ≡ some (if active then some (shown s) else none)
  unfolding read_body after
  read_body-show true s h =
      let live : after disabled (show_params f s) ≡ none = unfold show_params line in refl in
      rw (read_body, live) (>>=_step _ _ (read_params-show s h) refl)
  read_body-show false s h = refl

  -- With numbers printed in decimal digits, the page of a module whose parameters fit their types is
  -- read back: it says whether the module is active, and if so what the parameters are.
  pub read_page-latency_proc_show :
      (active : Bool) (s : Sched)
      → Fits s
      → read_page (latency_proc_show f active s) ≡ some (if active then some (shown s) else none)
  unfolding read_page latency_proc_show
  read_page-latency_proc_show active s h =
      >>=_step _ _ (after-append title (if active then show_params f s else disabled))
        (read_body-show active s h)

module _ (k : Sysctl) (handled : IsSysctl k) (s : Sched) where
  sysctl_write-enabled :
      (n : ℕ)
      → n < 2 ^ 31
      → sysctl_write k set latency_table (codes "sched_latency_nice_enabled") (written n) s
        ≡ record s { latency_nice_enabled = n }
  unfolding sysctl_write text_eq set
  sysctl_write-enabled n small = rw (handled.int_stored n small) refl

  sysctl_write-max :
      (n : ℕ)
      → n < 2 ^ 63
      → sysctl_write k set latency_table (codes "sched_latency_max") (written n) s
        ≡ record s { latency_max = pos n }
  unfolding sysctl_write text_eq set
  sysctl_write-max n large =
      let plain : long_of n ≡ pos n = ground arith in rw (handled.long_stored n large, plain) refl

module _ (f : Printf) (ok : IsPrintf f) (k : Sysctl) (handled : IsSysctl k) where
  -- With numbers printed in decimal digits and handlers that store them, an `int` or a `long` that is
  -- not negative, written to the file of its parameter under /proc/sys/kernel, is the one that
  -- /proc/latency_sched then shows for it in an active module, and the other parameter shows what it did.
  pub latency_table-page :
      (enabled maximum : ℕ) (s : Sched)
      → enabled < 2 ^ 31
      → maximum < 2 ^ 63
      → Fits s
      → let page = λ (name : Bytes) (n : ℕ).
        read_page
          (latency_proc_show f true (sysctl_write k set latency_table name (written n) s)) in
        (page (codes "sched_latency_nice_enabled") enabled ≡ some (some (enabled, s.latency_max)))
        × (page (codes "sched_latency_max") maximum
            ≡ some (some (s.latency_nice_enabled, pos maximum)))
  latency_table-page enabled maximum s small large h = (
    rw (sysctl_write-enabled k handled s enabled small) (
        read_page-latency_proc_show f ok true (record s { latency_nice_enabled = enabled })
          (omega arith, h.1, h.2)),
    rw (sysctl_write-max k handled s maximum large) (
        read_page-latency_proc_show f ok true (record s { latency_max = pos maximum })
          (h.0, omega arith, omega arith)),
  )
