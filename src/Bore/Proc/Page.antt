-- ===== src/Bore/Proc/Page.antt =====
-- The page read back, and what a write to the sysctl table makes of it.
use android_device_axion_com.Base.{
  ℕ, ◌<◌, ◌^◌, ◌≡◌, refl, arith, pos, pos_part, Bool, true, false, Option, none, some, [], ◌++◌,
  Bytes, codes, is_digit, if◌then◌else◌, text_eq,
}
use android_device_axion_com.Kernel.Seq.{
  Printf, IsPrintf, line, after, after-append, ◌>>=◌, read_line, read_line-line, >>=_step,
}
use android_device_axion_com.Kernel.Sysctl.{
  Sysctl, IsSysctl, proc_dointvec_minmax, sysctl_write, store, written,
}
use android_device_axion_com.Bore.Penalty.{Params}
use android_device_axion_com.Bore.Proc.{
  lf, title, disabled, sched_bore_label, inherit_type_label, smoothness_label, penalty_offset_label,
  penalty_scale_label, cache_lifetime_label, show_params, bore_proc_show, Variable, sched_bore,
  sched_burst_inherit_type, sched_burst_smoothness, sched_burst_penalty_offset,
  sched_burst_penalty_scale, sched_burst_cache_lifetime, set, bore_table,
}

-- A reader of the page, by its labels: the parameters of a module that is active.
unfoldable pub read_params : Bytes → Option Params
read_params t = do
  bore ← read_line sched_bore_label lf t
  inherit ← read_line inherit_type_label lf bore.1
  smooth ← read_line smoothness_label lf inherit.1
  offset ← read_line penalty_offset_label lf smooth.1
  scale ← read_line penalty_scale_label lf offset.1
  lifetime ← read_line cache_lifetime_label lf scale.1
  some (record {
    sched_bore = pos_part bore.0;
    burst_inherit_type = pos_part inherit.0;
    burst_smoothness = pos_part smooth.0;
    burst_penalty_offset = pos_part offset.0;
    burst_penalty_scale = pos_part scale.0;
    burst_cache_lifetime = pos_part lifetime.0;
  })

-- Below the title, the page says that the module is off, or holds its parameters.
unfoldable pub read_body : Bytes → Option (Option Params)
read_body body = elim (after disabled body) [
  | some rest ↦ some none
  | none ↦ read_params body >>= (λ (prm : Params). some (some prm))
]

unfoldable pub read_page : Bytes → Option (Option Params)
read_page t = after title t >>= read_body

-- Every parameter is a `uint`.
abbrev pub IsUint : Params → Type 0
IsUint prm =
    (prm.sched_bore < 2 ^ 32)
    × (prm.burst_inherit_type < 2 ^ 32)
    × (prm.burst_smoothness < 2 ^ 32)
    × (prm.burst_penalty_offset < 2 ^ 32)
    × (prm.burst_penalty_scale < 2 ^ 32)
    × (prm.burst_cache_lifetime < 2 ^ 32)

module _ (f : Printf) (ok : IsPrintf f) where
  read_line-uint :
      (label : Bytes) (n : ℕ) (rest : Bytes)
      → n < 2 ^ 32
      → read_line label lf (line label (f.print_u n) lf ++ rest) ≡ some (pos n, rest)
  read_line-uint label n rest h =
      read_line-line label (pos n) (f.print_u n) 10 [] rest (ok.unsigned n h) (ground arith)
        (unfold is_digit in refl)

  read_params-show : (prm : Params) → IsUint prm → read_params (show_params f prm) ≡ some prm
  unfolding read_params show_params
  read_params-show prm h = >>=_step _ _ (read_line-uint sched_bore_label prm.sched_bore _ h.0) (
      >>=_step _ _ (read_line-uint inherit_type_label prm.burst_inherit_type _ h.1) (
        >>=_step _ _ (read_line-uint smoothness_label prm.burst_smoothness _ h.2) (
          >>=_step _ _ (read_line-uint penalty_offset_label prm.burst_penalty_offset _ h.3) (
            >>=_step _ _ (read_line-uint penalty_scale_label prm.burst_penalty_scale _ h.4) (
              >>=_step _ _ (read_line-uint cache_lifetime_label prm.burst_cache_lifetime [] h.5)
                refl)))))

  read_body-show :
      (active : Bool) (prm : Params)
      → IsUint prm
      → read_body (if active then show_params f prm else disabled)
        ≡ some (if active then some prm else none)
  unfolding read_body after
  read_body-show true prm h =
      let live : after disabled (show_params f prm) ≡ none = unfold show_params line in refl in
      rw (read_body, live) (>>=_step _ _ (read_params-show prm h) refl)
  read_body-show false prm h = refl

  -- With numbers printed in decimal digits, the page of a module with `uint` parameters is read back:
  -- it says whether the module is active, and if so what every parameter is.
  pub read_page-bore_proc_show :
      (active : Bool) (prm : Params)
      → IsUint prm
      → read_page (bore_proc_show f active prm) ≡ some (if active then some prm else none)
  unfolding read_page bore_proc_show
  read_page-bore_proc_show active prm h =
      >>=_step _ _ (after-append title (if active then show_params f prm else disabled))
        (read_body-show active prm h)

-- The name of a variable under /proc/sys/kernel.
abbrev pub name_of : Variable → Bytes
name_of sched_bore = codes "sched_bore"
name_of sched_burst_inherit_type = codes "sched_burst_inherit_type"
name_of sched_burst_smoothness = codes "sched_burst_smoothness"
name_of sched_burst_penalty_offset = codes "sched_burst_penalty_offset"
name_of sched_burst_penalty_scale = codes "sched_burst_penalty_scale"
name_of sched_burst_cache_lifetime = codes "sched_burst_cache_lifetime"

module _ (k : Sysctl) where
  -- A write to a variable's file goes to that variable, with what the handler of an `int` stores.
  sysctl_write-set :
      (v : Variable) (text : Bytes) (prm : Params)
      → sysctl_write k set bore_table (name_of v) text prm
        ≡ store k set v (k.stored proc_dointvec_minmax 4 text) prm
  unfolding sysctl_write text_eq
  sysctl_write-set sched_bore text prm = refl
  sysctl_write-set sched_burst_inherit_type text prm = refl
  sysctl_write-set sched_burst_smoothness text prm = refl
  sysctl_write-set sched_burst_penalty_offset text prm = refl
  sysctl_write-set sched_burst_penalty_scale text prm = refl
  sysctl_write-set sched_burst_cache_lifetime text prm = refl

set-IsUint : (v : Variable) (n : ℕ) (prm : Params) → n < 2 ^ 31 → IsUint prm → IsUint (set v n prm)
unfolding set
set-IsUint sched_bore n prm fits h = omega arith
set-IsUint sched_burst_inherit_type n prm fits h = omega arith
set-IsUint sched_burst_smoothness n prm fits h = omega arith
set-IsUint sched_burst_penalty_offset n prm fits h = omega arith
set-IsUint sched_burst_penalty_scale n prm fits h = omega arith
set-IsUint sched_burst_cache_lifetime n prm fits h = omega arith

module _ (f : Printf) (ok : IsPrintf f) (k : Sysctl) (handled : IsSysctl k) where
  -- With numbers printed in decimal digits and a handler that stores them, a number below 2 ^ 31
  -- written to the file of a parameter under /proc/sys/kernel is the one that /proc/bore then shows
  -- for it in an active module, and every other parameter shows what it did.
  pub bore_table-page :
      (v : Variable) (n : ℕ) (prm : Params)
      → n < 2 ^ 31
      → IsUint prm
      → read_page
          (bore_proc_show f true (sysctl_write k set bore_table (name_of v) (written n) prm))
        ≡ some (some (set v n prm))
  bore_table-page v n prm fits h =
      rw (sysctl_write-set k v (written n) prm, handled.int_stored n fits)
        (read_page-bore_proc_show f ok true (set v n prm) (set-IsUint v n prm fits h))
