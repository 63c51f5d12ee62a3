-- ===== src/Kernel/Sysctl.antt =====
-- Tables of `struct ctl_table`, and a write to /proc/sys that the kernel passes on to an entry's handler.
-- What a handler stores for a text is an interface, since the handlers are the kernel's.
use android_device_axion_com.Base.{
  ℕ, ◌<◌, ◌^◌, ◌≡◌, pos, Option, none, some, List, [], ◌∷◌, if◌then◌else◌, Bytes, text_eq, int_onto,
}

pub data Handler : Type 0 where
  proc_dointvec_minmax proc_doulongvec_minmax : Handler

-- An entry; `data` names a variable of the module.
pub record CtlTable (Variable : Type 0) : Type 0 where
  pub procname : Bytes
  pub data_of : Variable
  pub maxlen : ℕ
  pub mode : ℕ
  pub proc_handler : Handler

-- The bits that a handler stores in a variable of a length when a text is written, or none.
pub record Sysctl : Type 0 where
  pub stored : Handler → ℕ → Bytes → Option ℕ

-- A number as it is written to a file: its digits and a line feed.
abbrev pub written : ℕ → Bytes
written n = int_onto (pos n) (10 ∷ [])

-- A handler stores a number in decimal digits that its type can hold.
pub record IsSysctl (k : Sysctl) : Type 0 where
  pub int_stored : (n : ℕ) → n < 2 ^ 31 → k.stored proc_dointvec_minmax 4 (written n) ≡ some n
  pub long_stored : (n : ℕ) → n < 2 ^ 63 → k.stored proc_doulongvec_minmax 8 (written n) ≡ some n

module _ {Variable : Type 0} {State : Type 0} (k : Sysctl)
    (set : Variable → ℕ → State → State) where
  -- What a handler stores, put into its variable.
  abbrev pub store : Variable → Option ℕ → State → State
  store v none s = s
  store v (some n) s = set v n s

  -- A write to the file of a name, which the first entry of that name handles.
  unfoldable pub sysctl_write : List (CtlTable Variable) → Bytes → Bytes → State → State
  sysctl_write [] name text s = s
  sysctl_write (e ∷ rest) name text s =
      let other = sysctl_write rest name text s in
      if text_eq e.procname name
      then store e.data_of (k.stored e.proc_handler e.maxlen text) s
      else other
