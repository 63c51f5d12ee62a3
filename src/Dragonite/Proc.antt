-- ===== src/Dragonite/Proc.antt =====
-- The write handlers of ax_dragonite_proc.c, over the driver's world and the current target pid. The
-- kernel's text functions are a record of arguments; a text is the bytes before its NUL.
pub mod Cases
pub mod Balanced
pub mod Target
use android_device_axion_com.Base.{
  ℕ, ◌+◌, ℤ, pos, ltb_ℤ, Bool, true, false, not, ◌&&◌, Option, none, some, List, [], ◌∷◌, ltb, leb,
  ◌==◌, if◌then◌else◌,
}
use android_device_axion_com.Dragonite.{
  Status, success, einval, enomem, esrch, enoent, Text, Mask, World, Kernel, axd_set_affinity,
  axd_reset_affinity, axd_set_boost, axd_pin_kswapd,
}

-- What a parser returns: a number, or an error number.
pub data Parsed {ℓ} (A : Type ℓ) : Type ℓ where
  parsed : A → Parsed A
  unparsed : ℕ → Parsed A

-- `sscanf` stands for its only use, "%d %d": the numbers that it reads.
pub record Parsers : Type 0 where
  pub strim : Text → Text
  pub kstrtoint : ℕ → Text → Parsed ℤ
  pub kstrtoul : ℕ → Text → Parsed ℕ
  pub sscanf : Text → List ℤ

-- One call of a handler: `count`, what `copy_from_user` copies unless it fails, and whether `kmalloc`
-- finds room for the buffer.
pub record Write : Type 0 where
  pub count : ℕ
  pub copied : Option (List ℕ)
  pub room : Bool

-- What a handler returns: the count, `-EFAULT`, an error of a parser, or any other error.
pub data Result : Type 0 where
  written : ℕ → Result
  efault : Result
  unreadable : ℕ → Result
  refused : Status → Result

-- The world and `g_current_target_pid`.
pub record Driver : Type 0 where
  pub world : World
  pub target : ℤ

-- The text in a buffer: its bytes before the first NUL.
unfoldable pub c_string : List ℕ → Text
c_string [] = []
c_string (c ∷ rest) = let text = c_string rest in if c == 0 then [] else c ∷ text

-- `strchr(text, ' ')`: the text before the first space and the text after it.
unfoldable pub split_space : Text → Option (Text × Text)
split_space [] = none
split_space (c ∷ rest) =
    if c == b' '
    then some ([], rest)
    else (elim (split_space rest) [ none ↦ none | some (before, after) ↦ some (c ∷ before, after) ])

-- `ret < 0 && ret != -ENOENT` and `ret != 0 && ret != -ESRCH`, negated.
abbrev pub passes_affinity : Status → Bool
passes_affinity success = true
passes_affinity enoent = true
passes_affinity einval = false
passes_affinity enomem = false
passes_affinity esrch = false

abbrev pub passes_kswapd : Status → Bool
passes_kswapd success = true
passes_kswapd esrch = true
passes_kswapd einval = false
passes_kswapd enomem = false
passes_kswapd enoent = false

abbrev pub passes_success : Status → Bool
passes_success success = true
passes_success einval = false
passes_success enomem = false
passes_success esrch = false
passes_success enoent = false

-- The end of a handler that has called an operation.
abbrev pub finish : (Status → Bool) → ℕ → Driver → Status × World → Result × Driver
finish ok count d r = ((if ok r.0 then written count else refused r.0), record d { world = r.1 })

module _ (ps : Parsers) where
  open ps use {strim, kstrtoint, kstrtoul, sscanf}

  unfoldable pub nta_pid_write : Write → Driver → Result × Driver
  nta_pid_write c d = if leb 32 c.count then (refused einval, d) else (elim c.copied [
    | none ↦ (efault, d)
    | some bytes ↦ elim (kstrtoint 10 (strim (c_string bytes))) [
      | unparsed e ↦ (unreadable e, d)
      | parsed pid ↦ (written c.count, record d { target = pid })
    ]
  ])

  -- The mask of a text, in C notation or else in base 16.
  unfoldable pub parse_mask : Text → Parsed ℕ
  parse_mask text = elim (kstrtoul 0 text) [ parsed m ↦ parsed m | unparsed e ↦ kstrtoul 16 text ]

  -- The pid, the name and the text of the mask of a request with at least two words. `token1` is the
  -- first word, and `token2` the trimmed rest.
  unfoldable pub request : Text → Text → ℤ → ℤ × Text × Text
  request token1 token2 target = elim (split_space token2) [
    | none ↦ (target, token1, token2)
    | some (word, rest) ↦ elim (kstrtoint 10 token1) [
      | unparsed e ↦ (target, token1, token2)
      | parsed pid ↦ if ltb_ℤ (pos 0) pid then (pid, word, strim rest) else (target, token1, token2)
    ]
  ]

  module _ (k : Kernel) where
    unfoldable pub affinity_request : ℕ → Text → Driver → Result × Driver
    affinity_request count text d = elim (split_space (strim text)) [
      | none ↦ (refused einval, d)
      | some (token1, rest) ↦
          let (pid, comm_str, mask_str) = request token1 (strim rest) d.target in
          elim (parse_mask mask_str) [
            | unparsed e ↦ (unreadable e, d)
            | parsed mask_val ↦
                if mask_val == 0
                then (refused einval, d)
                else finish passes_affinity count d
                    (axd_set_affinity k pid comm_str mask_val d.world)
          ]
    ]

    unfoldable pub nta_affinity_write : Write → Driver → Result × Driver
    nta_affinity_write c d =
        if ltb 256 c.count
        then (refused einval, d)
        else if not c.room
        then (refused enomem, d)
        else (elim c.copied [
          | none ↦ (efault, d)
          | some bytes ↦ affinity_request c.count (c_string bytes) d
        ])

    -- The pid that a reset names, or 0.
    unfoldable pub reset_pid : Write → ℤ
    reset_pid c = if c.count == 0 then pos 0 else (elim c.copied [
      | none ↦ pos 0
      | some bytes ↦ elim (kstrtoint 10 (strim (c_string bytes))) [
        | unparsed e ↦ pos 0
        | parsed pid ↦ pid
      ]
    ])

    unfoldable pub nta_reset_write : Write → Driver → Result × Driver
    nta_reset_write c d =
        let named = reset_pid c in
        let pid = if ltb_ℤ (pos 1) named then named else d.target in
        if leb 32 c.count
        then (refused einval, d)
        else finish passes_success c.count d (axd_reset_affinity k pid d.world)

    -- `boost_level` is 1 unless the text gives it.
    unfoldable pub boost_request : ℕ → List ℤ → Driver → Result × Driver
    boost_request count [] d = (refused einval, d)
    boost_request count (pid ∷ []) d =
        finish passes_success count d (axd_set_boost k pid (pos 1) d.world)
    boost_request count (pid ∷ boost_level ∷ rest) d =
        finish passes_success count d (axd_set_boost k pid boost_level d.world)

    unfoldable pub dragonite_boost_write : Write → Driver → Result × Driver
    dragonite_boost_write c d = if leb 64 c.count then (refused einval, d) else (elim c.copied [
      | none ↦ (efault, d)
      | some bytes ↦ boost_request c.count (sscanf (strim (c_string bytes))) d
    ])

    -- `strim` runs again before the second parse, on the text that it has trimmed.
    unfoldable pub kswapd_request : ℕ → Parsed ℕ → Driver → Result × Driver
    kswapd_request count (unparsed e) d = (unreadable e, d)
    kswapd_request count (parsed mask_val) d =
        if mask_val == 0
        then (refused einval, d)
        else finish passes_kswapd count d (axd_pin_kswapd k mask_val d.world)

    unfoldable pub dragonite_kswapd_write : Write → Driver → Result × Driver
    dragonite_kswapd_write c d = if leb 32 c.count then (refused einval, d) else (elim c.copied [
      | none ↦ (efault, d)
      | some bytes ↦ kswapd_request c.count (parse_mask (strim (c_string bytes))) d
    ])
