-- ===== src/Dragonite/Proc/Target.antt =====
-- Whom a request about affinities reaches: the pid that it names, or the current target.
use android_device_axion_com.Base.{
  ℕ, ◌≡◌, refl, arith, ◌≤◌, ◌++◌, ℤ, pos, ltb_ℤ, true, false, some, has, List, [], ◌∷◌, leb,
}
use android_device_axion_com.Dragonite.{Text}
use android_device_axion_com.Dragonite.Proc.{
  parsed, unparsed, Parsers, Write, Driver, c_string, split_space, nta_pid_write,
}

-- A word without a space, a space and a rest come apart again.
pub split_space-append :
    (word rest : Text)
    → has b' ' word ≡ false
    → split_space (word ++ b' ' ∷ rest) ≡ some (word, rest)
unfolding split_space has
split_space-append [] rest h = refl
split_space-append (c ∷ word) rest h = ground (arith, split_space-append word rest)

-- A write that a handler reads: not too long, with room for it, and copied.
pub record IsRead (c : Write) (limit : ℕ) (content : Text) : Type 0 where
  pub bytes : List ℕ
  pub short : c.count ≤ limit
  pub room : c.room ≡ true
  pub copied : c.copied ≡ some bytes
  pub holds : c_string bytes ≡ content

module _ (ps : Parsers) where
  open ps use {strim, kstrtoint, kstrtoul}

  pub nta_pid_write-sets :
      (c : Write) (content : Text) (pid : ℤ) (d : Driver)
      → IsRead c 31 content
      → kstrtoint 10 (strim content) ≡ parsed pid
      → (nta_pid_write ps c d).1 ≡ record d { target = pid }
  unfolding nta_pid_write
  nta_pid_write-sets c content pid d r number =
      let short : leb 32 c.count ≡ false = ground (arith, r.short) in
      rw (short, r.copied, r.holds, number) refl

  -- A text is a mask in C notation, or else in base 16.
  pub data IsMask (text : Text) (mask : ℕ) : Type 0 where
    c_notation : kstrtoul 0 text ≡ parsed mask → IsMask text mask
    base_16 :
        (e : ℕ) → kstrtoul 0 text ≡ unparsed e → kstrtoul 16 text ≡ parsed mask → IsMask text mask

  -- The pid, the name and the mask of a request, for a current target: a name, a space and a mask; or
  -- a positive pid, a space, a name, a space and a mask.
  pub data Names (target : ℤ) (content : Text) : ℤ → Text → ℕ → Type 0 where
    two_words :
        (comm rest : Text) (mask : ℕ)
        → strim content ≡ comm ++ b' ' ∷ rest
        → has b' ' comm ≡ false
        → has b' ' (strim rest) ≡ false
        → IsMask (strim rest) mask
        → Names target content target comm mask
    three_words :
        (token1 rest word last : Text) (pid : ℤ) (mask : ℕ)
        → strim content ≡ token1 ++ b' ' ∷ rest
        → has b' ' token1 ≡ false
        → strim rest ≡ word ++ b' ' ∷ last
        → has b' ' word ≡ false
        → kstrtoint 10 token1 ≡ parsed pid
        → ltb_ℤ (pos 0) pid ≡ true
        → IsMask (strim last) mask
        → Names target content pid word mask
