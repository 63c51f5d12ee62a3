-- ===== src/Tests/Proc.antt =====
-- The theorems on the driver's files, with parsers of decimal digits.
use android_device_axion_com.Base.{
  ◌++◌, ℕ, ◌+◌, ◌-◌, ◌*◌, ◌≡◌, refl, pos, some, List, [], ◌∷◌, true, ◌≤◌,
}
use android_device_axion_com.Dragonite.{Text, kswapd}
use android_device_axion_com.Dragonite.Proc.{
  parsed, Parsers, Write, Driver, c_string, nta_pid_write, nta_affinity_write,
}
use android_device_axion_com.Dragonite.Proc.Balanced.{
  start, serve, to_pid, to_affinity, Session-refs,
}
use android_device_axion_com.Dragonite.Proc.Target.{IsRead}
use android_device_axion_com.Tests.Dragonite.{kernel, world}

abbrev decimal : ℕ → Text → ℕ
decimal sum [] = sum
decimal sum (c ∷ rest) = decimal (sum * 10 + (c - b'0')) rest

abbrev pub parsers : Parsers
parsers = record {
  strim = λ text. text;
  kstrtoint = λ radix text. parsed (pos (decimal 0 text));
  kstrtoul = λ radix text. parsed (decimal 0 text);
  sscanf = λ text. pos (decimal 0 text) ∷ [];
}

abbrev pub driver : Driver
driver = record { world = world; target = pos 0 }

abbrev pub writes : List ℕ → Write
writes bytes = record { count = 9; copied = some bytes; room = true }

abbrev pub five : Text
five = b'5' ∷ []

abbrev k_and_mask : Text
k_and_mask = b'k' ∷ b' ' ∷ b'3' ∷ []

pub reads :
    (content : Text)
    → c_string content ≡ content
    → (limit : ℕ) → 9 ≤ limit
    → IsRead (writes content) limit content
reads content text limit fits = record {
  bytes = content;
  short = fits;
  room = refl;
  copied = refl;
  holds = text;
}

Session-refs_example :
    (nta_affinity_write parsers kernel
        (writes k_and_mask)
        (nta_pid_write parsers (writes five) driver).1).1.world.refs
      5
    ≡ 1
Session-refs_example =
    Session-refs {ps = parsers} {d = driver}
      (serve (serve start (to_pid (writes five))) (to_affinity kernel (writes k_and_mask))) 5

-- The name kswapd and the mask 3.
abbrev name_and_mask : Text
name_and_mask = kswapd ++ b' ' ∷ b'3' ∷ []
