-- ===== src/Tests/Machine.antt =====
-- A machine with an area of zram that appears after two polls, and with a file that is 5 MiB short.
use android_device_axion_com.Base.{
  ℕ, ◌+◌, ◌*◌, ◌^◌, ◌≡◌, ◌≢◌, ◌⊎◌, inl, inr, refl, pos, Bool, true, false, ◌&&◌, ltb, leb, some,
  ◌∷◌, ◌++◌, [], if◌then◌else◌, Bytes, codes, read_digits,
}
use android_device_axion_com.RamPlus.Os.{
  Status, disabled, ok, einval, enoent, other, unseen, exited, View, is_quiet, Call, get_supported,
  get_requested, get_encrypted, read_swaps, sleep, lstat, mkdir, chmod, statvfs, fstat, fchmod,
  fsync, fork, wait, ftruncate, write, open_swap, swapon, swapoff, unlink, set_active_kb,
  set_status, Answer, Os, IsAndroid, swapped_on, swapped_off, unlinked, opened,
}
use android_device_axion_com.RamPlus.Setup.Assertions.{IsWilling}

-- Whether the swap file is in use and present, the two properties, the polls so far, and the bytes
-- that are filled.
pub data Machine : Type 0 where
  machine :
      (in_use present : Bool) (kb : ℕ) (status : Status) (polls : ℕ) (bytes : ℕ → Bool) → Machine

abbrev header_line : Bytes
header_line = codes "Filename Type Size Used Priority" ++ 10 ∷ []

abbrev zram_line : Bytes
zram_line = codes "/dev/block/zram0 partition 4194300 0 100" ++ 10 ∷ []

abbrev file_line : Bytes
file_line = codes "/data/system/axion_ram_plus/swapfile file 2097148 0 -2" ++ 10 ∷ []

abbrev swaps_of : Machine → Bytes
swaps_of (machine true present kb status polls bytes) = header_line ++ zram_line ++ file_line
swaps_of (machine false present kb status polls bytes) =
    if ltb polls 2 then header_line else header_line ++ zram_line

abbrev polled_once : Machine → Machine
polled_once (machine in_use present kb status polls bytes) =
    machine in_use present kb status (polls + 1) bytes

abbrev written : ℕ → ℕ → Machine → Machine
written size offset (machine in_use present kb status polls bytes) =
    machine in_use present kb status polls
      (λ i. if leb offset i && ltb i (offset + size) then true else bytes i)

-- `formats` is whether mkswap succeeds.
abbrev answer : Bool → (c : Call) → Machine → Answer c × Machine
answer formats get_supported m = (true, m)
answer formats get_requested m = (codes "2048", m)
answer formats get_encrypted m = (true, m)
answer formats read_swaps m = (some (swaps_of m), m)
answer formats sleep m = (tt, polled_once m)
answer formats lstat m = (unseen enoent, m)
answer formats mkdir m = (ok, m)
answer formats chmod m = (ok, m)
answer formats statvfs m = (some (2 ^ 22, 4096), m)
answer formats fstat m = (
  some (record { is_regular = true; blocks = pos (2043 * 2048); size = pos (2043 * 1024 * 1024) }),
  m,
)
answer formats fchmod m = (ok, m)
answer formats fsync m = (ok, m)
answer formats fork m = (true, m)
answer formats wait m = (exited (if formats then 0 else 1), m)
answer formats (ftruncate n) m = (ok, m)
answer formats (write size offset) m = (true, written size offset m)
answer formats open_swap (machine in_use present kb status polls bytes) =
    (true, machine in_use true kb status polls bytes)
answer formats swapon (machine in_use present kb status polls bytes) =
    (ok, machine true present kb status polls bytes)
answer formats swapoff (machine true present kb status polls bytes) =
    (ok, machine false present kb status polls bytes)
answer formats swapoff (machine false present kb status polls bytes) =
    (einval, machine false present kb status polls bytes)
answer formats unlink (machine in_use true kb status polls bytes) =
    (ok, machine in_use false kb status polls bytes)
answer formats unlink (machine in_use false kb status polls bytes) =
    (enoent, machine in_use false kb status polls bytes)
answer formats (set_active_kb n) (machine in_use present kb status polls bytes) =
    (true, machine in_use present n status polls bytes)
answer formats (set_status t) (machine in_use present kb status polls bytes) =
    (true, machine in_use present kb t polls bytes)

abbrev seen_of : Machine → View
seen_of (machine in_use present kb status polls bytes) = record {
  disk = record { in_use = in_use; present = present; requested = codes "2048" };
  active_kb = kb;
  status = status;
}

abbrev filled_of : Machine → ℕ → Bool
filled_of (machine in_use present kb status polls bytes) i = bytes i

abbrev pub phone : Bool → Os
phone formats = record {
  State = Machine;
  ask = answer formats;
  parse_uint = λ text. some (read_digits 0 text).0;
  view = seen_of;
  filled = filled_of;
}

phone-quiet :
    (f : Bool) (c : Call) (m : Machine) → is_quiet c ≡ true → seen_of (answer f c m).1 ≡ seen_of m
phone-quiet f get_supported m h = refl
phone-quiet f get_requested m h = refl
phone-quiet f get_encrypted m h = refl
phone-quiet f read_swaps m h = refl
phone-quiet f sleep (machine in_use present kb status polls bytes) h = refl
phone-quiet f lstat m h = refl
phone-quiet f mkdir m h = refl
phone-quiet f chmod m h = refl
phone-quiet f statvfs m h = refl
phone-quiet f fstat m h = refl
phone-quiet f fchmod m h = refl
phone-quiet f fsync m h = refl
phone-quiet f fork m h = refl
phone-quiet f wait m h = refl
phone-quiet f (ftruncate n) m h = refl
phone-quiet f (write size offset) (machine in_use present kb status polls bytes) h = refl
phone-quiet f open_swap m h = cc
phone-quiet f swapon m h = cc
phone-quiet f swapoff m h = cc
phone-quiet f unlink m h = cc
phone-quiet f (set_active_kb n) m h = cc
phone-quiet f (set_status t) m h = cc

pub phone-IsAndroid : (formats : Bool) → IsAndroid (phone formats)
phone-IsAndroid f = record {
  quiet = phone-quiet f;
  get_size = size;
  on = on;
  off = off;
  off_unused = off_unused;
  off_missing = off_missing;
  remove = remove;
  remove_missing = remove_missing;
  create = create;
  set_kb = set_kb;
  set_text = set_text;
  fill = fill;
  sync = λ i m. refl;
}
  where
    size : (m : Machine) → (answer f get_requested m).0 ≡ (seen_of m).disk.requested
    size (machine a b k t n g) = refl

    on :
        (m : Machine)
        → seen_of (answer f swapon m).1
          ≡ record (seen_of m) { disk = swapped_on (answer f swapon m).0 (seen_of m).disk }
    on (machine a b k t n g) = refl

    off :
        (m : Machine)
        → seen_of (answer f swapoff m).1
          ≡ record (seen_of m) { disk = swapped_off (answer f swapoff m).0 (seen_of m).disk }
    off (machine true b k t n g) = refl
    off (machine false b k t n g) = refl

    off_unused : (m : Machine) → (answer f swapoff m).0 ≡ einval → (seen_of m).disk.in_use ≡ false
    off_unused (machine true b k t n g) e = cc
    off_unused (machine false b k t n g) e = refl

    off_missing : (m : Machine) → (answer f swapoff m).0 ≡ enoent → (seen_of m).disk.present ≡ false
    off_missing (machine true b k t n g) e = cc
    off_missing (machine false b k t n g) e = cc

    remove :
        (m : Machine)
        → seen_of (answer f unlink m).1
          ≡ record (seen_of m) { disk = unlinked (answer f unlink m).0 (seen_of m).disk }
    remove (machine a true k t n g) = refl
    remove (machine a false k t n g) = refl

    remove_missing :
        (m : Machine) → (answer f unlink m).0 ≡ enoent → (seen_of m).disk.present ≡ false
    remove_missing (machine a true k t n g) e = cc
    remove_missing (machine a false k t n g) e = refl

    create :
        (m : Machine)
        → seen_of (answer f open_swap m).1
          ≡ record (seen_of m) { disk = opened (answer f open_swap m).0 (seen_of m).disk }
    create (machine a b k t n g) = refl

    set_kb :
        (j : ℕ) (m : Machine)
        → let r = answer f (set_active_kb j) m in
          seen_of r.1
          ≡ record (seen_of m) { active_kb = if r.0 then j else (seen_of r.1).active_kb }
    set_kb j (machine a b k t n g) = refl

    set_text :
        (u : Status) (m : Machine)
        → let r = answer f (set_status u) m in
          seen_of r.1 ≡ record (seen_of m) { status = if r.0 then u else (seen_of r.1).status }
    set_text u (machine a b k t n g) = refl

    fill :
        (size offset i : ℕ) (m : Machine)
        → (answer f (write size offset) m).0 ≡ true
        → filled_of (answer f (write size offset) m).1 i
          ≡ (if leb offset i && ltb i (offset + size) then true else filled_of m i)
    fill size offset i (machine a b k t n g) e = refl

pub phone-IsWilling : (formats : Bool) → IsWilling (phone formats)
phone-IsWilling f = record { off = off; remove = remove }
  where
    off : (m : Machine) → (answer f swapoff m).0 ≢ other
    off (machine true b k t n g) e = cc
    off (machine false b k t n g) e = cc

    remove : (m : Machine) → ((answer f unlink m).0 ≡ ok) ⊎ ((answer f unlink m).0 ≡ enoent)
    remove (machine a true k t n g) = inl refl
    remove (machine a false k t n g) = inr refl

-- After the boot.
abbrev pub fresh : Machine
fresh = machine false false 0 disabled 0 (λ i. false)
