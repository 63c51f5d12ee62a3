-- ===== src/RamPlus/Os.antt =====
-- What the setup program asks of Android: one call for each system call, property and file that
-- config/ramplus/ax_ram_plus_setup.cpp uses, with the type of its answer. The rest of the system is a
-- parameter, and its documented behaviour is a record of laws about what can be seen of its state.
use android_device_axion_com.Base.{
  ℕ, ◌+◌, ◌≡◌, ℤ, Bool, true, false, ◌&&◌, leb, ltb, Option, Bytes, if◌then◌else◌,
}

-- The texts of kStatusProp.
pub data Status : Type 0 where
  unsupported invalid_size swapoff_failed file_error disabled encryption_required zram_not_ready
        insufficient_space allocation_failed format_failed activation_failed verification_failed
        priority_error active :
      Status

-- 0, or what `errno` tells; the code tests EINVAL and ENOENT.
pub data Errno : Type 0 where
  ok einval enoent other : Errno

-- An `lstat` that fails, or whether it found a directory.
pub data Lstat : Type 0 where
  unseen : Errno → Lstat
  seen : Bool → Lstat

-- The fields of `struct stat` that the code reads.
pub record FileStat : Type 0 where
  pub is_regular : Bool
  pub blocks : ℤ
  pub size : ℤ

-- How mkswap ended: `waitpid` failed other than by EINTR, it exited, or a signal ended it.
pub data Wait : Type 0 where
  lost : Wait
  exited : ℕ → Wait
  signalled : Wait

-- The calls that change nothing that the theorems look at, and then those that do.
pub data Call : Type 0 where
  get_supported get_requested get_encrypted read_swaps sleep lstat mkdir chmod statvfs fstat fchmod
        fsync fork wait :
      Call
  ftruncate : ℕ → Call
  write : (size offset : ℕ) → Call
  open_swap swapon swapoff unlink : Call
  set_active_kb : ℕ → Call
  set_status : Status → Call

abbrev pub Answer : Call → Type 0
Answer get_supported = Bool
Answer get_requested = Bytes
Answer get_encrypted = Bool
Answer read_swaps = Option Bytes
Answer sleep = Unit
Answer lstat = Lstat
Answer mkdir = Errno
Answer chmod = Errno
Answer statvfs = Option (ℕ × ℕ)
Answer fstat = Option FileStat
Answer fchmod = Errno
Answer fsync = Errno
Answer fork = Bool
Answer wait = Wait
Answer (ftruncate n) = Errno
Answer (write size offset) = Bool
Answer open_swap = Bool
Answer swapon = Errno
Answer swapoff = Errno
Answer unlink = Errno
Answer (set_active_kb n) = Bool
Answer (set_status s) = Bool

abbrev pub is_quiet : Call → Bool
is_quiet open_swap = false
is_quiet swapon = false
is_quiet swapoff = false
is_quiet unlink = false
is_quiet (set_active_kb n) = false
is_quiet (set_status s) = false
is_quiet get_supported = true
is_quiet get_requested = true
is_quiet get_encrypted = true
is_quiet read_swaps = true
is_quiet sleep = true
is_quiet lstat = true
is_quiet mkdir = true
is_quiet chmod = true
is_quiet statvfs = true
is_quiet fstat = true
is_quiet fchmod = true
is_quiet fsync = true
is_quiet fork = true
is_quiet wait = true
is_quiet (ftruncate n) = true
is_quiet (write size offset) = true

-- Whether the swap file is in use, whether there is a file of that name, and the size that is asked
-- for, in kRequestedSizeProp.
pub record Disk : Type 0 where
  pub in_use : Bool
  pub present : Bool
  pub requested : Bytes

-- With the properties kActiveSizeProp and kStatusProp.
pub record View : Type 0 where
  pub disk : Disk
  pub active_kb : ℕ
  pub status : Status

pub record Os : Type 1 where
  pub State : Type 0
  pub ask : (c : Call) → State → Answer c × State
  pub parse_uint : Bytes → Option ℕ
  pub view : State → View
  pub filled : State → ℕ → Bool

-- What a call of `swapon`, `swapoff`, `unlink` or `open` does, by its answer.
abbrev pub swapped_on : Errno → Disk → Disk
swapped_on ok d = record d { in_use = true }
swapped_on einval d = d
swapped_on enoent d = d
swapped_on other d = d

abbrev pub swapped_off : Errno → Disk → Disk
swapped_off ok d = record d { in_use = false }
swapped_off einval d = d
swapped_off enoent d = d
swapped_off other d = d

abbrev pub unlinked : Errno → Disk → Disk
unlinked ok d = record d { present = false }
unlinked einval d = d
unlinked enoent d = d
unlinked other d = d

abbrev pub opened : Bool → Disk → Disk
opened true d = record d { present = true }
opened false d = d

-- EINVAL of `swapoff` is a file that is not in use; ENOENT is a name without a file. Only setting a
-- property changes it, and a success means that it is set. A write that succeeds fills its range,
-- and `fsync` changes no byte.
pub record IsAndroid (os : Os) : Type 0 where
  pub quiet : (c : Call) (s : os.State) → is_quiet c ≡ true → os.view (os.ask c s).1 ≡ os.view s
  pub get_size : (s : os.State) → (os.ask get_requested s).0 ≡ (os.view s).disk.requested
  pub on :
      (s : os.State)
      → os.view (os.ask swapon s).1
        ≡ record (os.view s) { disk = swapped_on (os.ask swapon s).0 (os.view s).disk }
  pub off :
      (s : os.State)
      → os.view (os.ask swapoff s).1
        ≡ record (os.view s) { disk = swapped_off (os.ask swapoff s).0 (os.view s).disk }
  pub off_unused : (s : os.State) → (os.ask swapoff s).0 ≡ einval → (os.view s).disk.in_use ≡ false
  pub off_missing :
      (s : os.State) → (os.ask swapoff s).0 ≡ enoent → (os.view s).disk.present ≡ false
  pub remove :
      (s : os.State)
      → os.view (os.ask unlink s).1
        ≡ record (os.view s) { disk = unlinked (os.ask unlink s).0 (os.view s).disk }
  pub remove_missing :
      (s : os.State) → (os.ask unlink s).0 ≡ enoent → (os.view s).disk.present ≡ false
  pub create :
      (s : os.State)
      → os.view (os.ask open_swap s).1
        ≡ record (os.view s) { disk = opened (os.ask open_swap s).0 (os.view s).disk }
  pub set_kb :
      (n : ℕ) (s : os.State)
      → let r = os.ask (set_active_kb n) s in
        os.view r.1 ≡ record (os.view s) { active_kb = if r.0 then n else (os.view r.1).active_kb }
  pub set_text :
      (t : Status) (s : os.State)
      → let r = os.ask (set_status t) s in
        os.view r.1 ≡ record (os.view s) { status = if r.0 then t else (os.view r.1).status }
  pub fill :
      (size offset i : ℕ) (s : os.State)
      → (os.ask (write size offset) s).0 ≡ true
      → os.filled (os.ask (write size offset) s).1 i
        ≡ (if leb offset i && ltb i (offset + size) then true else os.filled s i)
  pub sync : (i : ℕ) (s : os.State) → os.filled (os.ask fsync s).1 i ≡ os.filled s i
