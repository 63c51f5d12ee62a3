-- ===== src/RamPlus/Setup/Assertions.antt =====
-- What is said of the view while the setup program runs. A run is for the size `req` that is asked for,
-- and `C` is the case of a run that starts without a swap file, on a system that never refuses to take
-- one out of use or to remove it.
use android_device_axion_com.Base.{
  ℕ, ◌*◌, ◌+◌, ◌≤◌, ◌≡◌, ◌≢◌, ◌⊎◌, true, false, Option, some, Bytes,
}
use android_device_axion_com.RamPlus.Os.{
  Os, View, Disk, disabled, active, ok, enoent, other, swapoff, unlink,
}
use android_device_axion_com.RamPlus.SwapFile.{is_allowed_size}

-- The swap file is not in use, or it has a name.
unfoldable pub IsTidy : Disk → Type 0
IsTidy d = (d.in_use ≡ false) ⊎ (d.present ≡ true)

-- There is no swap file.
unfoldable pub IsGone : Disk → Type 0
IsGone d = (d.in_use ≡ false) × (d.present ≡ false)

-- `swapoff` and `unlink` fail only since there is nothing to do.
pub record IsWilling (os : Os) : Type 0 where
  pub off : (s : os.State) → (os.ask swapoff s).0 ≢ other
  pub remove : (s : os.State) → ((os.ask unlink s).0 ≡ ok) ⊎ ((os.ask unlink s).0 ≡ enoent)

-- A run for no swap file has removed it.
pub record IsDisabled (v : View) : Type 0 where
  pub gone : IsGone v.disk
  pub kb : v.active_kb ≡ 0
  pub told : v.status ≡ disabled

-- A swap file of `mib` MiB is in use, and its size in KB is published: up to 1024 are missing.
pub record IsActive (mib : ℕ) (v : View) : Type 0 where
  pub on : v.disk.in_use ≡ true
  pub kept : v.disk.present ≡ true
  pub told : v.status ≡ active
  pub at_most : v.active_kb ≤ mib * 1024
  pub at_least : mib * 1024 ≤ v.active_kb + 1024

-- The size that is asked for is allowed, and done.
pub record IsDone (parse_uint : Bytes → Option ℕ) (req : Bytes) (v : View) : Type 0 where
  pub mib : ℕ
  pub parsed : parse_uint req ≡ some mib
  pub allowed : is_allowed_size mib ≡ true
  pub done : ((mib ≡ 0) × IsDisabled v) ⊎ ((mib ≢ 0) × IsActive mib v)

module _ (req : Bytes) (C : Type 0) where
  pub record Rest (d : Disk) : Type 0 where
    pub asked : d.requested ≡ req
    pub tidy : IsTidy d
    pub gone : C → IsGone d

  pub record Idle (d : Disk) : Type 0 where
    pub asked : d.requested ≡ req
    pub off : d.in_use ≡ false

  pub record Ready (d : Disk) : Type 0 where
    pub asked : d.requested ≡ req
    pub off : d.in_use ≡ false
    pub kept : d.present ≡ true

  pub record Up (d : Disk) : Type 0 where
    pub asked : d.requested ≡ req
    pub on : d.in_use ≡ true
    pub kept : d.present ≡ true

  -- At the end of the run.
  pub record Ended (parse_uint : Bytes → Option ℕ) (code : ℕ) (v : View) : Type 0 where
    pub tidy : IsTidy v.disk
    pub done : code ≡ 0 → IsDone parse_uint req v
    pub failed : code ≢ 0 → C → IsGone v.disk
