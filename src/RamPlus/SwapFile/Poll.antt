-- ===== src/RamPlus/SwapFile/Poll.antt =====
-- `WaitForZramPriority`: the polls, and an area of zram that appears between them.
use android_device_axion_com.Base.{ℕ, zero, suc, ◌<◌, ◌≡◌, ℤ, Option, none, some, refl, arith}
use android_device_axion_com.RamPlus.Os.{Os, read_swaps, sleep}
use android_device_axion_com.RamPlus.SwapFile.{
  zram_of, or_else, wait_for_zram, wait_for_zram_priority,
}

module _ (os : Os) where
  -- The state after `k` polls that find none.
  unfoldable pub polled : ℕ → os.State → os.State
  polled zero s = s
  polled (suc k) s = polled k (os.ask sleep (os.ask read_swaps s).1).1

  -- What the next poll finds.
  unfoldable pub found : os.State → Option ℤ
  found s = zram_of (os.ask read_swaps s).0

  wait_for_zram-polled :
      (n k : ℕ) (s : os.State) (p : ℤ)
      → k < n
      → ((j : ℕ) → j < k → found (polled j s) ≡ none)
      → found (polled k s) ≡ some p
      → wait_for_zram os n s ≡ (some p, (os.ask read_swaps (polled k s)).1)
  unfolding wait_for_zram or_else polled found
  wait_for_zram-polled zero k s p h before now = absurd (omega arith)
  wait_for_zram-polled (suc n) zero s p h before now = rw now refl
  wait_for_zram-polled (suc n) (suc k) s p h before now = rw (before 0 (omega arith)) (
      wait_for_zram-polled n k (os.ask sleep (os.ask read_swaps s).1).1 p (omega arith)
        (λ j l. before (suc j) (omega arith)) now)

  -- With k below 60, an area of zram that the first k polls do not find and the next one finds is
  -- found, and the lowest priority that this poll sees is the answer.
  pub wait_for_zram_priority-polled :
      (k : ℕ) (s : os.State) (p : ℤ)
      → k < 60
      → ((j : ℕ) → j < k → found (polled j s) ≡ none)
      → found (polled k s) ≡ some p
      → wait_for_zram_priority os s ≡ (some p, (os.ask read_swaps (polled k s)).1)
  wait_for_zram_priority-polled k s p h before now = wait_for_zram-polled 60 k s p h before now
