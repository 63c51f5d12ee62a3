-- ===== src/RamPlus/Setup/Outcome.antt =====
-- How a whole run of the setup program ends.
use android_device_axion_com.Base.{◌≡◌, ◌≢◌, refl, inl}
use android_device_axion_com.RamPlus.Os.{Os, IsAndroid}
use android_device_axion_com.RamPlus.Setup.{main}
use android_device_axion_com.RamPlus.Setup.Assertions.{
  IsTidy, IsGone, IsWilling, IsDone, Rest, Ended,
}
use android_device_axion_com.RamPlus.Setup.Sound.{main-Ended}

module _ (os : Os) (law : IsAndroid os) where
  tidy-Rest :
      (s : os.State) → IsTidy (os.view s).disk → Rest (os.view s).disk.requested ⊥ (os.view s).disk
  tidy-Rest s h = record { asked = refl; tidy = h; gone = λ c. absurd c }

  tidy-Ended :
      (s : os.State)
      → IsTidy (os.view s).disk
      → Ended (os.view s).disk.requested ⊥ os.parse_uint (main os s).0 (os.view (main os s).1)
  tidy-Ended s h = (main-Ended law (λ c. absurd c)).at s (tidy-Rest s h)

  -- A run that starts with no unnamed swap file in use and exits with 0 has done what the property asks
  -- for: the size is an allowed one, and either it is 0, there is no swap file and the properties say
  -- 0 KB and `disabled`, or the swap file is in use, the properties say `active` and its size, and that
  -- is at most the size asked for and less by at most 1024 KB.
  pub main-IsDone :
      (s : os.State)
      → IsTidy (os.view s).disk
      → (main os s).0 ≡ 0
      → IsDone os.parse_uint (os.view s).disk.requested (os.view (main os s).1)
  main-IsDone s h = (tidy-Ended s h).done

  -- However a run ends, a swap file in use still has its name, if it had one before: the program never
  -- unlinks a file that it could not take out of use.
  pub main-IsTidy : (s : os.State) → IsTidy (os.view s).disk → IsTidy (os.view (main os s).1).disk
  main-IsTidy s h = (tidy-Ended s h).tidy

  -- A run that starts without a swap file and fails leaves none behind, if the system never refuses to
  -- take one out of use or to unlink it.
  pub main-IsGone :
      (s : os.State)
      → IsWilling os
      → IsGone (os.view s).disk
      → (main os s).0 ≢ 0
      → IsGone (os.view (main os s).1).disk
  unfolding IsTidy IsGone
  main-IsGone s willing gone failed =
      ((main-Ended law {C = Unit} (λ _. willing)).at s
          (record { asked = refl; tidy = inl gone.0; gone = λ _. gone })).failed
        failed tt
