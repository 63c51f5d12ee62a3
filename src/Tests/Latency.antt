-- ===== src/Tests/Latency.antt =====
-- The theorems on the latency module, at a task that leads and one that lags.
use android_device_axion_com.Base.{◌≡◌, refl, inl, arith, neg_ℤ, [], ◌∷◌, has}
use android_device_axion_com.Latency.{init_latency_tasks, wakeup_latency_gran}
use android_device_axion_com.Latency.Gran.{wakeup_latency_gran_antisymmetric}
use android_device_axion_com.Latency.Table.{offset_table, init_latency_tasks-table}
use android_device_axion_com.Tests.Data.{latency}

wakeup_latency_gran_antisymmetric_example :
    wakeup_latency_gran latency 1 2 ≡ neg_ℤ (wakeup_latency_gran latency 2 1)
wakeup_latency_gran_antisymmetric_example =
    wakeup_latency_gran_antisymmetric latency 1 2 (ground arith) (inl (ground arith))

init_latency_tasks-table_example :
    wakeup_latency_gran (init_latency_tasks latency (2 ∷ 1 ∷ [])) 2 1
    ≡ offset_table 24000000 130 100
unfolding has
init_latency_tasks-table_example =
    init_latency_tasks-table 24000000 (omega arith) latency (2 ∷ 1 ∷ []) refl refl 2 1 refl refl
      refl refl
