-- ===== src/Overlay.antt =====
-- The memory that the two scheduler modules share: `latency_get_se` of latency_sched.h and
-- `bore_get_ctx_se` of bore_sched.h both return the address of a task's `android_kabi_reserved1`, so
-- `struct latency_sched_entity` is the first word of `struct bore_ctx`. Bytes are in little-endian order.
pub mod Words
use android_device_axion_com.Base.{
  ℕ, ◌+◌, ◌-◌, ◌*◌, ◌/◌, ◌%◌, ◌^◌, ℤ, pos, negsuc, pos_part, neg_part, ltb, Bool, true, false,
  if◌then◌else◌,
}
use android_device_axion_com.Kernel.{Ptr}
use android_device_axion_com.Bore.Context.{Context}
use android_device_axion_com.Bore.Inherit.{Tasks, set_ctx}
use android_device_axion_com.Bore.Probes as Bore
use android_device_axion_com.Latency.{
  Entity, Sched, probe_latency_init_entity, probe_latency_set_user_nice,
}

-- The bits of an `s32` and of an `s16`, and the numbers that they stand for.
unfoldable pub bits32 : ℤ → ℕ
bits32 z = (pos_part z + (2 ^ 32 - neg_part z % 2 ^ 32)) % 2 ^ 32

unfoldable pub bits16 : ℤ → ℕ
bits16 z = (pos_part z + (2 ^ 16 - neg_part z % 2 ^ 16)) % 2 ^ 16

unfoldable pub s32_of : ℕ → ℤ
s32_of w = if ltb w (2 ^ 31) then pos w else negsuc (2 ^ 32 - w - 1)

unfoldable pub s16_of : ℕ → ℤ
s16_of w = if ltb w (2 ^ 15) then pos w else negsuc (2 ^ 16 - w - 1)

-- The 64 bits of an entity, and the entity that 64 bits are.
unfoldable pub word_of : Entity → ℕ
word_of e = bits32 e.latency_offset + 2 ^ 32 * bits16 e.latency_nice + 2 ^ 48 * (e.flags % 2 ^ 16)

unfoldable pub entity_of : ℕ → Entity
entity_of w = record {
  latency_offset = s32_of (w % 2 ^ 32);
  latency_nice = s16_of (w / 2 ^ 32 % 2 ^ 16);
  flags = w / 2 ^ 48 % 2 ^ 16;
}

-- What the latency module sees of BORE's tasks, with its own two parameters.
unfoldable pub latency_view : (enabled : ℕ) (maximum : ℤ) → Tasks → Sched
latency_view enabled maximum t = record {
  latency_nice_enabled = enabled;
  latency_max = maximum;
  tasks = λ p. record {
    policy = (t p).policy;
    task_flags = (t p).rank.flags;
    static_prio = (t p).rank.static_prio;
    entity = entity_of (t p).ctx.burst_time;
  };
}

-- A task's entity, written back to its context.
unfoldable pub write_back : Sched → Ptr → Tasks → Tasks
write_back s p t = set_ctx t p (record ((t p).ctx) { burst_time = word_of (s.tasks p).entity })

-- `probe_latency_set_user_nice` on that memory.
unfoldable pub shared_set_user_nice : (enabled : ℕ) (maximum : ℤ) → Tasks → Ptr → Tasks
shared_set_user_nice enabled maximum t p =
    write_back (probe_latency_set_user_nice (latency_view enabled maximum t) p) p t
