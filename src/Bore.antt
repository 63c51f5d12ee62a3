-- ===== src/Bore.antt =====
-- The BORE scheduler module, kernel/modules/bore_sched.
pub mod Penalty
pub mod Context
pub mod Cache
pub mod Inherit
pub mod Probes
pub mod Lifecycle
pub mod Hooks
pub mod Proc
