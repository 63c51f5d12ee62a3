-- ===== src/Tests.antt =====
-- Concrete data, and the theorems at it.
pub mod Data
pub mod Bore
pub mod Loading
pub mod Latency
pub mod Dragonite
pub mod Proc
pub mod Machine
pub mod RamPlus
pub mod Setup
pub mod Unloading
pub mod Hooks
pub mod Pages
