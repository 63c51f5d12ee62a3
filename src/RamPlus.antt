-- ===== src/RamPlus.antt =====
-- RAM Plus, config/ramplus: the program that sets up a swap file, and its hooks in the low-memory
-- killer.
pub mod Swaps
pub mod Lmkd
pub mod Os
pub mod Prog
pub mod SwapFile
pub mod Holds
pub mod Setup
