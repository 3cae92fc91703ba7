-- ===== src/Fiber/Switch.antt =====
-- crates/krio-fiber/src/arch.rs: the context switch of every target, as the instructions of its
-- assembly. The two fields of a Windows thread's TEB that a switch swaps are registers of the
-- machine: no stack has them.
pub mod Port
pub mod Registers
pub mod X64
pub mod Ms64
pub mod X32
pub mod Rv64
pub mod Arm64
pub mod Arm64Windows
pub mod Targets
pub mod Waiting
pub mod Resume
mod Examples
