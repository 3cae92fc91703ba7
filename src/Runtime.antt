-- ===== src/Runtime.antt =====
-- crates/krio-runtime/src/lib.rs
pub mod Sweep
pub mod Load
pub mod RoundRobin
pub mod Roles
