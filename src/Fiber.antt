-- ===== src/Fiber.antt =====
-- crates/krio-fiber: what it keeps beside the context switches, and the switches themselves.
pub mod Stacks
pub mod Slots
pub mod Active
pub mod Machine
pub mod Switch
pub mod Frame
