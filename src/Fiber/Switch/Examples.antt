-- ===== src/Fiber/Switch/Examples.antt =====
-- A host that switches to a fiber on another stack, and is switched back to.
use krio.Base.{◌==◌, ◌≡◌, refl, arith, false, if◌then◌else◌}
use krio.Fiber.Machine.{Cpu, load, sp}
use krio.Fiber.Switch.Port.{Ready, switched}
use krio.Fiber.Switch.Registers.{rdi, rsi, rbx, mxcsr}
use krio.Fiber.Switch.X64.{x64}
use krio.Fiber.Switch.Targets.{x86_64}
use krio.Fiber.Switch.Resume.{Suspended, Returned, switch-Returned, switch-offsets}

-- The host, with its stack pointer at 1000; its slot is at 2000, and the fiber's at 2008.
abbrev host : Cpu
host = record {
  regs = λ r.
      if r == sp
      then 1000
      else if r == rdi
      then 2000
      else if r == rsi
      then 2008
      else if r == rbx
      then 7
      else 0;
  mem = λ _. 0;
  equal = false;
}

-- The fiber, on a stack of its own and with another rounding mode, when it switches back.
abbrev fiber : Cpu
fiber = record {
  regs = λ r.
      if r == sp
      then 3000
      else if r == rdi
      then 2008
      else if r == rsi
      then 2000
      else if r == mxcsr
      then 0x3F80
      else 9;
  mem = (switched x64 host).mem;
  equal = false;
}

host-Ready : Ready x64 host
host-Ready = omega arith

fiber-Ready : Ready x64 fiber
fiber-Ready = omega arith

host-Suspended : Suspended x64 host fiber
host-Suspended = record {
  frame_kept = λ x low high. refl;
  slot_kept = λ x low high. refl;
  names_slot = refl;
  spares_frame = omega arith;
  spares_slot = omega arith;
}

switch-Returned_example : Returned x64 host (switched x64 fiber)
switch-Returned_example = switch-Returned x86_64 host fiber host-Ready fiber-Ready host-Suspended

switch-offsets_example :
    (load 8 2000 (switched x64 host).mem ≡ 936)
    × (load 8 992 (switched x64 host).mem ≡ 0)
    × (load 8 1000 (switched x64 host).mem ≡ 0)
unfolding load
switch-offsets_example = switch-offsets x86_64 host host-Ready
