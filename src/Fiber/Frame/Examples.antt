-- ===== src/Fiber/Frame/Examples.antt =====
-- A fresh stack of 512 bytes at 4096, switched to from a stack that ends at 10000.
use krio.Base.{◌==◌, arith, false, if◌then◌else◌}
use krio.Fiber.Machine.{Mem, Cpu, run, store, sp}
use krio.Fiber.Machine.Bytes.{store_other, load-store_self}
use krio.Fiber.Switch.Port.{Ready, switched}
use krio.Fiber.Switch.Registers.{a0, a1}
use krio.Fiber.Switch.Targets.{riscv64, port}
use krio.Fiber.Switch.Waiting.{Waiting}
use krio.Fiber.Frame.{prepare_initial_stack, trampoline_code}
use krio.Fiber.Frame.Starts.{Entered, Called, prepare_initial_stack-starts}

abbrev stack : Mem
stack = (prepare_initial_stack riscv64 4096 512 77 88 (λ _. 5)).0

-- The slot at 9000 names the first frame, at 4608 - 208.
abbrev host : Cpu
host = record {
  regs = λ r. if r == sp then 10000 else if r == a0 then 8000 else if r == a1 then 9000 else 3;
  mem = store 8 9000 4400 stack;
  equal = false;
}

host-Ready : Ready (port riscv64) host
host-Ready = omega arith

host_waits : Waiting (port riscv64) 4400 stack host
host_waits = record {
  named = load-store_self 8 9000 4400 stack;
  kept = λ x low high. store_other 8 9000 4400 stack x (omega arith);
  spares_slot = omega arith;
  spares_frame = omega arith;
}

prepare_initial_stack-starts_example :
    Entered riscv64 4608 4096 77 88 (switched (port riscv64) host)
    × Called riscv64 4096 512 77 99
        (run (trampoline_code riscv64 66 99) (switched (port riscv64) host))
unfolding prepare_initial_stack
prepare_initial_stack-starts_example =
    prepare_initial_stack-starts riscv64 4096 512 77 88 66 99 (λ _. 5) host (omega arith)
      (omega arith) (omega arith) (omega arith) host-Ready host_waits
