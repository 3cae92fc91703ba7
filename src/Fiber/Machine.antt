-- ===== src/Fiber/Machine.antt =====
-- The machine that the assembly of crates/krio-fiber/src/arch.rs runs on: registers, a memory of
-- bytes in little-endian order, and the instructions that the switches and trampolines use.
-- Registers have numbers; a width is in bytes, and an address does not wrap.
pub mod Bytes
pub mod Layout
pub mod Steps
use krio.Base.{ℕ, zero, suc, ◌+◌, ◌-◌, ◌*◌, ◌/◌, ◌%◌, ◌^◌, ◌==◌, Bool, List, [], ◌∷◌, if◌then◌else◌}

-- A byte at each address.
abbrev pub Mem : Type 0
Mem = ℕ → ℕ

abbrev pub assign : ℕ → ℕ → (ℕ → ℕ) → ℕ → ℕ
assign a v f x = if x == a then v else f x

unfoldable pub store : ℕ → ℕ → ℕ → Mem → Mem
store zero a v m = m
store (suc w) a v m = store w (suc a) (v / 256) (assign a (v % 256) m)

unfoldable pub load : ℕ → ℕ → Mem → ℕ
load zero a m = 0
load (suc w) a m = m a + 256 * load w (suc a) m

-- `write_bytes(a, 0, n)`.
unfoldable pub clear : ℕ → ℕ → Mem → Mem
clear zero a m = m
clear (suc n) a m = clear n (suc a) (assign a 0 m)

pub record Cpu : Type 0 where
  pub regs : ℕ → ℕ
  pub mem : Mem
  pub equal : Bool

-- The stack pointer and the address of the next instruction have the same numbers on every target.
abbrev pub sp : ℕ
sp = 0

abbrev pub pc : ℕ
pc = 1

-- A displacement of a load or a store is added to a base register. `set` puts in a constant. `call` and
-- `link` have the address behind them and the one that they go to.
pub data Instr : Type 0 where
  push pop : ℕ → ℕ → Instr
  store_at load_at compare_at : ℕ → ℕ → ℕ → ℕ → Instr
  store_pair load_pair : ℕ → ℕ → ℕ → ℕ → ℕ → Instr
  move compare : ℕ → ℕ → Instr
  add_to sub_from : ℕ → ℕ → Instr
  unless_equal : Instr → Instr
  set : ℕ → ℕ → Instr
  call : ℕ → ℕ → ℕ → Instr
  link : ℕ → ℕ → ℕ → Instr

abbrev pub put_reg : ℕ → ℕ → Cpu → Cpu
put_reg r v s = record s { regs = assign r v s.regs }

abbrev pub put_mem : ℕ → ℕ → ℕ → Cpu → Cpu
put_mem w a v s = record s { mem = store w a v s.mem }

unfoldable pub step : Instr → Cpu → Cpu
step (push w r) s = put_mem w (s.regs sp - w) (s.regs r) (put_reg sp (s.regs sp - w) s)
step (pop w r) s = put_reg r (load w (s.regs sp) s.mem) (put_reg sp (s.regs sp + w) s)
step (store_at w r base off) s = put_mem w (s.regs base + off) (s.regs r) s
step (load_at w r base off) s = put_reg r (load w (s.regs base + off) s.mem) s
step (compare_at w r base off) s = record s {
  equal = load w (s.regs base + off) s.mem == s.regs r % 256 ^ w;
}
step (store_pair w r q base off) s =
    put_mem w (s.regs base + off + w) (s.regs q) (put_mem w (s.regs base + off) (s.regs r) s)
step (load_pair w r q base off) s =
    put_reg q (load w (s.regs base + off + w) s.mem)
      (put_reg r (load w (s.regs base + off) s.mem) s)
step (move r q) s = put_reg r (s.regs q) s
step (compare r q) s = record s { equal = s.regs r == s.regs q }
step (add_to r n) s = put_reg r (s.regs r + n) s
step (sub_from r n) s = put_reg r (s.regs r - n) s
step (unless_equal i) s = let done = step i s in if s.equal then s else done
step (set r v) s = put_reg r v s
step (call w back f) s =
    put_reg pc f (put_mem w (s.regs sp - w) back (put_reg sp (s.regs sp - w) s))
step (link r back f) s = put_reg pc f (put_reg r back s)

-- Code without jumps, up to the instruction that leaves it.
unfoldable pub run : List Instr → Cpu → Cpu
unfolding step
run [] s = s
run (i ∷ code) s = run code (step i s)
