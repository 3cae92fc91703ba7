-- ===== src/Fiber/Frame.antt =====
-- crates/krio-fiber/src/frame.rs, with the trampolines of fiber.rs: the first frame of a fresh stack,
-- and what it leads to.
pub mod First
pub mod Starts
mod Examples
use krio.Base.{ℕ, zero, suc, ◌+◌, ◌-◌, ◌*◌, ◌%◌, List, [], ◌∷◌}
use krio.Fiber.Machine.{
  Mem, store, load, clear, Cpu, Instr, sp, pc, push, move, sub_from, set, call, link,
}
use krio.Fiber.Switch.Registers.{rcx, rbx, rdi, r, s_reg, ra, a0, x}
use krio.Fiber.Switch.Targets.{
  Target, x86_64, x86_64_windows, x86, riscv64, aarch64, aarch64_windows,
}

abbrev pub default_mxcsr : ℕ
default_mxcsr = 0x1F80

abbrev pub default_x87_cw : ℕ
default_x87_cw = 0x037F

-- `for i in from..from + n { sp.add(i * 8).write(0) }`.
abbrev pub zero_words : ℕ → ℕ → ℕ → Mem → Mem
zero_words zero i at m = m
zero_words (suc n) i at m = zero_words n (suc i) at (store 8 (at + i * 8) 0 m)

-- The first frame below `top`, and its address, for each target.
abbrev pub frame_x64 : ℕ → ℕ → ℕ → Mem → Mem × ℕ
frame_x64 top state trampoline m =
    let sp = top - (64 + 8) in
    let m = clear 64 sp m in
    let m = store 4 (sp + 0) default_mxcsr m in
    let m = store 2 (sp + 4) default_x87_cw m in
    let m = store 8 (sp + 40) state m in (store 8 (sp + 64) trampoline m, sp)

abbrev pub frame_ms64 : ℕ → ℕ → ℕ → ℕ → Mem → Mem × ℕ
frame_ms64 top limit state trampoline m =
    let sp = top - (256 + 8) in
    let m = clear 256 sp m in
    let m = store 4 (sp + 0) default_mxcsr m in
    let m = store 2 (sp + 4) default_x87_cw m in
    let m = store 8 (sp + 200) state m in
    let m = store 8 (sp + 240) limit m in
    let m = store 8 (sp + 248) top m in (store 8 (sp + 256) trampoline m, sp)

abbrev pub frame_x32 : ℕ → ℕ → ℕ → Mem → Mem × ℕ
frame_x32 top state trampoline m =
    let sp = top - (24 + 8) in
    let m = clear 24 sp m in
    let m = store 4 (sp + 0) default_mxcsr m in
    let m = store 2 (sp + 4) default_x87_cw m in
    let m = store 4 (sp + 16) state m in (store 4 (sp + 24) trampoline m, sp)

abbrev pub frame_rv64 : ℕ → ℕ → ℕ → Mem → Mem × ℕ
frame_rv64 top state trampoline m =
    let sp = top - 208 in
    let m = clear 208 sp m in
    let m = store 8 (sp + 0) trampoline m in (store 8 (sp + 16) state m, sp)

abbrev pub frame_arm64 : ℕ → ℕ → ℕ → Mem → Mem × ℕ
frame_arm64 top state trampoline m =
    let sp = top - 192 in
    let m = store 8 (sp + 0) state m in
    let m = zero_words 10 1 sp m in
    let m = store 8 (sp + 88) trampoline m in (zero_words 12 12 sp m, sp)

abbrev pub frame_arm64_windows : ℕ → ℕ → ℕ → ℕ → Mem → Mem × ℕ
frame_arm64_windows top limit state trampoline m =
    let sp = top - 192 in
    let m = clear 192 sp m in
    let m = store 8 (sp + 0) state m in
    let m = store 8 (sp + 88) trampoline m in
    let m = store 8 (sp + 168) limit m in (store 8 (sp + 176) top m, sp)

-- Only Windows has a use for the stack's limit.
unfoldable pub initial_frame : Target → ℕ → ℕ → ℕ → ℕ → Mem → Mem × ℕ
initial_frame x86_64 top limit state trampoline m = frame_x64 top state trampoline m
initial_frame x86_64_windows top limit state trampoline m = frame_ms64 top limit state trampoline m
initial_frame x86 top limit state trampoline m = frame_x32 top state trampoline m
initial_frame riscv64 top limit state trampoline m = frame_rv64 top state trampoline m
initial_frame aarch64 top limit state trampoline m = frame_arm64 top state trampoline m
initial_frame aarch64_windows top limit state trampoline m =
    frame_arm64_windows top limit state trampoline m

-- `top & !0xF`.
abbrev pub align_down : ℕ → ℕ
align_down a = a - a % 16

-- For the stack at `base` with `len` bytes.
unfoldable pub prepare_initial_stack : Target → ℕ → ℕ → ℕ → ℕ → Mem → Mem × ℕ
unfolding initial_frame
prepare_initial_stack t base len state trampoline m =
    initial_frame t (align_down (base + len)) base state trampoline m

-- Up to the call of `fiber_run`, which does not return; `back` is the address behind it.
abbrev pub trampoline_code : Target → ℕ → ℕ → List Instr
trampoline_code x86_64 back fiber_run = move rdi (r 12) ∷ call 8 back fiber_run ∷ []
trampoline_code x86_64_windows back fiber_run =
    move rcx (r 12) ∷ sub_from sp 32 ∷ call 8 back fiber_run ∷ []
trampoline_code x86 back fiber_run = sub_from sp 8 ∷ push 4 rbx ∷ call 4 back fiber_run ∷ []
trampoline_code riscv64 back fiber_run = move a0 (s_reg 1) ∷ link ra back fiber_run ∷ []
trampoline_code aarch64 back fiber_run = move (x 0) (x 19) ∷ link (x 30) back fiber_run ∷ []
trampoline_code aarch64_windows back fiber_run =
    move (x 0) (x 19) ∷ set (x 30) 0 ∷ set pc fiber_run ∷ []

-- Where each calling convention has the first argument when a function is entered.
abbrev pub argument : Target → Cpu → ℕ
argument x86_64 c = c.regs rdi
argument x86_64_windows c = c.regs rcx
argument x86 c = load 4 (c.regs sp + 4) c.mem
argument riscv64 c = c.regs a0
argument aarch64 c = c.regs (x 0)
argument aarch64_windows c = c.regs (x 0)
