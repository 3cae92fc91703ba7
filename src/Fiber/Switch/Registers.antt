-- ===== src/Fiber/Switch/Registers.antt =====
-- The numbers of the registers that the switches and trampolines name. `sp` and `pc` are those of
-- the machine; `eax` and the like are the low halves of their registers.
use krio.Base.{ℕ, ◌+◌}

abbrev pub rax : ℕ
rax = 2

abbrev pub rcx : ℕ
rcx = 3

abbrev pub rdx : ℕ
rdx = 4

abbrev pub rbx : ℕ
rbx = 5

abbrev pub rbp : ℕ
rbp = 6

abbrev pub rsi : ℕ
rsi = 7

abbrev pub rdi : ℕ
rdi = 8

-- `r10` to `r15`, and `xmm6` to `xmm15`.
abbrev pub r : ℕ → ℕ
r i = i

abbrev pub xmm : ℕ → ℕ
xmm i = 16 + i

abbrev pub mxcsr : ℕ
mxcsr = 32

abbrev pub x87_cw : ℕ
x87_cw = 33

-- The thread's `StackBase` and `StackLimit`, at `gs:0x08` and `gs:0x10` or behind `x18`.
abbrev pub teb_base : ℕ
teb_base = 34

abbrev pub teb_limit : ℕ
teb_limit = 35

-- AArch64: `x0` to `x30`, `d8` to `d15`.
abbrev pub x : ℕ → ℕ
x i = 40 + i

abbrev pub d : ℕ → ℕ
d i = 80 + i

abbrev pub fpcr : ℕ
fpcr = 100

-- RISC-V: `s0` to `s11`, `fs0` to `fs11`.
abbrev pub s_reg : ℕ → ℕ
s_reg i = 2 + i

abbrev pub fs_reg : ℕ → ℕ
fs_reg i = 16 + i

abbrev pub ra : ℕ
ra = 30

abbrev pub fcsr : ℕ
fcsr = 31

abbrev pub t0 : ℕ
t0 = 32

abbrev pub a0 : ℕ
a0 = 33

abbrev pub a1 : ℕ
a1 = 34
