-- ===== src/Fiber/Switch/Rv64.antt =====
-- The switch of RISC-V, RV64GC with the LP64D convention.
use native.Mathlib.Nat.{add-zero}
use krio.Base.{◌+◌, ◌≡◌, refl, ◌∙◌, arith, List, [], ◌∷◌}
use krio.Fiber.Machine.{Cpu, Instr, run, sp, pc, store_at, load_at, move, add_to, sub_from}
use krio.Fiber.Machine.Layout.{Saved, saved}
use krio.Fiber.Switch.Port.{
  Port, Sound, Switches, saved_mem, framed_lem, behind_slot, Taken, Taken-Switches,
}
use krio.Fiber.Switch.Registers.{s_reg, fs_reg, ra, fcsr, t0, a0, a1}

abbrev save : List Instr
save =
    sub_from sp 208
    ∷ store_at 8 ra sp 0
    ∷ store_at 8 (s_reg 0) sp 8
    ∷ store_at 8 (s_reg 1) sp 16
    ∷ store_at 8 (s_reg 2) sp 24
    ∷ store_at 8 (s_reg 3) sp 32
    ∷ store_at 8 (s_reg 4) sp 40
    ∷ store_at 8 (s_reg 5) sp 48
    ∷ store_at 8 (s_reg 6) sp 56
    ∷ store_at 8 (s_reg 7) sp 64
    ∷ store_at 8 (s_reg 8) sp 72
    ∷ store_at 8 (s_reg 9) sp 80
    ∷ store_at 8 (s_reg 10) sp 88
    ∷ store_at 8 (s_reg 11) sp 96
    ∷ store_at 8 (fs_reg 0) sp 104
    ∷ store_at 8 (fs_reg 1) sp 112
    ∷ store_at 8 (fs_reg 2) sp 120
    ∷ store_at 8 (fs_reg 3) sp 128
    ∷ store_at 8 (fs_reg 4) sp 136
    ∷ store_at 8 (fs_reg 5) sp 144
    ∷ store_at 8 (fs_reg 6) sp 152
    ∷ store_at 8 (fs_reg 7) sp 160
    ∷ store_at 8 (fs_reg 8) sp 168
    ∷ store_at 8 (fs_reg 9) sp 176
    ∷ store_at 8 (fs_reg 10) sp 184
    ∷ store_at 8 (fs_reg 11) sp 192
    ∷ move t0 fcsr
    ∷ store_at 4 t0 sp 200
    ∷ store_at 8 sp a0 0
    ∷ []

abbrev restore : List Instr
restore =
    load_at 8 sp a1 0
    ∷ load_at 8 ra sp 0
    ∷ load_at 8 (s_reg 0) sp 8
    ∷ load_at 8 (s_reg 1) sp 16
    ∷ load_at 8 (s_reg 2) sp 24
    ∷ load_at 8 (s_reg 3) sp 32
    ∷ load_at 8 (s_reg 4) sp 40
    ∷ load_at 8 (s_reg 5) sp 48
    ∷ load_at 8 (s_reg 6) sp 56
    ∷ load_at 8 (s_reg 7) sp 64
    ∷ load_at 8 (s_reg 8) sp 72
    ∷ load_at 8 (s_reg 9) sp 80
    ∷ load_at 8 (s_reg 10) sp 88
    ∷ load_at 8 (s_reg 11) sp 96
    ∷ load_at 8 (fs_reg 0) sp 104
    ∷ load_at 8 (fs_reg 1) sp 112
    ∷ load_at 8 (fs_reg 2) sp 120
    ∷ load_at 8 (fs_reg 3) sp 128
    ∷ load_at 8 (fs_reg 4) sp 136
    ∷ load_at 8 (fs_reg 5) sp 144
    ∷ load_at 8 (fs_reg 6) sp 152
    ∷ load_at 8 (fs_reg 7) sp 160
    ∷ load_at 8 (fs_reg 8) sp 168
    ∷ load_at 8 (fs_reg 9) sp 176
    ∷ load_at 8 (fs_reg 10) sp 184
    ∷ load_at 8 (fs_reg 11) sp 192
    ∷ load_at 4 t0 sp 200
    ∷ move fcsr t0
    ∷ add_to sp 208
    ∷ move pc ra
    ∷ []

-- The saved frame, in the order of the stores.
abbrev layout : List Saved
layout =
    saved 8 ra 0
    ∷ saved 8 (s_reg 0) 8
    ∷ saved 8 (s_reg 1) 16
    ∷ saved 8 (s_reg 2) 24
    ∷ saved 8 (s_reg 3) 32
    ∷ saved 8 (s_reg 4) 40
    ∷ saved 8 (s_reg 5) 48
    ∷ saved 8 (s_reg 6) 56
    ∷ saved 8 (s_reg 7) 64
    ∷ saved 8 (s_reg 8) 72
    ∷ saved 8 (s_reg 9) 80
    ∷ saved 8 (s_reg 10) 88
    ∷ saved 8 (s_reg 11) 96
    ∷ saved 8 (fs_reg 0) 104
    ∷ saved 8 (fs_reg 1) 112
    ∷ saved 8 (fs_reg 2) 120
    ∷ saved 8 (fs_reg 3) 128
    ∷ saved 8 (fs_reg 4) 136
    ∷ saved 8 (fs_reg 5) 144
    ∷ saved 8 (fs_reg 6) 152
    ∷ saved 8 (fs_reg 7) 160
    ∷ saved 8 (fs_reg 8) 168
    ∷ saved 8 (fs_reg 9) 176
    ∷ saved 8 (fs_reg 10) 184
    ∷ saved 8 (fs_reg 11) 192
    ∷ saved 4 fcsr 200
    ∷ []

abbrev pub rv64 : Port
rv64 = record {
  word = 8;
  save = save;
  restore = restore;
  layout = layout;
  frame_bytes = 208;
  fp_offset = 8;
  ret_offset = 0;
  above = 0;
  save_to = λ s. s.regs a0 + 0;
  load_from = λ s. s.regs a1 + 0;
  frame_pointer = s_reg 0;
  return_to = λ s. s.regs ra;
}

rv64_memory : (s : Cpu) → (run save s).mem ≡ saved_mem rv64 s
unfolding run
rv64_memory s = refl

rv64_Taken : (u : Cpu) → Taken rv64 (u.regs a1 + 0) u.mem (run restore u)
unfolding run
rv64_Taken u = record {
  memory = refl;
  stack = simp add-zero;
  resumes = refl;
  restored = omega arith;
}

pub rv64-Switches : (s : Cpu) → Switches rv64 s
unfolding run
rv64-Switches s =
    Taken-Switches rv64 s (run restore (run save s)) (run save s).mem refl (rv64_memory s)
      (rv64_Taken (run save s))

pub rv64-Sound : Sound rv64
rv64-Sound = record {
  apart = refl;
  inside = refl;
  ret_inside = omega arith;
  switches = λ s ready. rv64-Switches s;
  returns =
      λ s ready. behind_slot rv64 s ready 8 0 (omega arith) ∙ (framed_lem rv64 s ready refl).0;
  chains =
      λ s ready. behind_slot rv64 s ready 8 8 (omega arith) ∙ (framed_lem rv64 s ready refl).1.0;
}
