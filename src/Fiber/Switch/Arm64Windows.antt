-- ===== src/Fiber/Switch/Arm64Windows.antt =====
-- The switch of AArch64 on Windows: the frame of the other AArch64 targets, with the thread's stack
-- bounds in its padding.
use native.Mathlib.Nat.{add-zero, add_assoc}
use krio.Base.{◌+◌, ◌≡◌, refl, ◌∙◌, arith, List, [], ◌∷◌}
use krio.Fiber.Machine.{
  Cpu, Instr, run, sp, pc, store_at, load_at, store_pair, load_pair, move, add_to, sub_from,
}
use krio.Fiber.Machine.Layout.{Saved, saved}
use krio.Fiber.Switch.Port.{
  Port, Sound, Switches, saved_mem, framed_lem, behind_slot, Taken, Taken-Switches,
}
use krio.Fiber.Switch.Registers.{x, d, fpcr, teb_base, teb_limit}

abbrev save : List Instr
save =
    sub_from sp 192
    ∷ store_pair 8 (x 19) (x 20) sp 0
    ∷ store_pair 8 (x 21) (x 22) sp 16
    ∷ store_pair 8 (x 23) (x 24) sp 32
    ∷ store_pair 8 (x 25) (x 26) sp 48
    ∷ store_pair 8 (x 27) (x 28) sp 64
    ∷ store_pair 8 (x 29) (x 30) sp 80
    ∷ store_pair 8 (d 8) (d 9) sp 96
    ∷ store_pair 8 (d 10) (d 11) sp 112
    ∷ store_pair 8 (d 12) (d 13) sp 128
    ∷ store_pair 8 (d 14) (d 15) sp 144
    ∷ move (x 9) fpcr
    ∷ store_at 8 (x 9) sp 160
    ∷ move (x 9) teb_limit
    ∷ move (x 10) teb_base
    ∷ store_pair 8 (x 9) (x 10) sp 168
    ∷ move (x 9) sp
    ∷ store_at 8 (x 9) (x 0) 0
    ∷ []

abbrev restore : List Instr
restore =
    load_at 8 (x 9) (x 1) 0
    ∷ move sp (x 9)
    ∷ load_pair 8 (x 19) (x 20) sp 0
    ∷ load_pair 8 (x 21) (x 22) sp 16
    ∷ load_pair 8 (x 23) (x 24) sp 32
    ∷ load_pair 8 (x 25) (x 26) sp 48
    ∷ load_pair 8 (x 27) (x 28) sp 64
    ∷ load_pair 8 (x 29) (x 30) sp 80
    ∷ load_pair 8 (d 8) (d 9) sp 96
    ∷ load_pair 8 (d 10) (d 11) sp 112
    ∷ load_pair 8 (d 12) (d 13) sp 128
    ∷ load_pair 8 (d 14) (d 15) sp 144
    ∷ load_at 8 (x 9) sp 160
    ∷ move fpcr (x 9)
    ∷ load_pair 8 (x 9) (x 10) sp 168
    ∷ move teb_limit (x 9)
    ∷ move teb_base (x 10)
    ∷ add_to sp 192
    ∷ move pc (x 30)
    ∷ []

-- The saved frame, in the order of the stores.
abbrev layout : List Saved
layout =
    saved 8 (x 19) 0
    ∷ saved 8 (x 20) 8
    ∷ saved 8 (x 21) 16
    ∷ saved 8 (x 22) 24
    ∷ saved 8 (x 23) 32
    ∷ saved 8 (x 24) 40
    ∷ saved 8 (x 25) 48
    ∷ saved 8 (x 26) 56
    ∷ saved 8 (x 27) 64
    ∷ saved 8 (x 28) 72
    ∷ saved 8 (x 29) 80
    ∷ saved 8 (x 30) 88
    ∷ saved 8 (d 8) 96
    ∷ saved 8 (d 9) 104
    ∷ saved 8 (d 10) 112
    ∷ saved 8 (d 11) 120
    ∷ saved 8 (d 12) 128
    ∷ saved 8 (d 13) 136
    ∷ saved 8 (d 14) 144
    ∷ saved 8 (d 15) 152
    ∷ saved 8 fpcr 160
    ∷ saved 8 teb_limit 168
    ∷ saved 8 teb_base 176
    ∷ []

abbrev pub arm64_windows : Port
arm64_windows = record {
  word = 8;
  save = save;
  restore = restore;
  layout = layout;
  frame_bytes = 192;
  fp_offset = 80;
  ret_offset = 88;
  above = 0;
  save_to = λ s. s.regs (x 0) + 0;
  load_from = λ s. s.regs (x 1) + 0;
  frame_pointer = x 29;
  return_to = λ s. s.regs (x 30);
}

arm64_windows_memory : (s : Cpu) → (run save s).mem ≡ saved_mem arm64_windows s
unfolding run
arm64_windows_memory s = simp add_assoc

arm64_windows_Taken : (u : Cpu) → Taken arm64_windows (u.regs (x 1) + 0) u.mem (run restore u)
unfolding run
arm64_windows_Taken u = record {
  memory = refl;
  stack = simp add-zero;
  resumes = simp add_assoc;
  restored = simp add_assoc (omega arith);
}

pub arm64_windows-Switches : (s : Cpu) → Switches arm64_windows s
unfolding run
arm64_windows-Switches s =
    Taken-Switches arm64_windows s (run restore (run save s)) (run save s).mem refl
      (arm64_windows_memory s) (arm64_windows_Taken (run save s))

pub arm64_windows-Sound : Sound arm64_windows
arm64_windows-Sound = record {
  apart = refl;
  inside = refl;
  ret_inside = omega arith;
  switches = λ s ready. arm64_windows-Switches s;
  returns = λ s ready.
      behind_slot arm64_windows s ready 8 88 (omega arith)
      ∙ (framed_lem arm64_windows s ready refl).1.1.1.1.1.1.1.1.1.1.1.0;
  chains = λ s ready.
      behind_slot arm64_windows s ready 8 80 (omega arith)
      ∙ (framed_lem arm64_windows s ready refl).1.1.1.1.1.1.1.1.1.1.0;
}
