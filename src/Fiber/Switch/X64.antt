-- ===== src/Fiber/Switch/X64.antt =====
-- The switch of x86_64 by the System V convention.
use krio.Base.{◌+◌, ◌*◌, ◌-◌, ◌^◌, ◌<◌, ◌≡◌, refl, ◌∙◌, arith, List, [], ◌∷◌}
use krio.Fiber.Machine.{
  Cpu, Instr, run, sp, pc, push, pop, store_at, load_at, compare_at, move, add_to, sub_from,
  unless_equal, load, step,
}
use native.Mathlib.Nat.{add-zero, add_assoc}
use krio.Fiber.Machine.Steps.{below, first_below, run_unless, put_reg_self, equal_word}
use krio.Fiber.Machine.Layout.{Saved, saved}
use krio.Fiber.Switch.Registers.{rax, rcx, rbx, rbp, rsi, rdi, r, mxcsr, x87_cw}
use krio.Fiber.Switch.Port.{
  Port, Sound, above_frame, behind_slot, Ready, saved_mem, framed, frame_at, switched, Taken,
  Switches, framed_lem, Taken-Switches,
}

abbrev save : List Instr
save =
    push 8 rbp
    ∷ push 8 rbx
    ∷ push 8 (r 12)
    ∷ push 8 (r 13)
    ∷ push 8 (r 14)
    ∷ push 8 (r 15)
    ∷ sub_from sp 16
    ∷ store_at 4 mxcsr sp 0
    ∷ store_at 2 x87_cw sp 4
    ∷ load_at 4 rax sp 0
    ∷ load_at 2 rcx sp 4
    ∷ store_at 8 sp rdi 0
    ∷ []

-- From label 2 on.
abbrev pops : List Instr
pops =
    add_to sp 16
    ∷ pop 8 (r 15)
    ∷ pop 8 (r 14)
    ∷ pop 8 (r 13)
    ∷ pop 8 (r 12)
    ∷ pop 8 rbx
    ∷ pop 8 rbp
    ∷ pop 8 rcx
    ∷ move pc rcx
    ∷ []

abbrev restore : List Instr
restore =
    load_at 8 sp rsi 0
    ∷ compare_at 4 rax sp 0
    ∷ unless_equal (load_at 4 mxcsr sp 0)
    ∷ compare_at 2 rcx sp 4
    ∷ unless_equal (load_at 2 x87_cw sp 4)
    ∷ pops

-- The saved frame, in the order of the stores.
abbrev layout : List Saved
layout =
    saved 8 rbp 56
    ∷ saved 8 rbx 48
    ∷ saved 8 (r 12) 40
    ∷ saved 8 (r 13) 32
    ∷ saved 8 (r 14) 24
    ∷ saved 8 (r 15) 16
    ∷ saved 4 mxcsr 0
    ∷ saved 2 x87_cw 4
    ∷ []

abbrev pub x64 : Port
x64 = record {
  word = 8;
  save = save;
  restore = restore;
  layout = layout;
  frame_bytes = 6 * 8 + 16;
  fp_offset = 56;
  ret_offset = 64;
  above = 8;
  save_to = λ s. s.regs rdi + 0;
  load_from = λ s. s.regs rsi + 0;
  frame_pointer = rbp;
  return_to = λ s. load 8 (s.regs sp) s.mem;
}

-- The code with the control words loaded whatever they are.
abbrev reload : List Instr
reload =
    load_at 8 sp rsi 0
    ∷ compare_at 4 rax sp 0
    ∷ load_at 4 mxcsr sp 0
    ∷ compare_at 2 rcx sp 4
    ∷ load_at 2 x87_cw sp 4
    ∷ pops

reload_lem :
    (u : Cpu)
    → u.regs rax ≡ u.regs mxcsr
    → u.regs rcx ≡ u.regs x87_cw
    → u.regs mxcsr < 256 ^ 4
    → u.regs x87_cw < 256 ^ 2
    → run restore u ≡ run reload u
unfolding run
reload_lem u m c fm fc =
    run_unless (load_at 4 mxcsr sp 0)
      (compare_at 2 rcx sp 4 ∷ unless_equal (load_at 2 x87_cw sp 4) ∷ pops) at_mxcsr
      (λ e. put_reg_self mxcsr _ at_mxcsr (equal_word 4 _ (u.regs rax) _ e m fm))
    ∙ run_unless (load_at 2 x87_cw sp 4) pops at_cw
        (λ e. put_reg_self x87_cw _ at_cw (equal_word 2 _ (u.regs rcx) _ e c fc))
  where
    at_mxcsr : Cpu
    at_mxcsr = step (compare_at 4 rax sp 0) (step (load_at 8 sp rsi 0) u)

    at_cw : Cpu
    at_cw = step (compare_at 2 rcx sp 4) (step (load_at 4 mxcsr sp 0) at_mxcsr)

-- What is taken does not depend on what the control words were.
reload_Taken : (u : Cpu) → Taken x64 (u.regs rsi + 0) u.mem (run reload u)
unfolding run
reload_Taken u = record {
  memory = refl;
  stack = simp add_assoc;
  resumes = simp add_assoc;
  restored = simp add_assoc (omega arith);
}

module _ (s : Cpu) (ready : Ready x64 s) where
  saved_lem :
      ((run save s).mem ≡ saved_mem x64 s)
      × ((run save s).regs rax ≡ load 4 (frame_at x64 s + 0) (framed x64 s))
      × ((run save s).regs rcx ≡ load 2 (frame_at x64 s + 4) (framed x64 s))
  unfolding run
  saved_lem =
      rw
        (
          first_below (s.regs sp) 64 8 ready.room (omega arith),
          below (s.regs sp - 64) 56 8 (omega arith),
          below (s.regs sp - 64) 48 8 (omega arith),
          below (s.regs sp - 64) 40 8 (omega arith),
          below (s.regs sp - 64) 32 8 (omega arith),
          below (s.regs sp - 64) 24 8 (omega arith),
          below (s.regs sp - 64) 16 16 (omega arith),
        )
        (simp add-zero (refl, refl, refl))

  -- The saved control words are those of the registers.
  reload_saved : switched x64 s ≡ run reload (run save s)
  unfolding run
  reload_saved =
      let held = framed_lem x64 s ready refl in
      reload_lem (run save s) (saved_lem.1 ∙ held.1.1.1.1.1.1.0)
        (saved_lem.2 ∙ held.1.1.1.1.1.1.1.0) ready.fits.1.1.1.1.1.1.0 ready.fits.1.1.1.1.1.1.1.0

  pub x64-Switches : Switches x64 s
  unfolding run
  x64-Switches =
      Taken-Switches x64 s (run reload (run save s)) (run save s).mem reload_saved saved_lem.0
        (reload_Taken (run save s))

pub x64-Sound : Sound x64
x64-Sound = record {
  apart = refl;
  inside = refl;
  ret_inside = omega arith;
  switches = λ s ready. x64-Switches s ready;
  returns = λ s ready. above_frame x64 s ready refl refl;
  chains = λ s ready. behind_slot x64 s ready 8 56 (omega arith) ∙ (framed_lem x64 s ready refl).0;
}
