-- ===== src/Fiber/Switch/X32.antt =====
-- The switch of 32-bit x86 by the System V convention: its arguments are on the stack.
use native.Mathlib.Nat.{add-zero, add_assoc}
use krio.Base.{◌+◌, ◌*◌, ◌-◌, ◌^◌, ◌<◌, ◌≡◌, refl, ◌∙◌, arith, List, [], ◌∷◌, ◌++◌}
use krio.Fiber.Machine.{
  Cpu, Instr, run, sp, pc, push, pop, store_at, load_at, compare_at, add_to, sub_from, unless_equal,
  load,
}
use krio.Fiber.Machine.Layout.{Saved, saved}
use krio.Fiber.Machine.Steps.{below, first_below, run_unless, put_reg_self, equal_word}
use krio.Fiber.Switch.Port.{
  Port, Sound, above_frame, Ready, saved_mem, frame_at, switched, Taken, Switches, behind_slot,
  framed_lem, Taken-Switches,
}
use krio.Fiber.Switch.Registers.{rax, rcx, rdx, rbx, rbp, rsi, rdi, mxcsr, x87_cw}

abbrev save : List Instr
save =
    load_at 4 rax sp 4
    ∷ load_at 4 rdx sp 8
    ∷ push 4 rbp
    ∷ push 4 rbx
    ∷ push 4 rsi
    ∷ push 4 rdi
    ∷ sub_from sp 8
    ∷ store_at 4 mxcsr sp 0
    ∷ store_at 2 x87_cw sp 4
    ∷ store_at 4 sp rax 0
    ∷ load_at 4 rcx sp 0
    ∷ load_at 2 rax sp 4
    ∷ []

-- Up to the test of each control word, and from label 2 on.
abbrev test_mxcsr : List Instr
test_mxcsr = load_at 4 sp rdx 0 ∷ compare_at 4 rcx sp 0 ∷ []

abbrev test_cw : List Instr
test_cw = compare_at 2 rax sp 4 ∷ []

abbrev pops : List Instr
pops = add_to sp 8 ∷ pop 4 rdi ∷ pop 4 rsi ∷ pop 4 rbx ∷ pop 4 rbp ∷ pop 4 pc ∷ []

abbrev restore : List Instr
restore =
    test_mxcsr
    ++ (unless_equal (load_at 4 mxcsr sp 0) ∷ test_cw
        ++ (unless_equal (load_at 2 x87_cw sp 4) ∷ pops))

-- The saved frame, in the order of the stores.
abbrev layout : List Saved
layout =
    saved 4 rbp 20
    ∷ saved 4 rbx 16
    ∷ saved 4 rsi 12
    ∷ saved 4 rdi 8
    ∷ saved 4 mxcsr 0
    ∷ saved 2 x87_cw 4
    ∷ []

abbrev pub x32 : Port
x32 = record {
  word = 4;
  save = save;
  restore = restore;
  layout = layout;
  frame_bytes = 4 * 4 + 8;
  fp_offset = 20;
  ret_offset = 24;
  above = 4;
  save_to = λ s. load 4 (s.regs sp + 4) s.mem + 0;
  load_from = λ s. load 4 (s.regs sp + 8) s.mem + 0;
  frame_pointer = rbp;
  return_to = λ s. load 4 (s.regs sp) s.mem;
}

-- The code with the control words loaded whatever they are.
abbrev reload : List Instr
reload = test_mxcsr ++ (load_at 4 mxcsr sp 0 ∷ test_cw ++ (load_at 2 x87_cw sp 4 ∷ pops))

reload_lem :
    (u : Cpu)
    → u.regs rcx ≡ u.regs mxcsr
    → u.regs rax ≡ u.regs x87_cw
    → u.regs mxcsr < 256 ^ 4
    → u.regs x87_cw < 256 ^ 2
    → run restore u ≡ run reload u
unfolding run
reload_lem u m c fm fc =
    run_unless (load_at 4 mxcsr sp 0) (test_cw ++ (unless_equal (load_at 2 x87_cw sp 4) ∷ pops))
      (run test_mxcsr u)
      (λ e. put_reg_self mxcsr _ (run test_mxcsr u) (equal_word 4 _ (u.regs rcx) _ e m fm))
    ∙ run_unless (load_at 2 x87_cw sp 4) pops at_cw
        (λ e. put_reg_self x87_cw _ at_cw (equal_word 2 _ (u.regs rax) _ e c fc))
  where
    at_cw : Cpu
    at_cw = run test_cw (run (load_at 4 mxcsr sp 0 ∷ []) (run test_mxcsr u))

-- What is taken does not depend on what the control words were.
reload_Taken : (u : Cpu) → Taken x32 (u.regs rdx + 0) u.mem (run reload u)
unfolding run
reload_Taken u = record {
  memory = refl;
  stack = simp add_assoc;
  resumes = simp add_assoc;
  restored = simp add_assoc (omega arith);
}

module _ (s : Cpu) (ready : Ready x32 s) where
  saved_lem :
      ((run save s).mem ≡ saved_mem x32 s)
      × ((run save s).regs rcx ≡ load 4 (frame_at x32 s + 0) (saved_mem x32 s))
      × ((run save s).regs rax ≡ load 2 (frame_at x32 s + 4) (saved_mem x32 s))
  unfolding run
  saved_lem =
      rw
        (
          first_below (s.regs sp) 24 4 ready.room (omega arith),
          below (s.regs sp - 24) 20 4 (omega arith),
          below (s.regs sp - 24) 16 4 (omega arith),
          below (s.regs sp - 24) 12 4 (omega arith),
          below (s.regs sp - 24) 8 8 (omega arith),
        )
        (simp add-zero (refl, refl, refl))

  -- The saved control words are those of the registers.
  reload_saved : switched x32 s ≡ run reload (run save s)
  unfolding run
  reload_saved =
      let held = framed_lem x32 s ready refl in
      reload_lem (run save s)
        (saved_lem.1 ∙ behind_slot x32 s ready 4 0 (omega arith) ∙ held.1.1.1.1.0)
        (saved_lem.2 ∙ behind_slot x32 s ready 2 4 (omega arith) ∙ held.1.1.1.1.1.0)
        ready.fits.1.1.1.1.0 ready.fits.1.1.1.1.1.0

  pub x32-Switches : Switches x32 s
  unfolding run
  x32-Switches =
      Taken-Switches x32 s (run reload (run save s)) (run save s).mem reload_saved saved_lem.0
        (reload_Taken (run save s))

pub x32-Sound : Sound x32
x32-Sound = record {
  apart = refl;
  inside = refl;
  ret_inside = omega arith;
  switches = λ s ready. x32-Switches s ready;
  returns = λ s ready. above_frame x32 s ready refl refl;
  chains = λ s ready. behind_slot x32 s ready 4 20 (omega arith) ∙ (framed_lem x32 s ready refl).0;
}
