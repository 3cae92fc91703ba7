-- ===== src/Fiber/Switch/Ms64.antt =====
-- The switch of x86_64 on Windows.
use native.Mathlib.Nat.{add-zero, add_assoc}
use krio.Base.{◌+◌, ◌*◌, ◌-◌, ◌^◌, ◌<◌, ◌≡◌, refl, ◌∙◌, arith, List, [], ◌∷◌, ◌++◌}
use krio.Fiber.Machine.{
  Cpu, Instr, run, sp, pc, push, pop, store_at, load_at, compare_at, move, add_to, sub_from,
  unless_equal, load,
}
use krio.Fiber.Machine.Layout.{Saved, saved}
use krio.Fiber.Machine.Steps.{below, first_below, run_unless, put_reg_self, equal_word}
use krio.Fiber.Switch.Port.{
  Port, Sound, above_frame, Ready, saved_mem, framed, frame_at, switched, Taken, Switches,
  behind_slot, framed_lem, Taken-Switches,
}
use krio.Fiber.Switch.Registers.{
  rax, rcx, rdx, rbx, rbp, rsi, rdi, r, xmm, mxcsr, x87_cw, teb_base, teb_limit,
}

abbrev save : List Instr
save =
    move rax teb_base
    ∷ push 8 rax
    ∷ move rax teb_limit
    ∷ push 8 rax
    ∷ push 8 rbp
    ∷ push 8 rbx
    ∷ push 8 rdi
    ∷ push 8 rsi
    ∷ push 8 (r 12)
    ∷ push 8 (r 13)
    ∷ push 8 (r 14)
    ∷ push 8 (r 15)
    ∷ sub_from sp 176
    ∷ store_at 4 mxcsr sp 0
    ∷ store_at 2 x87_cw sp 4
    ∷ store_at 16 (xmm 6) sp 16
    ∷ store_at 16 (xmm 7) sp 32
    ∷ store_at 16 (xmm 8) sp 48
    ∷ store_at 16 (xmm 9) sp 64
    ∷ store_at 16 (xmm 10) sp 80
    ∷ store_at 16 (xmm 11) sp 96
    ∷ store_at 16 (xmm 12) sp 112
    ∷ store_at 16 (xmm 13) sp 128
    ∷ store_at 16 (xmm 14) sp 144
    ∷ store_at 16 (xmm 15) sp 160
    ∷ load_at 4 (r 10) sp 0
    ∷ load_at 2 (r 11) sp 4
    ∷ store_at 8 sp rcx 0
    ∷ []

-- Up to the test of each control word, and from label 2 on.
abbrev test_mxcsr : List Instr
test_mxcsr = load_at 8 sp rdx 0 ∷ compare_at 4 (r 10) sp 0 ∷ []

abbrev test_cw : List Instr
test_cw = compare_at 2 (r 11) sp 4 ∷ []

abbrev pops : List Instr
pops =
    load_at 16 (xmm 6) sp 16
    ∷ load_at 16 (xmm 7) sp 32
    ∷ load_at 16 (xmm 8) sp 48
    ∷ load_at 16 (xmm 9) sp 64
    ∷ load_at 16 (xmm 10) sp 80
    ∷ load_at 16 (xmm 11) sp 96
    ∷ load_at 16 (xmm 12) sp 112
    ∷ load_at 16 (xmm 13) sp 128
    ∷ load_at 16 (xmm 14) sp 144
    ∷ load_at 16 (xmm 15) sp 160
    ∷ add_to sp 176
    ∷ pop 8 (r 15)
    ∷ pop 8 (r 14)
    ∷ pop 8 (r 13)
    ∷ pop 8 (r 12)
    ∷ pop 8 rsi
    ∷ pop 8 rdi
    ∷ pop 8 rbx
    ∷ pop 8 rbp
    ∷ pop 8 rax
    ∷ move teb_limit rax
    ∷ pop 8 rax
    ∷ move teb_base rax
    ∷ pop 8 pc
    ∷ []

abbrev restore : List Instr
restore =
    test_mxcsr
    ++ (unless_equal (load_at 4 mxcsr sp 0) ∷ test_cw
        ++ (unless_equal (load_at 2 x87_cw sp 4) ∷ pops))

-- The saved frame, in the order of the stores.
abbrev layout : List Saved
layout =
    saved 8 teb_base 248
    ∷ saved 8 teb_limit 240
    ∷ saved 8 rbp 232
    ∷ saved 8 rbx 224
    ∷ saved 8 rdi 216
    ∷ saved 8 rsi 208
    ∷ saved 8 (r 12) 200
    ∷ saved 8 (r 13) 192
    ∷ saved 8 (r 14) 184
    ∷ saved 8 (r 15) 176
    ∷ saved 4 mxcsr 0
    ∷ saved 2 x87_cw 4
    ∷ saved 16 (xmm 6) 16
    ∷ saved 16 (xmm 7) 32
    ∷ saved 16 (xmm 8) 48
    ∷ saved 16 (xmm 9) 64
    ∷ saved 16 (xmm 10) 80
    ∷ saved 16 (xmm 11) 96
    ∷ saved 16 (xmm 12) 112
    ∷ saved 16 (xmm 13) 128
    ∷ saved 16 (xmm 14) 144
    ∷ saved 16 (xmm 15) 160
    ∷ []

abbrev pub ms64 : Port
ms64 = record {
  word = 8;
  save = save;
  restore = restore;
  layout = layout;
  frame_bytes = 8 * 8 + 10 * 16 + 16 + 16;
  fp_offset = 232;
  ret_offset = 256;
  above = 8;
  save_to = λ s. s.regs rcx + 0;
  load_from = λ s. s.regs rdx + 0;
  frame_pointer = rbp;
  return_to = λ s. load 8 (s.regs sp) s.mem;
}

-- The code with the control words loaded whatever they are.
abbrev reload : List Instr
reload = test_mxcsr ++ (load_at 4 mxcsr sp 0 ∷ test_cw ++ (load_at 2 x87_cw sp 4 ∷ pops))

reload_lem :
    (u : Cpu)
    → u.regs (r 10) ≡ u.regs mxcsr
    → u.regs (r 11) ≡ u.regs x87_cw
    → u.regs mxcsr < 256 ^ 4
    → u.regs x87_cw < 256 ^ 2
    → run restore u ≡ run reload u
unfolding run
reload_lem u m c fm fc =
    run_unless (load_at 4 mxcsr sp 0) (test_cw ++ (unless_equal (load_at 2 x87_cw sp 4) ∷ pops))
      (run test_mxcsr u)
      (λ e. put_reg_self mxcsr _ (run test_mxcsr u) (equal_word 4 _ (u.regs (r 10)) _ e m fm))
    ∙ run_unless (load_at 2 x87_cw sp 4) pops at_cw
        (λ e. put_reg_self x87_cw _ at_cw (equal_word 2 _ (u.regs (r 11)) _ e c fc))
  where
    at_cw : Cpu
    at_cw = run test_cw (run (load_at 4 mxcsr sp 0 ∷ []) (run test_mxcsr u))

-- What is taken does not depend on what the control words were.
reload_Taken : (u : Cpu) → Taken ms64 (u.regs rdx + 0) u.mem (run reload u)
unfolding run
reload_Taken u = record {
  memory = refl;
  stack = simp add_assoc;
  resumes = simp add_assoc;
  restored = simp add_assoc (omega arith);
}

module _ (s : Cpu) (ready : Ready ms64 s) where
  saved_lem :
      ((run save s).mem ≡ saved_mem ms64 s)
      × ((run save s).regs (r 10) ≡ load 4 (frame_at ms64 s + 0) (framed ms64 s))
      × ((run save s).regs (r 11) ≡ load 2 (frame_at ms64 s + 4) (framed ms64 s))
  unfolding run
  saved_lem =
      rw
        (
          first_below (s.regs sp) 256 8 ready.room (omega arith),
          below (s.regs sp - 256) 248 8 (omega arith),
          below (s.regs sp - 256) 240 8 (omega arith),
          below (s.regs sp - 256) 232 8 (omega arith),
          below (s.regs sp - 256) 224 8 (omega arith),
          below (s.regs sp - 256) 216 8 (omega arith),
          below (s.regs sp - 256) 208 8 (omega arith),
          below (s.regs sp - 256) 200 8 (omega arith),
          below (s.regs sp - 256) 192 8 (omega arith),
          below (s.regs sp - 256) 184 8 (omega arith),
          below (s.regs sp - 256) 176 176 (omega arith),
        )
        (simp add-zero (refl, refl, refl))

  -- The saved control words are those of the registers.
  reload_saved : switched ms64 s ≡ run reload (run save s)
  unfolding run
  reload_saved =
      let held = framed_lem ms64 s ready refl in
      reload_lem (run save s) (saved_lem.1 ∙ held.1.1.1.1.1.1.1.1.1.1.0)
        (saved_lem.2 ∙ held.1.1.1.1.1.1.1.1.1.1.1.0) ready.fits.1.1.1.1.1.1.1.1.1.1.0
        ready.fits.1.1.1.1.1.1.1.1.1.1.1.0

  pub ms64-Switches : Switches ms64 s
  unfolding run
  ms64-Switches =
      Taken-Switches ms64 s (run reload (run save s)) (run save s).mem reload_saved saved_lem.0
        (reload_Taken (run save s))

pub ms64-Sound : Sound ms64
ms64-Sound = record {
  apart = refl;
  inside = refl;
  ret_inside = omega arith;
  switches = λ s ready. ms64-Switches s ready;
  returns = λ s ready. above_frame ms64 s ready refl refl;
  chains = λ s ready.
      behind_slot ms64 s ready 8 232 (omega arith) ∙ (framed_lem ms64 s ready refl).1.1.0;
}
