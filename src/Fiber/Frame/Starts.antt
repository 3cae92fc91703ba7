-- ===== src/Fiber/Frame/Starts.antt =====
-- A fresh stack that is switched to: the trampoline runs, and calls `fiber_run`.
use native.Mathlib.Nat.{mod-eq_of_lt}
use krio.Base.{ℕ, ◌+◌, ◌-◌, ◌%◌, ◌^◌, ◌≤◌, ◌<◌, ◌≡◌, inr, refl, ap, ◌∙◌, arith, All}
use krio.Fiber.Machine.{Mem, Cpu, store, load, run, sp, pc}
use krio.Fiber.Machine.Bytes.{load-store_self, load-store_other}
use krio.Fiber.Machine.Layout.{All-map₂, All-within}
use krio.Fiber.Switch.Port.{Ready, switched}
use krio.Fiber.Switch.Waiting.{Waiting, found, read_frame}
use krio.Fiber.Switch.Registers.{rbx}
use krio.Fiber.Switch.Targets.{
  Target, x86_64, x86_64_windows, x86, riscv64, aarch64, aarch64_windows, port, port-Sound,
}
use krio.Fiber.Frame.{initial_frame, prepare_initial_stack, align_down, trampoline_code, argument}
use krio.Fiber.Frame.First.{first, Fitting, initial_frame-IsFirst}

-- Where the stack pointer stands when the trampoline is entered: i386 has popped a return address
-- that lies four bytes lower.
abbrev entry_sp : Target → ℕ → ℕ
entry_sp x86 top = top - 4
entry_sp t top = top

-- The machine has entered the context of a first frame below `top`.
pub record Entered (t : Target) (top limit state trampoline : ℕ) (c : Cpu) : Type 0 where
  pub enters : c.regs pc ≡ trampoline
  pub stack : c.regs sp ≡ entry_sp t top
  pub registers : All (λ e. c.regs e.reg ≡ first top limit state trampoline t e.reg) (port t).layout

-- The machine has entered the function at `f` with one argument, on a stack of that range.
pub record Called (t : Target) (base len state f : ℕ) (c : Cpu) : Type 0 where
  pub calls : c.regs pc ≡ f
  pub passes : argument t c ≡ state
  pub aligned : (c.regs sp + (port t).above) % 16 ≡ 0
  pub inside : (base ≤ c.regs sp) × (c.regs sp ≤ base + len)

-- The first frame of the model leads to the entry.
first_stack :
    (t : Target) (top limit state trampoline : ℕ) (m : Mem)
    → (port t).frame_bytes + 8 ≤ top
    → (initial_frame t top limit state trampoline m).1 + (port t).frame_bytes + (port t).above
      ≡ entry_sp t top
unfolding initial_frame
first_stack x86_64 top limit state trampoline m h = omega arith
first_stack x86_64_windows top limit state trampoline m h = omega arith
first_stack x86 top limit state trampoline m h = omega arith
first_stack riscv64 top limit state trampoline m h = omega arith
first_stack aarch64 top limit state trampoline m h = omega arith
first_stack aarch64_windows top limit state trampoline m h = omega arith

module _ (t : Target) (top limit state trampoline : ℕ) (m : Mem) (u : Cpu) where
  switched-Entered :
      (port t).frame_bytes + 8 ≤ top
      → Fitting top limit state trampoline t
      → Ready (port t) u
      → Waiting
          (port t)
          (initial_frame t top limit state trampoline m).1
          (initial_frame t top limit state trampoline m).0
          u
      → Entered t top limit state trampoline (switched (port t) u)
  switched-Entered room fitting ready waits =
      let sound = port-Sound t in
      let taken = sound.switches u ready in
      let held = initial_frame-IsFirst top limit state trampoline t m fitting in
      record {
        enters =
            taken.resumes
            ∙ read_frame (port t) sound waits (port t).word (port t).ret_offset sound.ret_inside
            ∙ held.returns;
        stack =
            taken.stack
            ∙ ap (λ q. q + (port t).frame_bytes + (port t).above) (found (port t) sound waits)
            ∙ first_stack t top limit state trampoline m room;
        registers =
            All-map₂ (port t).layout (λ e took kept. took ∙ kept) taken.restored
              (All-map₂ (port t).layout
                (λ e inside value.
                  read_frame (port t) sound waits e.width e.off (omega arith) ∙ value)
                (All-within (port t).frame_bytes (port t).layout sound.inside) held.registers);
      }

lift_four : (n : ℕ) → 16 ≤ n → n - 8 - 4 - 4 + 4 ≡ n - 8 - 4
lift_four n h = omega arith

-- The argument that the i386 trampoline pushes lies below the return address of its call.
pushed_argument :
    (n v back : ℕ) (m : Mem)
    → 16 ≤ n
    → v < 256 ^ 4
    → load 4 (n - 8 - 4 - 4 + 4) (store 4 (n - 8 - 4 - 4) back (store 4 (n - 8 - 4) v m)) ≡ v
pushed_argument n v back m h fits =
    load-store_other 4 (n - 8 - 4 - 4 + 4) 4 (n - 8 - 4 - 4) back (store 4 (n - 8 - 4) v m)
      (inr (omega arith))
    ∙ ap (λ a. load 4 a (store 4 (n - 8 - 4) v m)) (lift_four n h)
    ∙ load-store_self 4 (n - 8 - 4) v m
    ∙ mod-eq_of_lt fits

module _ (top limit state trampoline base len back f : ℕ) (c : Cpu) where
  trampoline-Called :
      (t : Target)
      → top ≡ align_down (base + len)
      → (port t).frame_bytes + 23 ≤ len
      → state < 256 ^ (port t).word
      → Entered t top limit state trampoline c
      → Called t base len state f (run (trampoline_code t back f) c)
  unfolding run
  trampoline-Called x86_64 high room fits entered = record {
    calls = refl;
    passes = entered.registers.1.1.0;
    aligned = omega (arith, entered.stack);
    inside = omega (arith, entered.stack);
  }
  trampoline-Called x86_64_windows high room fits entered = record {
    calls = refl;
    passes = entered.registers.1.1.1.1.1.1.0;
    aligned = omega (arith, entered.stack);
    inside = omega (arith, entered.stack);
  }
  trampoline-Called x86 high room fits entered = record {
    calls = refl;
    passes =
        pushed_argument (c.regs sp) (c.regs rbx) back c.mem (omega (arith, entered.stack))
          (rw (entered.registers.1.0) fits)
        ∙ entered.registers.1.0;
    aligned = omega (arith, entered.stack);
    inside = omega (arith, entered.stack);
  }
  trampoline-Called riscv64 high room fits entered = record {
    calls = refl;
    passes = entered.registers.1.1.0;
    aligned = omega (arith, entered.stack);
    inside = omega (arith, entered.stack);
  }
  trampoline-Called aarch64 high room fits entered = record {
    calls = refl;
    passes = entered.registers.0;
    aligned = omega (arith, entered.stack);
    inside = omega (arith, entered.stack);
  }
  trampoline-Called aarch64_windows high room fits entered = record {
    calls = refl;
    passes = entered.registers.0;
    aligned = omega (arith, entered.stack);
    inside = omega (arith, entered.stack);
  }

-- On every target, a context whose stack `prepare_initial_stack` has laid out starts when it is
-- switched to: the trampoline is entered with the first values of the registers, the control words
-- of the floating point at their defaults, and calls `fiber_run` with the state as its argument, on
-- a stack pointer within the stack and aligned as the calling convention asks. The stack has room
-- for the frame and 23 bytes, its addresses and the state fit a word, and the one who switches has
-- the frame and the slot that names it intact, and spares both.
pub prepare_initial_stack-starts :
    (t : Target) (base len state trampoline back fiber_run : ℕ) (m : Mem) (u : Cpu)
    → (port t).frame_bytes + 23 ≤ len
    → base + len < 256 ^ (port t).word
    → state < 256 ^ (port t).word
    → trampoline < 256 ^ (port t).word
    → Ready (port t) u
    → Waiting
        (port t)
        (prepare_initial_stack t base len state trampoline m).1
        (prepare_initial_stack t base len state trampoline m).0
        u
    → Entered t (align_down (base + len)) base state trampoline (switched (port t) u)
      × Called t base len state fiber_run
          (run (trampoline_code t back fiber_run) (switched (port t) u))
unfolding prepare_initial_stack
prepare_initial_stack-starts t base len state trampoline back f m u room address fits entry ready
      waits =
    let entered =
      switched-Entered t (align_down (base + len)) base state trampoline m u (omega arith)
        (record {
          top_fits = omega arith;
          limit_fits = omega arith;
          state_fits = fits;
          trampoline_fits = entry;
        })
        ready waits in
    (
      entered,
      trampoline-Called (align_down (base + len)) base state trampoline base len back f
          (switched (port t) u) t refl room fits entered,
    )
