-- ===== src/Fiber/Machine/Steps.antt =====
-- Addresses of pushes, and a load that is left out because it would change nothing.
use mathlib.Core.Path.{fun_ext}
use native.Mathlib.Nat.{mod-eq_of_lt}
use krio.Base.{
  ℕ, ◌+◌, ◌-◌, ◌%◌, ◌^◌, ◌≤◌, ◌<◌, ◌≡◌, refl, sym, ap, ◌∙◌, arith, ◌==◌, ==_iff, if◌then◌else◌,
  Bool, Bool-cases, inl, inr, true, false, List, ◌∷◌,
}
use krio.Fiber.Machine.{Cpu, Instr, unless_equal, step, run, assign, put_reg}

pub below : (n a b : ℕ) → b ≤ a → n + a - b ≡ n + (a - b)
below n a b h = omega arith

pub first_below : (n a b : ℕ) → a ≤ n → b ≤ a → n - b ≡ n - a + (a - b)
first_below n a b h k = omega arith

load_if : (b : Bool) (s t : Cpu) → (b ≡ true → t ≡ s) → (if b then s else t) ≡ t
load_if true s t same = sym (same refl)
load_if false s t same = refl

-- What an equal flag skips may run, if it changes nothing then.
pub run_unless :
    (i : Instr) (code : List Instr) (s : Cpu)
    → (s.equal ≡ true → step i s ≡ s)
    → run (unless_equal i ∷ code) s ≡ run (i ∷ code) s
unfolding run
run_unless i code s idle = ap (run code) (load_if s.equal s (step i s) idle)

-- A register is not changed by the value that it has.
pub put_reg_self : (r v : ℕ) (s : Cpu) → v ≡ s.regs r → put_reg r v s ≡ s
put_reg_self r v s h = λ i. record s { regs = assign_self i }
  where
    assign_at : (x : ℕ) → assign r v s.regs x ≡ s.regs x
    assign_at x = elim (Bool-cases (x == r)) [
      | inl here ↦ rw here (h ∙ ap s.regs (sym ((==_iff x r).0 here)))
      | inr other ↦ rw other
    ]

    assign_self : assign r v s.regs ≡ s.regs
    assign_self = fun_ext assign_at

-- An equal flag of `compare_at` says that the memory holds what the register stands for.
pub equal_word :
    (w read held control : ℕ)
    → (read == held % 256 ^ w) ≡ true
    → held ≡ control
    → control < 256 ^ w
    → read ≡ control
equal_word w read held control e h fits =
    (==_iff read (held % 256 ^ w)).0 e ∙ ap (λ v. v % 256 ^ w) h ∙ mod-eq_of_lt fits
