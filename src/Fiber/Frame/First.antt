-- ===== src/Fiber/Frame/First.antt =====
-- What the first frame of a fresh stack holds.
use native.Mathlib.Nat.{mod-eq_of_lt}
use krio.Base.{
  ℕ, ◌+◌, ◌-◌, ◌^◌, ◌<◌, ◌≡◌, ap, ◌∙◌, refl, true, arith, ◌==◌, if◌then◌else◌, List, [], ◌∷◌, All,
}
use krio.Fiber.Machine.{Mem, load, clear}
use krio.Fiber.Machine.Bytes.{load-clear}
use krio.Fiber.Machine.Layout.{
  Saved, saved, put, within, agrees, fetch, load-put-fetch, loads-put-fetch, All-within, All-map₂,
}
use krio.Fiber.Switch.Registers.{r, rbx, mxcsr, x87_cw, teb_base, teb_limit, x, s_reg, ra}
use krio.Fiber.Switch.Targets.{
  Target, x86_64, x86_64_windows, x86, riscv64, aarch64, aarch64_windows, port,
}
use krio.Fiber.Frame.{default_mxcsr, default_x87_cw, initial_frame}

abbrev same_value : ℕ → ℕ
same_value v = v

module _ (top limit state trampoline : ℕ) where
  -- What a register has when a fresh context is entered.
  abbrev pub first : Target → ℕ → ℕ
  first x86_64 q =
      if q == mxcsr
      then default_mxcsr
      else if q == x87_cw
      then default_x87_cw
      else if q == r 12
      then state
      else 0
  first x86_64_windows q =
      if q == mxcsr
      then default_mxcsr
      else if q == x87_cw
      then default_x87_cw
      else if q == r 12
      then state
      else if q == teb_limit
      then limit
      else if q == teb_base
      then top
      else 0
  first x86 q =
      if q == mxcsr
      then default_mxcsr
      else if q == x87_cw
      then default_x87_cw
      else if q == rbx
      then state
      else 0
  first riscv64 q = if q == ra then trampoline else if q == s_reg 1 then state else 0
  first aarch64 q = if q == x 19 then state else if q == x 30 then trampoline else 0
  first aarch64_windows q =
      if q == x 19
      then state
      else if q == x 30
      then trampoline
      else if q == teb_limit
      then limit
      else if q == teb_base
      then top
      else 0

  -- The slots that `initial_frame` writes, with the numbers that it puts in.
  abbrev contents : Target → List Saved
  contents x86_64 =
      saved 4 default_mxcsr 0
      ∷ saved 2 default_x87_cw 4
      ∷ saved 8 state 40
      ∷ saved 8 trampoline 64
      ∷ []
  contents x86_64_windows =
      saved 4 default_mxcsr 0
      ∷ saved 2 default_x87_cw 4
      ∷ saved 8 state 200
      ∷ saved 8 limit 240
      ∷ saved 8 top 248
      ∷ saved 8 trampoline 256
      ∷ []
  contents x86 =
      saved 4 default_mxcsr 0
      ∷ saved 2 default_x87_cw 4
      ∷ saved 4 state 16
      ∷ saved 4 trampoline 24
      ∷ []
  contents riscv64 = saved 8 trampoline 0 ∷ saved 8 state 16 ∷ []
  contents aarch64 =
      saved 8 state 0
      ∷ saved 8 0 8
      ∷ saved 8 0 16
      ∷ saved 8 0 24
      ∷ saved 8 0 32
      ∷ saved 8 0 40
      ∷ saved 8 0 48
      ∷ saved 8 0 56
      ∷ saved 8 0 64
      ∷ saved 8 0 72
      ∷ saved 8 0 80
      ∷ saved 8 trampoline 88
      ∷ saved 8 0 96
      ∷ saved 8 0 104
      ∷ saved 8 0 112
      ∷ saved 8 0 120
      ∷ saved 8 0 128
      ∷ saved 8 0 136
      ∷ saved 8 0 144
      ∷ saved 8 0 152
      ∷ saved 8 0 160
      ∷ saved 8 0 168
      ∷ saved 8 0 176
      ∷ saved 8 0 184
      ∷ []
  contents aarch64_windows =
      saved 8 state 0 ∷ saved 8 trampoline 88 ∷ saved 8 limit 168 ∷ saved 8 top 176 ∷ []

  -- A frame at `q` has what a fresh context is to start with.
  pub record IsFirst (t : Target) (q : ℕ) (k : Mem) : Type 0 where
    pub registers : All (λ e. load e.width (q + e.off) k ≡ first t e.reg) (port t).layout
    pub returns : load (port t).word (q + (port t).ret_offset) k ≡ trampoline

  covered :
      (w l : List Saved) (q : ℕ) (v : ℕ → ℕ) (m : Mem)
      → agrees w l ≡ true
      → All (λ e. fetch w same_value e (load e.width (q + e.off) m) ≡ v e.reg) l
      → All (λ e. load e.width (q + e.off) (put w q same_value m) ≡ v e.reg) l
  covered w l q v m h values =
      All-map₂ l (λ e at value. at ∙ value) (loads-put-fetch q same_value w l m h) values

  cleared :
      (w l : List Saved) (n q : ℕ) (v : ℕ → ℕ) (m : Mem)
      → agrees w l ≡ true
      → within n l ≡ true
      → All (λ e. fetch w same_value e 0 ≡ v e.reg) l
      → All (λ e. load e.width (q + e.off) (put w q same_value (clear n q m)) ≡ v e.reg) l
  cleared w l n q v m h inside values = covered w l q v (clear n q m) h (
      All-map₂ l
        (λ e fits value.
          ap (fetch w same_value e)
            (load-clear e.width (q + e.off) n q m (omega arith) (omega arith))
          ∙ value)
        (All-within n l inside) values)

  pub record Fitting (t : Target) : Type 0 where
    pub top_fits : top < 256 ^ (port t).word
    pub limit_fits : limit < 256 ^ (port t).word
    pub state_fits : state < 256 ^ (port t).word
    pub trampoline_fits : trampoline < 256 ^ (port t).word

  -- On every target the first frame holds these numbers.
  pub initial_frame-IsFirst :
      (t : Target) (m : Mem)
      → Fitting t
      → IsFirst t
          (initial_frame t top limit state trampoline m).1
          (initial_frame t top limit state trampoline m).0
  unfolding initial_frame
  initial_frame-IsFirst x86_64 m h = record {
    registers =
        cleared (contents x86_64) (port x86_64).layout 64 (top - 72) (first x86_64) m refl refl
          (omega arith);
    returns =
        load-put-fetch (top - 72) same_value (contents x86_64) (saved 8 0 64)
          (clear 64 (top - 72) m) refl
        ∙ mod-eq_of_lt h.trampoline_fits;
  }
  initial_frame-IsFirst x86_64_windows m h = record {
    registers =
        cleared (contents x86_64_windows) (port x86_64_windows).layout 256 (top - 264)
          (first x86_64_windows) m refl refl (omega arith);
    returns =
        load-put-fetch (top - 264) same_value (contents x86_64_windows) (saved 8 0 256)
          (clear 256 (top - 264) m) refl
        ∙ mod-eq_of_lt h.trampoline_fits;
  }
  initial_frame-IsFirst x86 m h = record {
    registers =
        cleared (contents x86) (port x86).layout 24 (top - 32) (first x86) m refl refl
          (omega arith);
    returns =
        load-put-fetch (top - 32) same_value (contents x86) (saved 4 0 24) (clear 24 (top - 32) m)
          refl
        ∙ mod-eq_of_lt h.trampoline_fits;
  }
  initial_frame-IsFirst riscv64 m h = record {
    registers =
        cleared (contents riscv64) (port riscv64).layout 208 (top - 208) (first riscv64) m refl refl
          (omega arith);
    returns =
        load-put-fetch (top - 208) same_value (contents riscv64) (saved 8 0 0)
          (clear 208 (top - 208) m) refl
        ∙ mod-eq_of_lt h.trampoline_fits;
  }
  initial_frame-IsFirst aarch64 m h = record {
    registers =
        covered (contents aarch64) (port aarch64).layout (top - 192) (first aarch64) m refl
          (omega arith);
    returns =
        load-put-fetch (top - 192) same_value (contents aarch64) (saved 8 0 88) m refl
        ∙ mod-eq_of_lt h.trampoline_fits;
  }
  initial_frame-IsFirst aarch64_windows m h = record {
    registers =
        cleared (contents aarch64_windows) (port aarch64_windows).layout 192 (top - 192)
          (first aarch64_windows) m refl refl (omega arith);
    returns =
        load-put-fetch (top - 192) same_value (contents aarch64_windows) (saved 8 0 88)
          (clear 192 (top - 192) m) refl
        ∙ mod-eq_of_lt h.trampoline_fits;
  }
