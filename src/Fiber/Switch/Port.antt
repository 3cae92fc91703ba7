-- ===== src/Fiber/Switch/Port.antt =====
-- What a port of the switch consists of, and what it has to do.
use native.Mathlib.Nat.{mod-eq_of_lt}
use mathlib.Core.Path.{subst₂}
use krio.Base.{ℕ, ◌+◌, ◌-◌, ◌^◌, ◌≤◌, ◌<◌, ◌≡◌, ◌⊎◌, inl, inr, arith, sym, ap, ◌∙◌, true, List, All}
use krio.Fiber.Machine.{Mem, store, load, Cpu, Instr, run, sp, pc}
use krio.Fiber.Machine.Bytes.{Apart, Agree, store_other, load-store_other, load-Agree}
use krio.Fiber.Machine.Layout.{Saved, put, disjoint, within, load-put, put_other, All-map₂}

-- `save` goes up to the load of the new stack pointer, `restore` on from there. `above` is what the
-- switch pops behind its frame: the return address, where the call has pushed one. `save_to` and
-- `load_from` are the arguments, and `return_to` is where a call goes on.
pub record Port : Type 0 where
  pub word : ℕ
  pub save : List Instr
  pub restore : List Instr
  pub layout : List Saved
  pub frame_bytes : ℕ
  pub fp_offset : ℕ
  pub ret_offset : ℕ
  pub above : ℕ
  pub save_to : Cpu → ℕ
  pub load_from : Cpu → ℕ
  pub frame_pointer : ℕ
  pub return_to : Cpu → ℕ

outside_range : (b k a n x : ℕ) → Apart b k a n → a ≤ x → x < a + n → (x < b) ⊎ (b + k ≤ x)
outside_range b k a n x (inl h) low high = inr (omega arith)
outside_range b k a n x (inr h) low high = inl (omega arith)

pub rejoin : (n k : ℕ) → k ≤ n → n - k + k ≡ n
rejoin n k h = omega arith

module _ (p : Port) where
  -- Where the frame of a switch called in `s` lies.
  abbrev pub frame_at : Cpu → ℕ
  frame_at s = s.regs sp - p.frame_bytes

  -- The registers that ride the frame have values that fit their slots.
  abbrev pub Fits : Cpu → Type 0
  Fits s = All (λ e. s.regs e.reg < 256 ^ e.width) p.layout

  -- There is room for the frame, and the slot for the stack pointer is not in it.
  pub record Ready (s : Cpu) : Type 0 where
    pub fits : Fits s
    pub room : p.frame_bytes ≤ s.regs sp
    pub address : s.regs sp < 256 ^ p.word
    pub slot : Apart (p.save_to s) p.word (s.regs sp - p.frame_bytes) (p.frame_bytes + p.above)

  -- The memory with the frame of `s` in it.
  abbrev pub framed : Cpu → Mem
  framed s = put p.layout (frame_at s) s.regs s.mem

  abbrev pub saved_mem : Cpu → Mem
  saved_mem s = store p.word (p.save_to s) (frame_at s) (framed s)

  abbrev pub switched : Cpu → Cpu
  switched s = run p.restore (run p.save s)

  -- The machine has taken everything from the frame that the word at `a` gives, and has the
  -- memory `m`.
  pub record Taken (a : ℕ) (m : Mem) (c : Cpu) : Type 0 where
    pub memory : c.mem ≡ m
    pub stack : c.regs sp ≡ load p.word a m + p.frame_bytes + p.above
    pub resumes : c.regs pc ≡ load p.word (load p.word a m + p.ret_offset) m
    pub restored : All (λ e. c.regs e.reg ≡ load e.width (load p.word a m + e.off) m) p.layout

  -- A switch leaves the frame of `s` behind, and takes everything from the next frame.
  abbrev pub Switches : Cpu → Type 0
  Switches s = Taken (p.load_from s) (saved_mem s) (switched s)

  module _ (s : Cpu) (ready : Ready s) (apart : disjoint p.layout ≡ true) where
    -- The frame holds the registers.
    pub framed_lem : All (λ e. load e.width (frame_at s + e.off) (framed s) ≡ s.regs e.reg) p.layout
    framed_lem =
        All-map₂ p.layout (λ e at fits. at ∙ mod-eq_of_lt fits)
          (load-put (frame_at s) s.regs p.layout s.mem apart) ready.fits

  -- The slot of the stack pointer is not in the frame, nor in what the call has pushed.
  pub behind_slot :
      (s : Cpu)
      → Ready s
      → (w o : ℕ) → o + w ≤ p.frame_bytes + p.above
      → load w (frame_at s + o) (saved_mem s) ≡ load w (frame_at s + o) (framed s)
  behind_slot s ready w o h =
      load-store_other w (frame_at s + o) p.word (p.save_to s) (frame_at s) (framed s)
        (elim ready.slot [ inl low ↦ inr (omega arith) | inr high ↦ inl (omega arith) ])

  -- A switch changes its frame and its slot.
  pub saved_other :
      (s : Cpu) (a n : ℕ)
      → within p.frame_bytes p.layout ≡ true
      → Apart (frame_at s) p.frame_bytes a n
      → Apart (p.save_to s) p.word a n
      → Agree a n (saved_mem s) s.mem
  saved_other s a n inside frame slot x low high =
      store_other p.word (p.save_to s) (frame_at s) (framed s) x
        (outside_range _ _ a n x slot low high)
      ∙ put_other (frame_at s) s.regs p.frame_bytes p.layout s.mem x inside
          (outside_range _ _ a n x frame low high)

  -- Above the frame stands what stood there.
  pub above_frame :
      (s : Cpu)
      → Ready s
      → within p.frame_bytes p.layout ≡ true
      → p.above ≡ p.word
      → load p.word (frame_at s + p.frame_bytes) (saved_mem s) ≡ load p.word (s.regs sp) s.mem
  above_frame s ready inside pushed =
      behind_slot s ready p.word p.frame_bytes (omega arith)
      ∙ load-Agree p.word (frame_at s + p.frame_bytes) (framed s) s.mem (λ x low high.
        put_other (frame_at s) s.regs p.frame_bytes p.layout s.mem x inside (inr low))
      ∙ ap (λ a. load p.word a s.mem) (rejoin (s.regs sp) p.frame_bytes ready.room)

  -- A switch from its two parts: what is saved, and what other code takes from the same frame.
  pub Taken-Switches :
      (s c : Cpu) (m : Mem)
      → switched s ≡ c
      → m ≡ saved_mem s
      → Taken (p.load_from s) m c
      → Switches s
  Taken-Switches s c m same saved taken =
      subst₂ (λ c m. Taken (p.load_from s) m c) (sym same) saved taken

-- A port is sound if its layout is one, it switches, and its offsets are right.
pub record Sound (p : Port) : Type 0 where
  pub apart : disjoint p.layout ≡ true
  pub inside : within p.frame_bytes p.layout ≡ true
  pub ret_inside : p.ret_offset + p.word ≤ p.frame_bytes + p.above
  pub switches : (s : Cpu) → Ready p s → Switches p s
  pub returns :
      (s : Cpu)
      → Ready p s
      → load p.word (frame_at p s + p.ret_offset) (saved_mem p s) ≡ p.return_to s
  pub chains :
      (s : Cpu)
      → Ready p s
      → load p.word (frame_at p s + p.fp_offset) (saved_mem p s) ≡ s.regs p.frame_pointer
