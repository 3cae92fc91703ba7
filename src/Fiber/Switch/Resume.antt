-- ===== src/Fiber/Switch/Resume.antt =====
-- A context that has switched away and is switched back to.
use native.Mathlib.Nat.{mod-eq_of_lt}
use krio.Base.{◌+◌, ◌≤◌, ◌≡◌, ap, ◌∙◌, arith, All}
use krio.Fiber.Machine.{load, Cpu, sp, pc}
use krio.Fiber.Machine.Bytes.{Agree, load-Agree, load-store_self}
use krio.Fiber.Machine.Layout.{Saved, All-within, All-map₂}
use krio.Fiber.Switch.Port.{
  Port, Sound, Ready, frame_at, framed, saved_mem, switched, framed_lem, behind_slot, rejoin,
}
use krio.Fiber.Switch.Waiting.{Spares, Waiting, found, read_frame}
use krio.Fiber.Switch.Targets.{Target, port, port-Sound}

module _ (p : Port) where
  -- `s` has switched away, whatever ran since has left its frame, what its call pushed and its slot
  -- alone, and `u` is about to switch to what the slot holds.
  pub record Suspended (s u : Cpu) : Type 0 where
    pub frame_kept : Agree (frame_at p s) (p.frame_bytes + p.above) u.mem (switched p s).mem
    pub slot_kept : Agree (p.save_to s) p.word u.mem (switched p s).mem
    pub names_slot : p.load_from u ≡ p.save_to s
    pub spares_frame : Spares p u (frame_at p s) (p.frame_bytes + p.above)
    pub spares_slot : Spares p u (p.save_to s) p.word

  -- The call of the switch in `s` has returned.
  pub record Returned (s c : Cpu) : Type 0 where
    pub stack : c.regs sp ≡ s.regs sp + p.above
    pub resumes : c.regs pc ≡ p.return_to s
    pub registers : All (λ e. c.regs e.reg ≡ s.regs e.reg) p.layout

  module _ (sound : Sound p) (s u : Cpu) (ready : Ready p s) (susp : Suspended s u) where
    slot_lem : load p.word (p.save_to s) (switched p s).mem ≡ frame_at p s
    slot_lem =
        ap (load p.word (p.save_to s)) (sound.switches s ready).memory
        ∙ load-store_self p.word (p.save_to s) (frame_at p s) (framed p s)
        ∙ mod-eq_of_lt (omega (arith, ready.address))

    waits : Waiting p (frame_at p s) (saved_mem p s) u
    waits = record {
      named =
          ap (λ a. load p.word a u.mem) susp.names_slot
          ∙ load-Agree p.word (p.save_to s) u.mem (switched p s).mem susp.slot_kept
          ∙ slot_lem;
      kept =
          λ x low high. susp.frame_kept x low high ∙ ap (λ k. k x) (sound.switches s ready).memory;
      spares_slot = rw (susp.names_slot) susp.spares_slot;
      spares_frame = susp.spares_frame;
    }

    read_register :
        (e : Saved)
        → e.off + e.width ≤ p.frame_bytes
        → load e.width (frame_at p s + e.off) (framed p s) ≡ s.regs e.reg
        → load e.width (load p.word (p.load_from u) (saved_mem p u) + e.off) (saved_mem p u)
          ≡ s.regs e.reg
    read_register e h held =
        read_frame p sound waits e.width e.off (omega arith)
        ∙ behind_slot p s ready e.width e.off (omega arith)
        ∙ held

    pub switched-Returned : Ready p u → Returned s (switched p u)
    switched-Returned ready' =
        let taken = sound.switches u ready' in
        record {
          stack =
              taken.stack
              ∙ ap (λ a. a + p.frame_bytes + p.above) (found p sound waits)
              ∙ ap (λ a. a + p.above) (rejoin (s.regs sp) p.frame_bytes ready.room);
          resumes =
              taken.resumes
              ∙ read_frame p sound waits p.word p.ret_offset sound.ret_inside
              ∙ sound.returns s ready;
          registers =
              All-map₂ p.layout (λ e took held. took ∙ held) taken.restored
                (All-map₂ p.layout read_register (All-within p.frame_bytes p.layout sound.inside)
                  (framed_lem p s ready sound.apart));
        }

-- On every target, a context that has switched away and is switched back to goes on behind its
-- call, with every register that rides the frame and its stack pointer as they were; what runs in
-- between has left its frame, its return address and the slot of its stack pointer alone, as does
-- the frame of the one that switches back.
pub switch-Returned :
    (t : Target) (s u : Cpu)
    → Ready (port t) s
    → Ready (port t) u
    → Suspended (port t) s u
    → Returned (port t) s (switched (port t) u)
switch-Returned t s u ready ready' susp =
    switched-Returned (port t) (port-Sound t) s u ready susp ready'

offsets :
    (p : Port)
    → Sound p
    → (s : Cpu) → Ready p s
    → (load p.word (p.save_to s) (switched p s).mem ≡ frame_at p s)
      × (load p.word (frame_at p s + p.fp_offset) (switched p s).mem ≡ s.regs p.frame_pointer)
      × (load p.word (frame_at p s + p.ret_offset) (switched p s).mem ≡ p.return_to s)
offsets p sound s ready =
    let memory = (sound.switches s ready).memory in
    (
      ap (load p.word (p.save_to s)) memory
          ∙ load-store_self p.word (p.save_to s) (frame_at p s) (framed p s)
          ∙ mod-eq_of_lt (omega (arith, ready.address)),
      ap (load p.word (frame_at p s + p.fp_offset)) memory ∙ sound.chains s ready,
      ap (load p.word (frame_at p s + p.ret_offset)) memory ∙ sound.returns s ready,
    )

-- While a context of any target is suspended, the word at SAVED_FP_OFFSET of the frame that its
-- slot names is its frame pointer, and the one at SAVED_RET_OFFSET is where it goes on.
pub switch-offsets :
    (t : Target) (s : Cpu)
    → Ready (port t) s
    → (load (port t).word ((port t).save_to s) (switched (port t) s).mem ≡ frame_at (port t) s)
      × (load (port t).word (frame_at (port t) s + (port t).fp_offset) (switched (port t) s).mem
          ≡ s.regs (port t).frame_pointer)
      × (load (port t).word (frame_at (port t) s + (port t).ret_offset) (switched (port t) s).mem
          ≡ (port t).return_to s)
switch-offsets t s ready = offsets (port t) (port-Sound t) s ready
