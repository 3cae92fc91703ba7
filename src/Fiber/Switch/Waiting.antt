-- ===== src/Fiber/Switch/Waiting.antt =====
-- A switch that goes on with a frame which waits for it: what it takes is what the frame holds.
use krio.Base.{ℕ, ◌+◌, ◌≤◌, ◌≡◌, ap, ◌∙◌, arith}
use krio.Fiber.Machine.{Mem, load, Cpu}
use krio.Fiber.Machine.Bytes.{Apart, Agree, load-Agree}
use krio.Fiber.Switch.Port.{Port, Sound, frame_at, saved_mem, saved_other}

module _ (p : Port) where
  -- The frame of a switch in `u`, and the slot that it writes, have no byte of the `n` at `a`.
  pub record Spares (u : Cpu) (a n : ℕ) : Type 0 where
    pub frame : Apart (frame_at p u) p.frame_bytes a n
    pub slot : Apart (p.save_to u) p.word a n

  -- In `u` the slot of the next context names the frame at `q`, in which the memory `k` is still
  -- there; the switch spares both.
  pub record Waiting (q : ℕ) (k : Mem) (u : Cpu) : Type 0 where
    pub named : load p.word (p.load_from u) u.mem ≡ q
    pub kept : Agree q (p.frame_bytes + p.above) u.mem k
    pub spares_slot : Spares u (p.load_from u) p.word
    pub spares_frame : Spares u q (p.frame_bytes + p.above)

  module _ (sound : Sound p) {q : ℕ} {k : Mem} {u : Cpu} (waiting : Waiting q k u) where
    pub found : load p.word (p.load_from u) (saved_mem p u) ≡ q
    found =
        load-Agree p.word (p.load_from u) (saved_mem p u) u.mem (
          saved_other p u (p.load_from u) p.word sound.inside waiting.spares_slot.frame
            waiting.spares_slot.slot)
        ∙ waiting.named

    pub read_frame :
        (w o : ℕ)
        → o + w ≤ p.frame_bytes + p.above
        → load w (load p.word (p.load_from u) (saved_mem p u) + o) (saved_mem p u)
          ≡ load w (q + o) k
    read_frame w o h =
        ap (λ a. load w (a + o) (saved_mem p u)) found
        ∙ load-Agree w (q + o) (saved_mem p u) k (λ x low high.
          saved_other p u q (p.frame_bytes + p.above) sound.inside waiting.spares_frame.frame
            waiting.spares_frame.slot x (omega arith) (omega arith)
          ∙ waiting.kept x (omega arith) (omega arith))
