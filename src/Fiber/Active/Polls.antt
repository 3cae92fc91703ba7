-- ===== src/Fiber/Active/Polls.antt =====
-- The polls of a thread beside what they should tell: crates/krio-fiber/src/fiber.rs.
use krio.Base.{ℕ, ◌≡◌, List}
use krio.Fiber.Active.{Status, Thread, Calls, run}
use krio.Fiber.Active.Told.{Event, next_after, id_by, cancelled_by, deadline_by, told}

module _ (before : ℕ → Status) where
  -- The thread has come from these events.
  pub record Agrees (past : List Event) (t : Thread) : Type 0 where
    pub next : t.next_id ≡ next_after past
    pub ids : (at : ℕ) → (t.fibers at).id ≡ id_by before past at
    pub flags : (at : ℕ) → (t.fibers at).cancelled ≡ cancelled_by before past at
    pub deadlines : (at : ℕ) → (t.fibers at).deadline_ms ≡ deadline_by before past at

  -- The polls, the thread behind them, and the fiber that runs then.
  abbrev pub Follows : Calls → List Event → Thread → Type 0
  Follows calls past t =
      ((run calls t).0 ≡ (told before t.active past calls).0)
      × ((run calls t).1.active ≡ t.active)
      × Agrees (told before t.active past calls).1 (run calls t).1
