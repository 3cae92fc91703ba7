-- ===== src/Fiber/Active/Told.antt =====
-- What a poll should tell, from the calls before it and the fiber in whose code it stands.
use krio.Base.{
  ℕ, ◌+◌, ◌%◌, ◌^◌, Bool, false, ◌||◌, Option, none, some, List, [], ◌∷◌, ◌++◌, ◌==◌, if◌then◌else◌,
}
use krio.Fiber.Active.{
  Status, Poll, deadline_passed, Calls, end, new, cancel, set_deadline_ms, clear_deadline, resume,
  poll,
}

-- A call that is remembered of a fiber at an address.
pub data Event : Type 0 where
  made_at cancelled_at : ℕ → Event
  deadline_at : ℕ → Option ℕ → Event

-- What the events before, the last one first, tell of the fiber at an address: it has the number
-- that was next when it was made, it is cancelled if it was cancelled since, and its deadline is the
-- last one since. `before` is what was at the addresses at first.
unfoldable pub next_after : List Event → ℕ
next_after [] = 1
next_after (made_at i ∷ past) = (next_after past + 1) % 2 ^ 64
next_after (cancelled_at i ∷ past) = next_after past
next_after (deadline_at i d ∷ past) = next_after past

module _ (before : ℕ → Status) where
  unfoldable pub id_by : List Event → ℕ → ℕ
  id_by [] at = (before at).id
  id_by (made_at i ∷ past) at = if at == i then next_after past else id_by past at
  id_by (cancelled_at i ∷ past) at = id_by past at
  id_by (deadline_at i d ∷ past) at = id_by past at

  unfoldable pub cancelled_by : List Event → ℕ → Bool
  cancelled_by [] at = (before at).cancelled
  cancelled_by (made_at i ∷ past) at = if at == i then false else cancelled_by past at
  cancelled_by (cancelled_at i ∷ past) at = at == i || cancelled_by past at
  cancelled_by (deadline_at i d ∷ past) at = cancelled_by past at

  unfoldable pub deadline_by : List Event → ℕ → Option ℕ
  deadline_by [] at = (before at).deadline_ms
  deadline_by (made_at i ∷ past) at = if at == i then none else deadline_by past at
  deadline_by (cancelled_at i ∷ past) at = deadline_by past at
  deadline_by (deadline_at i d ∷ past) at = if at == i then d else deadline_by past at

  -- A poll by the code of `owner`.
  abbrev pub poll_by : Option ℕ → List Event → ℕ → Poll
  poll_by none past now = record {
    current_fiber_id = none;
    is_cancelled = false;
    is_deadline_passed = false;
    should_yield_early = false;
  }
  poll_by (some at) past now = record {
    current_fiber_id = some (id_by past at);
    is_cancelled = cancelled_by past at;
    is_deadline_passed = deadline_passed (deadline_by past at) now;
    should_yield_early = cancelled_by past at || deadline_passed (deadline_by past at) now;
  }

  -- The polls that stand in the code of `owner` and of the fibers resumed in it, and the events.
  unfoldable pub told : Option ℕ → List Event → Calls → List Poll × List Event
  told owner past end = ([], past)
  told owner past (new at rest) = told owner (made_at at ∷ past) rest
  told owner past (cancel at rest) = told owner (cancelled_at at ∷ past) rest
  told owner past (set_deadline_ms at ms rest) = told owner (deadline_at at (some ms) ∷ past) rest
  told owner past (clear_deadline at rest) = told owner (deadline_at at none ∷ past) rest
  told owner past (resume at inner rest) =
      let (polls, past') = told (some at) past inner in
      let (more, past'') = told owner past' rest in (polls ++ more, past'')
  told owner past (poll now rest) =
      let (more, past') = told owner past rest in (poll_by owner past now ∷ more, past')
