-- ===== src/Fiber/Active/Examples.antt =====
-- Two fibers, of which the second runs in the first and cancels it.
use krio.Base.{ℕ}
use krio.Fiber.Active.{Status, Calls, end, new, cancel, set_deadline_ms, resume, poll, made}

abbrev nobody : ℕ → Status
nobody at = made 0

abbrev inner_calls : Calls
inner_calls = poll 5 (cancel 10 (poll 8 end))

abbrev calls : Calls
calls = new 10 (
    new 11
      (set_deadline_ms 11 7 (resume 10 (poll 5 (resume 11 inner_calls (poll 9 end))) (poll 9 end))))
