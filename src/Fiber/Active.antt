-- ===== src/Fiber/Active.antt =====
-- crates/krio-fiber/src/fiber.rs: which fiber of a thread is running, and what it can poll of
-- itself. What a fiber does from a resume to its switch back is a list of the calls it makes.
pub mod Told
pub mod Polls
mod Examples
use krio.Base.{
  ℕ, ◌+◌, ◌%◌, ◌^◌, Bool, true, false, ◌||◌, Option, none, some, List, [], ◌∷◌, ◌++◌, leb, ◌==◌,
  if◌then◌else◌,
}

-- `Fiber`, of what is polled.
pub record Status : Type 0 where
  pub id : ℕ
  pub cancelled : Bool
  pub deadline_ms : Option ℕ

-- The fibers by their addresses, `ACTIVE_FIBER` and `NEXT_FIBER_ID`.
pub record Thread : Type 0 where
  pub fibers : ℕ → Status
  pub active : Option ℕ
  pub next_id : ℕ

-- What the four accessors answer.
pub record Poll : Type 0 where
  pub current_fiber_id : Option ℕ
  pub is_cancelled : Bool
  pub is_deadline_passed : Bool
  pub should_yield_early : Bool

-- The calls that the host or a fiber makes: a fiber is made at an address; `resume` has the calls of
-- the fiber in it; a poll reads the clock.
pub data Calls : Type 0 where
  end : Calls
  new : (at : ℕ) → Calls → Calls
  cancel : (at : ℕ) → Calls → Calls
  set_deadline_ms : (at ms : ℕ) → Calls → Calls
  clear_deadline : (at : ℕ) → Calls → Calls
  resume : (at : ℕ) → Calls → Calls → Calls
  poll : (now : ℕ) → Calls → Calls

abbrev pub stored : ℕ → Status → (ℕ → Status) → ℕ → Status
stored at s fibers j = if j == at then s else fibers j

-- `with_stack_size`.
abbrev pub made : ℕ → Status
made id = record { id = id; cancelled = false; deadline_ms = none }

-- `Fiber::is_deadline_passed`.
abbrev pub deadline_passed : Option ℕ → ℕ → Bool
deadline_passed none now = false
deadline_passed (some d) now = leb d now

-- `current_fiber_id`, `is_cancelled`, `is_deadline_passed` and `should_yield_early`.
abbrev pub polled : Option ℕ → (ℕ → Status) → ℕ → Poll
polled none fibers now = record {
  current_fiber_id = none;
  is_cancelled = false;
  is_deadline_passed = false;
  should_yield_early = false;
}
polled (some at) fibers now =
    let s = fibers at in
    record {
      current_fiber_id = some s.id;
      is_cancelled = s.cancelled;
      is_deadline_passed = deadline_passed s.deadline_ms now;
      should_yield_early = s.cancelled || deadline_passed s.deadline_ms now;
    }

unfoldable pub run : Calls → Thread → List Poll × Thread
run end t = ([], t)
run (new at rest) t =
    run rest (record t {
      fibers = stored at (made t.next_id) t.fibers;
      next_id = (t.next_id + 1) % 2 ^ 64;
    })
run (cancel at rest) t =
    run rest (record t { fibers = stored at (record (t.fibers at) { cancelled = true }) t.fibers })
run (set_deadline_ms at ms rest) t =
    run rest
      (record t { fibers = stored at (record (t.fibers at) { deadline_ms = some ms }) t.fibers })
run (clear_deadline at rest) t =
    run rest
      (record t { fibers = stored at (record (t.fibers at) { deadline_ms = none }) t.fibers })
run (resume at inner rest) t =
    let (polls, t') = run inner (record t { active = some at }) in
    let (more, t'') = run rest (record t' { active = t.active }) in (polls ++ more, t'')
run (poll now rest) t = let (more, t') = run rest t in (polled t.active t.fibers now ∷ more, t')

-- A thread on the host's stack, before any fiber is made; nothing is known of what is at the
-- addresses.
abbrev pub on_host : (ℕ → Status) → Thread
on_host fibers = record { fibers = fibers; active = none; next_id = 1 }
