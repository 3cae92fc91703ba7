-- ===== src/Cluster/Drive.antt =====
-- crates/krio-parallel/src/lib.rs: `drive_once`, a pass of one agent. Between two of its steps the
-- world may change, and the task that is stepped may call the cluster.
pub mod Rotor
pub mod Ends
mod Examples
use krio.Base.{
  ℕ, zero, suc, ◌+◌, Bool, true, false, Option, none, some, List, [], ◌∷◌, leb, if◌then◌else◌,
}
use krio.Core.{TaskId, Suspension}
use krio.Words.{Target}
use krio.Cluster.{Job, Cluster, spawn, wake, next_job, settle}
use krio.Runtime.Roles.{
  AgentRole, main, worker, Budget, unbounded, deadline, budget, Drive, idle, ran, shutting_down,
}

-- A call of the cluster from within a step.
pub data Call {ℓ} (T : Type ℓ) : Type ℓ where
  spawns : T → Call T
  wakes : TaskId → Call T

-- What the cluster uses of the host: a task's step, which answers what it is then, what it called
-- and what the world is; the flags and the clock that the world shows; the sum and the `>=` of the
-- clock's f64 milliseconds, which are kept abstract; and what a worker finds when it has left the
-- barrier, at which it stays while a stop is pending.
pub record Host {ℓ} (T W Time : Type ℓ) : Type ℓ where
  pub step : T → W → Suspension × T × List (Call T) × W
  pub stopping : W → Bool
  pub requested : W → Bool
  pub now_ms : W → Time
  pub after : Time → Time → Time
  pub reached : (now at : Time) → Bool
  pub past_barrier : W → W

-- A pass panics or returns, or its loop has used up the fuel of the model.
pub data Pass {ℓ} (T W : Type ℓ) : Type ℓ where
  out_of_fuel panicked : Pass T W
  returned : Drive → Cluster T → W → Pass T W

module _ {ℓ} {T : Type ℓ} where
  abbrev pub call : Cluster T → Call T → Cluster T
  call c (spawns task) = spawn c task
  call c (wakes id) = (wake c id).1

  unfoldable pub call_all : Cluster T → List (Call T) → Cluster T
  call_all c [] = c
  call_all c (one ∷ calls) = call_all (call c one) calls

-- `if ran == 0 { Drive::Idle } else { Drive::Ran(ran) }`.
abbrev pub outcome : ℕ → Drive
outcome zero = idle
outcome (suc n) = ran (suc n)

module _ {ℓ} (t : Target) {T W Time : Type ℓ} (host : Host T W Time) where
  -- `if let Some(deadline) = deadline { if self.clock.now_ms() >= deadline`
  abbrev pub passed : Option Time → W → Bool
  passed none w = false
  passed (some at) w = host.reached (host.now_ms w) at

  -- The end of the loop's body: the clock, and then the loop again.
  abbrev pub check_deadline :
      Option Time → ℕ → (Cluster T → ℕ → W → Pass T W) → Cluster T → W → Pass T W
  check_deadline at count again c w = elim (passed at w) [
    | true ↦ returned (outcome count) c w
    | false ↦ again c count w
  ]

  -- What follows a pending stop: a main agent leaves, a worker waits at the barrier.
  abbrev pub at_safepoint :
      AgentRole → Option Time → ℕ → (Cluster T → ℕ → W → Pass T W) → Cluster T → W → Pass T W
  at_safepoint main at count again c w = returned (outcome count) c w
  at_safepoint worker at count again c w = check_deadline at count again c (host.past_barrier w)

  -- Behind `match suspension`.
  abbrev pub after_settle :
      AgentRole
      → Option Time
      → ℕ
      → (Cluster T → ℕ → W → Pass T W)
      → Option (Cluster T)
      → W
      → Pass T W
  after_settle role at count again none w = panicked
  after_settle role at count again (some c) w = elim (host.stopping w) [
    | true ↦ returned shutting_down c w
    | false ↦ elim (host.requested w) [
      | true ↦ at_safepoint role at count again c w
      | false ↦ check_deadline at count again c w
    ]
  ]

  -- The body of the loop behind `next_job`; `again` is the loop.
  abbrev pub after_next :
      ℕ
      → AgentRole
      → Option Time
      → ℕ
      → (Cluster T → ℕ → W → Pass T W)
      → Option (Option (Job T × Option ℕ) × Cluster T)
      → W
      → Pass T W
  after_next i role at count again none w = panicked
  after_next i role at count again (some (none, c)) w = returned (outcome count) c w
  after_next i role at count again (some (some (job, from), c)) w =
      let (suspension, task, calls, w') = host.step job.task w in
      after_settle role at (suc count) again
        (settle t (call_all c calls) i (record job { task = task }) suspension) w'

  unfoldable pub drive_loop : ℕ → ℕ → AgentRole → Option Time → Cluster T → ℕ → W → Pass T W
  drive_loop zero i role at c count w = out_of_fuel
  drive_loop (suc fuel) i role at c count w =
      after_next i role at count (drive_loop fuel i role at) (next_job t c i) w

  -- The deadline of a pass that starts at `now`.
  abbrev pub deadline_of : Budget Time → Time → Option Time
  deadline_of (deadline ms) now = some (host.after now ms)
  deadline_of unbounded now = none

  -- `drive_once`.
  unfoldable pub drive_once : ℕ → Cluster T → ℕ → AgentRole → Time → W → Pass T W
  unfolding drive_loop
  drive_once fuel c i role frame_ms w = elim (host.stopping w) [
    | true ↦ returned shutting_down c w
    | false ↦ drive_loop fuel i role (deadline_of (budget role frame_ms) (host.now_ms w)) c 0 w
  ]
