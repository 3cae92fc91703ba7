-- ===== src/Cluster.antt =====
-- crates/krio-parallel/src/lib.rs: where the jobs of a cluster stand, and how they move. Each
-- operation runs here without interference. The observer's calls and the platform's `unpark` tell
-- the host what happens and change nothing here.
pub mod Jobs
pub mod Deposits
pub mod Search
pub mod Next
pub mod Arrivals
pub mod Kept
pub mod Settle
pub mod Work
pub mod Drive
pub mod Sleep
mod Examples
use krio.Base.{
  ℕ, zero, suc, ◌+◌, ◌%◌, ◌^◌, Bool, true, false, not, ◌||◌, Option, none, some, List, [], ◌∷◌,
  length, get_elem?, set, replicate, ltb, ◌==◌, if◌then◌else◌,
}
use krio.Core.{TaskId, Suspension, completed, yielded, pending, Task}
use krio.Words.{Target, modulus}
use krio.Deque.{Deque, Pushed, stored, full}
use krio.Deque
use krio.Injector
use krio.Parked.{Parked}
use krio.Parked

-- `Job`.
pub record Job {ℓ} (T : Type ℓ) : Type ℓ where
  pub id : TaskId
  pub task : T

-- `Agent`: its deque and its parking slot.
pub record Agent {ℓ} (T : Type ℓ) : Type ℓ where
  pub deque : Deque (Job T)
  pub park_state : ℕ

-- The values of a parking slot.
abbrev pub running : ℕ
running = 0

abbrev pub parked : ℕ
parked = 1

abbrev pub notified : ℕ
notified = 2

-- `Cluster`, without the safepoint and what the host supplies.
pub record Cluster {ℓ} (T : Type ℓ) : Type ℓ where
  pub agents : List (Agent T)
  pub injector : List (Job T)
  pub waiting : Parked (Job T)
  pub rotor : ℕ
  pub next_id : ℕ

module _ {ℓ} {T : Type ℓ} where
  -- What `with_capacity` builds.
  abbrev pub started : ℕ → ℕ → Cluster T
  started agent_count deque_capacity = record {
    agents =
        replicate agent_count
          (record { deque = Deque.with_capacity deque_capacity; park_state = running });
    injector = Injector.new;
    waiting = Parked.new;
    rotor = 0;
    next_id = 1;
  }

  -- `with_capacity`; `none` is the panic on no agents.
  unfoldable pub with_capacity : ℕ → ℕ → Option (Cluster T)
  with_capacity agent_count deque_capacity =
      if ltb 0 agent_count then some (started agent_count deque_capacity) else none

  -- `mint_id`: the u64 counter wraps.
  abbrev pub mint_id : Cluster T → TaskId × Cluster T
  mint_id c = (record { value = c.next_id }, record c { next_id = (c.next_id + 1) % 2 ^ 64 })

  -- The loop of `notify_one`: the first agent that is parked is notified.
  unfoldable pub notify_first : List (Agent T) → List (Agent T)
  notify_first [] = []
  notify_first (a ∷ agents) =
      let rest = notify_first agents in
      if a.park_state == parked then record a { park_state = notified } ∷ agents else a ∷ rest

  -- `notify_one`.
  abbrev pub notify_one : Cluster T → Cluster T
  notify_one c = record c { agents = notify_first c.agents }

  abbrev pub with_deque : Cluster T → ℕ → Agent T → Deque (Job T) → Cluster T
  with_deque c i a d = record c { agents = set c.agents i (record a { deque = d }) }

  -- `wake`: whether a parked task was resumed.
  abbrev pub resume_found : Option (Job T) × Parked (Job T) → Cluster T → Bool × Cluster T
  resume_found (none, p) c = (false, record c { waiting = p })
  resume_found (some job, p) c =
      (true, notify_one (record c { waiting = p; injector = Injector.push c.injector job }))

  unfoldable pub wake : Cluster T → TaskId → Bool × Cluster T
  wake c id = resume_found (Parked.wake c.waiting id) c

  -- `ParallelScheduler::spawn`.
  unfoldable pub spawn : Cluster T → T → Cluster T
  spawn c task =
      let (id, c') = mint_id c in
      notify_one
        (record c' { injector = Injector.push c'.injector (record { id = id; task = task }) })

-- What `next_job` finds: a job, with the agent it was stolen from; `none` outside is a fault.
abbrev pub Found {ℓ} : Type ℓ → Type ℓ
Found T = Option (Option (Job T × Option ℕ) × Cluster T)

module _ {ℓ} (t : Target) {T : Type ℓ} where
  -- The deques of the agents of `has_work`.
  unfoldable pub any_deque : List (Agent T) → Bool
  any_deque [] = false
  any_deque (a ∷ agents) = not (Deque.is_empty t a.deque) || any_deque agents

  -- `has_work`.
  unfoldable pub has_work : Cluster T → Bool
  unfolding any_deque
  has_work c = not (Injector.is_empty c.injector) || any_deque c.agents

  -- The two arms of `deposit`, by what the push made of the deque.
  abbrev pub settle_push :
      Cluster T → ℕ → Agent T → Option (Pushed (Job T) × Deque (Job T)) → Option (Cluster T)
  settle_push c i a none = none
  settle_push c i a (some (stored, d)) = some (with_deque c i a d)
  settle_push c i a (some (full job, d)) =
      some (record (with_deque c i a d) { injector = Injector.push c.injector job })

  -- `deposit`; `none` is the panic on an agent out of range, or a fault of the deque.
  unfoldable pub deposit : Cluster T → ℕ → Job T → Option (Cluster T)
  deposit c i job = elim (get_elem? c.agents i) [
    | none ↦ none
    | some a ↦ settle_push c i a (Deque.push t a.deque job)
  ]

  -- `spawn_on`.
  unfoldable pub spawn_on : Cluster T → ℕ → T → Option (TaskId × Cluster T)
  unfolding deposit
  spawn_on c i task =
      let (id, c') = mint_id c in
      elim (deposit c' i (record { id = id; task = task })) [
        | none ↦ none
        | some c'' ↦ some (id, notify_one c'')
      ]

  -- What a steal from agent `v` makes of the loop of `next_job`, whose rest is `rest`.
  abbrev pub after_steal :
      Cluster T → ℕ → Agent T → Option (Option (Job T) × Deque (Job T)) → Found T → Found T
  after_steal c v a none rest = none
  after_steal c v a (some (some job, d)) rest = some (some (job, some v), with_deque c v a d)
  after_steal c v a (some (none, d)) rest = rest

  -- `for k in 0..n`, from `k` with `left` victims to go; `start + k` is a `usize`, which wraps.
  unfoldable pub steal_round : Cluster T → ℕ → ℕ → ℕ → ℕ → Found T
  steal_round c i start k zero = some (none, c)
  steal_round c i start k (suc left) =
      let v = (start + k) % modulus t % length c.agents in
      let rest = steal_round c i start (k + 1) left in
      if v == i then rest else (elim (get_elem? c.agents v) [
        | none ↦ none
        | some a ↦ after_steal c v a (Deque.steal t a.deque) rest
      ])

  -- `next_job` behind the agent's own deque: the injector, then the other agents from the rotor on.
  unfoldable pub beyond_own : Cluster T → ℕ → Option (Job T) × List (Job T) → Found T
  unfolding steal_round
  beyond_own c i (some job, queue) = some (some (job, none), record c { injector = queue })
  beyond_own c i (none, queue) =
      if ltb 1 (length c.agents)
      then steal_round (record c { rotor = (c.rotor + 1) % 2 ^ 32 }) i c.rotor 0 (length c.agents)
      else some (none, c)

  -- What the pop of the agent's own deque makes of `next_job`.
  abbrev pub after_pop : Cluster T → ℕ → Agent T → Option (Option (Job T) × Deque (Job T)) → Found T
  after_pop c i a none = none
  after_pop c i a (some (some job, d)) = some (some (job, none), with_deque c i a d)
  after_pop c i a (some (none, d)) = beyond_own (with_deque c i a d) i (Injector.pop c.injector)

  -- `next_job`.
  unfoldable pub next_job : Cluster T → ℕ → Found T
  unfolding beyond_own
  next_job c i = elim (get_elem? c.agents i) [
    | none ↦ none
    | some a ↦ after_pop c i a (Deque.pop t a.deque)
  ]

  -- A `Pending` job: held out of the queues, unless a wake came first.
  abbrev pub after_park : Cluster T → ℕ → Option (Job T) × Parked (Job T) → Option (Cluster T)
  after_park c i (none, p) = some (record c { waiting = p })
  after_park c i (some job, p) = deposit (record c { waiting = p }) i job

  -- After a `Yielded` job is back on the deque: a thief is woken if there is surplus.
  unfoldable pub after_yield : ℕ → Option (Cluster T) → Option (Cluster T)
  after_yield i none = none
  after_yield i (some c) = elim (get_elem? c.agents i) [
    | none ↦ none
    | some a ↦ some (if ltb 1 (Deque.len t a.deque) then notify_one c else c)
  ]

  -- `match suspension` in `drive_once`.
  unfoldable pub settle : Cluster T → ℕ → Job T → Suspension → Option (Cluster T)
  unfolding deposit after_yield
  settle c i job completed = some c
  settle c i job pending = after_park c i (Parked.park c.waiting job.id job)
  settle c i job yielded = after_yield i (deposit c i job)
