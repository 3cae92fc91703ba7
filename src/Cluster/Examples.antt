-- ===== src/Cluster/Examples.antt =====
-- A cluster of three agents with small deques.
use krio.Base.{
  ℕ, ◌==◌, if◌then◌else◌, ◌+◌, ◌≡◌, Bool, false, ◌↔◌, some, List, [], ◌∷◌, arith, length,
}
use krio.Core.{TaskId, pending}
use krio.Words.{wasm32}
use krio.Deque
use krio.Deque.Run.{with_capacity-Repr}
use krio.Parked
use krio.Cluster.{Job, Agent, Cluster, running, parked, deposit, next_job, wake, settle, has_work}
use krio.Base.{tally}
use krio.Cluster.Jobs.{Standing, runnable, nobody, agent}
use krio.Cluster.Deposits.{deposit_lem}
use krio.Cluster.Next.{Finds, next_job_lem}
use krio.Cluster.Settle.{requeued, known_after, Calls, settle_lem}
use krio.Cluster.Work.{any_job, has_work_iff}
use krio.Cluster.Arrivals.{wake_lem, woken_jobs, is_some, Woken}
use krio.Parked.Wakes.{
  IsValid, view, wake_waiting, parks, wakes, run, apply, run-IsValid, new-IsValid,
}

abbrev idle_agent : ℕ → Agent ℕ
idle_agent state = record { deque = Deque.with_capacity 2; park_state = state }

abbrev job_four : Job ℕ
job_four = record { id = record { value = 4 }; task = 40 }

-- Three agents, of which one is parked, and a job in the injector.
abbrev trio : Cluster ℕ
trio = record {
  agents = idle_agent running ∷ idle_agent parked ∷ idle_agent running ∷ [];
  injector = job_four ∷ [];
  waiting = Parked.new;
  rotor = 2;
  next_id = 5;
}

abbrev no_jobs : List (List (Job ℕ))
no_jobs = [] ∷ [] ∷ [] ∷ []

trio-Standing : Standing wasm32 trio.agents no_jobs
trio-Standing =
    let empty = (with_capacity-Repr wasm32 2 (omega arith)).0 in
    agent empty (agent empty (agent empty nobody))

deposit_lem_example :
    (c' : Cluster ℕ) × (qs' : List (List (Job ℕ))) × (deposit wasm32 trio 1 job_four ≡ some c')
    × Standing wasm32 c'.agents qs'
    × (length c'.agents ≡ length trio.agents)
    × ((test : Job ℕ → Bool)
        → runnable test qs' c' ≡ tally test (job_four ∷ []) + runnable test no_jobs trio)
deposit_lem_example = deposit_lem wasm32 trio no_jobs 1 job_four trio-Standing (omega arith)

next_job_lem_example : Finds wasm32 (next_job wasm32 trio 1) trio no_jobs
next_job_lem_example = next_job_lem wasm32 trio no_jobs 1 trio-Standing (omega arith) (omega arith)

abbrev four : TaskId
four = record { value = 4 }

-- The job waits, and no longer runs.
abbrev asleep : Cluster ℕ
asleep = record trio { injector = []; waiting = (Parked.park Parked.new four job_four).1 }

asleep-IsValid : IsValid asleep.waiting
unfolding run apply
asleep-IsValid = run-IsValid Parked.new (parks four job_four ∷ []) (new-IsValid [])

wake_lem_example :
    let given = (wake_waiting (view asleep.waiting 4)).0 in
    ((wake asleep four).0 ≡ is_some given)
    × Standing wasm32 (wake asleep four).1.agents no_jobs
    × Woken given asleep.agents (wake asleep four).1.agents
    × ((test : Job ℕ → Bool)
        → runnable test no_jobs (wake asleep four).1
          ≡ tally test (woken_jobs given) + runnable test no_jobs asleep)
    × ((k : ℕ)
        → view (wake asleep four).1.waiting k
          ≡ (if 4 == k then (wake_waiting (view asleep.waiting k)).1 else view asleep.waiting k))
wake_lem_example = wake_lem wasm32 asleep no_jobs four trio-Standing asleep-IsValid

-- The job's wake came before it waits.
abbrev early : Cluster ℕ
early = record trio { waiting = (Parked.wake Parked.new four).1 }

early-IsValid : IsValid early.waiting
unfolding run apply
early-IsValid = run-IsValid Parked.new (wakes four ∷ []) (new-IsValid [])

settle_lem_example :
    (c' : Cluster ℕ) × (qs' : List (List (Job ℕ))) × (settle wasm32 early 1 job_four pending
      ≡ some c')
    × Standing wasm32 c'.agents qs'
    × (length c'.agents ≡ length early.agents)
    × ((test : Job ℕ → Bool)
        → runnable test qs' c'
          ≡ tally test (requeued early.waiting job_four pending) + runnable test no_jobs early)
    × ((k : ℕ) → view c'.waiting k ≡ known_after early.waiting job_four pending k)
    × Calls pending 1 qs' early.agents c'.agents
settle_lem_example =
    settle_lem wasm32 early no_jobs 1 job_four pending trio-Standing (omega arith) early-IsValid

has_work_iff_example : (has_work wasm32 trio ≡ false) ↔ (runnable any_job no_jobs trio ≡ 0)
has_work_iff_example = has_work_iff wasm32 trio no_jobs trio-Standing
