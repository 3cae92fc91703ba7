-- ===== src/Cluster/Arrivals.antt =====
-- How jobs come into a cluster: its start, `spawn`, and `wake`.
use krio.Base.{
  ℕ, zero, suc, ◌+◌, ◌<◌, ◌≤◌, ◌≡◌, refl, Bool, true, false, Option, none, some, List, [], ◌∷◌,
  arith, replicate, Bool-cases, inl, inr, lt→ltb, ◌==◌, ==_iff, ◌≢◌, ◌++◌, ◌∙◌, ap, subst, All,
  if◌then◌else◌,
}
use krio.Core.{TaskId}
use krio.Words.{Target}
use krio.Deque.Repr.{Repr}
use krio.Deque.Run.{max_capacity, with_capacity-Repr}
use krio.Parked.{Parked}
use krio.Parked
use krio.Parked.Wakes.{IsValid, view, wake_waiting, wake-view}
use krio.Cluster.{
  Job, Agent, Cluster, parked, notified, started, with_capacity, notify_first, resume_found, wake,
  spawn,
}
use krio.Base.{tally, tally-append}
use krio.Cluster.Jobs.{tally_all, Standing, runnable, nobody, agent}

module _ {ℓ} {t : Target} {T : Type ℓ} where
  -- Notifications leave the deques alone.
  pub notify_first-Standing :
      {agents : List (Agent T)} {qs : List (List (Job T))}
      → Standing t agents qs
      → Standing t (notify_first agents) qs
  unfolding notify_first
  notify_first-Standing nobody = nobody
  notify_first-Standing (agent {a} r s) = elim (Bool-cases (a.park_state == parked)) [
    | inl sleeps ↦ rw sleeps (agent r s)
    | inr awake ↦ rw awake (agent r (notify_first-Standing s))
  ]

module _ {ℓ} {T : Type ℓ} where
  -- The job that the parked store gave back, if any.
  abbrev pub woken_jobs : Option (Job T) → List (Job T)
  woken_jobs none = []
  woken_jobs (some job) = job ∷ []

  abbrev pub is_some : Option (Job T) → Bool
  is_some none = false
  is_some (some job) = true

-- The first agent that is parked is notified, and no other is touched.
pub data Notifies {ℓ} {T : Type ℓ} : List (Agent T) → List (Agent T) → Type ℓ where
  all_awake :
      {agents : List (Agent T)} → All (λ a. a.park_state ≢ parked) agents → Notifies agents agents
  first_parked :
      (awake : List (Agent T)) (a : Agent T) (others : List (Agent T))
      → All (λ b. b.park_state ≢ parked) awake
      → a.park_state ≡ parked
      → Notifies (awake ++ a ∷ others) (awake ++ record a { park_state = notified } ∷ others)

module _ {ℓ} {T : Type ℓ} where
  -- One agent is notified for a job, and none without one.
  abbrev pub Woken : Option (Job T) → List (Agent T) → List (Agent T) → Type ℓ
  Woken none agents agents' = agents' ≡ agents
  Woken (some job) agents agents' = Notifies agents agents'

  Notifies-cons :
      (a : Agent T) {agents agents' : List (Agent T)}
      → a.park_state ≢ parked
      → Notifies agents agents'
      → Notifies (a ∷ agents) (a ∷ agents')
  Notifies-cons a h (all_awake all) = all_awake (h, all)
  Notifies-cons a h (first_parked awake b others all e) =
      first_parked (a ∷ awake) b others (h, all) e

  pub notify_first-Notifies : (agents : List (Agent T)) → Notifies agents (notify_first agents)
  unfolding notify_first
  notify_first-Notifies [] = all_awake tt
  notify_first-Notifies (a ∷ agents) = elim (Bool-cases (a.park_state == parked)) [
    | inl sleeps ↦ rw sleeps (first_parked [] a agents tt ((==_iff a.park_state parked).0 sleeps))
    | inr awake ↦ rw awake (
        Notifies-cons a (λ e. cc (awake, (==_iff a.park_state parked).1 e))
          (notify_first-Notifies agents))
  ]

module _ {ℓ} (t : Target) {T : Type ℓ} where
  replicate-Standing :
      (n : ℕ) (a : Agent T) → Repr t a.deque [] → Standing t (replicate n a) (replicate n [])
  replicate-Standing zero a r = nobody
  replicate-Standing (suc n) a r = agent r (replicate-Standing n a r)

  replicate-empty : (test : Job T → Bool) (n : ℕ) → tally_all test (replicate n []) ≡ 0
  unfolding tally_all tally
  replicate-empty test zero = refl
  replicate-empty test (suc n) = omega (arith, replicate-empty test n)

  -- A cluster of at least one agent, each with a deque of a capacity in bounds, starts with deques
  -- that stand for empty queues, and with no runnable job.
  pub with_capacity-Standing :
      (n cap : ℕ)
      → 0 < n
      → cap ≤ max_capacity t
      → (c : Cluster T) × (with_capacity n cap ≡ some c)
        × Standing t c.agents (replicate n [])
        × ((test : Job T → Bool) → runnable test (replicate n []) c ≡ 0)
  unfolding with_capacity tally
  with_capacity-Standing n cap pos fits = (
    started n cap,
    rw (lt→ltb 0 n pos) refl,
    replicate-Standing n _ (with_capacity-Repr t cap fits).0,
    λ test. omega (arith, replicate-empty test n),
  )

  -- `spawn` gives the task the next id and makes it one more runnable job, and keeps every other.
  pub spawn_lem :
      (c : Cluster T) (qs : List (List (Job T))) (task : T)
      → Standing t c.agents qs
      → Standing t (spawn c task).agents qs
        × ((test : Job T → Bool)
            → runnable test qs (spawn c task)
              ≡ tally test (record { id = record { value = c.next_id }; task = task } ∷ [])
                + runnable test qs c)
  unfolding spawn
  spawn_lem c qs task s = (
    notify_first-Standing s,
    λ test. omega (
      arith,
      tally-append test c.injector (record { id = record { value = c.next_id }; task = task } ∷ []),
    ),
  )

  -- What is made of the answer of the parked store.
  resume_found_lem :
      (c : Cluster T) (qs : List (List (Job T))) (found : Option (Job T)) (p : Parked (Job T))
      → Standing t c.agents qs
      → ((resume_found (found, p) c).0 ≡ is_some found)
        × ((resume_found (found, p) c).1.waiting ≡ p)
        × Standing t (resume_found (found, p) c).1.agents qs
        × Woken found c.agents (resume_found (found, p) c).1.agents
        × ((test : Job T → Bool)
            → runnable test qs (resume_found (found, p) c).1
              ≡ tally test (woken_jobs found) + runnable test qs c)
  unfolding tally
  resume_found_lem c qs none p s = (refl, refl, s, refl, λ test. omega arith)
  resume_found_lem c qs (some job) p s = (
    refl,
    refl,
    notify_first-Standing s,
    notify_first-Notifies c.agents,
    λ test. omega (arith, tally-append test c.injector (job ∷ [])),
  )

  -- On a valid parked store, `wake` answers whether a job waits under the id, as what is known of the
  -- id tells. That job becomes one more runnable job and the first agent that sleeps is notified;
  -- without one a wake is kept for the id and no agent is touched. Every other runnable job stays,
  -- and what is known of other ids does.
  pub wake_lem :
      (c : Cluster T) (qs : List (List (Job T))) (id : TaskId)
      → Standing t c.agents qs
      → IsValid c.waiting
      → let given = (wake_waiting (view c.waiting id.value)).0 in
        ((wake c id).0 ≡ is_some given)
        × Standing t (wake c id).1.agents qs
        × Woken given c.agents (wake c id).1.agents
        × ((test : Job T → Bool)
            → runnable test qs (wake c id).1 ≡ tally test (woken_jobs given) + runnable test qs c)
        × ((k : ℕ)
            → view (wake c id).1.waiting k
              ≡ (if id.value == k then (wake_waiting (view c.waiting k)).1 else view c.waiting k))
  unfolding wake
  wake_lem c qs id s v =
      let (found, p) = Parked.wake c.waiting id in
      let (answer, store, s', woken, kept) = resume_found_lem c qs found p s in
      let e = (wake-view c.waiting id 0 v).0 in
      (
        answer ∙ ap is_some e,
        s',
        subst (λ g. Woken g c.agents (resume_found (found, p) c).1.agents) e woken,
        subst
            (λ g.
              (test : Job T → Bool)
              → runnable test qs (resume_found (found, p) c).1
                ≡ tally test (woken_jobs g) + runnable test qs c)
            e kept,
        λ k. ap (λ q. view q k) store ∙ (wake-view c.waiting id k v).1,
      )
