-- ===== src/Cluster/Drive/Rotor.antt =====
-- The rotor of a cluster stays a u32.
use krio.Base.{
  ℕ, zero, suc, ◌+◌, ◌%◌, ◌^◌, ◌<◌, Option, none, some, List, arith, length, get_elem?, Bool-cases,
  Option-cases, inl, inr, ltb,
}
use krio.Core.{Suspension, completed, yielded, pending}
use krio.Words.{Target}
use krio.Deque.{Deque}
use krio.Deque
use krio.Injector
use krio.Parked.{Parked}
use krio.Parked
use krio.Cluster.{
  Job, Agent, Cluster, Found, steal_round, beyond_own, next_job, after_pop, deposit, after_park,
  after_yield, settle, with_deque,
}

module _ {ℓ} {T : Type ℓ} where
  abbrev pub IsWord : Cluster T → Type 0
  IsWord c = c.rotor < 2 ^ 32

  abbrev pub FoundIsWord : Found T → Type 0
  FoundIsWord none = Unit
  FoundIsWord (some (answer, c)) = IsWord c

  abbrev pub LeftIsWord : Option (Cluster T) → Type 0
  LeftIsWord none = Unit
  LeftIsWord (some c) = IsWord c

module _ {ℓ} (t : Target) {T : Type ℓ} where
  steal_round-IsWord :
      (c : Cluster T) (i start k left : ℕ) → IsWord c → FoundIsWord (steal_round t c i start k left)
  unfolding steal_round
  steal_round-IsWord c i start k zero h = h
  steal_round-IsWord c i start k (suc left) h =
      ground (arith, steal_round-IsWord c i start (k + 1) left)

  beyond_own-IsWord :
      (c : Cluster T) (i : ℕ) (popped : Option (Job T) × List (Job T))
      → IsWord c
      → FoundIsWord (beyond_own t c i popped)
  unfolding beyond_own
  beyond_own-IsWord c i (some job, queue) h = h
  beyond_own-IsWord c i (none, queue) h = elim (Bool-cases (ltb 1 (length c.agents))) [
    | inl several ↦ rw several (
        steal_round-IsWord (record c { rotor = (c.rotor + 1) % 2 ^ 32 }) i c.rotor 0
          (length c.agents) (omega arith))
    | inr alone ↦ rw alone h
  ]

  after_pop-IsWord :
      (c : Cluster T) (i : ℕ) (a : Agent T) (popped : Option (Option (Job T) × Deque (Job T)))
      → IsWord c
      → FoundIsWord (after_pop t c i a popped)
  after_pop-IsWord c i a none h = tt
  after_pop-IsWord c i a (some (some job, d)) h = h
  after_pop-IsWord c i a (some (none, d)) h =
      beyond_own-IsWord (with_deque c i a d) i (Injector.pop c.injector) h

  pub next_job-IsWord : (c : Cluster T) (i : ℕ) → IsWord c → FoundIsWord (next_job t c i)
  unfolding next_job
  next_job-IsWord c i h = elim (Option-cases (get_elem? c.agents i)) [
    | inl nobody ↦ rw (nobody, next_job) tt
    | inr (a, at) ↦ rw (at, next_job) (after_pop-IsWord c i a (Deque.pop t a.deque) h)
  ]

  deposit-IsWord : (c : Cluster T) (i : ℕ) (job : Job T) → IsWord c → LeftIsWord (deposit t c i job)
  unfolding deposit
  deposit-IsWord c i job h = ground arith

  after_yield-IsWord :
      (i : ℕ) (left : Option (Cluster T)) → LeftIsWord left → LeftIsWord (after_yield t i left)
  unfolding after_yield
  after_yield-IsWord i none h = h
  after_yield-IsWord i (some c) h = ground arith

  after_park-IsWord :
      (c : Cluster T) (i : ℕ) (answer : Option (Job T) × Parked (Job T))
      → IsWord c
      → LeftIsWord (after_park t c i answer)
  after_park-IsWord c i (none, p) h = h
  after_park-IsWord c i (some job, p) h = deposit-IsWord (record c { waiting = p }) i job h

  pub settle-IsWord :
      (c : Cluster T) (i : ℕ) (job : Job T) (suspension : Suspension)
      → IsWord c
      → LeftIsWord (settle t c i job suspension)
  unfolding settle
  settle-IsWord c i job completed h = h
  settle-IsWord c i job pending h = after_park-IsWord c i (Parked.park c.waiting job.id job) h
  settle-IsWord c i job yielded h =
      after_yield-IsWord i (deposit t c i job) (deposit-IsWord c i job h)
