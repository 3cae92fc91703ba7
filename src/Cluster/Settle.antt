-- ===== src/Cluster/Settle.antt =====
-- What becomes of a job after its step: dropped, parked, or runnable again.
use krio.Base.{
  ℕ, ◌+◌, ◌<◌, ◌≡◌, refl, ◌∙◌, Bool, Option, none, some, List, [], ◌∷◌, arith, length, Bool-cases,
  inl, inr, ltb, get_elem?, ap, sym, subst, true, false, ◌==◌, if◌then◌else◌,
}
use krio.Core.{Suspension, completed, yielded, pending}
use krio.Words.{Target}
use krio.Deque
use krio.Parked.{Parked}
use krio.Parked
use krio.Cluster.{Job, Agent, Cluster, notify_first, notify_one, after_park, after_yield, settle}
use krio.Base.{tally}
use krio.Cluster.Jobs.{Standing, Standing-get, runnable}
use krio.Cluster.Deposits.{deposit_lem}
use krio.Cluster.Kept.{park_states, LeftKept, deposit-Kept, after_park-Kept}
use krio.Cluster.Arrivals.{notify_first-Standing, woken_jobs, Notifies, notify_first-Notifies}
use krio.Deque.Run.{len_lem}
use krio.Parked.Wakes.{Waiting, IsValid, view, park_waiting, park-view}

module _ {ℓ} {T : Type ℓ} where
  -- The job, if it is to run again: after a yield, and after a wait if a wake of its id was kept.
  abbrev pub requeued : Parked (Job T) → Job T → Suspension → List (Job T)
  requeued p job completed = []
  requeued p job yielded = job ∷ []
  requeued p job pending = woken_jobs (park_waiting (view p job.id.value) job).0

  -- What is known of an id afterwards: only a job that waits changes what is known, of its own id.
  abbrev pub known_after : Parked (Job T) → Job T → Suspension → ℕ → Waiting (Job T)
  known_after p job completed k = view p k
  known_after p job yielded k = view p k
  known_after p job pending k =
      if job.id.value == k then (park_waiting (view p k) job).1 else view p k

  -- A queue of more than one job.
  abbrev pub many : Option (List (Job T)) → Bool
  many none = false
  many (some q) = ltb 1 (length q)

  abbrev pub CalledIf : Bool → List (Agent T) → List (Agent T) → Type ℓ
  CalledIf true agents agents' = Notifies agents agents'
  CalledIf false agents agents' = agents' ≡ agents

  abbrev pub has_surplus : Suspension → Option (List (Job T)) → Bool
  has_surplus completed q = false
  has_surplus pending q = false
  has_surplus yielded q = many q

  -- An agent is called if there is surplus. In between, the slots are as before.
  abbrev pub Calls : Suspension → ℕ → List (List (Job T)) → List (Agent T) → List (Agent T) → Type ℓ
  Calls suspension i qs' agents agents' =
      (mid : List (Agent T)) × (park_states mid ≡ park_states agents)
      × CalledIf (has_surplus suspension (get_elem? qs' i)) mid agents'

  pub length-notify_first : (agents : List (Agent T)) → length (notify_first agents) ≡ length agents
  unfolding notify_first
  length-notify_first [] = refl
  length-notify_first (a ∷ agents) = ground (arith, length-notify_first agents)

module _ {ℓ} (t : Target) {T : Type ℓ} where
  -- What is left of a cluster with the jobs `more` made runnable.
  abbrev pub Settled : Option (Cluster T) → Cluster T → List (List (Job T)) → List (Job T) → Type ℓ
  Settled left c qs more =
      (c' : Cluster T) × (qs' : List (List (Job T))) × (left ≡ some c')
      × Standing t c'.agents qs'
      × (length c'.agents ≡ length c.agents)
      × ((test : Job T → Bool) → runnable test qs' c' ≡ tally test more + runnable test qs c)

  after_park_lem :
      (c : Cluster T) (qs : List (List (Job T))) (i : ℕ) (back : Option (Job T))
      (p : Parked (Job T))
      → Standing t c.agents qs
      → i < length c.agents
      → Settled (after_park t c i (back, p)) c qs (woken_jobs back)
  unfolding tally
  after_park_lem c qs i none p s lt =
      (record c { waiting = p }, qs, refl, s, refl, λ test. omega arith)
  after_park_lem c qs i (some job) p s lt = deposit_lem t (record c { waiting = p }) qs i job s lt

  -- The deposit of a job that yielded, behind it: a thief is called if there is surplus.
  after_yield_lem :
      (c : Cluster T) (qs : List (List (Job T))) (i : ℕ)
      → Standing t c.agents qs
      → i < length c.agents
      → (c' : Cluster T) × (after_yield t i (some c) ≡ some c')
        × Standing t c'.agents qs
        × (length c'.agents ≡ length c.agents)
        × (c'.injector ≡ c.injector)
        × (c'.waiting ≡ c.waiting)
        × CalledIf (many (get_elem? qs i)) c.agents c'.agents
  unfolding after_yield
  after_yield_lem c qs i s lt =
      let (a, q, ea, eq, r) = Standing-get i s lt in
      let size = (len_lem t a.deque q r).0 in
      let counted : many (get_elem? qs i) ≡ ltb 1 (Deque.len t a.deque) =
        ap many eq ∙ ap (ltb 1) (sym size) in
      elim (Bool-cases (ltb 1 (Deque.len t a.deque))) [
        | inl surplus ↦ (
          notify_one c,
          rw (ea, after_yield, surplus) refl,
          notify_first-Standing s,
          length-notify_first c.agents,
          refl,
          refl,
          subst (λ b. CalledIf b c.agents (notify_first c.agents)) (sym (counted ∙ surplus))
              (notify_first-Notifies c.agents),
        )
        | inr enough ↦ (
          c,
          rw (ea, after_yield, enough) refl,
          s,
          refl,
          refl,
          refl,
          subst (λ b. CalledIf b c.agents c.agents) (sym (counted ∙ enough)) refl,
        )
      ]

  -- That it does not panic needs nothing of the parked store.
  pub settle-Standing :
      (c : Cluster T) (qs : List (List (Job T))) (i : ℕ) (job : Job T) (suspension : Suspension)
      → Standing t c.agents qs
      → i < length c.agents
      → (c' : Cluster T) × (qs' : List (List (Job T))) × (settle t c i job suspension ≡ some c')
        × Standing t c'.agents qs'
        × (length c'.agents ≡ length c.agents)
  unfolding settle
  settle-Standing c qs i job completed s lt = (c, qs, refl, s, refl)
  settle-Standing c qs i job pending s lt =
      let (back, p) = Parked.park c.waiting job.id job in
      let (c', qs', e, s', size, kept) = after_park_lem c qs i back p s lt in (c', qs', e, s', size)
  settle-Standing c qs i job yielded s lt =
      let (d, ps, e, s', size, kept) = deposit_lem t c qs i job s lt in
      let (c', e', s'', size', jobs, held, called) =
        after_yield_lem d ps i s' (omega (arith, size, lt)) in
      (c', ps, rw e e', s'', size' ∙ size)

  -- After a step on agent `i` of a cluster whose deques stand for queues and whose parked store is
  -- valid, the handling of the job's suspension does not panic. The job is made runnable once if it
  -- yielded, or if it waits and a wake of its id was kept, which is used up then; a job that waits
  -- without one is held under its id; one that has completed is dropped. Every other runnable job
  -- stays, and so does what is known of other ids. If the job yielded and the agent's queue then has
  -- more than one job, the first agent that sleeps is notified; else no slot changes.
  pub settle_lem :
      (c : Cluster T) (qs : List (List (Job T))) (i : ℕ) (job : Job T) (suspension : Suspension)
      → Standing t c.agents qs
      → i < length c.agents
      → IsValid c.waiting
      → (c' : Cluster T) × (qs' : List (List (Job T))) × (settle t c i job suspension ≡ some c')
        × Standing t c'.agents qs'
        × (length c'.agents ≡ length c.agents)
        × ((test : Job T → Bool)
            → runnable test qs' c'
              ≡ tally test (requeued c.waiting job suspension) + runnable test qs c)
        × ((k : ℕ) → view c'.waiting k ≡ known_after c.waiting job suspension k)
        × Calls suspension i qs' c.agents c'.agents
  unfolding settle tally
  settle_lem c qs i job completed s lt v =
      (c, qs, refl, s, refl, λ test. omega arith, λ k. refl, (c.agents, refl, refl))
  settle_lem c qs i job pending s lt v =
      let (back, p) = Parked.park c.waiting job.id job in
      let (c', qs', e, s', size, kept) = after_park_lem c qs i back p s lt in
      let (held, slots) =
        subst (LeftKept (record c { waiting = p })) e (after_park-Kept t c i back p) in
      let given = (park-view c.waiting job.id job 0 v).0 in
      (
        c',
        qs',
        e,
        s',
        size,
        subst
            (λ g.
              (test : Job T → Bool)
              → runnable test qs' c' ≡ tally test (woken_jobs g) + runnable test qs c)
            given kept,
        λ k. ap (λ q. view q k) held ∙ (park-view c.waiting job.id job k v).1,
        (c'.agents, slots, refl),
      )
  settle_lem c qs i job yielded s lt v =
      let (d, ps, e, s', size, kept) = deposit_lem t c qs i job s lt in
      let (held, slots) = subst (LeftKept c) e (deposit-Kept t c i job) in
      let (c', e', s'', size', jobs, held', called) =
        after_yield_lem d ps i s' (omega (arith, size, lt)) in
      (
        c',
        ps,
        rw e e',
        s'',
        size' ∙ size,
        λ test. omega (arith, kept test, ap (tally test) jobs),
        λ k. ap (λ q. view q k) (held' ∙ held),
        (d.agents, slots, called),
      )
