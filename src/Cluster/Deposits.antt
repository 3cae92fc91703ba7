-- ===== src/Cluster/Deposits.antt =====
-- `deposit` puts a job on a deque, or on the injector if that is full, and keeps every other.
use krio.Base.{
  ℕ, ◌+◌, ◌<◌, ◌≡◌, ◌⊎◌, Bool, some, List, [], ◌∷◌, ◌++◌, arith, length, length-set, set,
  Bool-cases, inl, inr, ltb,
}
use krio.Words.{Target}
use krio.Deque.{Deque, Pushed, stored, full, capacity}
use krio.Deque
use krio.Deque.Queue
use krio.Deque.Repr.{Repr}
use krio.Deque.Refine.{push_refines}
use krio.Cluster.{Job, Cluster, deposit, with_deque}
use krio.Base.{tally, tally-append}
use krio.Cluster.Jobs.{tally_all-set, Standing, Standing-get, Standing-set, runnable}

module _ {ℓ} (t : Target) {T : Type ℓ} where
  -- A push on the deque of a queue: it takes the value, or is full and hands it back.
  push-cases :
      (d : Deque T) (q : List T) (v : T)
      → Repr t d q
      → ((d' : Deque T) × (Deque.push t d v ≡ some (stored, d')) × Repr t d' (q ++ v ∷ []))
        ⊎ ((d' : Deque T) × (Deque.push t d v ≡ some (full v, d')) × Repr t d' q)
  unfolding Queue.push
  push-cases d q v r =
      let (d', e, r', same) = push_refines t d q r v in
      elim (Bool-cases (ltb (length q) (capacity d))) [
        | inl room ↦ inl (d', rw room at e, rw room at r')
        | inr no_room ↦ inr (d', rw no_room at e, rw no_room at r')
      ]

module _ {ℓ} (t : Target) {T : Type ℓ} where
  -- On agent `i` of a cluster whose deques stand for queues, a deposit does not panic. The deques
  -- still stand for queues, and the runnable jobs are those from before and the new one, each as
  -- often as it was.
  pub deposit_lem :
      (c : Cluster T) (qs : List (List (Job T))) (i : ℕ) (job : Job T)
      → Standing t c.agents qs
      → i < length c.agents
      → (c' : Cluster T) × (qs' : List (List (Job T))) × (deposit t c i job ≡ some c')
        × Standing t c'.agents qs'
        × (length c'.agents ≡ length c.agents)
        × ((test : Job T → Bool)
            → runnable test qs' c' ≡ tally test (job ∷ []) + runnable test qs c)
  unfolding deposit
  deposit_lem c qs i job s lt =
      let (a, q, ea, eq, r) = Standing-get i s lt in
      elim (push-cases t a.deque q job r) [
        | inl (d, e, r') ↦ (
          with_deque c i a d,
          set qs i (q ++ job ∷ []),
          rw (ea, deposit, e),
          Standing-set i (record a { deque = d }) (q ++ job ∷ []) s r',
          length-set c.agents i _,
          λ test.
              omega (
                arith,
                tally_all-set test qs i q (q ++ job ∷ []) eq,
                tally-append test q (job ∷ []),
              ),
        )
        | inr (d, e, r') ↦ (
          record (with_deque c i a d) { injector = c.injector ++ job ∷ [] },
          set qs i q,
          rw (ea, deposit, e),
          Standing-set i (record a { deque = d }) q s r',
          length-set c.agents i _,
          λ test.
              omega
                (arith, tally_all-set test qs i q q eq, tally-append test c.injector (job ∷ [])),
        )
      ]
