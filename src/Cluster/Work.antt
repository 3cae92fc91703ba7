-- ===== src/Cluster/Work.antt =====
-- `has_work` tells whether a job is runnable anywhere in the cluster.
use krio.Base.{◌≡◌, refl, ap, ◌↔◌, Bool, true, false, List, [], ◌∷◌, arith, Bool-cases, inl, inr}
use krio.Words.{Target}
use krio.Deque
use krio.Deque.Run.{len_lem}
use krio.Injector
use krio.Cluster.{Job, Agent, Cluster, any_deque, has_work}
use krio.Base.{tally}
use krio.Cluster.Jobs.{tally_all, Standing, nobody, agent, runnable}

-- Every job.
abbrev pub any_job {ℓ} : {T : Type ℓ} → Job T → Bool
any_job job = true

module _ {ℓ} (t : Target) {T : Type ℓ} where
  tally-any_job : (q : List (Job T)) → (tally any_job q ≡ 0) ↔ (q ≡ [])
  unfolding tally
  tally-any_job [] = (λ e. refl, λ e. refl)
  tally-any_job (x ∷ q) = (λ e. absurd (omega (arith, e)), λ e. ap (tally any_job) e)

  injector-none : (q : List (Job T)) → (Injector.is_empty q ≡ true) ↔ (tally any_job q ≡ 0)
  unfolding tally
  injector-none [] = (λ e. refl, λ e. refl)
  injector-none (x ∷ q) = (λ e. absurd (cc e), λ e. absurd (omega (arith, e)))

  any_deque-none :
      {agents : List (Agent T)} {qs : List (List (Job T))}
      → Standing t agents qs
      → (any_deque t agents ≡ false) ↔ (tally_all any_job qs ≡ 0)
  unfolding any_deque tally_all
  any_deque-none nobody = (λ e. refl, λ e. refl)
  any_deque-none (agent {a} {q} r s) =
      let empty = (len_lem t a.deque q r).1 in
      let rest = any_deque-none s in
      let none_here = tally-any_job q in
      elim (Bool-cases (Deque.is_empty t a.deque)) [
        | inl idle ↦
            let zero_here = none_here.1 (empty.0 idle) in
            rw idle (λ e. omega (arith, zero_here, rest.0 e), λ e. rest.1 (omega (arith, e)))
        | inr busy ↦
            rw busy (
              λ e. absurd (cc e),
              λ e. absurd (cc (empty.1 (none_here.0 (omega (arith, e))), busy)),
            )
      ]

  -- In a cluster whose deques stand for queues, `has_work` is false exactly if no job is runnable.
  pub has_work_iff :
      (c : Cluster T) (qs : List (List (Job T)))
      → Standing t c.agents qs
      → (has_work t c ≡ false) ↔ (runnable any_job qs c ≡ 0)
  unfolding has_work
  has_work_iff c qs s =
      let rest = any_deque-none s in
      let over = injector-none c.injector in
      elim (Bool-cases (Injector.is_empty c.injector)) [
        | inl idle ↦
            let zero_here = over.0 idle in
            rw idle (λ e. omega (arith, zero_here, rest.0 e), λ e. rest.1 (omega (arith, e)))
        | inr busy ↦
            rw busy (λ e. absurd (cc e), λ e. absurd (cc (over.1 (omega (arith, e)), busy)))
      ]
