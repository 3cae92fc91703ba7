-- ===== src/Cluster/Jobs.antt =====
-- The jobs that a cluster holds: how many satisfy a test, wherever they stand.
use krio.Base.{
  tally, ℕ, zero, suc, ◌+◌, ◌<◌, ◌≡◌, refl, ap, Bool, some, List, [], ◌∷◌, arith, length, get_elem?,
  set,
}
use krio.Words.{Target}
use krio.Deque.Queue
use krio.Deque.Repr.{Repr}
use krio.Cluster.{Job, Agent, Cluster}

module _ {ℓ} {A : Type ℓ} (test : A → Bool) where
  unfoldable pub tally_all : List (List A) → ℕ
  unfolding tally
  tally_all [] = 0
  tally_all (q ∷ qs) = tally test q + tally_all qs

  pub tally_all-set :
      (qs : List (List A)) (i : ℕ) (q new : List A)
      → get_elem? qs i ≡ some q
      → tally_all (set qs i new) + tally test q ≡ tally_all qs + tally test new
  unfolding tally_all
  tally_all-set [] i q new at = absurd (cc at)
  tally_all-set (p ∷ qs) zero q new at =
      let same : p ≡ q = cc at in omega (arith, ap (tally test) same)
  tally_all-set (p ∷ qs) (suc i) q new at = omega (arith, tally_all-set qs i q new at)

  -- The queue's operations, by what they do to the tally.
  pub tally-steal :
      (x : A) (xs : List A) → tally test (x ∷ xs) ≡ tally test (x ∷ []) + tally test xs
  unfolding tally
  tally-steal x xs = omega arith

  pub tally-pop :
      (xs : List A) (v : A)
      → (Queue.pop xs).0 ≡ some v
      → tally test xs ≡ tally test (v ∷ []) + tally test (Queue.pop xs).1
  unfolding tally Queue.pop
  tally-pop [] v e = absurd (cc e)
  tally-pop (x ∷ []) v e =
      let same : x ≡ v = cc e in omega (arith, ap (λ y. tally test (y ∷ [])) same)
  tally-pop (x ∷ y ∷ xs) v e = omega (arith, tally-pop (y ∷ xs) v e)

-- Each agent's deque stands for its queue.
pub data Standing {ℓ} (t : Target) {T : Type ℓ}
    : List (Agent T) → List (List (Job T)) → Type ℓ where
  nobody : Standing t [] []
  agent :
      {a : Agent T} {q : List (Job T)} {agents : List (Agent T)} {qs : List (List (Job T))}
      → Repr t a.deque q
      → Standing t agents qs
      → Standing t (a ∷ agents) (q ∷ qs)

module _ {ℓ} {t : Target} {T : Type ℓ} where
  pub Standing-get :
      {agents : List (Agent T)} {qs : List (List (Job T))} (i : ℕ)
      → Standing t agents qs
      → i < length agents
      → (a : Agent T) × (q : List (Job T)) × (get_elem? agents i ≡ some a)
        × (get_elem? qs i ≡ some q)
        × Repr t a.deque q
  Standing-get i nobody lt = absurd (omega arith)
  Standing-get zero (agent {a} {q} r s) lt = (a, q, refl, refl, r)
  Standing-get (suc i) (agent r s) lt = Standing-get i s (omega arith)

  pub Standing-set :
      {agents : List (Agent T)} {qs : List (List (Job T))} (i : ℕ) (a : Agent T) (q : List (Job T))
      → Standing t agents qs
      → Repr t a.deque q
      → Standing t (set agents i a) (set qs i q)
  Standing-set i a q nobody r = nobody
  Standing-set zero a q (agent old s) r = agent r s
  Standing-set (suc i) a q (agent old s) r = agent old (Standing-set i a q s r)

module _ {ℓ} {T : Type ℓ} where
  -- The runnable jobs that satisfy the test, in the queues and in the injector.
  abbrev pub runnable : (Job T → Bool) → List (List (Job T)) → Cluster T → ℕ
  runnable test qs c = tally_all test qs + tally test c.injector
