-- ===== src/Cluster/Kept.antt =====
-- What a deposit leaves alone: the parked store, and the parking slots of the agents.
use krio.Base.{
  ℕ, zero, suc, ◌≡◌, refl, ap, sym, inl, inr, Option, none, some, List, [], ◌∷◌, map, set,
  get_elem?, Option-cases,
}
use krio.Words.{Target}
use krio.Deque.{Deque, Pushed, stored, full}
use krio.Deque
use krio.Parked.{Parked}
use krio.Cluster.{Job, Agent, Cluster, settle_push, deposit, after_park}

module _ {ℓ} {T : Type ℓ} where
  abbrev pub park_states : List (Agent T) → List ℕ
  park_states = map (λ a. a.park_state)

  -- The parked store and the slots are those of `c`.
  abbrev pub LeftKept : Cluster T → Option (Cluster T) → Type ℓ
  LeftKept c none = Unit
  LeftKept c (some c') = (c'.waiting ≡ c.waiting) × (park_states c'.agents ≡ park_states c.agents)

  park_states-set :
      (agents : List (Agent T)) (i : ℕ) (a : Agent T) (d : Deque (Job T))
      → get_elem? agents i ≡ some a
      → park_states (set agents i (record a { deque = d })) ≡ park_states agents
  park_states-set [] i a d at = refl
  park_states-set (b ∷ agents) zero a d at =
      let same : b ≡ a = cc at in ap (λ e. e.park_state ∷ park_states agents) (sym same)
  park_states-set (b ∷ agents) (suc i) a d at =
      ap (λ slots. b.park_state ∷ slots) (park_states-set agents i a d at)

  settle_push-Kept :
      (t : Target) (c : Cluster T) (i : ℕ) (a : Agent T)
      (pushed : Option (Pushed (Job T) × Deque (Job T)))
      → get_elem? c.agents i ≡ some a
      → LeftKept c (settle_push t c i a pushed)
  settle_push-Kept t c i a none at = tt
  settle_push-Kept t c i a (some (stored, d)) at = (refl, park_states-set c.agents i a d at)
  settle_push-Kept t c i a (some (full job, d)) at = (refl, park_states-set c.agents i a d at)

  pub deposit-Kept :
      (t : Target) (c : Cluster T) (i : ℕ) (job : Job T) → LeftKept c (deposit t c i job)
  unfolding deposit
  deposit-Kept t c i job = elim (Option-cases (get_elem? c.agents i)) [
    | inl nobody ↦ rw (nobody, deposit) tt
    | inr (a, at) ↦ rw (at, deposit) (settle_push-Kept t c i a (Deque.push t a.deque job) at)
  ]

  pub after_park-Kept :
      (t : Target) (c : Cluster T) (i : ℕ) (back : Option (Job T)) (p : Parked (Job T))
      → LeftKept (record c { waiting = p }) (after_park t c i (back, p))
  after_park-Kept t c i none p = (refl, refl)
  after_park-Kept t c i (some job) p = deposit-Kept t (record c { waiting = p }) i job
