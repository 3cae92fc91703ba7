-- ===== src/Cluster/Search.antt =====
-- The round of steals in `next_job` finds a job if a victim has one, and loses none.
use native.Mathlib.Nat.{mod-lt, mod-eq_of_lt, mod-add-mod, add-mod_right}
use krio.Base.{
  ℕ, zero, suc, ◌+◌, ◌-◌, ◌%◌, ◌<◌, ◌≡◌, refl, ap, subst, sym, ◌∙◌, ◌⊎◌, Bool, none, some, List, [],
  ◌∷◌, arith, length, length-set, get_elem?, set, Bool-cases, inl, inr, ◌==◌, ==_iff, dec_lt,
}
use krio.Words.{Target, modulus}
use krio.Deque.{Deque, capacity}
use krio.Deque
use krio.Deque.Queue
use krio.Deque.Repr.{Repr}
use krio.Deque.Refine.{steal_refines}
use krio.Deque.Refine.Pop.{pop_refines}
use krio.Cluster.{Job, Cluster, with_deque, steal_round}
use krio.Base.{tally}
use krio.Cluster.Jobs.{tally_all-set, tally-steal, Standing, Standing-get, Standing-set, runnable}

module _ {ℓ} (t : Target) {T : Type ℓ} where
  -- A steal from the deque of a queue: its first element, or nothing if it is empty.
  steal-cases :
      (d : Deque T) (q : List T)
      → Repr t d q
      → ((d' : Deque T) × (Deque.steal t d ≡ some (none, d')) × (q ≡ []))
        ⊎ ((x : T) × (xs : List T) × (d' : Deque T) × (Deque.steal t d ≡ some (some x, d'))
            × (q ≡ x ∷ xs)
            × Repr t d' xs)
  unfolding Queue.steal
  steal-cases d [] r = let (d', e, r', same) = steal_refines t d [] r in inl (d', e, refl)
  steal-cases d (x ∷ xs) r =
      let (d', e, r', same) = steal_refines t d (x ∷ xs) r in inr (x, xs, d', e, refl, r')

  queue_pop-some : (x : T) (xs : List T) → (v : T) × ((Queue.pop (x ∷ xs)).0 ≡ some v)
  unfolding Queue.pop
  queue_pop-some x [] = (x, refl)
  queue_pop-some x (y ∷ xs) = queue_pop-some y xs

  -- A pop: the last element, or nothing if it is empty.
  pub pop-cases :
      (d : Deque T) (q : List T)
      → Repr t d q
      → ((d' : Deque T) × (Deque.pop t d ≡ some (none, d')) × (q ≡ []) × Repr t d' [])
        ⊎ ((v : T) × (d' : Deque T) × (Deque.pop t d ≡ some (some v, d'))
            × ((Queue.pop q).0 ≡ some v)
            × Repr t d' (Queue.pop q).1)
  unfolding Queue.pop
  pop-cases d [] r = let (d', e, r', same) = pop_refines t d [] r in inl (d', e, refl, r')
  pop-cases d (x ∷ xs) r =
      let (d', e, r', same) = pop_refines t d (x ∷ xs) r in
      let (v, is) = queue_pop-some x xs in inr (v, d', e ∙ ap (λ o. some (o, d')) is, is, r')

-- Every agent is a victim of the round that starts anywhere.
pub victim_of : (n start j : ℕ) → j < n → (m : ℕ) × (m < n) × ((start + m) % n ≡ j)
victim_of n start j lt = elim (dec_lt j (start % n)) [
  | yes before ↦ (
    j + n - start % n,
    omega (arith, before, mod-lt start {m = n} (omega arith)),
    sym (mod-add-mod start n (j + n - start % n))
        ∙ ap (λ x. x % n) (omega (arith, mod-lt start {m = n} (omega arith)))
        ∙ add-mod_right j n
        ∙ mod-eq_of_lt lt,
  )
  | no behind ↦ (
    j - start % n,
    omega (arith, lt),
    sym (mod-add-mod start n (j - start % n))
        ∙ ap (λ x. x % n) (omega (arith, behind))
        ∙ mod-eq_of_lt lt,
  )
]

module _ {ℓ} (t : Target) {T : Type ℓ} (c : Cluster T) (qs : List (List (Job T))) (i start : ℕ)
    (s : Standing t c.agents qs) (some_agent : 0 < length c.agents) where
  abbrev pub victim : ℕ → ℕ
  victim k = (start + k) % modulus t % length c.agents

  -- The victims from `k` on, as many as `left`, have nothing, but for the thief itself.
  abbrev pub Nothing : ℕ → ℕ → Type ℓ
  Nothing k left =
      (m : ℕ) → m < left → (victim (k + m) ≡ i) ⊎ (get_elem? qs (victim (k + m)) ≡ some [])

  -- A job was stolen, and it came from the queues.
  abbrev pub Stolen : ℕ → ℕ → Type ℓ
  Stolen k left =
      (job : Job T) × (v : ℕ) × (c' : Cluster T) × (qs' : List (List (Job T))) × (steal_round t c i
          start k left
        ≡ some (some (job, some v), c'))
      × Standing t c'.agents qs'
      × (length c'.agents ≡ length c.agents)
      × ((test : Job T → Bool) → runnable test qs c ≡ tally test (job ∷ []) + runnable test qs' c')

  abbrev pub Searched : ℕ → ℕ → Type ℓ
  Searched k left =
      ((steal_round t c i start k left ≡ some (none, c)) × Nothing k left) ⊎ Stolen k left

  Nothing-suc :
      (k left : ℕ)
      → (victim k ≡ i) ⊎ (get_elem? qs (victim k) ≡ some [])
      → Nothing (k + 1) left
      → Nothing k (suc left)
  Nothing-suc k left here rest zero lt =
      subst (λ x. (victim x ≡ i) ⊎ (get_elem? qs (victim x) ≡ some [])) (omega arith) here
  Nothing-suc k left here rest (suc m) lt =
      subst (λ x. (victim x ≡ i) ⊎ (get_elem? qs (victim x) ≡ some [])) (omega arith)
        (rest m (omega arith))

  -- A victim with nothing is passed over.
  Searched-pass :
      (k left : ℕ)
      → steal_round t c i start k (suc left) ≡ steal_round t c i start (k + 1) left
      → (victim k ≡ i) ⊎ (get_elem? qs (victim k) ≡ some [])
      → Searched (k + 1) left
      → Searched k (suc left)
  Searched-pass k left same here (inl (e, rest)) = inl (same ∙ e, Nothing-suc k left here rest)
  Searched-pass k left same here (inr (job, v, c', qs', e, stand, size, kept)) =
      inr (job, v, c', qs', same ∙ e, stand, size, kept)

  -- The round steals a job, or no victim has one.
  pub steal_round_lem : (k left : ℕ) → Searched k left
  unfolding steal_round
  steal_round_lem k zero = inl (refl, λ m lt. absurd (omega arith))
  steal_round_lem k (suc left) = elim (Bool-cases (victim k == i)) [
    | inl own ↦
        Searched-pass k left (rw (own, steal_round) refl) (inl ((==_iff (victim k) i).0 own))
          (steal_round_lem (k + 1) left)
    | inr other ↦
        let (a, q, ea, eq, r) = Standing-get (victim k) s (mod-lt _ some_agent) in
        elim (steal-cases t a.deque q r) [
          | inl (d, e, none_left) ↦
              Searched-pass k left (rw (other, steal_round, ea, e) refl)
                (inr (eq ∙ ap some none_left)) (steal_round_lem (k + 1) left)
          | inr (x, xs, d, e, is, r') ↦ inr (
            x,
            victim k,
            with_deque c (victim k) a d,
            set qs (victim k) xs,
            rw (other, steal_round, ea, e),
            Standing-set (victim k) (record a { deque = d }) xs s r',
            length-set c.agents (victim k) _,
            λ test. omega (
              arith,
              tally_all-set test qs (victim k) q xs eq,
              tally-steal test x xs,
              ap (tally test) is,
            ),
          )
        ]
  ]
