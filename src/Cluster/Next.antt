-- ===== src/Cluster/Next.antt =====
-- `next_job` finds a job if there is one, and loses none.
use mathlib.Core.Option.{some-injective}
use native.Mathlib.Nat.{mod-eq_of_lt}
use krio.Base.{
  ℕ, suc, ◌+◌, ◌%◌, ◌^◌, ◌≤◌, ◌<◌, ◌≡◌, refl, ap, subst, sym, ◌∙◌, Bool, Option, none, some, List,
  [], ◌∷◌, arith, length, length-set, get_elem?-set_self, get_elem?, set, Bool-cases, inl, inr, ltb,
  ltb_false→le,
}
use krio.Words.{Target, modulus}
use krio.Deque.Queue
use krio.Injector
use krio.Cluster.{Job, Agent, Cluster, with_deque, steal_round, beyond_own, next_job}
use krio.Base.{tally}
use krio.Cluster.Jobs.{
  tally_all, tally_all-set, tally-steal, tally-pop, Standing, Standing-get, Standing-set, runnable,
  nobody, agent,
}
use krio.Cluster.Search.{pop-cases, victim_of, victim, Nothing, steal_round_lem}

-- Queues that are all empty hold nothing.
tally_all-empty {ℓ} :
    {A : Type ℓ} (test : A → Bool) (qs : List (List A))
    → ((j : ℕ) → j < length qs → get_elem? qs j ≡ some [])
    → tally_all test qs ≡ 0
unfolding tally_all tally
tally_all-empty test [] h = refl
tally_all-empty test (q ∷ qs) h =
    let empty : q ≡ [] = some-injective q [] (h 0 (omega arith)) in
    omega (arith, ap (tally test) empty, tally_all-empty test qs (λ j lt. h (suc j) (omega arith)))

module _ {ℓ} {t : Target} {T : Type ℓ} where
  Standing-length :
      {agents : List (Agent T)} {qs : List (List (Job T))}
      → Standing t agents qs
      → length agents ≡ length qs
  Standing-length nobody = refl
  Standing-length (agent r s) = ap suc (Standing-length s)

-- The answer of `next_job`, and the jobs it leaves: all but the one it found, or none at all.
pub data Answer {ℓ} {T : Type ℓ} (c : Cluster T) (qs : List (List (Job T)))
    : Option (Job T × Option ℕ) → Cluster T → List (List (Job T)) → Type ℓ where
  took :
      (job : Job T) (from : Option ℕ) (c' : Cluster T) (qs' : List (List (Job T)))
      → ((test : Job T → Bool) → runnable test qs c ≡ tally test (job ∷ []) + runnable test qs' c')
      → Answer c qs (some (job, from)) c' qs'
  nothing_left :
      (c' : Cluster T) (qs' : List (List (Job T)))
      → ((test : Job T → Bool) → runnable test qs c ≡ 0)
      → ((test : Job T → Bool) → runnable test qs' c' ≡ 0)
      → Answer c qs none c' qs'

module _ {ℓ} (t : Target) {T : Type ℓ} where
  -- The outcome of a search, `found`, for the jobs of `c` in `qs`.
  abbrev pub Finds :
      Option (Option (Job T × Option ℕ) × Cluster T) → Cluster T → List (List (Job T)) → Type ℓ
  Finds found c qs =
      (job : Option (Job T × Option ℕ)) × (c' : Cluster T) × (qs' : List (List (Job T))) × (found
        ≡ some (job, c'))
      × Standing t c'.agents qs'
      × (length c'.agents ≡ length c.agents)
      × Answer c qs job c' qs'

  -- When no victim of a whole round has a job, and the thief has none, no queue has any.
  round_empty :
      (c : Cluster T) (qs : List (List (Job T))) (i start : ℕ) (s : Standing t c.agents qs)
      (some_agent : 0 < length c.agents)
      → start + length c.agents ≤ modulus t
      → get_elem? qs i ≡ some []
      → Nothing t c qs i start s some_agent 0 (length c.agents)
      → (j : ℕ) → j < length qs
      → get_elem? qs j ≡ some []
  round_empty c qs i start s some_agent near own none_left j lt =
      let (m, below, is) = victim_of (length c.agents) start j (omega (arith, Standing-length s)) in
      let at : victim t c qs i start s some_agent (0 + m) ≡ j =
        ap (λ x. (start + x) % modulus t % length c.agents) (omega arith)
        ∙ ap (λ x. x % length c.agents)
            (mod-eq_of_lt {n = start + m} {m = modulus t} (omega (arith, near, below)))
        ∙ is in
      elim (none_left m below) [
        | inl thief ↦ subst (λ x. get_elem? qs x ≡ some []) (sym thief ∙ at) own
        | inr empty ↦ subst (λ x. get_elem? qs x ≡ some []) at empty
      ]

  -- The answer is as good for a cluster with the same runnable jobs.
  Answer-same :
      (c d : Cluster T) (qs ps : List (List (Job T))) {job : Option (Job T × Option ℕ)}
      {c' : Cluster T} {qs' : List (List (Job T))}
      → ((test : Job T → Bool) → runnable test ps d ≡ runnable test qs c)
      → Answer c qs job c' qs'
      → Answer d ps job c' qs'
  Answer-same c d qs ps same (took job from c' qs' kept) =
      took job from c' qs' (λ test. same test ∙ kept test)
  Answer-same c d qs ps same (nothing_left c' qs' before after) =
      nothing_left c' qs' (λ test. same test ∙ before test) after

  runnable-none :
      (c : Cluster T) (qs : List (List (Job T)))
      → ((j : ℕ) → j < length qs → get_elem? qs j ≡ some [])
      → c.injector ≡ []
      → (test : Job T → Bool) → runnable test qs c ≡ 0
  unfolding tally
  runnable-none c qs empty e test = omega (arith, tally_all-empty test qs empty, ap (tally test) e)

  -- A round of steals over all the agents, behind an empty deque and an empty injector.
  round_lem :
      (c : Cluster T) (qs : List (List (Job T))) (i start : ℕ)
      → Standing t c.agents qs
      → i < length c.agents
      → start + length c.agents ≤ modulus t
      → get_elem? qs i ≡ some []
      → c.injector ≡ []
      → Finds (steal_round t c i start 0 (length c.agents)) c qs
  round_lem c qs i start s lt near own e =
      let some_agent : 0 < length c.agents = omega (arith, lt) in
      elim (steal_round_lem t c qs i start s some_agent 0 (length c.agents)) [
        | inl (run, none_left) ↦
            let none_runs =
              runnable-none c qs (round_empty c qs i start s some_agent near own none_left) e in
            (none, c, qs, run, s, refl, nothing_left c qs none_runs none_runs)
        | inr (job, v, c', qs', run, stand, size, kept) ↦
            (some (job, some v), c', qs', run, stand, size, took job (some v) c' qs' kept)
      ]

  -- Behind the agent's own deque, which is empty.
  beyond_own_lem :
      (c : Cluster T) (qs : List (List (Job T))) (i : ℕ)
      → Standing t c.agents qs
      → i < length c.agents
      → c.rotor + length c.agents ≤ modulus t
      → get_elem? qs i ≡ some []
      → (queue : List (Job T)) → c.injector ≡ queue
      → Finds (beyond_own t c i (Injector.pop queue)) c qs
  unfolding beyond_own
  beyond_own_lem c qs i s lt near own (x ∷ queue) e = (
    some (x, none),
    record c { injector = queue },
    qs,
    refl,
    s,
    refl,
    took x none _ qs (λ test. omega (arith, ap (tally test) e, tally-steal test x queue)),
  )
  beyond_own_lem c qs i s lt near own [] e = elim (Bool-cases (ltb 1 (length c.agents))) [
    | inr single ↦
        let none_runs =
          runnable-none c qs
            (λ j below.
              subst (λ x. get_elem? qs x ≡ some [])
                (omega (arith, Standing-length s, lt, below, ltb_false→le _ _ single)) own)
            e in
        (none, c, qs, rw (single, beyond_own), s, refl, nothing_left c qs none_runs none_runs)
    | inl several ↦
        let turned = record c { rotor = (c.rotor + 1) % 2 ^ 32 } in
        let (job, c', qs', run, stand, size, answer) =
          round_lem turned qs i c.rotor s lt near own e in
        (
          job,
          c',
          qs',
          rw (several, beyond_own) run,
          stand,
          size,
          Answer-same turned c qs qs (λ test. refl) answer,
        )
  ]

  -- For agent `i` of a cluster whose deques stand for queues, and whose rotor is not within one round
  -- of the end of `usize`, `next_job` does not panic. It answers a job exactly if some queue or the
  -- injector has one. The jobs left are those from before but for that one, each as often as it was.
  pub next_job_lem :
      (c : Cluster T) (qs : List (List (Job T))) (i : ℕ)
      → Standing t c.agents qs
      → i < length c.agents
      → c.rotor + length c.agents ≤ modulus t
      → Finds (next_job t c i) c qs
  unfolding next_job
  next_job_lem c qs i s lt near =
      let (a, q, ea, eq, r) = Standing-get i s lt in
      elim (pop-cases t a.deque q r) [
        | inl (d, e, none_left, r') ↦
            let emptied = with_deque c i a d in
            let at = get_elem?-set_self qs i [] (omega (arith, Standing-length s, lt)) in
            let size = length-set c.agents i (record a { deque = d }) in
            let (job, c', qs', run, stand, size', answer) =
              beyond_own_lem emptied (set qs i []) i
                (Standing-set i (record a { deque = d }) [] s r') (omega (arith, size, lt))
                (omega (arith, size, near)) at c.injector refl in
            (
              job,
              c',
              qs',
              rw (ea, next_job, e) run,
              stand,
              size' ∙ size,
              Answer-same emptied c (set qs i []) qs
                  (λ test.
                    omega (arith, tally_all-set test qs i q [] eq, ap (tally test) none_left))
                  answer,
            )
        | inr (v, d, e, is, r') ↦ (
          some (v, none),
          with_deque c i a d,
          set qs i (Queue.pop q).1,
          rw (ea, next_job, e),
          Standing-set i (record a { deque = d }) (Queue.pop q).1 s r',
          length-set c.agents i _,
          took v none _ _ (λ test.
              omega (arith, tally_all-set test qs i q (Queue.pop q).1 eq, tally-pop test q v is)),
        )
      ]
