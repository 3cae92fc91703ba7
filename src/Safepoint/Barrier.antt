-- ===== src/Safepoint/Barrier.antt =====
-- The count of the barrier is right at every point of every interleaving.
use krio.Base.{
  ℕ, zero, suc, ◌+◌, ◌^◌, ◌≤◌, ◌<◌, ◌≡◌, refl, ap, sym, ◌∙◌, some, List, [], ◌∷◌, arith, length,
  length-set, get_elem?, set, Bool-cases, inl, inr, replicate,
}
use krio.Safepoint.{
  Safepoint, new, requested, request, release, Place, outside, arriving, waiting, leaving, System,
  Step, requests, releases, observes, announces, resumes, departs, Reaches, here, after,
}

-- 1 for an agent that the barrier counts: it waits, or is on its way out.
abbrev pub weight : Place → ℕ
weight outside = 0
weight (arriving snapshot) = 0
weight (waiting snapshot) = 1
weight leaving = 1

unfoldable pub inside : List Place → ℕ
inside [] = 0
inside (p ∷ places) = weight p + inside places

inside-set :
    (places : List Place) (i : ℕ) (old next : Place)
    → get_elem? places i ≡ some old
    → inside (set places i next) + weight old ≡ inside places + weight next
unfolding inside
inside-set [] i old next at = absurd (cc at)
inside-set (p ∷ places) zero old next at =
    let same : p ≡ old = cc at in omega (arith, ap weight same)
inside-set (p ∷ places) (suc i) old next at = omega (arith, inside-set places i old next at)

inside-length : (places : List Place) → inside places ≤ length places
unfolding inside
inside-length [] = omega arith
inside-length (outside ∷ places) = omega (arith, inside-length places)
inside-length (arriving k ∷ places) = omega (arith, inside-length places)
inside-length (waiting k ∷ places) = omega (arith, inside-length places)
inside-length (leaving ∷ places) = omega (arith, inside-length places)

pub record IsCounted (n : ℕ) (s : System) : Type 0 where
  pub count : s.safepoint.stopped ≡ inside s.places
  pub size : length s.places ≡ n

stopped-request : (s : Safepoint) → (request s).1.stopped ≡ s.stopped
unfolding request
stopped-request s = elim (Bool-cases (requested s)) [ inl e ↦ rw e refl | inr e ↦ rw e refl ]

stopped-release : (s : Safepoint) → (release s).stopped ≡ s.stopped
unfolding release
stopped-release s = elim (Bool-cases (requested s)) [ inl e ↦ rw e refl | inr e ↦ rw e refl ]

Step-IsCounted : (n : ℕ) (s s' : System) → n < 2 ^ 32 → IsCounted n s → Step s s' → IsCounted n s'
Step-IsCounted n s s' small k requests = record {
  count = stopped-request s.safepoint ∙ k.count;
  size = k.size;
}
Step-IsCounted n s s' small k releases = record {
  count = stopped-release s.safepoint ∙ k.count;
  size = k.size;
}
Step-IsCounted n s s' small k (observes i at stop) = record {
  count = omega (arith, k.count, inside-set s.places i outside (arriving s.safepoint.state) at);
  size = length-set s.places i _ ∙ k.size;
}
Step-IsCounted n s s' small k (announces i snapshot at) = record {
  count = omega (
    arith,
    k.count,
    k.size,
    inside-set s.places i (arriving snapshot) (waiting snapshot) at,
    inside-length (set s.places i (waiting snapshot)),
    length-set s.places i (waiting snapshot),
  );
  size = length-set s.places i _ ∙ k.size;
}
Step-IsCounted n s s' small k (resumes i snapshot at changed) = record {
  count = omega (arith, k.count, inside-set s.places i (waiting snapshot) leaving at);
  size = length-set s.places i _ ∙ k.size;
}
Step-IsCounted n s s' small k (departs i at) = record {
  count =
      omega
        (arith, k.count, k.size, inside-set s.places i leaving outside at, inside-length s.places);
  size = length-set s.places i _ ∙ k.size;
}

-- `n` agents, none of them in `enter`.
abbrev pub quiet : ℕ → System
quiet n = record { safepoint = new; places = replicate n outside }

inside-quiet : (n : ℕ) → (inside (replicate n outside) ≡ 0) × (length (replicate n outside) ≡ n)
unfolding inside
inside-quiet zero = (refl, refl)
inside-quiet (suc n) = let (a, b) = inside-quiet n in (omega (arith, a), ap suc b)

-- Whatever steps fewer than 2 ^ 32 agents and the requesters take, `stopped` is the number of agents
-- that wait at the barrier or are on their way out of it: a requester that sees it at some number
-- has that many agents there.
pub Reaches-IsCounted : (n : ℕ) (s : System) → n < 2 ^ 32 → Reaches (quiet n) s → IsCounted n s
Reaches-IsCounted n s small here = let (a, b) = inside-quiet n in record { count = sym a; size = b }
Reaches-IsCounted n s small (after {s = before} r step) =
    Step-IsCounted n before s small (Reaches-IsCounted n before small r) step
