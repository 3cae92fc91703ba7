-- ===== src/Fiber/Stacks/Balance.antt =====
-- What is mapped for a thread is its live stacks and those of its pool.
use krio.Base.{
  ℕ, ◌+◌, ◌≤◌, ◌==◌, ◌≡◌, refl, ap, sym, ◌∙◌, Bool, true, false, inl, inr, some, List, [], ◌∷◌,
  ◌++◌, arith, length, length-append, tally, tally-append, leb, if◌then◌else◌, Bool-cases,
  Option-cases, subst,
}
use krio.Fiber.Stacks.Pool.{pooled}
use krio.Fiber.Stacks.{
  Stack, Thread, new_thread, same_region, munmap, region, park_in, settled, drop_stack, unmap_all,
  drop_pool,
}

-- How many of the stacks are in regions that satisfy the test.
abbrev pub regions : (ℕ × ℕ → Bool) → List Stack → ℕ
regions test stacks = tally (λ s. test (region s)) stacks

munmap-tally :
    (r q : ℕ × ℕ) (mapped : List (ℕ × ℕ))
    → 1 ≤ tally (same_region r) mapped
    → tally (same_region q) (munmap r mapped) + (if same_region q r then 1 else 0)
      ≡ tally (same_region q) mapped
unfolding munmap tally
munmap-tally r q [] there = absurd (omega (arith, there))
munmap-tally r q (x ∷ mapped) there = ground (arith, there, munmap-tally r q mapped)

munmap-le :
    (test : ℕ × ℕ → Bool) (r : ℕ × ℕ) (mapped : List (ℕ × ℕ))
    → tally test (munmap r mapped) ≤ tally test mapped
unfolding munmap tally
munmap-le test r [] = omega arith
munmap-le test r (x ∷ mapped) = ground (arith, munmap-le test r mapped)

-- What is mapped is the live stacks and those of the pool, no base twice, and the pool is bounded.
pub record Balanced (th : Thread) (live : List Stack) : Type 0 where
  pub counts :
      (q : ℕ × ℕ)
      → tally (same_region q) th.mapped
        ≡ regions (same_region q) live + regions (same_region q) (pooled th.pool)
  pub unique : (b : ℕ) → tally (λ r. r.0 == b) th.mapped ≤ 1
  pub bounded : length (pooled th.pool) ≤ 16

pub new_thread-Balanced : Balanced new_thread []
unfolding tally
new_thread-Balanced = record {
  counts = λ q. refl;
  unique = λ b. omega arith;
  bounded = omega arith;
}

regions-middle :
    (test : ℕ × ℕ → Bool) (front back : List Stack) (s : Stack)
    → regions test (front ++ s ∷ back)
      ≡ (if test (region s) then 1 else 0) + regions test (front ++ back)
unfolding tally
regions-middle test front back s = omega (
  arith,
  tally-append (λ x. test (region x)) front (s ∷ back),
  tally-append (λ x. test (region x)) front back,
)

same_region_self : (q : ℕ × ℕ) → same_region q q ≡ true
same_region_self (base, total) = ground arith

munmap-Balanced :
    (th : Thread) (front back : List Stack) (s : Stack)
    → Balanced th (front ++ s ∷ back)
    → Balanced (record th { mapped = munmap (region s) th.mapped }) (front ++ back)
munmap-Balanced th front back s b =
    let there : 1 ≤ tally (same_region (region s)) th.mapped = ground (
      arith,
      b.counts (region s),
      regions-middle (same_region (region s)) front back s,
      same_region_self (region s),
    ) in
    record {
      counts = λ q. omega (
        arith,
        munmap-tally (region s) q th.mapped there,
        b.counts q,
        regions-middle (same_region q) front back s,
      );
      unique = λ x. omega (arith, munmap-le (λ r. r.0 == x) (region s) th.mapped, b.unique x);
      bounded = b.bounded;
    }

park-Balanced :
    (th : Thread) (front back : List Stack) (s : Stack) (pool : List Stack)
    → th.pool ≡ some pool
    → leb 16 (length pool) ≡ false
    → Balanced th (front ++ s ∷ back)
    → Balanced (record th { pool = some (pool ++ s ∷ []) }) (front ++ back)
unfolding tally
park-Balanced th front back s pool here room b = record {
  counts = λ q. omega (
    arith,
    b.counts q,
    regions-middle (same_region q) front back s,
    ap (λ p. regions (same_region q) (pooled p)) here,
    tally-append (λ x. same_region q (region x)) pool (s ∷ []),
  );
  unique = b.unique;
  bounded = ground (arith, room, length-append pool (s ∷ []));
}

pub drop_stack-Balanced :
    (th : Thread) (front back : List Stack) (s : Stack)
    → Balanced th (front ++ s ∷ back)
    → Balanced (drop_stack th s) (front ++ back)
unfolding drop_stack
drop_stack-Balanced th front back s b = elim (Option-cases th.pool) [
  | inl gone ↦
      subst (λ x. Balanced (settled s (park_in th s x)) (front ++ back)) (sym gone)
        (munmap-Balanced th front back s b)
  | inr (pool, here) ↦
      subst (λ x. Balanced (settled s (park_in th s x)) (front ++ back)) (sym here)
        (elim (Bool-cases (leb 16 (length pool))) [
          | inl full ↦ rw full (munmap-Balanced th front back s b)
          | inr room ↦ rw room (park-Balanced th front back s pool here room b)
        ])
]

unmap_all-tally :
    (pool : List Stack) (mapped : List (ℕ × ℕ)) (live : (ℕ × ℕ) → ℕ)
    → ((q : ℕ × ℕ) → tally (same_region q) mapped ≡ live q + regions (same_region q) pool)
    → (q : ℕ × ℕ) → tally (same_region q) (unmap_all pool mapped) ≡ live q
unfolding unmap_all tally
unmap_all-tally [] mapped live counts q = omega (arith, counts q)
unmap_all-tally (s ∷ pool) mapped live counts q =
    unmap_all-tally pool (munmap (region s) mapped) live
      (λ r. omega (
        arith,
        counts r,
        munmap-tally (region s) r mapped
            (ground (arith, counts (region s), same_region_self (region s))),
      ))
      q

unmap_all-le :
    (test : ℕ × ℕ → Bool) (pool : List Stack) (mapped : List (ℕ × ℕ))
    → tally test (unmap_all pool mapped) ≤ tally test mapped
unfolding unmap_all
unmap_all-le test [] mapped = omega arith
unmap_all-le test (s ∷ pool) mapped =
    omega
      (arith, unmap_all-le test pool (munmap (region s) mapped), munmap-le test (region s) mapped)

pub drop_pool-Balanced :
    (th : Thread) (live : List Stack) → Balanced th live → Balanced (drop_pool th) live
unfolding drop_pool tally
drop_pool-Balanced th live b = elim (Option-cases th.pool) [
  | inl gone ↦ record {
    counts =
        λ q. rw gone (omega (arith, b.counts q, ap (λ p. regions (same_region q) (pooled p)) gone));
    unique = λ x. rw gone (b.unique x);
    bounded = omega arith;
  }
  | inr (pool, here) ↦ record {
    counts = λ q. rw here (
        omega (
          arith,
          unmap_all-tally pool th.mapped (λ r. regions (same_region r) live)
              (λ r.
                b.counts r
                ∙ ap (λ p. regions (same_region r) live + regions (same_region r) (pooled p)) here)
              q,
        ));
    unique = λ x. rw here (omega (arith, unmap_all-le (λ r. r.0 == x) pool th.mapped, b.unique x));
    bounded = omega arith;
  }
]
