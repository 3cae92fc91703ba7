-- ===== src/Fiber/Stacks/Lives.antt =====
-- The stacks of a thread, whatever it makes and drops.
use mathlib.Core.Option.{some-injective}
use krio.Base.{
  ℕ, ◌+◌, ◌==◌, ◌≡◌, refl, ap, sym, ◌∙◌, true, inl, inr, Option, some, List, [], ◌∷◌, ◌++◌, arith,
  tally, Option-cases, subst,
}
use krio.Fiber.Stacks.Pool.{pooled, Taken, tally-length, take-Taken, nothing, stack}
use krio.Fiber.Stacks.{
  Stack, Thread, new_thread, same_region, region, take, drop_stack, drop_pool, usable_size, mmap_at,
  mmap_stack, new_stack, or_mmap,
}
use krio.Fiber.Stacks.Balance.{
  Balanced, new_thread-Balanced, drop_stack-Balanced, drop_pool-Balanced,
}

-- What the system promises of `mmap`: a new region does not start where one is mapped already.
abbrev pub Fresh : (List (ℕ × ℕ) → ℕ → Option ℕ) → Type 0
Fresh mmap =
    (mapped : List (ℕ × ℕ)) (n base : ℕ)
    → mmap mapped n ≡ some base
    → tally (λ r. r.0 == base) mapped ≡ 0

module _ (page_size : ℕ) (mmap : List (ℕ × ℕ) → ℕ → Option ℕ) where
  -- The stacks that a thread has, after any stacks made and dropped and the end of the thread.
  pub data Reaches : Thread → List Stack → Type 0 where
    fresh : Reaches new_thread []
    made :
        (th th' : Thread) (live : List Stack) (s : Stack) (requested : ℕ)
        → Reaches th live
        → new_stack page_size mmap th requested ≡ some (s, th')
        → Reaches th' (s ∷ live)
    dropped :
        (th : Thread) (front back : List Stack) (s : Stack)
        → Reaches th (front ++ s ∷ back)
        → Reaches (drop_stack th s) (front ++ back)
    ended : (th : Thread) (live : List Stack) → Reaches th live → Reaches (drop_pool th) live

module _ (page_size : ℕ) (mmap : List (ℕ × ℕ) → ℕ → Option ℕ) (system : Fresh mmap) where
  mmap_stack-Balanced :
      (th th' : Thread) (live : List Stack) (s : Stack) (requested : ℕ)
      → mmap_stack page_size mmap th requested ≡ some (s, th')
      → Balanced th live
      → Balanced th' (s ∷ live) × (s.usable_len ≡ usable_size page_size requested)
  unfolding tally
  mmap_stack-Balanced th th' live s requested e b =
      elim (Option-cases (mmap th.mapped (usable_size page_size requested + page_size))) [
        | inl failed ↦ absurd (cc (e, failed))
        | inr (base, found) ↦
            let new : Stack = record {
              base = base;
              total_bytes = usable_size page_size requested + page_size;
              usable_start = base + page_size;
              usable_len = usable_size page_size requested;
            } in
            let th1 : Thread = record th { mapped = region new ∷ th.mapped } in
            let same : (new, th1) ≡ (s, th') =
              some-injective (new, th1) (s, th')
                (ap (mmap_at page_size mmap th requested) (sym found) ∙ e) in
            subst
              (λ x. Balanced x.1 (x.0 ∷ live) × (x.0.usable_len ≡ usable_size page_size requested))
              same
              (
                record {
                  counts = λ q. omega (arith, b.counts q);
                  unique = λ x. ground (
                    arith,
                    b.unique x,
                    system th.mapped (usable_size page_size requested + page_size) base found,
                  );
                  bounded = b.bounded;
                },
                refl,
              )
      ]

  or_mmap-Balanced :
      (th th' : Thread) (live : List Stack) (s : Stack) (requested : ℕ) (x : Option Stack × Thread)
      → Taken th (usable_size page_size requested) x
      → or_mmap page_size mmap requested x ≡ some (s, th')
      → Balanced th live
      → Balanced th' (s ∷ live) × (s.usable_len ≡ usable_size page_size requested)
  unfolding tally
  or_mmap-Balanced th th' live s requested _ nothing e b =
      mmap_stack-Balanced th th' live s requested e b
  or_mmap-Balanced th th' live s requested _ (stack t pool fits counts) e b =
      let th1 : Thread = record th { pool = some pool } in
      let same : (t, th1) ≡ (s, th') = some-injective (t, th1) (s, th') e in
      subst (λ x. Balanced x.1 (x.0 ∷ live) × (x.0.usable_len ≡ usable_size page_size requested))
        same
        (
          record {
            counts = λ q. omega (arith, b.counts q, counts (λ x. same_region q (region x)));
            unique = b.unique;
            bounded = omega (
              arith,
              b.bounded,
              counts (λ x. true),
              tally-length pool,
              tally-length (pooled th.pool),
            );
          },
          fits,
        )

  new_stack-Balanced :
      (th th' : Thread) (live : List Stack) (s : Stack) (requested : ℕ)
      → new_stack page_size mmap th requested ≡ some (s, th')
      → Balanced th live
      → Balanced th' (s ∷ live) × (s.usable_len ≡ usable_size page_size requested)
  unfolding new_stack
  new_stack-Balanced th th' live s requested e b =
      or_mmap-Balanced th th' live s requested (take th (usable_size page_size requested))
        (take-Taken th (usable_size page_size requested)) e b

  -- Whatever stacks a thread makes and drops, and whether it has ended or not, what is mapped is
  -- exactly its live stacks and those of its pool, each once; no two regions start at one base; and
  -- the pool has 16 stacks at most.
  pub Reaches-Balanced :
      (th : Thread) (live : List Stack) → Reaches page_size mmap th live → Balanced th live
  Reaches-Balanced _ _ Reaches.fresh = new_thread-Balanced
  Reaches-Balanced _ _ (Reaches.made th th' live s requested from e) =
      (new_stack-Balanced th th' live s requested e (Reaches-Balanced th live from)).0
  Reaches-Balanced _ _ (Reaches.dropped th front back s from) =
      drop_stack-Balanced th front back s (Reaches-Balanced th (front ++ s ∷ back) from)
  Reaches-Balanced _ _ (Reaches.ended th live from) =
      drop_pool-Balanced th live (Reaches-Balanced th live from)

  -- When a thread with no live stack drops its pool, nothing is left mapped for it.
  pub drop_pool-empty :
      (th : Thread)
      → Reaches page_size mmap th []
      → (q : ℕ × ℕ) → tally (same_region q) (drop_pool th).mapped ≡ 0
  unfolding tally drop_pool
  drop_pool-empty th from q = (drop_pool-Balanced th [] (Reaches-Balanced th [] from)).counts q
