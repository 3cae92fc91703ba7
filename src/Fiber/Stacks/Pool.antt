-- ===== src/Fiber/Stacks/Pool.antt =====
-- What a thread's pool of stacks gives.
use mathlib.Core.Option.{some-injective}
use krio.Base.{
  ℕ, zero, suc, ◌+◌, ◌<◌, ◌==◌, ==_iff, ◌≡◌, refl, ap, sym, ◌∙◌, Bool, true, false, ◌⊎◌, inl, inr,
  Option, none, some, List, [], ◌∷◌, ◌++◌, arith, length, get_elem?, set, tally, tally-append,
  Bool-cases, Option-cases, snoc_view, subst, lt→ltb, get_elem?-append,
}
use krio.Runtime.Sweep.{swap_remove, pop_back-snoc}
use krio.Fiber.Stacks.{Stack, Thread, rposition, take, take_at, take_from, or_here, picked}

module _ {ℓ} {A : Type ℓ} (test : A → Bool) where
  tally-set :
      (xs : List A) (i : ℕ) (x v : A)
      → get_elem? xs i ≡ some x
      → tally test (set xs i v) + tally test (x ∷ []) ≡ tally test xs + tally test (v ∷ [])
  unfolding tally
  tally-set [] i x v at = absurd (cc at)
  tally-set (y ∷ xs) zero x v at =
      let same : y ≡ x = cc at in omega (arith, ap (λ z. tally test (z ∷ [])) same)
  tally-set (y ∷ xs) (suc i) x v at = omega (arith, tally-set xs i x v at)

module _ {ℓ} {A : Type ℓ} where
  get_elem?-front :
      (ys : List A) (last x : A) (i : ℕ)
      → get_elem? (ys ++ last ∷ []) i ≡ some x
      → (i == length ys) ≡ false
      → (get_elem? ys i ≡ some x) × (i < length ys)
  get_elem?-front [] last x zero at apart = absurd (cc apart)
  get_elem?-front [] last x (suc i) at apart = absurd (cc at)
  get_elem?-front (y ∷ ys) last x zero at apart = (at, omega arith)
  get_elem?-front (y ∷ ys) last x (suc i) at apart =
      let (there, fits) = get_elem?-front ys last x i at (ground (arith, apart)) in
      (there, omega (arith, fits))

  swap_remove-snoc :
      (ys : List A) (last x : A) (i : ℕ)
      → get_elem? (ys ++ last ∷ []) i ≡ some x
      → (out : List A) × (swap_remove i (ys ++ last ∷ []) ≡ some out)
        × ((test : A → Bool) → tally test (ys ++ last ∷ []) ≡ tally test (x ∷ []) + tally test out)
  unfolding swap_remove
  swap_remove-snoc ys last x i at = elim (Bool-cases (i == length ys)) [
    | inl end ↦
        let e : i ≡ length ys = (==_iff i (length ys)).0 end in
        let same : last ≡ x =
          some-injective last x
            (sym (get_elem?-append ys last []) ∙ ap (get_elem? (ys ++ last ∷ [])) (sym e) ∙ at) in
        (
          ys,
          rw (pop_back-snoc ys last, swap_remove, end) refl,
          λ test.
              omega (arith, tally-append test ys (last ∷ []), ap (λ z. tally test (z ∷ [])) same),
        )
    | inr front ↦
        let (there, fits) = get_elem?-front ys last x i at front in
        (
          set ys i last,
          rw (pop_back-snoc ys last, swap_remove, front, lt→ltb i (length ys) fits) refl,
          λ test. omega (arith, tally-append test ys (last ∷ []), tally-set test ys i x last there),
        )
  ]

  -- What the pool has lost is what was at the place.
  tally-swap_remove :
      (xs : List A) (i : ℕ) (x : A)
      → get_elem? xs i ≡ some x
      → (out : List A) × (swap_remove i xs ≡ some out)
        × ((test : A → Bool) → tally test xs ≡ tally test (x ∷ []) + tally test out)
  tally-swap_remove [] i x at = absurd (cc at)
  tally-swap_remove (y ∷ xs) i x at =
      let (ys, last, e) = snoc_view y xs in
      subst
        (λ l.
          (out : List A) × (swap_remove i l ≡ some out)
          × ((test : A → Bool) → tally test l ≡ tally test (x ∷ []) + tally test out))
        (sym e) (swap_remove-snoc ys last x i (ap (λ l. get_elem? l i) (sym e) ∙ at))

pub tally-length {ℓ} : {A : Type ℓ} (xs : List A) → tally (λ x. true) xs ≡ length xs
unfolding tally
tally-length [] = refl
tally-length (x ∷ xs) = omega (arith, tally-length xs)

or_here-cases :
    (here : Bool) (r : Option ℕ) (i : ℕ)
    → or_here here r ≡ some i
    → ((r ≡ none) × (here ≡ true) × (i ≡ 0)) ⊎ ((j : ℕ) × (r ≡ some j) × (i ≡ suc j))
or_here-cases here (some j) i e = inr (j, refl, some-injective i (suc j) (sym e))
or_here-cases true none i e = inl (refl, refl, some-injective i 0 (sym e))
or_here-cases false none i e = absurd (cc e)

rposition-found :
    (n : ℕ) (pool : List Stack) (i : ℕ)
    → rposition n pool ≡ some i
    → (s : Stack) × (get_elem? pool i ≡ some s) × (s.usable_len ≡ n)
unfolding rposition
rposition-found n [] i e = absurd (cc e)
rposition-found n (p ∷ pool) i e = elim (or_here-cases (p.usable_len == n) (rposition n pool) i e) [
  | inl (missing, fits, first) ↦
      (p, ap (get_elem? (p ∷ pool)) first, (==_iff p.usable_len n).0 fits)
  | inr (j, found, later) ↦
      let (s, at, fits) = rposition-found n pool j found in
      (s, ap (get_elem? (p ∷ pool)) later ∙ at, fits)
]

abbrev pub pooled : Option (List Stack) → List Stack
pooled none = []
pooled (some pool) = pool

-- A stack that the pool gives has the length asked for, and the pool is without it.
pub data Taken (th : Thread) (n : ℕ) : Option Stack × Thread → Type 0 where
  nothing : Taken th n (none, th)
  stack :
      (s : Stack) (pool : List Stack)
      → s.usable_len ≡ n
      → ((test : Stack → Bool)
          → tally test (pooled th.pool) ≡ tally test (s ∷ []) + tally test pool)
      → Taken th n (some s, record th { pool = some pool })

take_at-Taken :
    (th : Thread) (pool : List Stack) (n i : ℕ)
    → th.pool ≡ some pool
    → rposition n pool ≡ some i
    → Taken th n (take_at th pool (some i))
take_at-Taken th pool n i here e =
    let (s, at, fits) = rposition-found n pool i e in
    let (out, removed, counts) = tally-swap_remove pool i s at in
    subst (λ x. Taken th n (picked th x (swap_remove i pool))) (sym at)
      (subst (λ x. Taken th n (picked th (some s) x)) (sym removed)
        (Taken.stack s out fits (λ test. ap (λ p. tally test (pooled p)) here ∙ counts test)))

pub take-Taken : (th : Thread) (n : ℕ) → Taken th n (take th n)
unfolding take
take-Taken th n = elim (Option-cases th.pool) [
  | inl gone ↦ subst (λ x. Taken th n (take_from th n x)) (sym gone) Taken.nothing
  | inr (pool, here) ↦
      subst (λ x. Taken th n (take_from th n x)) (sym here)
        (elim (Option-cases (rposition n pool)) [
          | inl missing ↦ subst (λ x. Taken th n (take_at th pool x)) (sym missing) Taken.nothing
          | inr (i, found) ↦
              subst (λ x. Taken th n (take_at th pool x)) (sym found)
                (take_at-Taken th pool n i here found)
        ])
]
