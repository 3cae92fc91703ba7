-- ===== src/Stackless/Executor/Priority/Order.antt =====
-- The order of the members of a region, by priority and then by index.
use krio.Base.{
  ℕ, zero, suc, ◌-◌, ◌^◌, ◌<◌, ◌≤◌, ◌⊎◌, Option, none, some, ltb, ◌==◌, ◌||◌, ◌&&◌, ◌≡◌, false,
  List, [], ◌∷◌, ◌++◌, arith, All,
}
use krio.Stackless.{Coroutine}
use krio.Stackless.Executor.Priority.{or_max, priority_at}

-- The members of the bands, one band after the other.
abbrev pub concat : List (List ℕ) → List ℕ
concat [] = []
concat (band ∷ bands) = band ++ concat bands

-- A priority that is not the largest of a u32.
abbrev pub Below : Option ℕ → Type 0
Below none = Unit
Below (some p) = p < 2 ^ 32 - 1

-- A member with priority `p` and index `i` may run before one with `q` and `j`: the smaller priority
-- first, those without one last, and by index between equals.
abbrev pub InOrder : Option ℕ → Option ℕ → ℕ → ℕ → Type 0
InOrder (some p) (some q) i j = (p < q) ⊎ ((p ≡ q) × (i ≤ j))
InOrder (some p) none i j = Unit
InOrder none (some q) i j = ⊥
InOrder none none i j = i ≤ j

pub keys-InOrder :
    (p q : Option ℕ) (i j : ℕ)
    → Below p
    → Below q
    → (ltb (or_max q) (or_max p) || (or_max q == or_max p) && ltb j i) ≡ false
    → InOrder p q i j
keys-InOrder (some p) (some q) i j b c h = ground (arith, h)
keys-InOrder (some p) none i j b c h = tt
keys-InOrder none (some q) i j b c h = absurd (ground (arith, h, c))
keys-InOrder none none i j b c h = ground (arith, h)

pub priority_at-Below :
    (coroutines : List (Coroutine ℕ)) (i : ℕ)
    → All (λ k. Below k.priority) coroutines
    → Below (priority_at coroutines i)
priority_at-Below [] i all = tt
priority_at-Below (k ∷ coroutines) zero (here, behind) = here
priority_at-Below (k ∷ coroutines) (suc i) (here, behind) = priority_at-Below coroutines i behind
