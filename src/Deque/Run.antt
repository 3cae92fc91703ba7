-- ===== src/Deque/Run.antt =====
-- A fresh deque, its length, and whole histories of operations.
use native.Mathlib.Nat.{pow-suc, pow-le-pow_right}
use mathlib.Core.Option
use mathlib.Core.List.{cons≢nil}
use krio.Base.{
  ℕ, zero, suc, ◌+◌, ◌/◌, ◌%◌, ◌^◌, ◌≤◌, ◌<◌, ◌≡◌, refl, ap, Bool-cases, ◌⊎◌, ◌*◌, inl, inr, true,
  Option, none, some, List, [], ◌∷◌, arith, length, length-replicate, ◌↔◌, suc-==-zero, subst, sym,
  leb→le, ltb→lt, ltb_false→le, dec_lt, ltb, leb, ◌==◌,
}
use krio.Words.{Target, wasm32, host64, modulus, half}
use krio.Deque.{
  Deque, Pushed, capacity, next_power_from, next_power_of_two, at_least_two, of_capacity,
  with_capacity, len, is_empty, push, pop, steal,
}
use krio.Deque.Queue
use krio.Deque.Index.{not_negative}
use krio.Deque.Repr.{Repr, live_lem}
use krio.Deque.Refine.{push_refines, steal_refines}
use krio.Deque.Refine.Pop.{pop_refines}

not_last : (j m n : ℕ) → j ≤ m → 2 ^ j < n → n ≤ 2 ^ m → suc j ≤ m
not_last j m n below larger fits = elim (dec_lt j m) [
  | yes p ↦ p
  | no p ↦ let e : j ≡ m = omega arith in absurd (omega (arith, ap (λ i. 2 ^ i) e))
]

-- Doubling from 2 ^ j finds the least power of two that is not below `n`, if one up to 2 ^ m is.
-- Unless it is 1, half of it is below `n`.
next_power_from_lem :
    (fuel j m n : ℕ)
    → j ≤ m
    → n ≤ 2 ^ m
    → m ≤ j + fuel
    → (2 ^ j ≡ 1) ⊎ (2 ^ j < 2 * n)
    → (k : ℕ) × (next_power_from fuel (2 ^ j) n ≡ 2 ^ k)
      × (n ≤ 2 ^ k)
      × (k ≤ m)
      × ((2 ^ k ≡ 1) ⊎ (2 ^ k < 2 * n))
unfolding next_power_from
next_power_from_lem zero j m n below fits enough least =
    let e : m ≡ j = omega arith in (j, refl, rw e at fits, below, least)
next_power_from_lem (suc fuel) j m n below fits enough least = elim (Bool-cases (leb n (2 ^ j))) [
  | inl found ↦ (j, rw found, leb→le _ _ found, below, least)
  | inr more ↦
      let larger : 2 ^ j < n = ground arith in
      let next = not_last j m n below larger fits in
      let doubled : 2 ^ suc j < 2 * n = omega (arith, larger, pow-suc 2 j) in
      rw (more, ← pow-suc 2 j)
        (next_power_from_lem fuel (suc j) m n next fits (omega arith) (inr doubled))
]

-- A capacity is rounded up to a power of two, at least 2.
with_capacity_size :
    (m n : ℕ)
    → 1 ≤ m
    → m ≤ 64
    → n ≤ 2 ^ m
    → (k : ℕ) × (at_least_two (next_power_of_two n) ≡ 2 ^ k)
      × (n ≤ 2 ^ k)
      × (2 ≤ 2 ^ k)
      × (2 ^ k ≤ 2 ^ m)
      × ((2 ^ k ≡ 2) ⊎ (2 ^ k < 2 * n))
with_capacity_size m n pos wide fits =
    let (k, e, above, below, least) =
      next_power_from_lem 64 0 m n (omega arith) fits (omega arith) (inl refl) in
    let le = pow-le-pow_right {n = 2} (omega arith) {i = k} {j = m} below in
    elim (Bool-cases (ltb (2 ^ k) 2)) [
      | inl tiny ↦ (
        1,
        rw (e, tiny),
        omega (arith, ltb→lt _ _ tiny),
        omega arith,
        pow-le-pow_right {n = 2} (omega arith) {i = 1} {j = m} pos,
        inl refl,
      )
      | inr wide' ↦ (
        k,
        rw (e, wide'),
        above,
        ltb_false→le _ _ wide',
        le,
        elim least [
          | inl one ↦ absurd (omega (arith, one, ltb_false→le _ _ wide'))
          | inr lt ↦ inr lt
        ],
      )
    ]

-- The largest argument of `with_capacity` that is rounded to less than half the index space.
abbrev pub max_capacity : Target → ℕ
max_capacity t = half t / 2

size_for :
    (t : Target) (n : ℕ)
    → n ≤ max_capacity t
    → (k : ℕ) × (at_least_two (next_power_of_two n) ≡ 2 ^ k)
      × (n ≤ 2 ^ k)
      × (2 ≤ 2 ^ k)
      × (2 ^ k < half t)
      × ((2 ^ k ≡ 2) ⊎ (2 ^ k < 2 * n))
size_for wasm32 n h =
    let (k, e, above, two, below, least) = with_capacity_size 30 n (omega arith) (omega arith) h in
    (k, e, above, two, omega arith, least)
size_for host64 n h =
    let (k, e, above, two, below, least) = with_capacity_size 62 n (omega arith) (omega arith) h in
    (k, e, above, two, omega arith, least)

module _ {ℓ} {T : Type ℓ} where
  of_capacity-Repr : (t : Target) (k : ℕ) → 2 ^ k < half t → Repr {T = T} t (of_capacity (2 ^ k)) []
  of_capacity-Repr t k h = record {
    bits = k;
    power = length-replicate (2 ^ k) none;
    masked = refl;
    small = h;
    top_in = zero_in t;
    bottom_at = zero_at t;
    fits = omega arith;
    held = tt;
  }
    where
      zero_in : (t : Target) → 0 < modulus t
      zero_in wasm32 = omega arith
      zero_in host64 = omega arith

      zero_at : (t : Target) → 0 ≡ (0 + 0) % modulus t
      zero_at wasm32 = refl
      zero_at host64 = refl

  -- A new deque, of a capacity up to a quarter of the index space, stands for the empty list. Its
  -- capacity is the least power of two that is at least 2 and at least what was asked for: it is 2, or
  -- half of it is less than was asked for.
  pub with_capacity-Repr :
      (t : Target) (n : ℕ)
      → n ≤ max_capacity t
      → Repr {T = T} t (with_capacity n) []
        × (n ≤ capacity {T = T} (with_capacity n))
        × (2 ≤ capacity {T = T} (with_capacity n))
        × ((k : ℕ) × (capacity {T = T} (with_capacity n) ≡ 2 ^ k))
        × ((capacity {T = T} (with_capacity n) ≡ 2) ⊎ (capacity {T = T} (with_capacity n) < 2 * n))
  unfolding with_capacity
  with_capacity-Repr t n h =
      let (k, e, above, two, below, least) = size_for t n h in
      let size = length-replicate {A = Option T} (2 ^ k) none in
      rw e (of_capacity-Repr t k below, rw size above, rw size two, (k, size), rw size least)

  length-eq-zero : (xs : List T) → ((length xs == 0) ≡ true) ↔ (xs ≡ [])
  length-eq-zero [] = (λ e. refl, λ e. refl)
  length-eq-zero (x ∷ xs) = (λ e. cc (suc-==-zero (length xs)), λ e. absurd (cons≢nil e))

  len-length : (t : Target) (d : Deque T) (xs : List T) → Repr t d xs → len t d ≡ length xs
  unfolding len
  len-length t d xs r =
      rw (live_lem t d xs r, not_negative t (length xs) (omega (arith, r.fits, r.small)))

  -- For a deque that stands for a list, `len` is the length of the list, and `is_empty` tells
  -- whether it has no element.
  pub len_lem :
      (t : Target) (d : Deque T) (xs : List T)
      → Repr t d xs
      → (len t d ≡ length xs) × ((is_empty t d ≡ true) ↔ (xs ≡ []))
  unfolding is_empty
  len_lem t d xs r = (
    len-length t d xs r,
    subst (λ n. ((n == 0) ≡ true) ↔ (xs ≡ [])) (sym (len-length t d xs r)) (length-eq-zero xs),
  )

pub data Op {ℓ} (T : Type ℓ) : Type ℓ where
  pushes : T → Op T
  pops steals : Op T

pub data Reply {ℓ} (T : Type ℓ) : Type ℓ where
  pushed : Pushed T → Reply T
  took : Option T → Reply T

module _ {ℓ} {T : Type ℓ} where
  -- One operation and its answer; `none` is a fault.
  unfoldable pub apply : Target → Deque T → Op T → Option (Reply T × Deque T)
  apply t d (pushes v) = elim (push t d v) [ none ↦ none | some (a, d') ↦ some (pushed a, d') ]
  apply t d pops = elim (pop t d) [ none ↦ none | some (a, d') ↦ some (took a, d') ]
  apply t d steals = elim (steal t d) [ none ↦ none | some (a, d') ↦ some (took a, d') ]

  -- The answers of a history of operations; `none` is a fault in one of them.
  unfoldable pub run : Target → Deque T → List (Op T) → Option (List (Reply T))
  run t d [] = some []
  run t d (op ∷ ops) = elim (apply t d op) [
    | none ↦ none
    | some (a, d') ↦ Option.map (λ answers. a ∷ answers) (run t d' ops)
  ]

  -- The same of the bounded queue.
  unfoldable pub apply_queue : ℕ → List T → Op T → Reply T × List T
  apply_queue cap xs (pushes v) = let (a, ys) = Queue.push cap xs v in (pushed a, ys)
  apply_queue cap xs pops = let (a, ys) = Queue.pop xs in (took a, ys)
  apply_queue cap xs steals = let (a, ys) = Queue.steal xs in (took a, ys)

  unfoldable pub run_queue : ℕ → List T → List (Op T) → List (Reply T)
  run_queue cap xs [] = []
  run_queue cap xs (op ∷ ops) = let (a, ys) = apply_queue cap xs op in a ∷ run_queue cap ys ops

  apply_refines :
      (t : Target) (d : Deque T) (xs : List T) (op : Op T)
      → Repr t d xs
      → (d' : Deque T) × (apply t d op ≡ some ((apply_queue (capacity d) xs op).0, d'))
        × Repr t d' (apply_queue (capacity d) xs op).1
        × (capacity d' ≡ capacity d)
  unfolding apply apply_queue
  apply_refines t d xs (pushes v) r =
      let (d', e, r', c) = push_refines t d xs r v in (d', rw (e, apply), r', c)
  apply_refines t d xs pops r =
      let (d', e, r', c) = pop_refines t d xs r in (d', rw (e, apply), r', c)
  apply_refines t d xs steals r =
      let (d', e, r', c) = steal_refines t d xs r in (d', rw (e, apply), r', c)

  -- No history of operations tells a deque that stands for a list from the bounded queue of that
  -- list, wherever in the index space it stands, and none faults.
  pub run_refines :
      (t : Target) (d : Deque T) (xs : List T) (ops : List (Op T))
      → Repr t d xs
      → run t d ops ≡ some (run_queue (capacity d) xs ops)
  unfolding run run_queue
  run_refines t d xs [] r = refl
  run_refines t d xs (op ∷ ops) r =
      let (d', e, r', c) = apply_refines t d xs op r in rw (e, run, run_refines t d' _ ops r', c)
