-- ===== src/Deque/Repr/Slots.antt =====
-- Slots of a buffer used in a ring: where an element at an index lies, and what a write leaves alone.
use native.Mathlib.Nat.{
  mod-add-mod, mod-eq_of_lt, mod-eq-sub-mod, mod-lt, pow-suc, pow-le-pow_right, mod-mod_of_dvd,
  dvd-mul_left,
}
use krio.Base.{
  ℕ, zero, suc, ◌+◌, ◌-◌, ◌*◌, ◌%◌, ◌^◌, ◌≤◌, ◌<◌, ◌≡◌, sym, ap, ◌∙◌, ◌≢◌, Option, some, List, [],
  ◌∷◌, ◌++◌, arith, length, get_elem?, set, get_elem?-set_ne, dec_lt,
}
use krio.Words.{Target, wasm32, host64, modulus, half}

module _ {ℓ} {T : Type ℓ} (buf : List (Option T)) (cap : ℕ) where
  -- The elements lie at the indices from `h` on, each in the slot of its index.
  abbrev pub Holds : ℕ → List T → Type ℓ
  Holds h [] = Unit
  Holds h (x ∷ xs) = (get_elem? buf (h % cap) ≡ some (some x)) × Holds (suc h) xs

  suc-mod-cong : (h h' : ℕ) → h % cap ≡ h' % cap → suc h % cap ≡ suc h' % cap
  suc-mod-cong h h' e =
      ap (λ n. n % cap) (omega arith)
      ∙ sym (mod-add-mod h cap 1)
      ∙ ap (λ r. (r + 1) % cap) e
      ∙ mod-add-mod h' cap 1
      ∙ ap (λ n. n % cap) (omega arith)

  -- Only the slot of an index matters.
  pub Holds-cong : (h h' : ℕ) (xs : List T) → h % cap ≡ h' % cap → Holds h xs → Holds h' xs
  Holds-cong h h' [] e held = tt
  Holds-cong h h' (x ∷ xs) e held = (
    ap (get_elem? buf) (sym e) ∙ held.0,
    Holds-cong (suc h) (suc h') xs (suc-mod-cong h h' e) held.1,
  )

  pub Holds-snoc :
      (h : ℕ) (xs : List T) (y : T)
      → Holds h xs
      → get_elem? buf ((h + length xs) % cap) ≡ some (some y)
      → Holds h (xs ++ y ∷ [])
  Holds-snoc h [] y held e = (ap (λ n. get_elem? buf (n % cap)) (omega arith) ∙ e, tt)
  Holds-snoc h (x ∷ xs) y held e =
      (held.0, Holds-snoc (suc h) xs y held.1 (ap (λ n. get_elem? buf (n % cap)) (omega arith) ∙ e))

  pub Holds-init : (h : ℕ) (xs : List T) (y : T) → Holds h (xs ++ y ∷ []) → Holds h xs
  Holds-init h [] y held = tt
  Holds-init h (x ∷ xs) y held = (held.0, Holds-init (suc h) xs y held.1)

  pub Holds-last :
      (h : ℕ) (xs : List T) (y : T)
      → Holds h (xs ++ y ∷ [])
      → get_elem? buf ((h + length xs) % cap) ≡ some (some y)
  Holds-last h [] y held = ap (λ n. get_elem? buf (n % cap)) (omega arith) ∙ held.0
  Holds-last h (x ∷ xs) y held =
      ap (λ n. get_elem? buf (n % cap)) (omega arith) ∙ Holds-last (suc h) xs y held.1

-- Fewer than `cap` steps round the ring do not come back to the same slot.
mod-add-ne : (cap h k : ℕ) → 0 < k → k < cap → h % cap ≢ (h + k) % cap
mod-add-ne cap h k pos lt e = elim (dec_lt (h % cap + k) cap) [
  | yes p ↦ omega (arith, mod-eq_of_lt p, mod-add-mod h cap k)
  | no p ↦ omega (
    arith,
    mod-add-mod h cap k,
    mod-lt h {m = cap} (omega arith),
    mod-eq-sub-mod {n = h % cap + k} {m = cap} (omega arith),
    mod-eq_of_lt {n = h % cap + k - cap} {m = cap}
        (omega (arith, mod-lt h {m = cap} (omega arith))),
  )
]

-- A write to the slot of an index that is at most `cap` past the first element, and past the last,
-- leaves all of them alone.
pub Holds-set {ℓ} :
    {T : Type ℓ} (buf : List (Option T)) (cap h i : ℕ) (v : Option T) (xs : List T)
    → h + length xs ≤ i
    → i < h + cap
    → Holds buf cap h xs
    → Holds (set buf (i % cap) v) cap h xs
Holds-set buf cap h i v [] past near held = tt
Holds-set buf cap h i v (x ∷ xs) past near held = (
  get_elem?-set_ne buf (i % cap) (h % cap) v apart ∙ held.0,
  Holds-set buf cap (suc h) i v xs (omega arith) (omega arith) held.1,
)
  where
    apart : i % cap ≢ h % cap
    apart e =
        mod-add-ne cap h (i - h) (omega arith) (omega arith)
          (sym e ∙ ap (λ n. n % cap) (omega arith))

pow-multiple : (k m : ℕ) → (q : ℕ) × (2 ^ (k + m) ≡ q * 2 ^ k)
pow-multiple k zero = (1, let e : k + 0 ≡ k = omega arith in rw e (omega arith))
pow-multiple k (suc m) =
    let (q, e) = pow-multiple k m in
    let next : k + suc m ≡ suc (k + m) = omega arith in
    (q * 2, rw (next, pow-suc) (omega (arith, e)))

pow-split : (k n : ℕ) → k ≤ n → (q : ℕ) × (2 ^ n ≡ q * 2 ^ k)
pow-split k n h = let (q, e) = pow-multiple k (n - k) in (q, ap (λ j. 2 ^ j) (omega arith) ∙ e)

exponent-le : (k n : ℕ) → 2 ^ k < 2 ^ n → k ≤ n
exponent-le k n h = elim (dec_lt n k) [
  | yes p ↦ omega (arith, pow-le-pow_right {n = 2} (omega arith) {i = n} {j = k} (omega arith))
  | no p ↦ omega arith
]

-- A power of two below half the modulus divides it.
pub divides_modulus : (t : Target) (k : ℕ) → 2 ^ k < half t → (q : ℕ) × (modulus t ≡ q * 2 ^ k)
divides_modulus wasm32 k h = pow-split k 32 (exponent-le k 32 (omega arith))
divides_modulus host64 k h = pow-split k 64 (exponent-le k 64 (omega arith))

-- So the slot of an index is the same before and after it wraps.
pub mod-modulus : (t : Target) (k a : ℕ) → 2 ^ k < half t → a % modulus t % 2 ^ k ≡ a % 2 ^ k
mod-modulus t k a h =
    let (q, e) = divides_modulus t k h in mod-mod_of_dvd (2 ^ k) a (rw e (dvd-mul_left (2 ^ k) q))
