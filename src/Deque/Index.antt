-- ===== src/Deque/Index.antt =====
-- The wrapping index arithmetic of crates/krio-parallel/src/deque.rs on each target.
use krio.Base.{ℕ, suc, ◌+◌, ◌%◌, ◌≤◌, ◌<◌, ◌≡◌, false, arith, ltb}
use krio.Words.{
  Target, wasm32, host64, modulus, half, wrapping_add, wrapping_sub, signed_lt, is_negative,
}

-- The difference of the indices is the number of elements, also where they have wrapped.
pub live :
    (t : Target) (top bottom n cap : ℕ)
    → top < modulus t
    → bottom ≡ (top + n) % modulus t
    → n ≤ cap
    → cap < half t
    → wrapping_sub t bottom top ≡ n
live wasm32 top bottom n cap p q r s = omega arith
live host64 top bottom n cap p q r s = omega arith

-- One less than that difference, when it is 0, is negative.
pub claim_negative :
    (t : Target) (top bottom : ℕ)
    → top < modulus t
    → bottom ≡ (top + 0) % modulus t
    → half t ≤ wrapping_sub t (wrapping_sub t bottom 1) top
claim_negative wasm32 top bottom p q = omega arith
claim_negative host64 top bottom p q = omega arith

pub bottom_in :
    (t : Target) (top bottom n : ℕ) → bottom ≡ (top + n) % modulus t → bottom < modulus t
bottom_in wasm32 top bottom n q = omega arith
bottom_in host64 top bottom n q = omega arith

pub claim_restore :
    (t : Target) (bottom : ℕ)
    → bottom < modulus t
    → wrapping_add t (wrapping_sub t bottom 1) 1 ≡ bottom
claim_restore wasm32 b p = omega arith
claim_restore host64 b p = omega arith

-- The claimed index is that of the last element.
pub claim_at :
    (t : Target) (top bottom n : ℕ)
    → top < modulus t
    → bottom ≡ (top + suc n) % modulus t
    → wrapping_sub t bottom 1 ≡ (top + n) % modulus t
claim_at wasm32 top bottom n p q = omega arith
claim_at host64 top bottom n p q = omega arith

pub bottom_next :
    (t : Target) (top bottom n : ℕ)
    → bottom ≡ (top + n) % modulus t
    → wrapping_add t bottom 1 ≡ (top + suc n) % modulus t
bottom_next wasm32 top bottom n q = omega arith
bottom_next host64 top bottom n q = omega arith

-- Taking the first element moves `top` on, and leaves `bottom` where it was.
pub top_next :
    (t : Target) (top bottom n : ℕ)
    → top < modulus t
    → bottom ≡ (top + suc n) % modulus t
    → (wrapping_add t top 1 < modulus t) × (bottom ≡ (wrapping_add t top 1 + n) % modulus t)
top_next wasm32 top bottom n p q = omega arith
top_next host64 top bottom n p q = omega arith

-- Between numbers below `half` the signed order is the order.
pub signed_lt-small : (t : Target) (a b : ℕ) → a < half t → b < half t → signed_lt t a b ≡ ltb a b
signed_lt-small wasm32 a b p q = ground arith
signed_lt-small host64 a b p q = ground arith

-- A count below `half` is no negative number.
pub not_negative : (t : Target) (n : ℕ) → n < half t → is_negative t n ≡ false
not_negative t n h = ground arith

pub half_pos : (t : Target) → 0 < half t
half_pos wasm32 = omega arith
half_pos host64 = omega arith
