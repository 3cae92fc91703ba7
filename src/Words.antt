-- ===== src/Words.antt =====
-- `isize` on the targets of crates/krio-parallel: a bit pattern below `modulus`, read as a signed
-- number, with the wrapping operations that crates/krio-parallel/src/deque.rs uses.
use Prim.Native.Nat.{bit_and, min, digits, bit_and-bitwise}
use native.Mathlib.Nat.{pow-suc, one-le-pow, mod-eq_of_lt}
use krio.Base.{
  ℕ, zero, suc, ◌+◌, ◌-◌, ◌*◌, ◌/◌, ◌%◌, ◌^◌, ◌≤◌, ◌<◌, ◌≡◌, ap, sym, ◌∙◌, Bool, arith, leb, ltb,
  if◌then◌else◌,
}

-- The width of `isize`: 32 bits on wasm32, 64 elsewhere.
pub data Target : Type 0 where
  wasm32 host64 : Target

-- 2 to the width, and half of it: the patterns from `half` on stand for negative numbers.
abbrev pub modulus : Target → ℕ
modulus wasm32 = 2 ^ 32
modulus host64 = 2 ^ 64

abbrev pub half : Target → ℕ
half wasm32 = 2 ^ 31
half host64 = 2 ^ 63

module _ (t : Target) where
  abbrev pub wrapping_add : ℕ → ℕ → ℕ
  wrapping_add a b = (a + b) % modulus t

  abbrev pub wrapping_sub : ℕ → ℕ → ℕ
  wrapping_sub a b = (a + modulus t - b) % modulus t

  abbrev pub is_negative : ℕ → Bool
  is_negative a = leb (half t) a

  -- `a < b` as signed numbers: the order of the patterns with the sign bit flipped.
  abbrev pub signed_lt : ℕ → ℕ → Bool
  signed_lt a b = ltb ((a + half t) % modulus t) ((b + half t) % modulus t)

  -- `a.max(0) as usize`.
  abbrev pub max_zero : ℕ → ℕ
  max_zero a = if is_negative a then 0 else a

pub pow-pos : (k : ℕ) → 0 < 2 ^ k
pow-pos k = one-le-pow k 2 (omega arith)

-- Without its lowest digit, a mask of `k + 1` ones is one of `k`, and the remainder by twice a
-- number splits in the same way.
mask-half : (k : ℕ) → (2 ^ suc k - 1) / 2 ≡ 2 ^ k - 1
mask-half k = omega (arith, pow-suc 2 k, pow-pos k)

mask-odd : (k : ℕ) → (2 ^ suc k - 1) % 2 ≡ 1
mask-odd k = omega (arith, pow-suc 2 k, pow-pos k)

mod_twice : (a p : ℕ) → 0 < p → a % (p * 2) ≡ 2 * (a / 2 % p) + a % 2
mod_twice a p h = grind arith

zero-mod_pow : (k : ℕ) → 0 % 2 ^ k ≡ 0
zero-mod_pow k = omega (arith, mod-eq_of_lt (pow-pos k))

-- Digit by digit, the low `k` digits of a number.
low_digits : (k fuel a : ℕ) → a ≤ fuel → digits (λ rest. 0) min fuel a (2 ^ k - 1) ≡ a % 2 ^ k
low_digits k zero a none_left =
    let empty : a ≡ 0 = omega (arith, none_left) in sym (ap (λ n. n % 2 ^ k) empty ∙ zero-mod_pow k)
low_digits k (suc fuel) zero small = sym (zero-mod_pow k)
low_digits zero (suc fuel) (suc a) small =
    let upper = low_digits zero fuel (suc a / 2) (omega arith) in omega (arith, upper)
low_digits (suc k) (suc fuel) (suc a) small =
    let upper = low_digits k fuel (suc a / 2) (omega arith) in
    let same = ap (digits (λ rest. 0) min fuel (suc a / 2)) (mask-half k) in
    omega (
      arith,
      upper,
      same,
      mask-odd k,
      mod_twice (suc a) (2 ^ k) (pow-pos k),
      ap (λ m. suc a % m) (pow-suc 2 k),
    )

-- A mask of `k` ones keeps the low `k` digits.
pub bit_and-mask : (k a : ℕ) → bit_and a (2 ^ k - 1) ≡ a % 2 ^ k
bit_and-mask k a = bit_and-bitwise a (2 ^ k - 1) ∙ low_digits k a a (omega arith)
