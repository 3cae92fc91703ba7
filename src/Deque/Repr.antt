-- ===== src/Deque/Repr.antt =====
-- When a deque stands for a list, oldest first: the indices in terms of the list's length, and the
-- slots that hold its elements.
pub mod Slots
use Prim.Native.Nat.{bit_and}
use krio.Base.{
  ℕ, zero, suc, ◌+◌, ◌-◌, ◌%◌, ◌^◌, ◌≤◌, ◌<◌, ◌≡◌, refl, ap, sym, ◌∙◌, true, false, Option, none,
  some, List, [], ◌∷◌, ◌++◌, arith, length, length-append, length-set, get_elem?, set,
  get_elem?-set_self, ltb, leb, lt→ltb,
}
use krio.Words.{
  Target, wasm32, host64, modulus, half, wrapping_add, wrapping_sub, signed_lt, bit_and-mask,
  pow-pos,
}
use native.Mathlib.Nat.{mod-lt}
use krio.Deque.{Deque, slot, read, len}
use krio.Deque.Index.{live}
use Slots.{Holds, Holds-cong, Holds-snoc, Holds-init, Holds-last, Holds-set, mod-modulus}

pub record Repr {ℓ} {T : Type ℓ} (t : Target) (d : Deque T) (xs : List T) : Type ℓ where
  pub bits : ℕ
  pub power : length d.buf ≡ 2 ^ bits
  pub masked : d.mask ≡ 2 ^ bits - 1
  pub small : 2 ^ bits < half t
  pub top_in : d.top < modulus t
  pub bottom_at : d.bottom ≡ (d.top + length xs) % modulus t
  pub fits : length xs ≤ 2 ^ bits
  pub held : Holds d.buf (2 ^ bits) d.top xs

module _ {ℓ} {T : Type ℓ} (t : Target) (d : Deque T) where
  module _ (xs : List T) (r : Repr t d xs) where
    open r use {bits, power, masked, small, top_in, bottom_at, fits, held}

    pub live_lem : wrapping_sub t d.bottom d.top ≡ length xs
    live_lem = live t d.top d.bottom (length xs) (2 ^ bits) top_in bottom_at fits small

    -- An index lies in the slot of its remainder.
    pub slot-mod : (i : ℕ) → slot d i ≡ i % 2 ^ bits
    slot-mod i = ap (bit_and i) masked ∙ bit_and-mask bits i

    pub slot-lt : (i : ℕ) → slot d i < length d.buf
    slot-lt i = omega (arith, slot-mod i, power, mod-lt i (pow-pos bits))

    -- The slot of `bottom`, and what a wrapped index names.
    pub slot-wrapped : (i n : ℕ) → i ≡ (d.top + n) % modulus t → slot d i ≡ (d.top + n) % 2 ^ bits
    slot-wrapped i n e =
        slot-mod i ∙ ap (λ j. j % 2 ^ bits) e ∙ mod-modulus t bits (d.top + n) small
