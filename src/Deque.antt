-- ===== src/Deque.antt =====
-- crates/krio-parallel/src/deque.rs: the bounded Chase-Lev deque, each operation run without
-- interference. The indices are `isize` patterns (Words), so that they wrap as the code's do. A slot
-- is `none` until it is written: reading such a slot, or one out of bounds, is a fault.
pub mod Queue
pub mod Index
pub mod Repr
pub mod Refine
pub mod Run
mod Examples
use Prim.Native.Nat.{bit_and}
use krio.Base.{
  ℕ, zero, suc, ◌+◌, ◌-◌, ◌*◌, ◌%◌, Bool, true, false, not, ◌||◌, Option, none, some, List, [], ◌∷◌,
  length, get_elem?, set, replicate, ltb, leb, ◌==◌, if◌then◌else◌,
}
use krio.Words.{Target, modulus, half, wrapping_add, wrapping_sub, is_negative, signed_lt, max_zero}

pub record Deque {ℓ} (T : Type ℓ) : Type ℓ where
  pub top : ℕ
  pub bottom : ℕ
  pub mask : ℕ
  pub buf : List (Option T)

-- What `push` returns: `Ok(())`, or the value back.
pub data Pushed {ℓ} (T : Type ℓ) : Type ℓ where
  stored : Pushed T
  full : T → Pushed T

-- `usize::next_power_of_two`, by doubling from `p`.
unfoldable pub next_power_from : ℕ → ℕ → ℕ → ℕ
next_power_from zero p n = p
next_power_from (suc fuel) p n =
    let bigger = next_power_from fuel (p * 2) n in if leb n p then p else bigger

-- At most as many doublings as `usize` has bits.
abbrev pub next_power_of_two : ℕ → ℕ
next_power_of_two n = next_power_from 64 1 n

-- `n.max(2)`.
abbrev pub at_least_two : ℕ → ℕ
at_least_two n = if ltb n 2 then 2 else n

module _ {ℓ} {T : Type ℓ} where
  -- The part of `with_capacity` behind the rounding of its argument.
  abbrev pub of_capacity : ℕ → Deque T
  of_capacity cap = record { top = 0; bottom = 0; mask = cap - 1; buf = replicate cap none }

  -- `with_capacity`.
  unfoldable pub with_capacity : ℕ → Deque T
  with_capacity cap = of_capacity (at_least_two (next_power_of_two cap))

  abbrev pub capacity : Deque T → ℕ
  capacity d = length d.buf

  -- `(i & self.mask) as usize`.
  abbrev pub slot : Deque T → ℕ → ℕ
  slot d i = bit_and i d.mask

  -- `assume_init_read` of the slot of index `i`; `none` is a fault.
  abbrev pub read : Deque T → ℕ → Option T
  read d i = elim (get_elem? d.buf (slot d i)) [ none ↦ none | some bits ↦ bits ]

module _ {ℓ} (t : Target) {T : Type ℓ} where
  -- `len`.
  unfoldable pub len : Deque T → ℕ
  len d = max_zero t (wrapping_sub t d.bottom d.top)

  -- `is_empty`.
  unfoldable pub is_empty : Deque T → Bool
  unfolding len
  is_empty d = len d == 0

  -- `push`; `none` is a write out of bounds.
  unfoldable pub push : Deque T → T → Option (Pushed T × Deque T)
  push d value =
      if not (signed_lt t (wrapping_sub t d.bottom d.top) (capacity d))
      then some (full value, d)
      else if ltb (slot d d.bottom) (length d.buf)
      then some (
        stored,
        record d {
          buf = set d.buf (slot d d.bottom) (some value);
          bottom = wrapping_add t d.bottom 1;
        },
      )
      else none

  -- The owner's claim: `bottom` goes down before `top` is read.
  abbrev pub claim : Deque T → Deque T
  claim d = record d { bottom = wrapping_sub t d.bottom 1 }

  -- `bottom.store(b.wrapping_add(1))` after the claim.
  abbrev pub restore : Deque T → Deque T
  restore d = record d { bottom = wrapping_add t d.bottom 1 }

  -- A read that becomes the result: a fault stays one.
  abbrev pub deliver : Option T → Deque T → Option (Option T × Deque T)
  deliver none d = none
  deliver (some v) d = some (some v, d)

  -- `pop` behind its claim, where `bottom` is the index `b`. With no thief the compare-exchange on
  -- `top` succeeds.
  unfoldable pub pop_claimed : Deque T → Option (Option T × Deque T)
  pop_claimed d =
      let left = wrapping_sub t d.bottom d.top in
      if is_negative t left
      then some (none, restore d)
      else if left == 0
      then deliver (read d d.bottom) (restore (record d { top = wrapping_add t d.top 1 }))
      else deliver (read d d.bottom) d

  -- `pop`.
  unfoldable pub pop : Deque T → Option (Option T × Deque T)
  unfolding pop_claimed
  pop d = pop_claimed (claim d)

  -- `steal`: the value is read before the compare-exchange that claims it, which succeeds when no
  -- other agent interferes.
  unfoldable pub steal : Deque T → Option (Option T × Deque T)
  steal d =
      let live = wrapping_sub t d.bottom d.top in
      if is_negative t live || live == 0
      then some (none, d)
      else deliver (read d d.top) (record d { top = wrapping_add t d.top 1 })
