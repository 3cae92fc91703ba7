-- ===== src/Deque/Refine.antt =====
-- Each operation of the deque does to the list that the deque stands for what the queue does to it:
-- `push` and `steal`.
pub mod Pop
use native.Mathlib.Nat.{mod-lt}
use krio.Base.{
  ℕ, suc, ◌+◌, ◌%◌, ◌^◌, ◌≤◌, ◌<◌, ◌≡◌, refl, ap, subst, sym, ◌∙◌, inl, inr, Bool-cases, some, List,
  [], ◌∷◌, ◌++◌, arith, length, length-append, length-set, get_elem?, set, get_elem?-set_self, ltb,
  lt→ltb, ltb→lt, suc-==-zero, snoc_view, le→leb,
}
use krio.Words.{Target, modulus, wrapping_add, wrapping_sub, signed_lt, pow-pos}
use krio.Deque.{Deque, capacity, slot, read, claim, restore, push, pop, pop_claimed, steal}
use krio.Deque.Queue
use krio.Deque.Index.{
  claim_negative, bottom_in, claim_restore, claim_at, bottom_next, top_next, signed_lt-small,
  not_negative, half_pos,
}
use krio.Deque.Repr.{Repr, live_lem, slot-mod, slot-lt, slot-wrapped}
use krio.Deque.Repr.Slots.{
  Holds, Holds-cong, Holds-snoc, Holds-init, Holds-last, Holds-set, mod-modulus,
}

module _ {ℓ} {T : Type ℓ} (t : Target) (d : Deque T) (xs : List T) (r : Repr t d xs) where
  open r use {bits, power, masked, small, top_in, bottom_at, fits, held}

  -- The guard of `push` is the comparison of the length with the capacity.
  push_guard :
      signed_lt t (wrapping_sub t d.bottom d.top) (capacity d) ≡ ltb (length xs) (length d.buf)
  push_guard =
      ap (λ n. signed_lt t n (length d.buf)) (live_lem t d xs r)
      ∙ signed_lt-small t (length xs) (length d.buf) (omega arith) (omega arith)

  abbrev written : T → Deque T
  written v = record d {
    buf = set d.buf (slot d d.bottom) (some v);
    bottom = wrapping_add t d.bottom 1;
  }

  bottom_slot : slot d d.bottom ≡ (d.top + length xs) % 2 ^ bits
  bottom_slot = slot-wrapped t d xs r d.bottom (length xs) bottom_at

  written-held :
      (v : T)
      → length xs < 2 ^ bits
      → Holds (set d.buf (slot d d.bottom) (some v)) (2 ^ bits) d.top (xs ++ v ∷ [])
  written-held v room = rw bottom_slot (
      Holds-snoc _ (2 ^ bits) d.top xs v
        (Holds-set d.buf (2 ^ bits) d.top (d.top + length xs) (some v) xs (omega arith)
          (omega arith) held)
        (get_elem?-set_self d.buf ((d.top + length xs) % 2 ^ bits) (some v)
          (omega (arith, power, mod-lt (d.top + length xs) (pow-pos bits)))))

  written-Repr : (v : T) → length xs < 2 ^ bits → Repr t (written v) (xs ++ v ∷ [])
  written-Repr v room = record {
    bits = bits;
    power = length-set d.buf (slot d d.bottom) (some v) ∙ power;
    masked = masked;
    small = small;
    top_in = top_in;
    bottom_at =
        bottom_next t d.top d.bottom (length xs) bottom_at
        ∙ ap (λ n. (d.top + n) % modulus t) (omega (arith, length-append xs (v ∷ [])));
    fits = omega (arith, length-append xs (v ∷ []));
    held = written-held v room;
  }

  -- `push` answers as the bounded queue does, and leaves the deque standing for the queue's list.
  pub push_refines :
      (v : T)
      → (d' : Deque T) × (push t d v ≡ some ((Queue.push (capacity d) xs v).0, d'))
        × Repr t d' (Queue.push (capacity d) xs v).1
        × (capacity d' ≡ capacity d)
  unfolding push Queue.push
  push_refines v = elim (Bool-cases (ltb (length xs) (length d.buf))) [
    | inl room ↦ (
      written v,
      rw (push_guard, room, lt→ltb _ _ (slot-lt t d xs r d.bottom)),
      rw room (written-Repr v (omega (arith, ltb→lt _ _ room, power))),
      length-set d.buf (slot d d.bottom) (some v),
    )
    | inr no_room ↦ (d, rw (push_guard, no_room), rw no_room r, refl)
  ]

  -- `steal` answers as the queue does: the first element, or nothing.
  abbrev Steals : Type ℓ
  Steals =
      (d' : Deque T) × (steal t d ≡ some ((Queue.steal xs).0, d'))
      × Repr t d' (Queue.steal xs).1
      × (capacity d' ≡ capacity d)

module _ {ℓ} {T : Type ℓ} (t : Target) (d : Deque T) where
  steal_none : (r : Repr t d []) → Steals t d [] r
  unfolding steal Queue.steal
  steal_none r = (d, rw (live_lem t d [] r, not_negative t 0 (half_pos t)), r, refl)

  -- The deque behind a successful `steal`.
  abbrev stolen : Deque T
  stolen = record d { top = wrapping_add t d.top 1 }

  read-eq : (i : ℕ) (x : T) → get_elem? d.buf (slot d i) ≡ some (some x) → read d i ≡ some x
  read-eq i x e = rw (e, read)

  read_top : (x : T) (xs : List T) (r : Repr t d (x ∷ xs)) → read d d.top ≡ some x
  read_top x xs r =
      read-eq d.top x (ap (get_elem? d.buf) (slot-mod t d (x ∷ xs) r d.top) ∙ r.held.0)

  stolen-Repr : (x : T) (xs : List T) (r : Repr t d (x ∷ xs)) → Repr t stolen xs
  stolen-Repr x xs r =
      let (above, at) = top_next t d.top d.bottom (length xs) r.top_in r.bottom_at in
      record {
        bits = r.bits;
        power = r.power;
        masked = r.masked;
        small = r.small;
        top_in = above;
        bottom_at = at;
        fits = omega (arith, r.fits);
        held =
            Holds-cong d.buf (2 ^ r.bits) (suc d.top) (wrapping_add t d.top 1) xs
              (ap (λ n. n % 2 ^ r.bits) (omega arith)
                ∙ sym (mod-modulus t r.bits (d.top + 1) r.small))
              r.held.1;
      }

  steal_some : (x : T) (xs : List T) (r : Repr t d (x ∷ xs)) → Steals t d (x ∷ xs) r
  unfolding steal Queue.steal
  steal_some x xs r = (
    stolen,
    rw (
      live_lem t d (x ∷ xs) r,
      not_negative t (length (x ∷ xs)) (omega (arith, r.fits, r.small)),
      suc-==-zero,
      read_top x xs r,
    ),
    stolen-Repr x xs r,
    refl,
  )

  pub steal_refines : (xs : List T) (r : Repr t d xs) → Steals t d xs r
  steal_refines [] r = steal_none r
  steal_refines (x ∷ xs) r = steal_some x xs r
