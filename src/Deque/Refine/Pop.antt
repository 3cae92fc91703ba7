-- ===== src/Deque/Refine/Pop.antt =====
-- `pop` does to the list what the queue's does: it takes the last element.
use krio.Base.{
  ℕ, suc, ◌+◌, ◌%◌, ◌^◌, ◌≤◌, ◌<◌, ◌≡◌, refl, ap, subst, ◌∙◌, some, List, [], ◌∷◌, ◌++◌, arith,
  length, length-append, get_elem?, suc-==-zero, snoc_view, le→leb,
}
use krio.Words.{Target, modulus, wrapping_add, wrapping_sub}
use krio.Deque.{Deque, capacity, read, claim, restore, pop, pop_claimed}
use krio.Deque.Queue
use krio.Deque.Index.{
  claim_negative, bottom_in, claim_restore, claim_at, top_next, not_negative, half_pos,
}
use krio.Deque.Repr.{Repr, live_lem, slot-wrapped}
use krio.Deque.Repr.Slots.{Holds-init, Holds-last}
use krio.Deque.Refine.{read-eq}

module _ {ℓ} {T : Type ℓ} (t : Target) (d : Deque T) where
  -- `pop` answers as the queue does: the last element, or nothing.
  abbrev Pops : List T → Type ℓ
  Pops xs =
      (d' : Deque T) × (pop t d ≡ some ((Queue.pop xs).0, d'))
      × Repr t d' (Queue.pop xs).1
      × (capacity d' ≡ capacity d)

  -- The same deque, if its `bottom` is put back where it was.
  Repr-bottom :
      (b : ℕ) (xs : List T) → b ≡ d.bottom → Repr t d xs → Repr t (record d { bottom = b }) xs
  Repr-bottom b xs e r = record {
    bits = r.bits;
    power = r.power;
    masked = r.masked;
    small = r.small;
    top_in = r.top_in;
    bottom_at = e ∙ r.bottom_at;
    fits = r.fits;
    held = r.held;
  }

  restored : (xs : List T) → Repr t d xs → (restore t (claim t d)).bottom ≡ d.bottom
  restored xs r = claim_restore t d.bottom (bottom_in t d.top d.bottom (length xs) r.bottom_at)

  pop_none : Repr t d [] → Pops []
  unfolding pop Queue.pop
  pop_none r =
      let negative = le→leb _ _ (claim_negative t d.top d.bottom r.top_in r.bottom_at) in
      (
        restore t (claim t d),
        rw (negative, pop_claimed),
        Repr-bottom (restore t (claim t d)).bottom [] (restored [] r) r,
        refl,
      )

  Queue_pop-snoc : (ys : List T) (y : T) → Queue.pop (ys ++ y ∷ []) ≡ (some y, ys)
  unfolding Queue.pop
  Queue_pop-snoc [] y = refl
  Queue_pop-snoc (x ∷ []) y = refl
  Queue_pop-snoc (x ∷ z ∷ ys) y = rw (Queue_pop-snoc (z ∷ ys) y)

  module _ (ys : List T) (y : T) (r : Repr t d (ys ++ y ∷ [])) where
    bottom_snoc : d.bottom ≡ (d.top + suc (length ys)) % modulus t
    bottom_snoc =
        r.bottom_at ∙ ap (λ n. (d.top + n) % modulus t) (omega (arith, length-append ys (y ∷ [])))

    fits_snoc : suc (length ys) ≤ 2 ^ r.bits
    fits_snoc = omega (arith, length-append ys (y ∷ []), r.fits)

    claimed_at : wrapping_sub t d.bottom 1 ≡ (d.top + length ys) % modulus t
    claimed_at = claim_at t d.top d.bottom (length ys) r.top_in bottom_snoc

    claim-Repr : Repr t (claim t d) ys
    claim-Repr = record {
      bits = r.bits;
      power = r.power;
      masked = r.masked;
      small = r.small;
      top_in = r.top_in;
      bottom_at = claimed_at;
      fits = omega (arith, fits_snoc);
      held = Holds-init d.buf (2 ^ r.bits) d.top ys y r.held;
    }

    read_last : read (claim t d) (claim t d).bottom ≡ some y
    read_last = read-eq t d (claim t d).bottom y (
        ap (get_elem? d.buf) (slot-wrapped t d (ys ++ y ∷ []) r _ (length ys) claimed_at)
        ∙ Holds-last d.buf (2 ^ r.bits) d.top ys y r.held)

    left_lem : wrapping_sub t (claim t d).bottom d.top ≡ length ys
    left_lem = live_lem t (claim t d) ys claim-Repr

  abbrev PopsLast : List T → T → Type ℓ
  PopsLast ys y =
      (d' : Deque T) × (pop t d ≡ some (some y, d')) × Repr t d' ys × (capacity d' ≡ capacity d)

  -- The only element: taking it moves `top` past it, and puts `bottom` back.
  abbrev emptied : Deque T
  emptied = restore t (record (claim t d) { top = wrapping_add t d.top 1 })

  pop_one : (y : T) → Repr t d (y ∷ []) → PopsLast [] y
  unfolding pop
  pop_one y r = (
    emptied,
    rw (left_lem [] y r, not_negative t 0 (half_pos t), pop_claimed, read_last [] y r),
    Repr-bottom',
    refl,
  )
    where
      moved :
          (wrapping_add t d.top 1 < modulus t)
          × (d.bottom ≡ (wrapping_add t d.top 1 + 0) % modulus t)
      moved = top_next t d.top d.bottom 0 r.top_in r.bottom_at

      Repr-bottom' : Repr t emptied []
      Repr-bottom' = record {
        bits = r.bits;
        power = r.power;
        masked = r.masked;
        small = r.small;
        top_in = moved.0;
        bottom_at = restored (y ∷ []) r ∙ moved.1;
        fits = omega arith;
        held = tt;
      }

  pop_more : (x : T) (ys : List T) (y : T) → Repr t d (x ∷ ys ++ y ∷ []) → PopsLast (x ∷ ys) y
  unfolding pop
  pop_more x ys y r = (
    claim t d,
    rw (
      left_lem (x ∷ ys) y r,
      not_negative t (length (x ∷ ys)) (omega (arith, fits_snoc (x ∷ ys) y r, r.small)),
      pop_claimed,
      suc-==-zero,
      read_last (x ∷ ys) y r,
    ),
    claim-Repr (x ∷ ys) y r,
    refl,
  )

  pop_last : (ys : List T) (y : T) → Repr t d (ys ++ y ∷ []) → PopsLast ys y
  pop_last [] y r = pop_one y r
  pop_last (x ∷ ys) y r = pop_more x ys y r

  pop_some : (x : T) (xs : List T) → Repr t d (x ∷ xs) → Pops (x ∷ xs)
  pop_some x xs r =
      let (ys, y, e) = snoc_view x xs in
      let (d', popped, r', cap) = pop_last ys y (subst (Repr t d) e r) in
      (d', rw (e, Queue_pop-snoc ys y) popped, rw (e, Queue_pop-snoc ys y) r', cap)

  pub pop_refines : (xs : List T) → Repr t d xs → Pops xs
  pop_refines [] r = pop_none r
  pop_refines (x ∷ xs) r = pop_some x xs r
