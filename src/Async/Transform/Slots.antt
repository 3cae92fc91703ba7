-- ===== src/Async/Transform/Slots.antt =====
-- Pass 3: each value that lives across a suspension has a slot of its own, the same one in every
-- entry of the tables.
use mathlib.Core.Option.{some-injective, none-ne-some}
use krio.Base.{
  ℕ, ◌+◌, ◌^◌, ◌≤◌, ◌<◌, ◌≡◌, refl, ap, sym, ◌∙◌, ◌⊎◌, Option, none, some, List, [], ◌∷◌, map,
  arith, Eq, length, All, Bool-cases, inl, inr,
}
use krio.Async.Transform.{Lift, slot_of, enter_slot, lift_values}

-- A value found behind a new entry is the new one, or was there.
slot_of-cons {ℓ} :
    {V : Type ℓ} ⦃e : Eq V⦄ (u v : V) (n s : ℕ) (m : List (V × ℕ))
    → slot_of u ((v, n) ∷ m) ≡ some s
    → ((u ≡ v) × (s ≡ n)) ⊎ (slot_of u m ≡ some s)
unfolding slot_of
slot_of-cons ⦃e⦄ u v n s m h = elim (Bool-cases (e.agree v u)) [
  | inl same ↦
      inl (sym ((e.agree_iff v u).0 same), sym (some-injective n s (sym (rw same refl) ∙ h)))
  | inr other ↦ inr (sym (rw other refl) ∙ h)
]

module _ {ℓ} {B V : Type ℓ} ⦃e : Eq V⦄ where
  -- The slots are from the reserved ones up to the next free one, and no two values share one.
  pub record Assigned (reserved : ℕ) (st : Lift B V) : Type ℓ where
    pub bounds :
        (v : V) (s : ℕ) → slot_of v st.value_to_slot ≡ some s → (reserved ≤ s) × (s < st.next_slot)
    pub injective :
        (u v : V) (s : ℕ)
        → slot_of u st.value_to_slot ≡ some s
        → slot_of v st.value_to_slot ≡ some s
        → u ≡ v
    pub above : reserved ≤ st.next_slot

  -- What has a slot keeps it.
  abbrev pub Extends : Lift B V → Lift B V → Type ℓ
  Extends st st' =
      (v : V) (s : ℕ) → slot_of v st.value_to_slot ≡ some s → slot_of v st'.value_to_slot ≡ some s

  -- The entry is of the value's own slot.
  abbrev pub Entered : Lift B V → ℕ × V → Type 0
  Entered st entry = slot_of entry.1 st.value_to_slot ≡ some entry.0

  fresh_slot : Lift B V → V → Lift B V
  fresh_slot st v = (enter_slot st v none).1

  slot_of-fresh :
      (st : Lift B V) (v : V) → slot_of v (enter_slot st v none).1.value_to_slot ≡ some st.next_slot
  unfolding slot_of
  slot_of-fresh st v = rw ((e.agree_iff v v).1 refl) refl

  fresh-Extends :
      (st : Lift B V) (v : V)
      → slot_of v st.value_to_slot ≡ none
      → Extends st (enter_slot st v none).1
  unfolding slot_of
  fresh-Extends st v new u s h = elim (Bool-cases (e.agree v u)) [
    | inl same ↦ absurd (
        none-ne-some s
          (sym new ∙ ap (λ x. slot_of x st.value_to_slot) ((e.agree_iff v u).0 same) ∙ h))
    | inr other ↦ rw other h
  ]

  fresh-Assigned :
      (r : ℕ) (st : Lift B V) (v : V)
      → Assigned r st
      → (enter_slot st v none).1.next_slot ≡ st.next_slot + 1
      → Assigned r (enter_slot st v none).1
  fresh-Assigned r st v a next = record {
    bounds = λ u s h. elim (slot_of-cons u v st.next_slot s st.value_to_slot h) [
      | inl (same, at) ↦ (omega (arith, a.above, at), omega (arith, at, next))
      | inr old ↦ let (lo, hi) = a.bounds u s old in (lo, omega (arith, hi, next))
    ];
    injective = λ u w s h k. elim (slot_of-cons u v st.next_slot s st.value_to_slot h) [
      | inl (same, at) ↦ elim (slot_of-cons w v st.next_slot s st.value_to_slot k) [
        | inl (same', at') ↦ same ∙ sym same'
        | inr old ↦ absurd (omega (arith, (a.bounds w s old).1, at))
      ]
      | inr old ↦ elim (slot_of-cons w v st.next_slot s st.value_to_slot k) [
        | inl (same', at') ↦ absurd (omega (arith, (a.bounds u s old).1, at'))
        | inr old' ↦ a.injective u w s old old'
      ]
    ];
    above = omega (arith, a.above, next);
  }

  -- What `lift_values` leaves.
  pub record Lifted (r : ℕ) (st : Lift B V) (live : List V) (entries : List (ℕ × V))
      (st' : Lift B V) : Type ℓ where
    pub assigned : Assigned r st'
    pub extends : Extends st st'
    pub entered : All (Entered st') entries
    pub values : map (λ e. e.1) entries ≡ live
    pub saves : st'.yield_saves ≡ st.yield_saves
    pub loads : st'.resume_loads ≡ st.resume_loads
    pub next : st'.next_slot ≤ st.next_slot + length live

  -- One value: it has its slot, and nothing else has changed.
  pub record Slotted (r : ℕ) (st : Lift B V) (v : V) (slot : ℕ) (st' : Lift B V) : Type ℓ where
    pub assigned : Assigned r st'
    pub extends : Extends st st'
    pub entered : slot_of v st'.value_to_slot ≡ some slot
    pub saves : st'.yield_saves ≡ st.yield_saves
    pub loads : st'.resume_loads ≡ st.resume_loads
    pub next : st'.next_slot ≤ st.next_slot + 1

  enter_slot-Slotted :
      (r : ℕ) (st : Lift B V) (v : V) (found : Option ℕ)
      → slot_of v st.value_to_slot ≡ found
      → Assigned r st
      → st.next_slot + 1 < 2 ^ 32
      → Slotted r st v (enter_slot st v found).0 (enter_slot st v found).1
  enter_slot-Slotted r st v none new a small =
      let next : (enter_slot st v none).1.next_slot ≡ st.next_slot + 1 = omega arith in
      record {
        assigned = fresh-Assigned r st v a next;
        extends = fresh-Extends st v new;
        entered = slot_of-fresh st v;
        saves = refl;
        loads = refl;
        next = omega (arith, next);
      }
  enter_slot-Slotted r st v (some slot) old a small = record {
    assigned = a;
    extends = λ u s h. h;
    entered = old;
    saves = refl;
    loads = refl;
    next = omega arith;
  }

  -- Entries stay right as the map grows.
  pub Entered-Extends :
      (st st' : Lift B V) (entries : List (ℕ × V))
      → Extends st st'
      → All (Entered st) entries
      → All (Entered st') entries
  Entered-Extends st st' [] ext h = tt
  Entered-Extends st st' ((s, v) ∷ entries) ext h =
      (ext v s h.0, Entered-Extends st st' entries ext h.1)

  -- The live values of a site get entries in order, each with its own slot.
  pub lift_values-Lifted :
      (r : ℕ) (st : Lift B V) (live : List V)
      → Assigned r st
      → st.next_slot + length live < 2 ^ 32
      → Lifted r st live (lift_values st live).0 (lift_values st live).1
  unfolding lift_values
  lift_values-Lifted r st [] a small = record {
    assigned = a;
    extends = λ u s h. h;
    entered = tt;
    values = refl;
    saves = refl;
    loads = refl;
    next = omega arith;
  }
  lift_values-Lifted r st (v ∷ live) a small =
      let one =
        enter_slot-Slotted r st v (slot_of v st.value_to_slot) refl a (omega (arith, small)) in
      let st' = (enter_slot st v (slot_of v st.value_to_slot)).1 in
      let rest = lift_values-Lifted r st' live one.assigned (omega (arith, small, one.next)) in
      record {
        assigned = rest.assigned;
        extends = λ u s h. rest.extends u s (one.extends u s h);
        entered = (rest.extends v _ one.entered, rest.entered);
        values = ap (λ l. v ∷ l) rest.values;
        saves = rest.saves ∙ one.saves;
        loads = rest.loads ∙ one.loads;
        next = omega (arith, rest.next, one.next);
      }
