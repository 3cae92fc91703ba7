-- ===== src/Async/Transform/Layouts.antt =====
-- The whole transform: it does not panic, and the audit accepts the layout.
use krio.Base.{
  ℕ, ◌+◌, ◌^◌, ◌≤◌, ◌<◌, ◌≡◌, refl, ap, subst, sym, ◌∙◌, true, false, some, List, [], ◌∷◌, ◌++◌,
  map, arith, Eq, length, All, ◌==◌, ==_iff, Bool-cases, inl, inr,
}
use krio.Base.Maps.{contains}
use mathlib.Core.Option.{none-ne-some}
use krio.Core.{Ord}
use krio.Async.{LivenessMap, StateMachineLayout}
use krio.Async.Validate.{ok, entry_slots, table_slots, validate_layout}
use krio.Async.Validate.WellFormed.{Distinct, Below, IsWellFormed, validate_layout_iff}
use krio.Async.Transform.{
  Host, Site, Split, Lift, slot_of, first_split, first_lift, layout_of, scan, sort_sites,
  transform_sites, transform_blocks, transform_with_options,
}
use krio.Async.Transform.Order.{Ascends, DistinctBlocks, scan-AllApart, sort_sites-Ascends}
use krio.Async.Transform.Splits.{Counts, Starts, split_all-Counts}
use krio.Async.Transform.Slots.{Assigned, Entered}
use krio.Async.Transform.Tables.{
  contents, DistinctValues, Tables, live_total, DistinctLive, lift_all-Tables,
}

-- A property of the blocks' entries holds of the blocks.
All-contents {ℓ κ} :
    {B V : Type ℓ} (P : List (ℕ × V) → Type κ) (t : List (B × List (ℕ × V)))
    → All P (contents t)
    → All (λ b. P b.1) t
All-contents P [] h = tt
All-contents P (b ∷ t) h = (h.0, All-contents P t h.1)

-- The slots of a table, from its contents alone.
abbrev block_slots {ℓ} : {V : Type ℓ} → List (List (ℕ × V)) → List ℕ
block_slots [] = []
block_slots (b ∷ bs) = entry_slots b ++ block_slots bs

module _ {ℓ} {B V : Type ℓ} where
  table_slots-block_slots : (t : List (B × List (ℕ × V))) → table_slots t ≡ block_slots (contents t)
  unfolding table_slots
  table_slots-block_slots [] = refl
  table_slots-block_slots (b ∷ t) = ap (λ l. entry_slots b.1 ++ l) (table_slots-block_slots t)

  table_slots-contents :
      (s t : List (B × List (ℕ × V))) → contents s ≡ contents t → table_slots s ≡ table_slots t
  table_slots-contents s t h =
      table_slots-block_slots s ∙ ap block_slots h ∙ sym (table_slots-block_slots t)

module _ {ℓ} {B V : Type ℓ} ⦃e : Eq V⦄ (r : ℕ) (st : Lift B V) (a : Assigned r st) where
  Entered-absent :
      (v : V) (s : ℕ) (entries : List (ℕ × V))
      → slot_of v st.value_to_slot ≡ some s
      → All (Entered st) entries
      → All (λ u. e.agree v u ≡ false) (map (λ x. x.1) entries)
      → contains s (entry_slots entries) ≡ false
  unfolding contains
  Entered-absent v s [] at h other = refl
  Entered-absent v s ((i, u) ∷ entries) at h other = elim (Bool-cases (i == s)) [
    | inl same ↦
        let here = subst (λ n. slot_of u st.value_to_slot ≡ some n) ((==_iff i s).0 same) h.0 in
        let twin = (e.agree_iff v u).1 (a.injective v u s at here) in absurd (cc (twin, other.0))
    | inr differ ↦ rw differ (Entered-absent v s entries at h.1 other.1)
  ]

  Entered-Distinct :
      (entries : List (ℕ × V))
      → All (Entered st) entries
      → DistinctValues (map (λ x. x.1) entries)
      → Distinct (entry_slots entries)
  Entered-Distinct [] h d = tt
  Entered-Distinct ((s, v) ∷ entries) h d =
      (Entered-absent v s entries h.0 h.1 d.0, Entered-Distinct entries h.1 d.1)

  Entered-Below :
      (n : ℕ) (entries : List (ℕ × V))
      → st.next_slot ≤ n
      → All (Entered st) entries
      → Below n (entry_slots entries)
  Entered-Below n [] le h = tt
  Entered-Below n ((s, v) ∷ entries) le h =
      (omega (arith, (a.bounds v s h.0).1), Entered-Below n entries le h.1)

  -- What the audit asks of each block.
  abbrev Sound : ℕ → List (ℕ × V) → Type 0
  Sound n entries = Distinct (entry_slots entries) × Below n (entry_slots entries)

  blocks-Sound :
      (n : ℕ) (blocks : List (List (ℕ × V)))
      → st.next_slot ≤ n
      → All (λ b. All (Entered st) b × DistinctValues (map (λ x. x.1) b)) blocks
      → All (Sound n) blocks
  blocks-Sound n [] le h = tt
  blocks-Sound n (b ∷ blocks) le h =
      ((Entered-Distinct b h.0.0 h.0.1, Entered-Below n b le h.0.0), blocks-Sound n blocks le h.1)

module _ {ℓ κ} {C : Type κ} {B V F : Type ℓ} ⦃e : Eq V⦄ ⦃o : Ord B⦄ (host : Host C B V F) where
  layout_of-IsWellFormed :
      (r n sites : ℕ) (st : Split C B V F) (lifted : Lift B V)
      → Counts st sites
      → Tables r lifted
      → lifted.next_slot ≤ n
      → IsWellFormed (layout_of host st lifted) n
  layout_of-IsWellFormed r n sites st lifted k t le =
      let sound = blocks-Sound r lifted t.assigned n (contents lifted.yield_saves) le t.saved in
      record {
        entries = omega (arith, k.entries, k.yields);
        saves = All-contents (Sound r lifted t.assigned n) lifted.yield_saves sound;
        loads =
            All-contents (Sound r lifted t.assigned n) lifted.resume_loads
              (subst (All (Sound r lifted t.assigned n)) (sym t.same) sound);
        matched = λ s.
            ap (contains s)
              (sym (table_slots-contents lifted.resume_loads lifted.yield_saves t.same));
      }

  -- The first place of passes 2 and 3.
  first-Starts :
      (c : C) (entry : B) (sites : List (Site B V F)) → Starts host (first_split host c entry) sites
  first-Starts c entry [] = tt
  first-Starts c entry (x ∷ xs) = λ prev same none_yet. absurd (none-ne-some prev none_yet)

  first-Counts : (c : C) (entry : B) → Counts (first_split host c entry) 0
  first-Counts c entry = record {
    entries = refl;
    yields = refl;
    yield_places = refl;
    resume_places = refl;
  }

  first-Tables : (reserved : ℕ) → Tables reserved (first_lift host reserved)
  unfolding slot_of
  first-Tables reserved = record {
    assigned = record {
      bounds = λ v s h. absurd (none-ne-some s h);
      injective = λ u v s h k. absurd (none-ne-some s h);
      above = omega arith;
    };
    saved = tt;
    same = refl;
  }

  transform_sites-runs :
      (c : C) (entry : B) (sites : List (Site B V F)) (liveness : LivenessMap B V) (reserved : ℕ)
      → Ascends sites
      → DistinctLive liveness sites
      → reserved + live_total liveness sites < 2 ^ 32
      → (st : Split C B V F) × (lifted : Lift B V) × (transform_sites host c entry sites liveness
            reserved
          ≡ some (layout_of host st lifted, st.cfg))
        × Counts st (length sites)
        × Tables reserved lifted
        × (lifted.next_slot ≤ reserved + live_total liveness sites)
  unfolding transform_sites
  transform_sites-runs c entry sites liveness reserved asc d small =
      let (st, e1, k) =
        split_all-Counts host (first_split host c entry) sites 0 asc (first-Starts c entry sites)
          (first-Counts c entry) in
      let (lifted, e2, t, le) =
        lift_all-Tables liveness reserved (first_lift host reserved) sites st.site_yield_blocks
          st.site_resumes (omega (arith, k.yield_places)) (omega (arith, k.resume_places)) d
          (first-Tables reserved) small in
      (st, lifted, rw (e1, transform_sites, e2), subst (Counts st) (omega arith) k, t, le)

-- Behind the transform of a suspending function with at least one block and no block id twice.
module _ {ℓ κ} {C : Type κ} {B V F : Type ℓ} ⦃e : Eq V⦄ ⦃o : Ord B⦄ (host : Host C B V F) where
  -- The sites in the order the transform takes them.
  abbrev pub sites_of : C → List (Site B V F)
  sites_of c = sort_sites (scan host c (host.block_ids c))

  -- What the transform takes for granted of the function and of its liveness map: it suspends, it
  -- has a block, no block id is there twice, each site's live values are named once, and the slots
  -- do not run out.
  pub record Accepts (c : C) (fn_id : F) (liveness : LivenessMap B V) (reserved : ℕ) : Type ℓ where
    pub suspends : host.is_suspending fn_id ≡ true
    pub entry : B
    pub blocks : List B
    pub ids : host.block_ids c ≡ entry ∷ blocks
    pub distinct : DistinctBlocks (entry ∷ blocks)
    pub live : DistinctLive liveness (sites_of c)
    pub fits : reserved + live_total liveness (sites_of c) < 2 ^ 32

  transform_with_options-runs :
      (c : C) (fn_id : F) (liveness : LivenessMap B V) (reserved : ℕ)
      → Accepts c fn_id liveness reserved
      → (st : Split C B V F) × (lifted : Lift B V) × (transform_with_options host c fn_id liveness
            reserved
          ≡ some (layout_of host st lifted, st.cfg))
        × Counts st (length (sites_of c))
        × Tables reserved lifted
        × (lifted.next_slot ≤ reserved + live_total liveness (sites_of c))
  unfolding transform_with_options transform_blocks
  transform_with_options-runs c fn_id liveness reserved a =
      let asc =
        sort_sites-Ascends (scan host c (host.block_ids c))
          (scan-AllApart host c (host.block_ids c) (subst DistinctBlocks (sym a.ids) a.distinct)) in
      let (st, lifted, run, k, t, le) =
        transform_sites-runs host c a.entry (sites_of c) liveness reserved asc a.live a.fits in
      (
        st,
        lifted,
        rw (a.suspends, a.ids)
            (subst
              (λ l.
                transform_sites host c a.entry (sort_sites (scan host c l)) liveness reserved
                ≡ some (layout_of host st lifted, st.cfg))
              a.ids run),
        k,
        t,
        le,
      )

  -- The transform of a function it accepts does not panic. The layout has one yield block for each
  -- suspension site, and `validate_layout` accepts it with a frame of the reserved slots and one for
  -- each live value of each site. What it accepts: the function suspends, it has a block, no block
  -- id is there twice, each site's live values are named once, and the slots stay below 2 ^ 32.
  pub transform_with_options-validates :
      (c : C) (fn_id : F) (liveness : LivenessMap B V) (reserved : ℕ)
      → Accepts c fn_id liveness reserved
      → (layout : StateMachineLayout B V F) × (c' : C) × (transform_with_options host c fn_id
            liveness reserved
          ≡ some (layout, c'))
        × (length layout.yield_blocks ≡ length (sites_of c))
        × (validate_layout layout (reserved + live_total liveness (sites_of c)) ≡ ok)
  transform_with_options-validates c fn_id liveness reserved a =
      let (st, lifted, run, k, t, le) = transform_with_options-runs c fn_id liveness reserved a in
      (
        layout_of host st lifted,
        st.cfg,
        run,
        k.yields,
        (validate_layout_iff (layout_of host st lifted) _).1
            (layout_of-IsWellFormed host reserved _ _ st lifted k t le),
      )

  -- The entries of all the blocks are of the map's slots.
  abbrev pub EnteredBlocks : List (V × ℕ) → List (List (ℕ × V)) → Type 0
  EnteredBlocks slots [] = Unit
  EnteredBlocks slots (b ∷ blocks) =
      All (λ x. slot_of x.1 slots ≡ some x.0) b × EnteredBlocks slots blocks

  Entries-Blocks :
      (lifted : Lift B V) (blocks : List (List (ℕ × V)))
      → All (λ b. All (Entered lifted) b × DistinctValues (map (λ x. x.1) b)) blocks
      → EnteredBlocks lifted.value_to_slot blocks
  Entries-Blocks lifted [] h = tt
  Entries-Blocks lifted (b ∷ blocks) h = (h.0.0, Entries-Blocks lifted blocks h.1)

  -- In the layout of a function that the transform accepts, what is loaded behind the suspensions
  -- is, site by site, what was saved before them. Over the whole function a value has one slot, no
  -- two values share a slot, and none is below the reserved ones.
  pub transform_with_options-slots :
      (c : C) (fn_id : F) (liveness : LivenessMap B V) (reserved : ℕ)
      → Accepts c fn_id liveness reserved
      → (layout : StateMachineLayout B V F) × (c' : C) × (slots : List (V × ℕ))
        × (transform_with_options host c fn_id liveness reserved ≡ some (layout, c'))
        × (contents layout.resume_loads ≡ contents layout.yield_saves)
        × EnteredBlocks slots (contents layout.yield_saves)
        × ((v : V) (s : ℕ) → slot_of v slots ≡ some s → reserved ≤ s)
        × ((u v : V) (s : ℕ) → slot_of u slots ≡ some s → slot_of v slots ≡ some s → u ≡ v)
  transform_with_options-slots c fn_id liveness reserved a =
      let (st, lifted, run, k, t, le) = transform_with_options-runs c fn_id liveness reserved a in
      (
        layout_of host st lifted,
        st.cfg,
        lifted.value_to_slot,
        run,
        t.same,
        Entries-Blocks lifted _ t.saved,
        λ v s h. (t.assigned.bounds v s h).0,
        t.assigned.injective,
      )
