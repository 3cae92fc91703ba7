-- ===== src/Async/Transform/Tables.antt =====
-- Pass 3 over all the sites: the tables of saves and of loads agree, and each entry is of its
-- value's own slot.
use krio.Base.{
  ℕ, ◌+◌, ◌^◌, ◌≤◌, ◌<◌, ◌≡◌, refl, ap, subst, sym, ◌∙◌, false, some, List, [], ◌∷◌, ◌++◌, map,
  arith, Eq, length, All, All-append,
}
use krio.Core.{Ord}
use krio.Async.{LivenessMap, live_at}
use krio.Async.Transform.{Site, Lift, lift_values, lift_site, lift_all}
use krio.Async.Transform.Slots.{Assigned, Extends, Entered, Entered-Extends, lift_values-Lifted}

-- The entries of a table, block by block.
abbrev pub contents {ℓ} : {B V : Type ℓ} → List (B × List (ℕ × V)) → List (List (ℕ × V))
contents = map (λ b. b.1)

contents-append {ℓ} :
    {B V : Type ℓ} (t : List (B × List (ℕ × V))) (b : B) (entries : List (ℕ × V))
    → contents (t ++ (b, entries) ∷ []) ≡ contents t ++ entries ∷ []
contents-append [] b entries = refl
contents-append (x ∷ t) b entries = ap (λ l. x.1 ∷ l) (contents-append t b entries)

-- No value is there twice.
abbrev pub DistinctValues {ℓ} : {V : Type ℓ} ⦃e : Eq V⦄ → List V → Type 0
DistinctValues [] = Unit
DistinctValues ⦃e⦄ (v ∷ vs) = All (λ u. e.agree v u ≡ false) vs × DistinctValues vs

module _ {ℓ} {B V : Type ℓ} ⦃e : Eq V⦄ where
  -- The entries of one block: each of its value's own slot, and no value twice.
  abbrev Entries : Lift B V → List (ℕ × V) → Type 0
  Entries st entries = All (Entered st) entries × DistinctValues (map (λ x. x.1) entries)

  pub record Tables (r : ℕ) (st : Lift B V) : Type ℓ where
    pub assigned : Assigned r st
    pub saved : All (Entries st) (contents st.yield_saves)
    pub same : contents st.resume_loads ≡ contents st.yield_saves

  Entries-Extends :
      (st st' : Lift B V) (blocks : List (List (ℕ × V)))
      → Extends st st'
      → All (Entries st) blocks
      → All (Entries st') blocks
  Entries-Extends st st' [] ext h = tt
  Entries-Extends st st' (b ∷ blocks) ext h =
      ((Entered-Extends st st' b ext h.0.0, h.0.1), Entries-Extends st st' blocks ext h.1)

  -- One site keeps the tables in order.
  lift_site-Tables :
      (r : ℕ) (st : Lift B V) (y x : B) (live : List V)
      → DistinctValues live
      → Tables r st
      → st.next_slot + length live < 2 ^ 32
      → Tables r (lift_site st y x live)
        × ((lift_site st y x live).next_slot ≤ st.next_slot + length live)
  unfolding lift_site
  lift_site-Tables r st y x [] distinct t small = (t, omega arith)
  lift_site-Tables r st y x (v ∷ live) distinct t small =
      let done = lift_values-Lifted r st (v ∷ live) t.assigned small in
      let (entries, st') = lift_values st (v ∷ live) in
      (
        record {
          assigned = record {
            bounds = done.assigned.bounds;
            injective = done.assigned.injective;
            above = done.assigned.above;
          };
          saved = subst (All (Entries st')) (sym (contents-append st'.yield_saves y entries)) (
              All-append (Entries st') (contents st'.yield_saves) (entries ∷ [])
                (subst (λ l. All (Entries st') (contents l)) (sym done.saves)
                  (Entries-Extends st st' _ done.extends t.saved))
                ((done.entered, subst DistinctValues (sym done.values) distinct), tt));
          same =
              contents-append st'.resume_loads x entries
              ∙ ap (λ l. l ++ entries ∷ [])
                  (ap contents done.loads ∙ t.same ∙ sym (ap contents done.saves))
              ∙ sym (contents-append st'.yield_saves y entries);
        },
        done.next,
      )

module _ {ℓ} {B V F : Type ℓ} ⦃e : Eq V⦄ ⦃o : Ord B⦄ (liveness : LivenessMap B V) where
  -- How many entries the sites need at most.
  abbrev pub live_total : List (Site B V F) → ℕ
  live_total [] = 0
  live_total ((bb, idx, site) ∷ sites) =
      length (live_at ⦃e = o.eq⦄ liveness bb idx) + live_total sites

  -- Each site's live values are named once.
  abbrev pub DistinctLive : List (Site B V F) → Type 0
  DistinctLive [] = Unit
  DistinctLive ((bb, idx, site) ∷ sites) =
      DistinctValues (live_at ⦃e = o.eq⦄ liveness bb idx) × DistinctLive sites

  -- Pass 3 finds every site's places, and leaves tables in order.
  pub lift_all-Tables :
      (r : ℕ) (st : Lift B V) (sites : List (Site B V F)) (yields resumes : List B)
      → length yields ≡ length sites
      → length resumes ≡ length sites
      → DistinctLive sites
      → Tables r st
      → st.next_slot + live_total sites < 2 ^ 32
      → (st' : Lift B V) × (lift_all liveness st sites yields resumes ≡ some st')
        × Tables r st'
        × (st'.next_slot ≤ st.next_slot + live_total sites)
  unfolding lift_all
  lift_all-Tables r st [] yields resumes ey er d t small = (st, refl, t, omega arith)
  lift_all-Tables r st (s ∷ sites) [] resumes ey er d t small = absurd (omega (arith, ey))
  lift_all-Tables r st (s ∷ sites) (y ∷ yields) [] ey er d t small = absurd (omega (arith, er))
  lift_all-Tables r st ((bb, idx, s) ∷ sites) (y ∷ yields) (x ∷ resumes) ey er d t small =
      let (t', n) =
        lift_site-Tables r st y x (live_at ⦃e = o.eq⦄ liveness bb idx) d.0 t
          (omega (arith, small)) in
      let (end, run, t'', n') =
        lift_all-Tables r (lift_site st y x (live_at ⦃e = o.eq⦄ liveness bb idx)) sites yields
          resumes (omega (arith, ey)) (omega (arith, er)) d.1 t' (omega (arith, small, n)) in
      (end, run, t'', omega (arith, n, n'))
