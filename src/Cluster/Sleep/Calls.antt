-- ===== src/Cluster/Sleep/Calls.antt =====
-- Agents whose slot is taken out of PARKED, step by step: crates/krio-parallel/src/lib.rs.
use krio.Base.{
  ℕ, ◌+◌, ◌≡◌, ◌≢◌, ◌⊎◌, inl, inr, refl, sym, ap, ◌∙◌, Bool, true, false, Bool-cases, ◌==◌, ==_iff,
  ==_self, if◌then◌else◌,
}
use krio.Cluster.{running, parked, notified}
use krio.Cluster.Sleep.{
  Place, awake, checking, clearing, parking, asleep, woken, deciding, at_barrier, gone, Caller,
  absent, scanning, unparking, closing, rousing, calling, System, assign, roused, Step, pushes,
  scans_past, notifies, finds_none, unparks, takes, keeps, publishes, consumes, sees, sees_none,
  parks, sleeps, wakes, clears, decides, quits, enters, leaves, stops, closes, closes_next, closed,
  requests, calls, called, releases,
}
use krio.Cluster.Sleep.Wakes.{assign_self, keep}

-- A caller about to `unpark` agent `i`.
abbrev pub Calls : (ℕ → Caller) → ℕ → Type 0
Calls f i = (p : ℕ) × ((f p ≡ unparking i) ⊎ (f p ≡ rousing i))

-- Whoever sleeps although the slot no longer says PARKED is about to be called.
abbrev pub Called : System → Type 0
Called s = (i : ℕ) → s.place i ≡ asleep → s.slot i ≢ parked → Calls s.caller i

abbrev is_calling : Caller → Bool
is_calling (unparking k) = true
is_calling (rousing k) = true
is_calling c = false

abbrev is_asleep : Place → Bool
is_asleep asleep = true
is_asleep place = false

roused-awake : (place : Place) → is_asleep (roused place) ≡ false
roused-awake asleep = refl
roused-awake awake = refl
roused-awake checking = refl
roused-awake clearing = refl
roused-awake parking = refl
roused-awake woken = refl
roused-awake deciding = refl
roused-awake at_barrier = refl
roused-awake gone = refl

Calls-keep :
    (f : ℕ → Caller) (p i : ℕ) (c : Caller)
    → is_calling (f p) ≡ false
    → Calls f i
    → Calls (assign p c f) i
Calls-keep f p i c h (q, inl e) =
    (q, inl (keep f p q c (unparking i) e (λ at. absurd (cc (h, ap is_calling at)))))
Calls-keep f p i c h (q, inr e) =
    (q, inr (keep f p q c (rousing i) e (λ at. absurd (cc (h, ap is_calling at)))))

-- A caller of agent `k` goes on, and agent `i` is another.
Calls-other :
    (f : ℕ → Caller) (p k i : ℕ) (c : Caller)
    → (f p ≡ unparking k) ⊎ (f p ≡ rousing k)
    → (i == k) ≡ false
    → Calls f i
    → Calls (assign p c f) i
Calls-other f p k i c h other (q, inl e) = (q, inl (keep f p q c (unparking i) e (differs h)))
  where
    differs : (f p ≡ unparking k) ⊎ (f p ≡ rousing k) → f p ≡ unparking i → ⊥
    differs (inl at) same = let e' : k ≡ i = cc (at, same) in cc (other, (==_iff i k).1 (sym e'))
    differs (inr at) same = cc (at, same)
Calls-other f p k i c h other (q, inr e) = (q, inr (keep f p q c (rousing i) e (differs h)))
  where
    differs : (f p ≡ unparking k) ⊎ (f p ≡ rousing k) → f p ≡ rousing i → ⊥
    differs (inl at) same = cc (at, same)
    differs (inr at) same = let e' : k ≡ i = cc (at, same) in cc (other, (==_iff i k).1 (sym e'))

module _ (s : System) (before : Called s) where
  -- What agent `i` does on its own, if it does not sleep then.
  alone :
      (i : ℕ) (place' : ℕ → Place) (slot' : ℕ → ℕ) (work' : ℕ)
      → is_asleep (place' i) ≡ false
      → ((j : ℕ) → (j == i) ≡ false → (place' j ≡ s.place j) × (slot' j ≡ s.slot j))
      → Called (record s { place = place'; slot = slot'; work = work' })
  alone i place' slot' work' up same j at ne = elim (Bool-cases (j == i)) [
    | inl is_agent ↦
        let e = (==_iff j i).0 is_agent in absurd (cc (up, ap is_asleep (ap place' (sym e) ∙ at)))
    | inr other ↦ let (e, e') = same j other in before j (sym e ∙ at) (λ h. ne (e' ∙ h))
  ]

  moved :
      (i : ℕ) (place : Place)
      → is_asleep place ≡ false
      → Called (record s { place = assign i place s.place })
  moved i place up =
      alone i (assign i place s.place) s.slot s.work (rw (==_self i) up)
        (λ j other. (rw other refl, refl))

  stored :
      (i v : ℕ) (place : Place)
      → is_asleep place ≡ false
      → Called (record s { place = assign i place s.place; slot = assign i v s.slot })
  stored i v place up =
      alone i (assign i place s.place) (assign i v s.slot) s.work (rw (==_self i) up)
        (λ j other. (rw other refl, rw other refl))

  -- A caller goes on that is not about to `unpark`, and may `unpark` agent `k` by that.
  goes_on :
      (p : ℕ) (c : Caller)
      → is_calling (s.caller p) ≡ false
      → Called (record s { caller = assign p c s.caller })
  goes_on p c h j at ne = Calls-keep s.caller p j c h (before j at ne)

  calls_past :
      (p k : ℕ) (c : Caller)
      → is_calling (s.caller p) ≡ false
      → Called
          (record s { place = assign k (roused (s.place k)) s.place; caller = assign p c s.caller })
  calls_past p k c h j at ne = elim (Bool-cases (j == k)) [
    | inl same ↦ absurd (cc (roused-awake (s.place k), ap is_asleep (rw same at at)))
    | inr other ↦ Calls-keep s.caller p j c h (before j (rw other at at) ne)
  ]

  -- The `unpark` of agent `k`.
  unparked :
      (p k : ℕ) (c : Caller)
      → (s.caller p ≡ unparking k) ⊎ (s.caller p ≡ rousing k)
      → Called
          (record s { place = assign k (roused (s.place k)) s.place; caller = assign p c s.caller })
  unparked p k c h j at ne = elim (Bool-cases (j == k)) [
    | inl same ↦ absurd (cc (roused-awake (s.place k), ap is_asleep (rw same at at)))
    | inr other ↦ Calls-other s.caller p k j c h other (before j (rw other at at) ne)
  ]

  -- NOTIFIED is stored into slot `k`, and its `unpark` follows.
  notified_lem :
      (p k : ℕ) (c : Caller)
      → is_calling (s.caller p) ≡ false
      → (c ≡ unparking k) ⊎ (c ≡ rousing k)
      → Called (record s { slot = assign k notified s.slot; caller = assign p c s.caller })
  notified_lem p k c h which j at ne = elim (Bool-cases (j == k)) [
    | inl same ↦ (p, self (sym ((==_iff j k).0 same)) which)
    | inr other ↦ Calls-keep s.caller p j c h (before j at (λ e. ne (rw other e)))
  ]
    where
      self :
          k ≡ j
          → (c ≡ unparking k) ⊎ (c ≡ rousing k)
          → (assign p c s.caller p ≡ unparking j) ⊎ (assign p c s.caller p ≡ rousing j)
      self e (inl is) = inl (assign_self p c s.caller ∙ is ∙ ap unparking e)
      self e (inr is) = inr (assign_self p c s.caller ∙ is ∙ ap rousing e)

decided : (stop : Bool) → is_asleep (if stop then gone else awake) ≡ false
decided true = refl
decided false = refl

pub Step-Called : {s s' : System} → Step s s' → Called s → Called s'
Step-Called {s} (pushes p e) h = goes_on s h p (scanning 0) (ap is_calling e)
Step-Called {s} (scans_past p k e lt ne) h = goes_on s h p (scanning (k + 1)) (ap is_calling e)
Step-Called {s} (notifies p k e lt eq) h =
    notified_lem s h p k (unparking k) (ap is_calling e) (inl refl)
Step-Called {s} (finds_none p k e le) h = goes_on s h p absent (ap is_calling e)
Step-Called {s} (unparks p k e) h = unparked s h p k absent (inl e)
Step-Called {s} (takes i lt up some) h = h
Step-Called {s} (keeps i lt up) h = h
Step-Called {s} (publishes i lt up eq) h = stored s h i parked checking refl
Step-Called {s} (consumes i lt up ne) h =
    alone s h i s.place (assign i running s.slot) s.work (ap is_asleep up)
      (λ j other. (refl, rw other refl))
Step-Called {s} (sees i lt at some) h = moved s h i clearing refl
Step-Called {s} (sees_none i lt at goes_on none_left) h = moved s h i parking refl
Step-Called {s} (parks i lt at ne) h = moved s h i woken refl
Step-Called {s} (sleeps i lt at eq) h = λ j sleeping ne. elim (Bool-cases (j == i)) [
  | inl same ↦ absurd (ne (ap s.slot ((==_iff j i).0 same) ∙ eq))
  | inr other ↦ h j (rw other at sleeping) ne
]
Step-Called {s} (wakes i lt at) h = moved s h i woken refl
Step-Called {s} (clears i lt at) h = stored s h i running deciding refl
Step-Called {s} (decides i lt at) h =
    moved s h i (if s.stopping then gone else awake) (decided s.stopping)
Step-Called {s} (quits i lt up stop) h = moved s h i gone refl
Step-Called {s} (enters i lt up wanted) h = moved s h i at_barrier refl
Step-Called {s} (leaves i lt at over) h = moved s h i awake refl
Step-Called {s} (stops p e) h = goes_on s h p (closing 0) (ap is_calling e)
Step-Called {s} (closes p k e lt) h = notified_lem s h p k (rousing k) (ap is_calling e) (inr refl)
Step-Called {s} (closes_next p k e) h = unparked s h p k (closing (k + 1)) (inr e)
Step-Called {s} (closed p k e le) h = goes_on s h p absent (ap is_calling e)
Step-Called {s} (requests p e idle) h = goes_on s h p (calling 0) (ap is_calling e)
Step-Called {s} (calls p k e lt) h = calls_past s h p k (calling (k + 1)) (ap is_calling e)
Step-Called {s} (called p k e le) h = goes_on s h p absent (ap is_calling e)
Step-Called {s} releases h = h
