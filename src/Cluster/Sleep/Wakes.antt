-- ===== src/Cluster/Sleep/Wakes.antt =====
-- Who attends to a job or a shutdown while agents sleep: crates/krio-parallel/src/lib.rs.
use krio.Base.{
  ℕ, ◌≤◌, ◌<◌, ◌≡◌, ◌⊎◌, inl, inr, refl, sym, ap, ◌∙◌, Bool, true, false, Bool-cases, ◌==◌, ==_iff,
  ==_self,
}
use krio.Cluster.{parked}
use krio.Cluster.Sleep.{
  Place, awake, checking, clearing, parking, asleep, woken, deciding, at_barrier, gone, Caller,
  scanning, closing, rousing, System, assign, roused,
}

-- An agent that nothing but a notification will keep from sleeping: its check found nothing, and its
-- slot still says PARKED.
abbrev pub committed : Place → ℕ → Bool
committed parking slot = slot == parked
committed asleep slot = slot == parked
committed place slot = false

abbrev pub AllCommitted : System → Type 0
AllCommitted s = (i : ℕ) → i < s.agents → committed (s.place i) (s.slot i) ≡ true

abbrev pub Scans : (ℕ → Caller) → ℕ → Type 0
Scans f n = (p : ℕ) × (k : ℕ) × (f p ≡ scanning k) × (k < n)

abbrev pub Closes : (ℕ → Caller) → ℕ → Type 0
Closes f i = (p : ℕ) × (k : ℕ) × (((f p ≡ closing k) × (k ≤ i)) ⊎ ((f p ≡ rousing k) × (k < i)))

-- A `notify_one` that has agents left to look at.
abbrev pub Notifying : System → Type 0
Notifying s = Scans s.caller s.agents

-- A `shutdown` that has yet to come to agent `i`.
abbrev pub Closing : System → ℕ → Type 0
Closing s i = Closes s.caller i

pub record Attended (s : System) : Type 0 where
  pub some_agent : 0 < s.agents
  pub jobs : 0 < s.work → AllCommitted s → Notifying s
  pub shutdown :
      s.stopping ≡ true
      → (i : ℕ) → i < s.agents
      → committed (s.place i) (s.slot i) ≡ true
      → Closing s i

pub assign_self {ℓ} : {A : Type ℓ} (i : ℕ) (v : A) (f : ℕ → A) → assign i v f i ≡ v
assign_self i v f = rw (==_self i)

abbrev pub is_scanning : Caller → Bool
is_scanning (scanning k) = true
is_scanning c = false

abbrev pub is_closing : Caller → Bool
is_closing (closing k) = true
is_closing (rousing k) = true
is_closing c = false

pub keep : (f : ℕ → Caller) (p q : ℕ) (c d : Caller) → f q ≡ d → (f p ≡ d → ⊥) → assign p c f q ≡ d
keep f p q c d h differ = elim (Bool-cases (q == p)) [
  | inl same ↦ absurd (differ (ap f (sym ((==_iff q p).0 same)) ∙ h))
  | inr other ↦ rw other h
]

pub Scans-keep :
    (f : ℕ → Caller) (p n : ℕ) (c : Caller)
    → is_scanning (f p) ≡ false
    → Scans f n
    → Scans (assign p c f) n
Scans-keep f p n c h (q, k, e, lt) =
    (q, k, keep f p q c (scanning k) e (λ at. absurd (cc (h, ap is_scanning at))), lt)

pub Closes-keep :
    (f : ℕ → Caller) (p i : ℕ) (c : Caller)
    → is_closing (f p) ≡ false
    → Closes f i
    → Closes (assign p c f) i
Closes-keep f p i c h (q, k, inl (e, le)) =
    (q, k, inl (keep f p q c (closing k) e (λ at. absurd (cc (h, ap is_closing at))), le))
Closes-keep f p i c h (q, k, inr (e, lt)) =
    (q, k, inr (keep f p q c (rousing k) e (λ at. absurd (cc (h, ap is_closing at))), lt))

pub committed-slot : (place : Place) (slot : ℕ) → committed place slot ≡ true → slot ≡ parked
committed-slot parking slot h = (==_iff slot parked).0 h
committed-slot asleep slot h = (==_iff slot parked).0 h
committed-slot awake slot h = cc h
committed-slot checking slot h = cc h
committed-slot clearing slot h = cc h
committed-slot woken slot h = cc h
committed-slot deciding slot h = cc h
committed-slot at_barrier slot h = cc h
committed-slot gone slot h = cc h

-- An `unpark` commits nobody.
roused-committed :
    (place : Place) (slot : ℕ) → committed (roused place) slot ≡ true → committed place slot ≡ true
roused-committed asleep slot h = cc h
roused-committed parking slot h = h
roused-committed awake slot h = h
roused-committed checking slot h = h
roused-committed clearing slot h = h
roused-committed woken slot h = h
roused-committed deciding slot h = h
roused-committed at_barrier slot h = h
roused-committed gone slot h = h

pub rouse-committed :
    (s : System) (k j : ℕ)
    → committed (assign k (roused (s.place k)) s.place j) (s.slot j) ≡ true
    → committed (s.place j) (s.slot j) ≡ true
rouse-committed s k j h = elim (Bool-cases (j == k)) [
  | inl same ↦
      let e = (==_iff j k).0 same in
      roused-committed (s.place j) (s.slot j)
        (ap (λ i. committed (roused (s.place i)) (s.slot j)) e ∙ (rw same at h))
  | inr other ↦ rw other at h
]

module _ (s : System) (att : Attended s) where
  -- What agent `i` does on its own, if it is not committed then.
  pub alone :
      (i : ℕ) (place' : ℕ → Place) (slot' : ℕ → ℕ) (work' : ℕ)
      → i < s.agents
      → committed (place' i) (slot' i) ≡ false
      → ((j : ℕ) → (j == i) ≡ false → (place' j ≡ s.place j) × (slot' j ≡ s.slot j))
      → Attended (record s { place = place'; slot = slot'; work = work' })
  alone i place' slot' work' lt free same = record {
    some_agent = att.some_agent;
    jobs = λ some all. cc (free, all i lt);
    shutdown = λ stop j jl h. elim (Bool-cases (j == i)) [
      | inl same_agent ↦
          let e = (==_iff j i).0 same_agent in
          cc (free, ap (λ k. committed (place' k) (slot' k)) (sym e) ∙ h)
      | inr other ↦ att.shutdown stop j jl (
          ap (λ pl. committed pl (s.slot j)) (sym (same j other).0)
          ∙ ap (committed (place' j)) (sym (same j other).1)
          ∙ h)
    ];
  }

  -- What caller `p` does on its own: nobody is committed who was not before.
  pub aside :
      (p : ℕ) (c : Caller) (place' : ℕ → Place) (requested' : Bool)
      → is_scanning (s.caller p) ≡ false
      → is_closing (s.caller p) ≡ false
      → ((j : ℕ) → committed (place' j) (s.slot j) ≡ true → committed (s.place j) (s.slot j) ≡ true)
      → Attended (record s { place = place'; requested = requested'; caller = assign p c s.caller })
  aside p c place' requested' scan close back = record {
    some_agent = att.some_agent;
    jobs = λ some all.
        Scans-keep s.caller p s.agents c scan (att.jobs some (λ j jl. back j (all j jl)));
    shutdown = λ stop j jl h. Closes-keep s.caller p j c close (att.shutdown stop j jl (back j h));
  }

  -- An agent moves to a place where nobody is committed, and may store into its slot.
  pub move_lem :
      (i : ℕ) (place : Place) (work' : ℕ)
      → i < s.agents
      → committed place (s.slot i) ≡ false
      → Attended (record s { place = assign i place s.place; work = work' })
  move_lem i place work' lt free =
      alone i (assign i place s.place) s.slot work' lt (rw (==_self i) free)
        (λ j other. (rw other refl, refl))

  pub store_lem :
      (i v : ℕ) (place : Place)
      → i < s.agents
      → committed place v ≡ false
      → Attended (record s { place = assign i place s.place; slot = assign i v s.slot })
  store_lem i v place lt free =
      alone i (assign i place s.place) (assign i v s.slot) s.work lt (rw (==_self i) free)
        (λ j other. (rw other refl, rw other refl))

  pub awake_lem :
      (i v work' : ℕ)
      → i < s.agents
      → s.place i ≡ awake
      → Attended (record s { slot = assign i v s.slot; work = work' })
  awake_lem i v work' lt up =
      alone i s.place (assign i v s.slot) work' lt
        (ap (λ pl. committed pl (assign i v s.slot i)) up) (λ j other. (refl, rw other refl))

  pub working_lem :
      (i work' : ℕ) → i < s.agents → s.place i ≡ awake → Attended (record s { work = work' })
  working_lem i work' lt up =
      alone i s.place s.slot work' lt (ap (λ pl. committed pl (s.slot i)) up)
        (λ j other. (refl, refl))
