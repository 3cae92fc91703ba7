-- ===== src/Async/Transform.antt =====
-- crates/krio-async/src/lib.rs: `transform_to_state_machine_with_options`. The host's CFG and its
-- hooks are the record `Host`; what the standard library's sort and maps do is written out.
pub mod Order
pub mod Splits
pub mod Slots
pub mod Tables
pub mod Layouts
use krio.Base.{
  ℕ, zero, suc, ◌+◌, ◌-◌, ◌%◌, ◌^◌, ◌≡◌, Bool, true, false, not, ◌&&◌, ◌||◌, Option, none, some,
  List, [], ◌∷◌, ◌++◌, Eq, length, ltb, leb, ◌==◌, if◌then◌else◌,
}
use krio.Core.{Ord}
use krio.Async.{SuspensionSite, BlockKind, StateMachineLayout, no_layout, LivenessMap, live_at}

-- What the transform calls of the host: `CoroCfg`, `AsyncHooks` and `SuspendingFns`.
pub record Host {ℓ κ} (C : Type κ) (B V F : Type ℓ) : Type (ℓ ⊔ κ) where
  pub block_ids : C → List B
  pub statement_count : C → B → ℕ
  pub split_after : C → B → ℕ → B × C
  pub new_block : C → B × C
  pub classify : C → B → ℕ → Option (SuspensionSite F V)
  pub is_suspending : F → Bool

-- `(HookBlockId<H>, usize, SuspensionSite<..>)`
abbrev pub Site {ℓ} : Type ℓ → Type ℓ → Type ℓ → Type ℓ
Site B V F = B × ℕ × SuspensionSite F V

module _ {ℓ κ} {C : Type κ} {B V F : Type ℓ} (host : Host C B V F) where
  -- `for idx in 0..count`, from `idx` with `left` statements to go.
  unfoldable pub scan_block : C → B → ℕ → ℕ → List (Site B V F)
  scan_block c bb idx zero = []
  scan_block c bb idx (suc left) =
      let rest = scan_block c bb (idx + 1) left in
      elim (host.classify c bb idx) [ none ↦ rest | some site ↦ (bb, idx, site) ∷ rest ]

  -- Pass 1: the sites of the blocks, in the order of the scan.
  unfoldable pub scan : C → List B → List (Site B V F)
  scan c [] = []
  scan c (bb ∷ blocks) = scan_block c bb 0 (host.statement_count c bb) ++ scan c blocks

module _ {ℓ} {B V F : Type ℓ} ⦃o : Ord B⦄ where
  -- The order of the keys `(block, idx)`.
  abbrev pub key_lt : Site B V F → Site B V F → Bool
  key_lt (a, i, s) (b, j, t) = o.lt a b || o.eq.agree a b && ltb i j

  unfoldable pub insert_site : Site B V F → List (Site B V F) → List (Site B V F)
  insert_site x [] = x ∷ []
  insert_site x (y ∷ ys) = if key_lt y x then y ∷ insert_site x ys else x ∷ y ∷ ys

  -- `sites.sort_by_key(|(bb, idx, _)| (*bb, *idx))`, a stable sort.
  unfoldable pub sort_sites : List (Site B V F) → List (Site B V F)
  sort_sites [] = []
  sort_sites (x ∷ xs) = insert_site x (sort_sites xs)

-- The variables of pass 2.
pub record Split {ℓ κ} (C : Type κ) (B V F : Type ℓ) : Type (ℓ ⊔ κ) where
  pub cfg : C
  pub resume_entries : List B
  pub yield_blocks : List (B × ℕ)
  pub block_kinds : List (B × BlockKind B V F)
  pub site_yield_blocks : List B
  pub site_resumes : List B
  pub current_orig_block : B
  pub current_block : B
  pub prev_orig_idx : Option ℕ

-- `orig_idx - (prev + 1)` on `usize`; `none` is the overflow.
abbrev pub current_idx : Option ℕ → ℕ → Option ℕ
current_idx none idx = some idx
current_idx (some prev) idx = if leb (prev + 1) idx then some (idx - (prev + 1)) else none

abbrev pub is_none {ℓ} : {A : Type ℓ} → Option A → Bool
is_none none = true
is_none (some a) = false

module _ {ℓ κ} {C : Type κ} {B V F : Type ℓ} (host : Host C B V F) where
  -- The two arms of `match site`: split the current block at `idx`, and record the suspension.
  unfoldable pub split_site : Split C B V F → ℕ → ℕ → SuspensionSite F V → Split C B V F
  split_site st idx orig_idx (SuspensionSite.direct_yield value) =
      let (resume, c) = host.split_after st.cfg st.current_block idx in
      record st {
        cfg = c;
        resume_entries = st.resume_entries ++ resume ∷ [];
        yield_blocks =
            st.yield_blocks ++ (st.current_block, length st.resume_entries % 2 ^ 32) ∷ [];
        block_kinds = st.block_kinds ++ (st.current_block, BlockKind.direct_yield) ∷ [];
        site_yield_blocks = st.site_yield_blocks ++ st.current_block ∷ [];
        site_resumes = st.site_resumes ++ resume ∷ [];
        current_block = resume;
        prev_orig_idx = some orig_idx;
      }
  split_site st idx orig_idx (SuspensionSite.cross_fn_call callee receiver args result) =
      let (post_call, c) = host.split_after st.cfg st.current_block idx in
      let (resume_check, c') = host.new_block c in
      record st {
        cfg = c';
        resume_entries = st.resume_entries ++ resume_check ∷ [];
        yield_blocks =
            st.yield_blocks ++ (st.current_block, length st.resume_entries % 2 ^ 32) ∷ [];
        block_kinds =
            st.block_kinds
            ++ (
              st.current_block,
              BlockKind.cross_fn_call_init resume_check receiver args result callee,
            )
              ∷ (resume_check, BlockKind.cross_fn_call_resume post_call receiver args result callee)
              ∷ [];
        site_yield_blocks = st.site_yield_blocks ++ st.current_block ∷ [];
        site_resumes = st.site_resumes ++ resume_check ∷ [];
        current_block = post_call;
        prev_orig_idx = some orig_idx;
      }

-- The head of the loop of pass 2: a site of another original block starts at that block.
unfoldable pub enter_block {ℓ κ} :
    {C : Type κ} {B V F : Type ℓ} ⦃o : Ord B⦄ → Split C B V F → B → Split C B V F
enter_block ⦃o⦄ st bb =
    if not (o.eq.agree bb st.current_orig_block) || is_none st.prev_orig_idx
    then record st { current_orig_block = bb; current_block = bb; prev_orig_idx = none }
    else st

module _ {ℓ κ} {C : Type κ} {B V F : Type ℓ} ⦃o : Ord B⦄ (host : Host C B V F) where
  -- One round of the loop of pass 2, behind its head.
  abbrev pub split_at : Split C B V F → ℕ → SuspensionSite F V → Option ℕ → Option (Split C B V F)
  split_at st orig_idx site none = none
  split_at st orig_idx site (some idx) = some (split_site host st idx orig_idx site)

  unfoldable pub split_step : Split C B V F → Site B V F → Option (Split C B V F)
  split_step st (bb, orig_idx, site) =
      let at = enter_block st bb in
      split_at at orig_idx site (current_idx at.prev_orig_idx orig_idx)

  -- Pass 2; `none` is the overflow of an index.
  unfoldable pub split_all : Split C B V F → List (Site B V F) → Option (Split C B V F)
  split_all st [] = some st
  split_all st (site ∷ sites) = elim (split_step st site) [
    | none ↦ none
    | some st' ↦ split_all st' sites
  ]

-- The variables of pass 3: `value_to_slot`, `next_slot` and the two tables.
pub record Lift {ℓ} (B V : Type ℓ) : Type ℓ where
  pub value_to_slot : List (V × ℕ)
  pub next_slot : ℕ
  pub yield_saves : List (B × List (ℕ × V))
  pub resume_loads : List (B × List (ℕ × V))

-- `value_to_slot.get(v)`.
unfoldable pub slot_of {ℓ} : {V : Type ℓ} ⦃e : Eq V⦄ → V → List (V × ℕ) → Option ℕ
slot_of v [] = none
slot_of ⦃e⦄ v ((u, slot) ∷ rest) = if e.agree u v then some slot else slot_of v rest

module _ {ℓ} {B V : Type ℓ} ⦃e : Eq V⦄ where
  -- `*value_to_slot.entry(v).or_insert_with(..)`, by what the map has under `v`. The u32 counter
  -- wraps.
  abbrev pub enter_slot : Lift B V → V → Option ℕ → ℕ × Lift B V
  enter_slot st v (some slot) = (slot, st)
  enter_slot st v none = (
    st.next_slot,
    record st {
      value_to_slot = (v, st.next_slot) ∷ st.value_to_slot;
      next_slot = (st.next_slot + 1) % 2 ^ 32;
    },
  )

  -- The entries of one site's live values.
  unfoldable pub lift_values : Lift B V → List V → List (ℕ × V) × Lift B V
  lift_values st [] = ([], st)
  lift_values st (v ∷ live) =
      let (slot, st') = enter_slot st v (slot_of v st.value_to_slot) in
      let (entries, st'') = lift_values st' live in ((slot, v) ∷ entries, st'')

  -- One round of pass 3, for a site with its yield block and its resume block.
  unfoldable pub lift_site : Lift B V → B → B → List V → Lift B V
  lift_site st yield_block resume [] = st
  lift_site st yield_block resume (v ∷ live) =
      let (entries, st') = lift_values st (v ∷ live) in
      record st' {
        yield_saves = st'.yield_saves ++ (yield_block, entries) ∷ [];
        resume_loads = st'.resume_loads ++ (resume, entries) ∷ [];
      }

module _ {ℓ} {B V F : Type ℓ} ⦃e : Eq V⦄ ⦃o : Ord B⦄ where
  -- Pass 3; `none` is an index out of bounds in `site_yield_blocks` or `site_resumes`.
  unfoldable pub lift_all :
      LivenessMap B V → Lift B V → List (Site B V F) → List B → List B → Option (Lift B V)
  lift_all liveness st [] yields resumes = some st
  lift_all liveness st (site ∷ sites) [] resumes = none
  lift_all liveness st (site ∷ sites) (y ∷ yields) [] = none
  lift_all liveness st ((bb, idx, site) ∷ sites) (y ∷ yields) (r ∷ resumes) =
      lift_all liveness (lift_site st y r (live_at ⦃e = o.eq⦄ liveness bb idx)) sites yields resumes

module _ {ℓ κ} {C : Type κ} {B V F : Type ℓ} ⦃e : Eq V⦄ ⦃o : Ord B⦄ (host : Host C B V F) where
  abbrev pub first_split : C → B → Split C B V F
  first_split c entry = record {
    cfg = c;
    resume_entries = entry ∷ [];
    yield_blocks = [];
    block_kinds = [];
    site_yield_blocks = [];
    site_resumes = [];
    current_orig_block = entry;
    current_block = entry;
    prev_orig_idx = none;
  }

  abbrev pub first_lift : ℕ → Lift B V
  first_lift reserved_slots = record {
    value_to_slot = [];
    next_slot = reserved_slots;
    yield_saves = [];
    resume_loads = [];
  }

  -- The layout put together from what passes 2 and 3 leave.
  abbrev pub layout_of : Split C B V F → Lift B V → StateMachineLayout B V F
  layout_of st lifted = record {
    resume_entries = st.resume_entries;
    yield_blocks = st.yield_blocks;
    yield_saves = lifted.yield_saves;
    resume_loads = lifted.resume_loads;
    block_kinds = st.block_kinds;
  }

  -- Passes 2 and 3 over the sorted sites.
  unfoldable pub transform_sites :
      C → B → List (Site B V F) → LivenessMap B V → ℕ → Option (StateMachineLayout B V F × C)
  transform_sites c entry sites liveness reserved_slots =
      elim (split_all host (first_split c entry) sites) [
        | none ↦ none
        | some st ↦
            elim (lift_all liveness (first_lift reserved_slots) sites st.site_yield_blocks
              st.site_resumes) [ none ↦ none | some lifted ↦ some (layout_of st lifted, st.cfg) ]
      ]

  -- The part of the transform for a suspending function, by its blocks; without any it panics.
  unfoldable pub transform_blocks :
      C → List B → LivenessMap B V → ℕ → Option (StateMachineLayout B V F × C)
  unfolding transform_sites
  transform_blocks c [] liveness reserved_slots = none
  transform_blocks c (entry ∷ blocks) liveness reserved_slots =
      transform_sites c entry (sort_sites (scan host c (entry ∷ blocks))) liveness reserved_slots

  -- `transform_to_state_machine_with_options`: the layout and the CFG it leaves; `none` is a panic.
  unfoldable pub transform_with_options :
      C → F → LivenessMap B V → ℕ → Option (StateMachineLayout B V F × C)
  unfolding transform_blocks
  transform_with_options c fn_id liveness reserved_slots =
      if not (host.is_suspending fn_id)
      then some (no_layout, c)
      else transform_blocks c (host.block_ids c) liveness reserved_slots

  -- `transform_to_state_machine`: no slot reserved.
  unfoldable pub transform : C → F → LivenessMap B V → Option (StateMachineLayout B V F × C)
  unfolding transform_with_options
  transform c fn_id liveness = transform_with_options c fn_id liveness 0
