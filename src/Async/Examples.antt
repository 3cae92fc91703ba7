-- ===== src/Async/Examples.antt =====
-- A function of two blocks that yields in the first and calls a suspending function in the second,
-- and layouts that the audit accepts and rejects.
use krio.Base.{
  ℕ, ◌+◌, ◌≤◌, ◌≡◌, ◌↔◌, refl, ◌&&◌, Option, none, some, List, [], ◌∷◌, arith, nat_eq, ◌==◌, length,
  if◌then◌else◌,
}
use krio.Base.Maps.{contains, sorted_keys, insert_sorted}
use krio.Core.{nat_ord}
use krio.Async.{SuspensionSite, StateMachineLayout, LivenessMap, no_layout, live_at}
use krio.Async.Validate.{
  ok, err, duplicate_save_slot, check_entries, check_blocks, check_matched, table_slots,
  validate_layout,
}
use krio.Async.Validate.WellFormed.{IsWellFormed, validate_layout_iff}
use krio.Async.Validate.Faults.{IsFault, validate_layout-IsFault}
use krio.Async.Transform.{
  Host, slot_of, transform_with_options, scan, scan_block, sort_sites, insert_site,
}
use krio.Async.Transform.Tables.{contents, live_total}
use krio.Async.Transform.Layouts.{
  sites_of, Accepts, EnteredBlocks, transform_with_options-validates, transform_with_options-slots,
}

-- The statements: a yield at (0, 1), and a call at (1, 0). The CFG is its next free block id.
abbrev classify_statement : ℕ → ℕ → Option (SuspensionSite ℕ ℕ)
classify_statement block idx =
    if block == 0 && idx == 1
    then some (SuspensionSite.direct_yield none)
    else if block == 1 && idx == 0
    then some (SuspensionSite.cross_fn_call 9 none [] 20)
    else none

abbrev small_host : Host ℕ ℕ ℕ ℕ
small_host = record {
  block_ids = λ c. 1 ∷ 0 ∷ [];
  statement_count = λ c b. 2;
  split_after = λ c b i. (c, c + 1);
  new_block = λ c. (c, c + 1);
  classify = λ c. classify_statement;
  is_suspending = λ f. f == 9;
}

abbrev two_live : LivenessMap ℕ ℕ
two_live = ((0, 1), 10 ∷ 11 ∷ []) ∷ ((1, 0), 11 ∷ 12 ∷ []) ∷ []

small-Accepts : Accepts small_host 2 9 two_live 1
unfolding scan scan_block sort_sites insert_site live_at
small-Accepts = record {
  suspends = refl;
  entry = 1;
  blocks = 0 ∷ [];
  ids = refl;
  distinct = ((refl, tt), (tt, tt));
  live = (((refl, tt), (tt, tt)), (((refl, tt), (tt, tt)), tt));
  fits = omega arith;
}

transform_with_options-validates_example :
    (layout : StateMachineLayout ℕ ℕ ℕ) × (c' : ℕ) × (transform_with_options small_host 2 9 two_live
        1
      ≡ some (layout, c'))
    × (length layout.yield_blocks ≡ length (sites_of small_host 2))
    × (validate_layout layout (1 + live_total two_live (sites_of small_host 2)) ≡ ok)
transform_with_options-validates_example =
    transform_with_options-validates small_host 2 9 two_live 1 small-Accepts

transform_with_options-slots_example :
    (layout : StateMachineLayout ℕ ℕ ℕ) × (c' : ℕ) × (slots : List (ℕ × ℕ))
    × (transform_with_options small_host 2 9 two_live 1 ≡ some (layout, c'))
    × (contents layout.resume_loads ≡ contents layout.yield_saves)
    × EnteredBlocks small_host slots (contents layout.yield_saves)
    × ((v : ℕ) (s : ℕ) → slot_of v slots ≡ some s → 1 ≤ s)
    × ((u v : ℕ) (s : ℕ) → slot_of u slots ≡ some s → slot_of v slots ≡ some s → u ≡ v)
transform_with_options-slots_example =
    transform_with_options-slots small_host 2 9 two_live 1 small-Accepts

-- One suspension with two slots; `twice` saves slot 0 two times.
abbrev one_yield : List (ℕ × ℕ) → StateMachineLayout ℕ ℕ ℕ
one_yield saved = record {
  resume_entries = 0 ∷ 2 ∷ [];
  yield_blocks = (0, 1) ∷ [];
  yield_saves = (0, saved) ∷ [];
  resume_loads = (2, (0, 10) ∷ (1, 11) ∷ []) ∷ [];
  block_kinds = (0, krio.Async.direct_yield) ∷ [];
}

abbrev twice : List (ℕ × ℕ)
twice = (0, 10) ∷ (0, 11) ∷ []

validate_layout_iff_example :
    (validate_layout (one_yield ((0, 10) ∷ (1, 11) ∷ [])) 2 ≡ ok)
    ↔ IsWellFormed (one_yield ((0, 10) ∷ (1, 11) ∷ [])) 2
validate_layout_iff_example = validate_layout_iff (one_yield ((0, 10) ∷ (1, 11) ∷ [])) 2

twice-rejected : validate_layout (one_yield twice) 2 ≡ err (duplicate_save_slot 0 0)
unfolding validate_layout check_entries check_blocks check_matched table_slots contains sorted_keys
    insert_sorted
twice-rejected = refl

validate_layout-IsFault_example : IsFault (one_yield twice) 2 (duplicate_save_slot 0 0)
validate_layout-IsFault_example =
    validate_layout-IsFault (one_yield twice) 2 (duplicate_save_slot 0 0) twice-rejected
