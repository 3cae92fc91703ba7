-- ===== src/Async/Validate.antt =====
-- crates/krio-async/src/validate.rs: the audit of a layout.
pub mod WellFormed
pub mod Faults
use krio.Base.{
  ℕ, suc, ◌+◌, ◌<◌, ◌≡◌, Bool, true, false, not, List, [], ◌∷◌, ◌++◌, map, length, leb, ◌==◌,
  if◌then◌else◌,
}
use krio.Base.Maps.{contains, sorted_keys}
use krio.Async.{StateMachineLayout}

-- `LayoutError`.
pub data LayoutError {ℓ} (B : Type ℓ) : Type ℓ where
  save_without_load : (slot : ℕ) → LayoutError B
  load_without_save : (slot : ℕ) → LayoutError B
  duplicate_save_slot : (block : B) (slot : ℕ) → LayoutError B
  duplicate_load_slot : (block : B) (slot : ℕ) → LayoutError B
  entry_count_mismatch : (resume_entries yield_blocks : ℕ) → LayoutError B
  slot_out_of_range : (slot next_slot : ℕ) → LayoutError B

-- `Result<(), LayoutError>`, and a check that runs only if those before it passed.
pub data Checked {ℓ} (B : Type ℓ) : Type ℓ where
  ok : Checked B
  err : LayoutError B → Checked B

infixr 5 ◌and_then◌
abbrev pub ◌and_then◌ {ℓ} : {B : Type ℓ} → Checked B → Checked B → Checked B
ok and_then rest = rest
err e and_then rest = err e

abbrev pub entry_slots {ℓ} : {V : Type ℓ} → List (ℕ × V) → List ℕ
entry_slots = map (λ e. e.0)

module _ {ℓ} {B V : Type ℓ} where
  -- The inner loop over one block's entries, with the slots seen so far; `duplicate` is the error
  -- of a slot that is there twice.
  unfoldable pub check_entries : (ℕ → LayoutError B) → ℕ → List ℕ → List (ℕ × V) → Checked B
  check_entries duplicate next_slot seen [] = ok
  check_entries duplicate next_slot seen ((slot, v) ∷ entries) =
      if contains slot seen
      then err (duplicate slot)
      else if leb next_slot slot
      then err (slot_out_of_range slot next_slot)
      else check_entries duplicate next_slot (slot ∷ seen) entries

  -- The loop over the blocks of `yield_saves` or of `resume_loads`.
  unfoldable pub check_blocks : (B → ℕ → LayoutError B) → ℕ → List (B × List (ℕ × V)) → Checked B
  unfolding check_entries
  check_blocks duplicate next_slot [] = ok
  check_blocks duplicate next_slot ((block, entries) ∷ blocks) =
      check_entries (duplicate block) next_slot [] entries
      and_then check_blocks duplicate next_slot blocks

  -- All the slots of a table, block by block.
  unfoldable pub table_slots : List (B × List (ℕ × V)) → List ℕ
  table_slots [] = []
  table_slots ((block, entries) ∷ blocks) = entry_slots entries ++ table_slots blocks

-- The first of `slots` that is not among `others`.
unfoldable pub check_matched {ℓ} : {B : Type ℓ} → (ℕ → LayoutError B) → List ℕ → List ℕ → Checked B
check_matched missing [] others = ok
check_matched missing (slot ∷ slots) others =
    if contains slot others then check_matched missing slots others else err (missing slot)

module _ {ℓ} {B V F : Type ℓ} where
  -- `validate_layout`.
  unfoldable pub validate_layout : StateMachineLayout B V F → ℕ → Checked B
  validate_layout layout next_slot =
      let saved = sorted_keys (table_slots layout.yield_saves) in
      let loaded = sorted_keys (table_slots layout.resume_loads) in
      (if length layout.resume_entries == length layout.yield_blocks + 1
        then ok
        else err (entry_count_mismatch (length layout.resume_entries) (length layout.yield_blocks)))
      and_then check_blocks duplicate_save_slot next_slot layout.yield_saves
      and_then check_blocks duplicate_load_slot next_slot layout.resume_loads
      and_then check_matched save_without_load saved loaded
      and_then check_matched load_without_save loaded saved
