-- ===== src/Stackless/Regions.antt =====
-- `find_regions`: one pass over the statements of the blocks, in order.
pub mod RoundTrip
use krio.Base.{ℕ, zero, suc, ◌+◌, Option, none, some, List, [], ◌∷◌, ◌++◌}
use krio.Core.{
  Marker, region_begin, region_end, coroutine_begin, coroutine_end, yield, guarded_recv,
  producing_send,
}
use krio.Stackless.{Flow, Coroutine, Region}

-- The variables of the pass.
pub record Pass {ℓ} (B : Type ℓ) : Type ℓ where
  pub regions : List (Region B)
  pub current_region : Option (B × ℕ)
  pub current_coroutines : List (Coroutine B)
  pub current_coro_begin : Option (B × ℕ)
  pub current_priority : Option ℕ

module _ {ℓ} {B : Type ℓ} where
  abbrev pub first_pass : Pass B
  first_pass = record {
    regions = [];
    current_region = none;
    current_coroutines = [];
    current_coro_begin = none;
    current_priority = none;
  }

  -- `if let Some(begin) = current_region.take()`.
  abbrev pub close_region : Pass B → B × ℕ → Option (B × ℕ) → Pass B
  close_region p at none = p
  close_region p at (some begin) = record p {
    regions =
        p.regions
        ++ record { region_begin = begin; region_end = at; coroutines = p.current_coroutines } ∷ [];
    current_region = none;
    current_coroutines = [];
  }

  -- `if let Some(begin) = current_coro_begin.take()`.
  abbrev pub close_coroutine : Pass B → B × ℕ → Option (B × ℕ) → Pass B
  close_coroutine p at none = p
  close_coroutine p at (some begin) = record p {
    current_coroutines =
        p.current_coroutines
        ++ record { begin = begin; end = at; priority = p.current_priority } ∷ [];
    current_coro_begin = none;
    current_priority = none;
  }

  -- The arms of the `match` on a marker at `at`; `priority` is what the hook says of the place.
  abbrev pub on_marker : Pass B → B × ℕ → Option ℕ → Option Marker → Pass B
  on_marker p at priority none = p
  on_marker p at priority (some region_begin) = record p {
    current_region = some at;
    current_coroutines = [];
  }
  on_marker p at priority (some region_end) = close_region p at p.current_region
  on_marker p at priority (some coroutine_begin) = record p {
    current_coro_begin = some at;
    current_priority = priority;
  }
  on_marker p at priority (some coroutine_end) = close_coroutine p at p.current_coro_begin
  on_marker p at priority (some yield) = p
  on_marker p at priority (some guarded_recv) = p
  on_marker p at priority (some producing_send) = p

module _ {ℓ κ} {C : Type κ} {B : Type ℓ} (flow : Flow C B) (c : C) where
  abbrev pub on_statement : Pass B → B → ℕ → Pass B
  on_statement p bb idx =
      on_marker p (bb, idx) (flow.coroutine_priority c bb idx) (flow.classify_marker c bb idx)

  -- `for stmt_idx in 0..count`, from `idx` with `left` statements to go.
  unfoldable pub scan_block : Pass B → B → ℕ → ℕ → Pass B
  scan_block p bb idx zero = p
  scan_block p bb idx (suc left) = scan_block (on_statement p bb idx) bb (idx + 1) left

  unfoldable pub scan_blocks : Pass B → List B → Pass B
  unfolding scan_block
  scan_blocks p [] = p
  scan_blocks p (bb ∷ blocks) = scan_blocks (scan_block p bb 0 (flow.statement_count c bb)) blocks

  -- `find_regions`.
  unfoldable pub find_regions : List (Region B)
  unfolding scan_blocks
  find_regions = (scan_blocks first_pass (flow.block_ids c)).regions
