-- ===== src/Stackless/Regions/RoundTrip.antt =====
-- The regions that a program's markers spell out are the regions found.
use mathlib.Core.List.{append-nil, append_assoc}
use krio.Base.{ℕ, zero, suc, ◌+◌, ◌≡◌, refl, ap, sym, ◌∙◌, Option, none, some, List, [], ◌∷◌, ◌++◌}
use krio.Core.{
  Marker, region_begin, region_end, coroutine_begin, coroutine_end, yield, guarded_recv,
  producing_send,
}
use krio.Stackless.{Flow, Coroutine, Region}
use krio.Stackless.Regions.{
  Pass, first_pass, on_marker, on_statement, scan_block, scan_blocks, find_regions,
}

-- A marker that opens or closes something, with its place and the priority the hook gives there.
abbrev pub Mark {ℓ} : Type ℓ → Type ℓ
Mark B = (B × ℕ) × Option ℕ × Marker

module _ {ℓ} {B : Type ℓ} where
  -- The marks of a coroutine, whose priority is that of its begin marker, and of a region.
  abbrev pub coroutine_marks : Coroutine B → List (Mark B) → List (Mark B)
  coroutine_marks k rest =
      (k.begin, k.priority, coroutine_begin) ∷ (k.end, none, coroutine_end) ∷ rest

  unfoldable pub coroutines_marks : List (Coroutine B) → List (Mark B) → List (Mark B)
  coroutines_marks [] rest = rest
  coroutines_marks (k ∷ ks) rest = coroutine_marks k (coroutines_marks ks rest)

  unfoldable pub regions_marks : List (Region B) → List (Mark B)
  unfolding coroutines_marks
  regions_marks [] = []
  regions_marks (r ∷ rs) =
      (r.region_begin, none, region_begin)
      ∷ coroutines_marks r.coroutines ((r.region_end, none, region_end) ∷ regions_marks rs)

  -- What is kept of a statement: the priority is asked for at a `coroutine_begin` only.
  abbrev pub mark_of : B × ℕ → Option ℕ → Option Marker → List (Mark B) → List (Mark B)
  mark_of at priority none rest = rest
  mark_of at priority (some region_begin) rest = (at, none, region_begin) ∷ rest
  mark_of at priority (some region_end) rest = (at, none, region_end) ∷ rest
  mark_of at priority (some coroutine_begin) rest = (at, priority, coroutine_begin) ∷ rest
  mark_of at priority (some coroutine_end) rest = (at, none, coroutine_end) ∷ rest
  mark_of at priority (some yield) rest = rest
  mark_of at priority (some guarded_recv) rest = rest
  mark_of at priority (some producing_send) rest = rest

  abbrev on_mark : Pass B → Mark B → Pass B
  on_mark p (at, priority, m) = on_marker p at priority (some m)

  run_marks : Pass B → List (Mark B) → Pass B
  run_marks p [] = p
  run_marks p (m ∷ ms) = run_marks (on_mark p m) ms

  run_marks-mark_of :
      (p : Pass B) (at : B × ℕ) (priority : Option ℕ) (m : Option Marker) (rest : List (Mark B))
      → run_marks p (mark_of at priority m rest) ≡ run_marks (on_marker p at priority m) rest
  unfolding run_marks
  run_marks-mark_of p at priority none rest = refl
  run_marks-mark_of p at priority (some region_begin) rest = refl
  run_marks-mark_of p at priority (some region_end) rest = refl
  run_marks-mark_of p at priority (some coroutine_begin) rest = refl
  run_marks-mark_of p at priority (some coroutine_end) rest = refl
  run_marks-mark_of p at priority (some yield) rest = refl
  run_marks-mark_of p at priority (some guarded_recv) rest = refl
  run_marks-mark_of p at priority (some producing_send) rest = refl

  -- Inside a region that began at `begin`, with the coroutines `done` behind.
  abbrev inside : List (Region B) → B × ℕ → List (Coroutine B) → Pass B
  inside rs begin done = record {
    regions = rs;
    current_region = some begin;
    current_coroutines = done;
    current_coro_begin = none;
    current_priority = none;
  }

  abbrev between : List (Region B) → Pass B
  between rs = record first_pass { regions = rs }

  run_marks-coroutines :
      (rs : List (Region B)) (begin : B × ℕ) (done ks : List (Coroutine B)) (rest : List (Mark B))
      → run_marks (inside rs begin done) (coroutines_marks ks rest)
        ≡ run_marks (inside rs begin (done ++ ks)) rest
  unfolding run_marks coroutines_marks
  run_marks-coroutines rs begin done [] rest =
      ap (λ l. run_marks (inside rs begin l) rest) (sym (append-nil done))
  run_marks-coroutines rs begin done (k ∷ ks) rest =
      run_marks-coroutines rs begin (done ++ k ∷ []) ks rest
      ∙ ap (λ l. run_marks (inside rs begin l) rest) (append_assoc done (k ∷ []) ks)

  run_marks-regions :
      (found rs : List (Region B))
      → (run_marks (between found) (regions_marks rs)).regions ≡ found ++ rs
  unfolding run_marks regions_marks
  run_marks-regions found [] = sym (append-nil found)
  run_marks-regions found (r ∷ rs) =
      ap (λ p. p.regions)
        (run_marks-coroutines found r.region_begin [] r.coroutines
          ((r.region_end, none, region_end) ∷ regions_marks rs))
      ∙ run_marks-regions (found ++ r ∷ []) rs
      ∙ append_assoc found (r ∷ []) rs

module _ {ℓ κ} {C : Type κ} {B : Type ℓ} (flow : Flow C B) (c : C) where
  -- The marks of a program, in the order of its blocks and statements.
  unfoldable pub block_marks : B → ℕ → ℕ → List (Mark B) → List (Mark B)
  block_marks bb idx zero rest = rest
  block_marks bb idx (suc left) rest =
      mark_of (bb, idx) (flow.coroutine_priority c bb idx) (flow.classify_marker c bb idx)
        (block_marks bb (idx + 1) left rest)

  unfoldable pub blocks_marks : List B → List (Mark B)
  unfolding block_marks
  blocks_marks [] = []
  blocks_marks (bb ∷ blocks) = block_marks bb 0 (flow.statement_count c bb) (blocks_marks blocks)

  scan_block-run_marks :
      (p : Pass B) (bb : B) (idx left : ℕ) (rest : List (Mark B))
      → run_marks p (block_marks bb idx left rest)
        ≡ run_marks (scan_block flow c p bb idx left) rest
  unfolding scan_block block_marks
  scan_block-run_marks p bb idx zero rest = refl
  scan_block-run_marks p bb idx (suc left) rest =
      run_marks-mark_of p (bb, idx) (flow.coroutine_priority c bb idx)
        (flow.classify_marker c bb idx) (block_marks bb (idx + 1) left rest)
      ∙ scan_block-run_marks (on_statement flow c p bb idx) bb (idx + 1) left rest

  scan_blocks-run_marks :
      (p : Pass B) (blocks : List B)
      → run_marks p (blocks_marks blocks) ≡ scan_blocks flow c p blocks
  unfolding scan_blocks blocks_marks run_marks
  scan_blocks-run_marks p [] = refl
  scan_blocks-run_marks p (bb ∷ blocks) =
      scan_block-run_marks p bb 0 (flow.statement_count c bb) (blocks_marks blocks)
      ∙ scan_blocks-run_marks (scan_block flow c p bb 0 (flow.statement_count c bb)) blocks

  -- If the markers of a program, block by block, are those of some regions one after the other, each
  -- with its coroutines one after the other, then `find_regions` returns these regions: places,
  -- coroutines and priorities.
  pub find_regions-marks :
      (rs : List (Region B))
      → blocks_marks (flow.block_ids c) ≡ regions_marks rs
      → find_regions flow c ≡ rs
  unfolding find_regions
  find_regions-marks rs e =
      ap (λ p. p.regions)
        (sym (scan_blocks-run_marks first_pass (flow.block_ids c)) ∙ ap (run_marks first_pass) e)
      ∙ run_marks-regions [] rs
