-- ===== src/Stackless/Run/Examples.antt =====
-- The body of crates/krio-stackless/tests/toy_adapter.rs, and the theorems applied to it.
use krio.Base.{
  ℕ, ◌==◌, ◌≡◌, ◌<◌, refl, false, Option, none, some, List, [], ◌∷◌, arith, if◌then◌else◌,
}
use krio.Core.{Marker, nat_ord}
use krio.Stackless.{Coroutine, Region, SuspKind}
use krio.Stackless.Regions.{find_regions}
use krio.Stackless.Regions.RoundTrip.{find_regions-marks, regions_marks, blocks_marks}
use krio.Stackless.Points.{member}
use krio.Stackless.Body.{Stmt, Term, Body, Hooks, flow_of, pos, ids_from, after, up_to}
use krio.Stackless.Emit.{build_state_machine, done_state}
use krio.Stackless.Emit.Suspend.{PeekLocal}
use krio.Stackless.Emit.Blocks.{Suspends}
use krio.Stackless.Emit.Resume.{enters, build_state_machine-suspends, build_state_machine-dispatch}
use krio.Stackless.Run.{waker_executor, run_with}

abbrev toy_hooks : Hooks ℕ
toy_hooks = record {
  emit_guarded_recv_peek = λ c bb idx resume. (c, 0);
  emit_deadlock = λ c bb. (c, false);
  coroutine_priority = λ c bb idx. none;
}

-- `build_simple_region`.
abbrev simple_block : ℕ → List (Stmt ℕ) × Term
simple_block b =
    if b == 0
    then (Stmt.marker Marker.region_begin ∷ Stmt.marker Marker.coroutine_begin ∷ [], Term.goto 1)
    else if b == 1
    then (Stmt.user 11 ∷ Stmt.marker Marker.yield ∷ [], Term.goto 2)
    else if b == 2
    then (Stmt.user 12 ∷ Stmt.marker Marker.coroutine_end ∷ [], Term.goto 3)
    else if b == 3
    then (Stmt.marker Marker.coroutine_begin ∷ [], Term.goto 4)
    else if b == 4
    then (Stmt.user 21 ∷ Stmt.marker Marker.coroutine_end ∷ [], Term.goto 5)
    else if b == 5
    then (Stmt.marker Marker.region_end ∷ [], Term.goto 6)
    else if b == 6
    then (Stmt.user 99 ∷ [], Term.return)
    else ([], Term.unreachable)

abbrev simple_region : Body ℕ
simple_region = record { blocks = simple_block; block_count = 7; locals = [] }

abbrev first_coroutine : Coroutine ℕ
first_coroutine = record { begin = (0, 1); end = (2, 1); priority = none }

abbrev second_coroutine : Coroutine ℕ
second_coroutine = record { begin = (3, 0); end = (4, 1); priority = none }

abbrev regions : List (Region ℕ)
regions =
    record {
      region_begin = (0, 0);
      region_end = (5, 0);
      coroutines = first_coroutine ∷ second_coroutine ∷ [];
    }
    ∷ []

abbrev blocks_after : {E : Type 0} → Option (E × Body ℕ) → ℕ
blocks_after none = 0
blocks_after (some (e, c)) = c.block_count

waker_runs : blocks_after (run_with toy_hooks waker_executor 2 [] simple_region) ≡ 29
unfolding run_with waker_executor ids_from member after up_to
waker_runs = refl

find_regions-marks_example : find_regions (flow_of toy_hooks) simple_region ≡ regions
unfolding regions_marks blocks_marks ids_from
find_regions-marks_example = find_regions-marks (flow_of toy_hooks) simple_region regions refl

toy-PeekLocal : PeekLocal toy_hooks
toy-PeekLocal = record {
  elsewhere = λ c bb idx resume b h k. refl;
  count = λ c bb idx resume. refl;
}

build_state_machine-suspends_example :
    let (after_c, m) =
      build_state_machine toy_hooks simple_region first_coroutine ((1, 1, SuspKind.yield) ∷ []) 0 in
    Suspends simple_region after_c m 1
      (1, 1, SuspKind.yield)
      (enters (after_c.blocks m.dispatch_bb).1 m.state_local (pos 1))
build_state_machine-suspends_example =
    build_state_machine-suspends toy_hooks toy-PeekLocal simple_region first_coroutine 1 1
      SuspKind.yield [] [] 0 (λ e. absurd (cc e)) (omega arith) (omega arith)
      (λ e. omega (arith, e)) tt tt

build_state_machine-dispatch_example :
    let (after_c, m) =
      build_state_machine toy_hooks simple_region first_coroutine ((1, 1, SuspKind.yield) ∷ []) 0 in
    (enters (after_c.blocks m.dispatch_bb).1 m.state_local (pos 0) ≡ some 0)
    × (enters (after_c.blocks m.dispatch_bb).1 m.state_local done_state ≡ some m.exit_bb)
    × ((v : ℕ)
        → 1 < v
        → enters (after_c.blocks m.dispatch_bb).1 m.state_local (pos v) ≡ some m.exit_bb)
build_state_machine-dispatch_example =
    build_state_machine-dispatch toy_hooks simple_region first_coroutine (1, 1, SuspKind.yield) [] 0
      (omega arith)
