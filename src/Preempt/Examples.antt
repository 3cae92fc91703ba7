-- ===== src/Preempt/Examples.antt =====
-- `TimeSliceScheduler` at fibers that count down, with a clock that the steps move.
use mathlib.Core.List.{cons≢nil}
use krio.Base.{
  ℕ, zero, suc, ◌+◌, ◌≡◌, ◌≤◌, refl, Option, none, some, inl, inr, List, [], ◌∷◌, arith, ◌<◌, ◌==◌,
  suc-==-zero, not, Perm, All,
}
use krio.Core.{Suspension, completed, yielded}
use krio.Runtime.RoundRobin.{is_empty}
use krio.Runtime.Load.{load, Advances}
use krio.Preempt.{Fibers, visit, tick, run_to_completion}
use krio.Preempt.Rounds.{Round, Busy, rounds, slice_tick_lem, run_to_completion-rounds}

-- A fiber: the steps it has left, and its deadline.
abbrev Counter : Type 0
Counter = ℕ × Option ℕ

abbrev count_step : Counter → ℕ → Counter × Suspension × ℕ
count_step (zero, d) w = ((zero, d), completed, w)
count_step (suc n, d) w = ((n, d), yielded, w + 3)

abbrev counters : Fibers Counter ℕ ℕ
counters = record {
  fiber_done = λ f. f.0 == 0;
  set_deadline_ms = λ t f. (f.0, some t);
  clear_deadline = λ f. (f.0, none);
  step = count_step;
  now_ms = λ w. w;
  after = λ now slice. now + slice;
  deadline = λ f. f.1;
  deadline-clear = λ f. refl;
}

abbrev two : List Counter
two = (1, none) ∷ (2, none) ∷ []

counters-Advances : Advances (λ f. f.0) (visit counters 5)
counters-Advances (zero, d) w = inl refl
counters-Advances (suc n, d) w = inr (rw (suc-==-zero n) (omega arith))

slice_tick_lem_example :
    (left kept : List Counter) × (w' : ℕ) × Round counters 5 two 0 kept w'
    × (tick counters (record { fibers = two; slice = 5 }) 0
        ≡ some (not (is_empty left), record { fibers = left; slice = 5 }, w'))
    × Perm left kept
    × All (λ f. f.1 ≡ none) kept
slice_tick_lem_example = slice_tick_lem counters 5 two 0

two-load : load (λ f. f.0) two < 6
unfolding load
two-load = omega arith

run_to_completion-rounds_example :
    (r : ℕ) × (w' : ℕ) × (run_to_completion counters 6 (record { fibers = two; slice = 5 }) 0
      ≡ some (r, record { fibers = []; slice = 5 }, w'))
    × (rounds counters 5 (suc r) two 0 ≡ some ([], w'))
    × ((k : ℕ) → k ≤ r → Busy counters 5 k two 0)
run_to_completion-rounds_example =
    run_to_completion-rounds counters 5 (λ f. f.0) counters-Advances 6 two 0 two-load cons≢nil
