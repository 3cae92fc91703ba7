-- ===== src/Preempt.antt =====
-- crates/krio-preempt/src/lib.rs: `TimeSliceScheduler`. A `Slot` holds only its fiber, so the list
-- is of fibers. Times are krio-fiber's f64 milliseconds, kept abstract.
pub mod Rounds
mod Examples
use krio.Base.{
  ℕ, zero, suc, ◌+◌, ◌≡◌, Bool, true, false, not, Option, none, some, List, [], ◌∷◌, ◌++◌, reverse,
  length, if◌then◌else◌,
}
use krio.Core.{Suspension, completed, yielded, pending}
use krio.Runtime.Sweep.{sweep, remove_all}
use krio.Runtime.RoundRobin.{is_empty}

-- What the scheduler calls of krio-fiber, and the arithmetic on its times. `after now slice` is
-- `now + slice.as_secs_f64() * 1000.0`; `deadline` is what a fiber's pollers compare the time with.
pub record Fibers {ℓ κ μ} (F : Type ℓ) (W : Type κ) (Time : Type μ) : Type (ℓ ⊔ κ ⊔ μ) where
  pub fiber_done : F → Bool
  pub set_deadline_ms : Time → F → F
  pub clear_deadline : F → F
  pub step : F → W → F × Suspension × W
  pub now_ms : W → Time
  pub after : Time → Time → Time
  pub deadline : F → Option Time
  pub deadline-clear : (f : F) → deadline (clear_deadline f) ≡ none

pub record TimeSliceScheduler {ℓ μ} (F : Type ℓ) (Time : Type μ) : Type (ℓ ⊔ μ) where
  pub fibers : List F
  pub slice : Time

module _ {ℓ μ} {F : Type ℓ} {Time : Type μ} where
  -- `TimeSliceScheduler::new`.
  abbrev pub new : Time → TimeSliceScheduler F Time
  new slice = record { fibers = []; slice = slice }

  -- `spawn`.
  abbrev pub spawn : TimeSliceScheduler F Time → F → TimeSliceScheduler F Time
  spawn s fiber = record s { fibers = s.fibers ++ fiber ∷ [] }

  -- `fiber_count`.
  abbrev pub fiber_count : TimeSliceScheduler F Time → ℕ
  fiber_count s = length s.fibers

  -- The end of `tick`: the finished fibers are removed from the highest index down.
  unfoldable pub drop_finished {κ} :
      {W : Type κ} → Time → List F × List ℕ × W → Option (Bool × TimeSliceScheduler F Time × W)
  drop_finished slice (resumed, to_remove, w) = elim (remove_all (reverse to_remove) resumed) [
    | none ↦ none
    | some left ↦ some (not (is_empty left), record { fibers = left; slice = slice }, w)
  ]

module _ {ℓ κ μ} {F : Type ℓ} {W : Type κ} {Time : Type μ} (fib : Fibers F W Time) where
  -- What the round makes of one fiber after its step: `Completed` is noted, any other keeps the
  -- fiber with its deadline cleared.
  abbrev pub after_step : F × Suspension × W → F × Bool × W
  after_step (f, completed, w) = (f, true, w)
  after_step (f, yielded, w) = (fib.clear_deadline f, false, w)
  after_step (f, pending, w) = (fib.clear_deadline f, false, w)

  -- The body of the loop in `tick`.
  abbrev pub visit : Time → F → W → F × Bool × W
  visit slice f w =
      if fib.fiber_done f
      then (f, true, w)
      else after_step (fib.step (fib.set_deadline_ms (fib.after (fib.now_ms w) slice) f) w)

  -- `tick`; `none` is a panic of `swap_remove`.
  unfoldable pub tick :
      TimeSliceScheduler F Time → W → Option (Bool × TimeSliceScheduler F Time × W)
  unfolding drop_finished
  tick s w =
      if is_empty s.fibers
      then some (false, s, w)
      else drop_finished s.slice (sweep (visit s.slice) 0 s.fibers w)

  -- The loop of `run_to_completion`, with the rounds counted so far; `none` is a panic, or a loop
  -- that outlives the fuel.
  unfoldable pub run_from :
      ℕ → ℕ → TimeSliceScheduler F Time → W → Option (ℕ × TimeSliceScheduler F Time × W)
  run_from zero rounds s w = none
  run_from (suc fuel) rounds s w = elim (tick s w) [
    | none ↦ none
    | some (true, s', w') ↦ run_from fuel (rounds + 1) s' w'
    | some (false, s', w') ↦ some (rounds, s', w')
  ]

  -- `run_to_completion`.
  unfoldable pub run_to_completion :
      ℕ → TimeSliceScheduler F Time → W → Option (ℕ × TimeSliceScheduler F Time × W)
  unfolding run_from
  run_to_completion fuel s w = run_from fuel 0 s w
