-- ===== src/Runtime/RoundRobin.antt =====
-- crates/krio-runtime/src/lib.rs: the trait `Scheduler` as `RoundRobin` implements it. A boxed task
-- is a value of `T` with the operations of `Task`; `W` is what the tasks share.
pub mod Rounds
mod Examples
use krio.Base.{
  ℕ, zero, suc, Bool, true, false, not, Option, none, some, List, [], ◌∷◌, ◌++◌, reverse, length,
  if◌then◌else◌,
}
use krio.Core.{Suspension, is_done, Task}
use krio.Runtime.Sweep.{sweep, remove_all}

pub record RoundRobin {ℓ} (T : Type ℓ) : Type ℓ where
  pub tasks : List T

abbrev pub is_empty {ℓ} : {A : Type ℓ} → List A → Bool
is_empty [] = true
is_empty (x ∷ xs) = false

-- `RoundRobin::new`.
abbrev pub new {ℓ} : {T : Type ℓ} → RoundRobin T
new = record { tasks = [] }

-- `RoundRobin::with_capacity`: the capacity shows nowhere in what the scheduler does.
abbrev pub with_capacity {ℓ} : {T : Type ℓ} → ℕ → RoundRobin T
with_capacity cap = record { tasks = [] }

-- `spawn`.
abbrev pub spawn {ℓ} : {T : Type ℓ} → RoundRobin T → T → RoundRobin T
spawn s task = record { tasks = s.tasks ++ task ∷ [] }

-- `task_count`.
abbrev pub task_count {ℓ} : {T : Type ℓ} → RoundRobin T → ℕ
task_count s = length s.tasks

-- The end of `tick`: the completed tasks are removed from the highest index down.
unfoldable pub drop_completed {ℓ κ} :
    {T : Type ℓ} {W : Type κ} → List T × List ℕ × W → Option (Bool × RoundRobin T × W)
drop_completed (stepped, to_remove, w) = elim (remove_all (reverse to_remove) stepped) [
  | none ↦ none
  | some left ↦ some (not (is_empty left), record { tasks = left }, w)
]

module _ {ℓ κ} {T : Type ℓ} {W : Type κ} (task : Task T W) where
  -- `matches!(task.step(), Suspension::Completed)`, with the task left behind.
  abbrev pub visit : T → W → T × Bool × W
  visit t w = let (t', suspension, w') = task.step t w in (t', is_done suspension, w')

  -- `tick`; `none` is a panic of `swap_remove`.
  unfoldable pub tick : RoundRobin T → W → Option (Bool × RoundRobin T × W)
  unfolding drop_completed
  tick s w =
      if is_empty s.tasks then some (false, s, w) else drop_completed (sweep visit 0 s.tasks w)

  -- `run_to_completion`: `none` is a panic, or a loop that outlives the fuel.
  unfoldable pub run_to_completion : ℕ → RoundRobin T → W → Option (RoundRobin T × W)
  run_to_completion zero s w = none
  run_to_completion (suc fuel) s w = elim (tick s w) [
    | none ↦ none
    | some (true, s', w') ↦ run_to_completion fuel s' w'
    | some (false, s', w') ↦ some (s', w')
  ]
