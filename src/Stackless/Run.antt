-- ===== src/Stackless/Run.antt =====
-- crates/krio-stackless/src/lib.rs: the transform of a region, the loop over the regions, and the two
-- executors as values.
mod Examples
use krio.Base.{ℕ, zero, suc, ◌+◌, Option, none, some, List, [], ◌∷◌, ◌++◌}
use krio.Core.{nat_ord}
use krio.Stackless.{Coroutine, Region, SuspKind}
use krio.Stackless.Regions.{find_regions}
use krio.Stackless.Points.{find_suspension_points}
use krio.Stackless.Body.{Body, Hooks, flow_of, new_state_local}
use krio.Stackless.Emit.{Machine, build_state_machine}
use krio.Stackless.Executor.{RegionExits, build_oneshot_poll}
use krio.Stackless.Executor.Priority.{finalize_cooperative}

-- `Executor`, with the executor's own state.
pub record Executor {ℓ} (U : Type ℓ) (E : Type 0) : Type ℓ where
  pub finalize_region : E → Body U → Region ℕ → List Machine → E × Body U

module _ {ℓ} {U : Type ℓ} where
  -- `CooperativeExecutor`.
  unfoldable pub cooperative_executor : Hooks U → Executor U Unit
  unfolding finalize_cooperative
  cooperative_executor hooks = record {
    finalize_region = λ e c r machines. (e, finalize_cooperative hooks c r machines);
  }

  -- `WakerExecutor`, with the exits of the regions so far.
  unfoldable pub waker_executor : Executor U (List RegionExits)
  unfolding build_oneshot_poll
  waker_executor = record {
    finalize_region = λ regions c r machines.
        let (c, exits) = build_oneshot_poll c r machines in (regions ++ exits ∷ [], c);
  }

module _ {ℓ} {U : Type ℓ} {E : Type 0} (hooks : Hooks U) (executor : Executor U E) where
  -- The coroutines with their suspension points, or `none` where a search outlives the fuel.
  unfoldable pub snapshot :
      ℕ → Body U → List (Coroutine ℕ) → Option (List (Coroutine ℕ × List (ℕ × ℕ × SuspKind)))
  unfolding find_suspension_points
  snapshot fuel c [] = some []
  snapshot fuel c (k ∷ coroutines) = elim (find_suspension_points (flow_of hooks) c fuel k) [
    | none ↦ none
    | some points ↦ elim (snapshot fuel c coroutines) [
      | none ↦ none
      | some rest ↦ some ((k, points) ∷ rest)
    ]
  ]

  unfoldable pub build_machines :
      Body U → ℕ → List (Coroutine ℕ × List (ℕ × ℕ × SuspKind)) → Body U × List Machine
  unfolding build_state_machine
  build_machines c progress_local [] = (c, [])
  build_machines c progress_local ((k, points) ∷ coroutines) =
      let (c, machine) = build_state_machine hooks c k points progress_local in
      let (c, machines) = build_machines c progress_local coroutines in (c, machine ∷ machines)

  -- `transform_region`.
  unfoldable pub transform_region : ℕ → E → Body U → Region ℕ → Option (E × Body U)
  unfolding snapshot build_machines
  transform_region fuel e c r = elim (snapshot fuel c r.coroutines) [
    | none ↦ none
    | some coroutines ↦
        let (c, progress_local) = new_state_local c in
        let (c, machines) = build_machines c progress_local coroutines in
        some (executor.finalize_region e c r machines)
  ]

  -- The first region with a coroutine.
  unfoldable pub next_region : List (Region ℕ) → Option (Region ℕ)
  next_region [] = none
  next_region (r ∷ regions) = elim r.coroutines [
    | [] ↦ next_region regions
    | ◌∷◌ k coroutines ↦ some r
  ]

  -- `run_with`, for `rounds` rounds at most; the search of a round has fuel for every block.
  unfoldable pub run_with : ℕ → E → Body U → Option (E × Body U)
  unfolding find_regions next_region transform_region
  run_with zero e c = none
  run_with (suc rounds) e c = elim (next_region (find_regions (flow_of hooks) c)) [
    | none ↦ some (e, c)
    | some r ↦ elim (transform_region (c.block_count + 1) e c r) [
      | none ↦ none
      | some at ↦ run_with rounds at.0 at.1
    ]
  ]
