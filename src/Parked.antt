-- ===== src/Parked.antt =====
-- crates/krio-parallel/src/parked.rs: tasks that wait, and wakes that came before their task. Each
-- operation runs under the lock, so that it is one step here.
pub mod Wakes
mod Examples
use krio.Base.{ℕ, Bool, true, false, Option, none, some, List, [], ◌∷◌, length, if◌then◌else◌}
use krio.Base.Maps.{lookup, insert, remove, contains, discard, include}
use krio.Core.{TaskId}

pub record Parked {ℓ} (T : Type ℓ) : Type ℓ where
  pub tasks : List (ℕ × T)
  pub early_wakes : List ℕ
  pub count : ℕ

module _ {ℓ} {T : Type ℓ} where
  -- `Parked::new`.
  abbrev pub new : Parked T
  new = record { tasks = []; early_wakes = []; count = 0 }

  -- `park`.
  unfoldable pub park : Parked T → TaskId → T → Option T × Parked T
  park p id task =
      let raced = contains id.value p.early_wakes in
      if raced
      then (some task, record p { early_wakes = discard id.value p.early_wakes })
      else (let tasks' = insert id.value task p.tasks in
          (none, record p { tasks = tasks'; count = length tasks' }))

  -- The end of `wake`, by what was found under the id.
  abbrev pub wake_found : Parked T → TaskId → Option T → Option T × Parked T
  wake_found p id none = (none, record p { early_wakes = include id.value p.early_wakes })
  wake_found p id (some task) =
      let tasks' = remove id.value p.tasks in
      (some task, record p { tasks = tasks'; count = length tasks' })

  -- `wake`.
  unfoldable pub wake : Parked T → TaskId → Option T × Parked T
  wake p id = wake_found p id (lookup id.value p.tasks)

  -- `len`.
  abbrev pub len : Parked T → ℕ
  len p = p.count

  -- `early_wake_count`.
  abbrev pub early_wake_count : Parked T → ℕ
  early_wake_count p = length p.early_wakes
