-- ===== src/Deque/Examples.antt =====
-- The deque at a small capacity, on both targets.
use krio.Base.{ℕ, ◌^◌, ◌*◌, ◌<◌, ◌⊎◌, ◌≡◌, ◌≤◌, some, List, [], ◌∷◌, arith}
use krio.Words.{wasm32, host64}
use krio.Deque.{Deque, capacity, with_capacity}
use krio.Deque.Repr.{Repr}
use krio.Deque.Run.{Op, pushes, pops, steals, run, run_queue, with_capacity-Repr, run_refines}

abbrev fresh : Deque ℕ
fresh = with_capacity 2

fresh-Repr : Repr wasm32 fresh []
fresh-Repr = (with_capacity-Repr wasm32 2 (omega arith)).0

with_capacity-Repr_example :
    Repr {T = ℕ} host64 (with_capacity 3) []
    × (3 ≤ capacity {T = ℕ} (with_capacity 3))
    × (2 ≤ capacity {T = ℕ} (with_capacity 3))
    × ((k : ℕ) × (capacity {T = ℕ} (with_capacity 3) ≡ 2 ^ k))
    × ((capacity {T = ℕ} (with_capacity 3) ≡ 2) ⊎ (capacity {T = ℕ} (with_capacity 3) < 2 * 3))
with_capacity-Repr_example = with_capacity-Repr host64 3 (omega arith)

-- More pushes than there is room for, a steal, and pops down to nothing.
abbrev history : List (Op ℕ)
history = pushes 1 ∷ pushes 2 ∷ pushes 3 ∷ steals ∷ pushes 4 ∷ pops ∷ pops ∷ pops ∷ steals ∷ []

run_refines_example : run wasm32 fresh history ≡ some (run_queue (capacity fresh) [] history)
run_refines_example = run_refines wasm32 fresh [] history fresh-Repr
