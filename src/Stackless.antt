-- ===== src/Stackless.antt =====
-- crates/krio-stackless/src/lib.rs and cfg.rs: the data of the state-machine transform, and what it
-- reads of the host's CFG.
pub mod Regions
pub mod Points
pub mod Body
pub mod Emit
pub mod Executor
pub mod Exec
pub mod Run
use krio.Base.{ℕ, Option, List}
use krio.Core.{Marker}

-- The read access of `CoroCfg`, with the hooks `classify_marker` and `coroutine_priority`.
pub record Flow {ℓ κ} (C : Type κ) (B : Type ℓ) : Type (ℓ ⊔ κ) where
  pub block_ids : C → List B
  pub statement_count : C → B → ℕ
  pub successors : C → B → List B
  pub classify_marker : C → B → ℕ → Option Marker
  pub coroutine_priority : C → B → ℕ → Option ℕ

-- `Coroutine`.
pub record Coroutine {ℓ} (B : Type ℓ) : Type ℓ where
  pub begin : B × ℕ
  pub end : B × ℕ
  pub priority : Option ℕ

-- `Region`.
pub record Region {ℓ} (B : Type ℓ) : Type ℓ where
  pub region_begin : B × ℕ
  pub region_end : B × ℕ
  pub coroutines : List (Coroutine B)

-- `SuspKind`.
pub data SuspKind : Type 0 where
  yield guarded_recv producing_send : SuspKind
