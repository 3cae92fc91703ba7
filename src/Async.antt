-- ===== src/Async.antt =====
-- crates/krio-async/src/lib.rs: the data of the cross-function transform. `B`, `V` and `F` are the
-- host's ids of blocks, locals and functions.
pub mod Validate
pub mod Transform
mod Examples
use krio.Base.{ℕ, Option, none, some, List, [], ◌∷◌, ◌++◌, Eq, ◌&&◌, ◌==◌, if◌then◌else◌}

-- `SuspensionSite`.
pub data SuspensionSite {ℓ} (F V : Type ℓ) : Type ℓ where
  direct_yield : (value : Option V) → SuspensionSite F V
  cross_fn_call :
      (callee : F) (receiver : Option V) (args : List V) (result : V) → SuspensionSite F V

-- `BlockKind`.
pub data BlockKind {ℓ} (B V F : Type ℓ) : Type ℓ where
  direct_yield : BlockKind B V F
  cross_fn_call_init :
      (resume_check_block : B) (receiver : Option V) (args : List V) (result : V) (callee : F)
      → BlockKind B V F
  cross_fn_call_resume :
      (done_block : B) (receiver : Option V) (args : List V) (result : V) (callee : F)
      → BlockKind B V F

-- `StateMachineLayout`.
pub record StateMachineLayout {ℓ} (B V F : Type ℓ) : Type ℓ where
  pub resume_entries : List B
  pub yield_blocks : List (B × ℕ)
  pub yield_saves : List (B × List (ℕ × V))
  pub resume_loads : List (B × List (ℕ × V))
  pub block_kinds : List (B × BlockKind B V F)

-- The layout of a function that does not suspend.
abbrev pub no_layout {ℓ} : {B V F : Type ℓ} → StateMachineLayout B V F
no_layout = record {
  resume_entries = [];
  yield_blocks = [];
  yield_saves = [];
  resume_loads = [];
  block_kinds = [];
}

-- `LivenessMap`, as its `at_site`.
abbrev pub LivenessMap {ℓ} : Type ℓ → Type ℓ → Type ℓ
LivenessMap B V = List ((B × ℕ) × List V)

-- `LivenessMap::record`.
abbrev pub record_live {ℓ} : {B V : Type ℓ} → LivenessMap B V → B → ℕ → List V → LivenessMap B V
record_live live block idx values = live ++ ((block, idx), values) ∷ []

-- `LivenessMap::lookup`: the first entry of the site, or no values.
unfoldable pub live_at {ℓ} : {B V : Type ℓ} ⦃e : Eq B⦄ → LivenessMap B V → B → ℕ → List V
live_at [] block idx = []
live_at ⦃e⦄ (((b, i), values) ∷ rest) block idx =
    if e.agree b block && i == idx then values else live_at rest block idx
