-- ===== src/Core.antt =====
-- crates/krio-core/src/lib.rs: the vocabulary that the crates share.
use krio.Base.{ℕ, ◌≡◌, Bool, true, false, not, ◌==◌, ltb, Eq, nat_eq, arith}

-- `Marker`: what the classifier says of a statement.
pub data Marker : Type 0 where
  region_begin region_end coroutine_begin coroutine_end yield guarded_recv producing_send : Marker

-- `CfgId`: what the transforms ask of the ids of blocks, an order beside equality.
pub record Ord {ℓ} (B : Type ℓ) : Type ℓ where
  pub eq : Eq B
  pub lt : B → B → Bool
  pub lt-irrefl : (b : B) → lt b b ≡ false
  pub lt_total : (a b : B) → lt a b ≡ false → eq.agree a b ≡ false → lt b a ≡ true

instance abbrev pub nat_ord : Ord ℕ
nat_ord = record {
  eq = nat_eq;
  lt = ltb;
  lt-irrefl = λ b. ground arith;
  lt_total = λ a b h k. ground arith;
}

-- `Suspension`: why a coroutine stopped running on this turn.
pub data Suspension : Type 0 where
  completed yielded pending : Suspension

-- `Suspension::is_done`.
abbrev pub is_done : Suspension → Bool
is_done completed = true
is_done yielded = false
is_done pending = false

-- The trait `Task`. A step works on the task's own state and on the world `W` that tasks share,
-- and says why the task stopped.
pub record Task {ℓ κ} (T : Type ℓ) (W : Type κ) : Type (ℓ ⊔ κ) where
  pub step : T → W → T × Suspension × W

-- `TaskId`, a u64; 0 is the scheduler's own context.
pub record TaskId : Type 0 where
  pub value : ℕ

-- `TaskId::NONE`.
abbrev pub no_task : TaskId
no_task = record { value = 0 }

-- `TaskId::is_task`.
abbrev pub is_task : TaskId → Bool
is_task id = not (id.value == 0)
