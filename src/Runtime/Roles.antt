-- ===== src/Runtime/Roles.antt =====
-- crates/krio-runtime/src/lib.rs: what an agent may do, and the outcome of a pass. The f64
-- milliseconds of a frame are kept abstract.
use krio.Base.{ℕ}

-- `AgentRole`.
pub data AgentRole : Type 0 where
  main worker : AgentRole

-- `Budget`.
pub data Budget {ℓ} (Time : Type ℓ) : Type ℓ where
  unbounded : Budget Time
  deadline : Time → Budget Time

-- `AgentRole::budget`.
abbrev pub budget {ℓ} : {Time : Type ℓ} → AgentRole → Time → Budget Time
budget main frame_ms = deadline frame_ms
budget worker frame_ms = unbounded

-- `Drive`.
pub data Drive : Type 0 where
  idle : Drive
  ran : ℕ → Drive
  shutting_down : Drive
