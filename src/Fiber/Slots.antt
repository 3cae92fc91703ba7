-- ===== src/Fiber/Slots.antt =====
-- crates/krio-fiber/src/fiber.rs: the states of a fiber and the values that it and its host hand over.
-- The context switch is a parameter of the model in this form: what a fiber's stack holds is its code
-- from the switch on, and resuming runs the code to its next switch.
pub mod Handoff
mod Examples
use krio.Base.{ℕ, ◌==◌, Bool, true, false, Option, none, some, if◌then◌else◌}
use krio.Core.{Suspension}

-- A `Box<dyn Any>`: its type and its value.
pub record Any {ℓ} (V : Type ℓ) : Type ℓ where
  pub type_id : ℕ
  pub value : V

-- The closure of a fiber, by its calls of the functions of the file: it ends, panics, or goes on
-- with what a call returned. A wanted input is given by its type.
pub data Code {ℓ} (V P : Type ℓ) : Type ℓ where
  end : Code V P
  panic : P → Code V P
  yield_now : Code V P → Code V P
  yield_value : Any V → ℕ → (Option V → Code V P) → Code V P
  yield_u64 : ℕ → (Option ℕ → Code V P) → Code V P
  take_input : ℕ → (Option V → Code V P) → Code V P
  take_input_u64 : (Option ℕ → Code V P) → Code V P

-- `FiberState`.
pub data FiberState : Type 0 where
  new suspended done errored : FiberState

-- `FiberStep`.
pub data FiberStep : Type 0 where
  yielded done errored : FiberStep

-- `Fiber`.
pub record Fiber {ℓ} (V P : Type ℓ) : Type ℓ where
  pub code : Code V P
  pub done : Bool
  pub errored : Bool
  pub started : Bool
  pub error_payload : Option P
  pub input_slot : Option (Any V)
  pub output_slot : Option (Any V)
  pub input_u64 : Option ℕ
  pub output_u64 : Option ℕ

-- The `match` of `state` on `(self.started, self.done, self.errored)`.
abbrev pub state_of : Bool → Bool → Bool → FiberState
state_of false is_done has_error = FiberState.new
state_of true false has_error = FiberState.suspended
state_of true true false = FiberState.done
state_of true true true = FiberState.errored

-- The last `match` of `resume`.
abbrev pub step_of : Bool → Bool → FiberStep
step_of false has_error = FiberStep.yielded
step_of true false = FiberStep.done
step_of true true = FiberStep.errored

module _ {ℓ} {V : Type ℓ} where
  -- `downcast`.
  abbrev pub downcast : ℕ → Any V → Option V
  downcast type_id a = if a.type_id == type_id then some a.value else none

  -- `received.and_then(|b| b.downcast::<I>().ok().map(|b| *b))`
  abbrev pub received : ℕ → Option (Any V) → Option V
  received type_id none = none
  received type_id (some a) = downcast type_id a

module _ {ℓ} {V P : Type ℓ} where
  -- `with_stack_size`, of what is modelled.
  abbrev pub with_code : Code V P → Fiber V P
  with_code code = record {
    code = code;
    done = false;
    errored = false;
    started = false;
    error_payload = none;
    input_slot = none;
    output_slot = none;
    input_u64 = none;
    output_u64 = none;
  }

  -- `fiber_run` once the closure has ended, or panicked with a payload.
  abbrev pub finished : Option P → Fiber V P → Fiber V P
  finished none f = record f { code = end; done = true }
  finished (some payload) f = record f {
    code = end;
    errored = true;
    error_payload = some payload;
    done = true;
  }

  -- The closure's code up to its next switch, and `fiber_run` behind it: the fiber at the switch.
  unfoldable pub run : Code V P → Fiber V P → Fiber V P
  run end f = finished none f
  run (panic payload) f = finished (some payload) f
  run (yield_now rest) f = record f { code = rest }
  run (yield_value value wanted rest) f = record f {
    code = take_input wanted rest;
    output_slot = some value;
  }
  run (yield_u64 value rest) f = record f { code = take_input_u64 rest; output_u64 = some value }
  run (take_input wanted rest) f =
      run (rest (received wanted f.input_slot)) (record f { input_slot = none })
  run (take_input_u64 rest) f = run (rest f.input_u64) (record f { input_u64 = none })

  abbrev pub state : Fiber V P → FiberState
  state f = state_of f.started f.done f.errored

  -- `resume`; `none` is the failed assertion.
  unfoldable pub resume : Fiber V P → Option (FiberStep × Fiber V P)
  unfolding run
  resume f =
      if f.done
      then none
      else (let f' = run f.code (record f { started = true }) in
          some (step_of f'.done f'.errored, f'))

  unfoldable pub resume_with : Fiber V P → Any V → Option (FiberStep × Fiber V P)
  unfolding resume
  resume_with f input = resume (record f { input_slot = some input })

  unfoldable pub resume_with_u64 : Fiber V P → ℕ → Option (FiberStep × Fiber V P)
  unfolding resume
  resume_with_u64 f input = resume (record f { input_u64 = some input })

  abbrev pub take_yield_u64 : Fiber V P → Option ℕ × Fiber V P
  take_yield_u64 f = (f.output_u64, record f { output_u64 = none })

  -- A value of another type goes back into the slot.
  abbrev pub taken : Fiber V P → Any V → Option V → Option V × Fiber V P
  taken f original none = (none, record f { output_slot = some original })
  taken f original (some v) = (some v, record f { output_slot = none })

  abbrev pub take_from : Fiber V P → ℕ → Option (Any V) → Option V × Fiber V P
  take_from f wanted none = (none, f)
  take_from f wanted (some boxed) = taken f boxed (downcast wanted boxed)

  abbrev pub take_yield_value : Fiber V P → ℕ → Option V × Fiber V P
  take_yield_value f wanted = take_from f wanted f.output_slot

  abbrev pub take_yield_any : Fiber V P → Option (Any V) × Fiber V P
  take_yield_any f = (f.output_slot, record f { output_slot = none })

  abbrev pub take_error : Fiber V P → Option P × Fiber V P
  take_error f = (f.error_payload, record f { error_payload = none })

-- `Task::step` of a fiber.
abbrev pub suspension_of : FiberStep → Suspension
suspension_of FiberStep.yielded = Suspension.yielded
suspension_of FiberStep.done = Suspension.completed
suspension_of FiberStep.errored = Suspension.completed
