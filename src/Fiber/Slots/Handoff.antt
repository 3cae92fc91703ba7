-- ===== src/Fiber/Slots/Handoff.antt =====
-- What a resume answers, and that values cross a yield in both directions.
use krio.Base.{ℕ, ◌==◌, ==_self, ◌≡◌, refl, true, false, Option, none, some, if◌then◌else◌}
use krio.Fiber.Slots.{
  Any, Code, FiberState, FiberStep, Fiber, received, run, state, step_of, resume, resume_with,
  take_yield_value, take_error, end, panic, yield_now, yield_value, yield_u64, take_input,
  take_input_u64,
}

-- How the code of a fiber comes to its next switch: it is suspended, has ended, or has panicked.
pub data Outcome {ℓ} (P : Type ℓ) : Type ℓ where
  suspended ended : Outcome P
  panicked : P → Outcome P

-- The code, given what is in the two slots of inputs, comes to this.
pub data Runs {ℓ} {V P : Type ℓ} : Code V P → Option (Any V) → Option ℕ → Outcome P → Type ℓ where
  ends : {i : Option (Any V)} {u : Option ℕ} → Runs end i u ended
  panics :
      {i : Option (Any V)} {u : Option ℕ} (payload : P)
      → Runs (panic payload) i u (panicked payload)
  yields :
      {i : Option (Any V)} {u : Option ℕ} (rest : Code V P) → Runs (yield_now rest) i u suspended
  yields_value :
      {i : Option (Any V)} {u : Option ℕ} (value : Any V) (wanted : ℕ) (rest : Option V → Code V P)
      → Runs (yield_value value wanted rest) i u suspended
  yields_u64 :
      {i : Option (Any V)} {u : Option ℕ} (value : ℕ) (rest : Option ℕ → Code V P)
      → Runs (yield_u64 value rest) i u suspended
  takes :
      {i : Option (Any V)} {u : Option ℕ} {o : Outcome P} (wanted : ℕ) (rest : Option V → Code V P)
      → Runs (rest (received wanted i)) none u o
      → Runs (take_input wanted rest) i u o
  takes_u64 :
      {i : Option (Any V)} {u : Option ℕ} {o : Outcome P} (rest : Option ℕ → Code V P)
      → Runs (rest u) i none o
      → Runs (take_input_u64 rest) i u o

module _ {ℓ} {V P : Type ℓ} where
  -- What the host learns of an outcome: the step, the state, and the payload of a panic; a fiber that
  -- has not ended can be resumed again, and a resume of one that has ended panics.
  abbrev pub Tells : Outcome P → FiberStep → Fiber V P → Type ℓ
  Tells suspended step f =
      (step ≡ FiberStep.yielded)
      × (state f ≡ FiberState.suspended)
      × (f.done ≡ false)
      × (f.errored ≡ false)
      × ((again : FiberStep × Fiber V P) × (resume f ≡ some again))
  Tells ended step f = (step ≡ FiberStep.done) × (state f ≡ FiberState.done) × (resume f ≡ none)
  Tells (panicked payload) step f =
      (step ≡ FiberStep.errored)
      × (state f ≡ FiberState.errored)
      × ((take_error f).0 ≡ some payload)
      × (resume f ≡ none)

  resumes :
      (f : Fiber V P) → f.done ≡ false → (again : FiberStep × Fiber V P) × (resume f ≡ some again)
  unfolding resume
  resumes f d =
      let f' : Fiber V P = run f.code (record f { started = true }) in
      ((step_of f'.done f'.errored, f'), rw (d, resume) refl)

  run-Tells :
      (code : Code V P) (f : Fiber V P)
      → f.started ≡ true
      → f.done ≡ false
      → f.errored ≡ false
      → (o : Outcome P) × Runs code f.input_slot f.input_u64 o
        × Tells o (step_of (run code f).done (run code f).errored) (run code f)
  unfolding run resume
  run-Tells end f s d e = (ended, ends, (rw e refl, rw (s, e) refl, refl))
  run-Tells (panic payload) f s d e =
      (panicked payload, panics payload, (refl, rw s refl, refl, refl))
  run-Tells (yield_now rest) f s d e = (
    suspended,
    yields rest,
    (rw d refl, rw (s, d) refl, d, e, resumes (run (yield_now rest) f) d),
  )
  run-Tells (yield_value value wanted rest) f s d e = (
    suspended,
    yields_value value wanted rest,
    (rw d refl, rw (s, d) refl, d, e, resumes (run (yield_value value wanted rest) f) d),
  )
  run-Tells (yield_u64 value rest) f s d e = (
    suspended,
    yields_u64 value rest,
    (rw d refl, rw (s, d) refl, d, e, resumes (run (yield_u64 value rest) f) d),
  )
  run-Tells (take_input wanted rest) f s d e =
      let (o, r, tells) =
        run-Tells (rest (received wanted f.input_slot)) (record f { input_slot = none }) s d e in
      (o, takes wanted rest r, tells)
  run-Tells (take_input_u64 rest) f s d e =
      let (o, r, tells) = run-Tells (rest f.input_u64) (record f { input_u64 = none }) s d e in
      (o, takes_u64 rest r, tells)

  -- A fiber that has neither ended nor panicked can be resumed, and its code comes to its next switch:
  -- the step and the state tell which way, a panic leaves its payload for the host, a fiber that
  -- is suspended can be resumed again, and to resume one that has ended or panicked is refused.
  pub resume-state :
      (f : Fiber V P)
      → f.done ≡ false
      → f.errored ≡ false
      → (step : FiberStep) × (f' : Fiber V P) × (o : Outcome P) × (resume f ≡ some (step, f'))
        × Runs f.code f.input_slot f.input_u64 o
        × Tells o step f'
  unfolding resume
  resume-state f open_f unharmed =
      let (o, r, tells) = run-Tells f.code (record f { started = true }) refl open_f unharmed in
      let f' : Fiber V P = run f.code (record f { started = true }) in
      (step_of f'.done f'.errored, f', o, rw (open_f, resume) refl, r, tells)

  -- A fiber that calls `yield_value` is suspended with the value for its host, who takes it by its
  -- type; and when the host resumes it with a value, the fiber goes on with that value if it has the
  -- type the fiber wants, and with none otherwise.
  pub yield_value-resume_with :
      (f : Fiber V P) (value input : Any V) (wanted : ℕ) (rest : Option V → Code V P)
      → f.done ≡ false
      → f.code ≡ yield_value value wanted rest
      → (f' : Fiber V P) × (resume f ≡ some (FiberStep.yielded, f'))
        × ((take_yield_value f' value.type_id).0 ≡ some value.value)
        × (let g =
              run
                (rest (if input.type_id == wanted then some input.value else none))
                (record f' { input_slot = none }) in
            resume_with f' input ≡ some (step_of g.done g.errored, g))
  unfolding resume resume_with run
  yield_value-resume_with f value input wanted rest open_f at = (
    record f { started = true; code = take_input wanted rest; output_slot = some value },
    rw (at, open_f, resume) refl,
    rw (==_self value.type_id) refl,
    rw (open_f, resume) refl,
  )
