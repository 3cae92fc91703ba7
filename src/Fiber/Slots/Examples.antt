-- ===== src/Fiber/Slots/Examples.antt =====
-- A fiber that yields 3, waits for a number of type 1, and ends.
use krio.Base.{ℕ, ◌≡◌, refl, Option, none, some}
use krio.Fiber.Slots.{
  Any, Code, FiberStep, Fiber, with_code, run, step_of, resume, resume_with, take_yield_value, end,
  panic, yield_value,
}
use krio.Fiber.Slots.Handoff.{Outcome, Runs, Tells, resume-state, yield_value-resume_with}

abbrev then_end : Option ℕ → Code ℕ ℕ
then_end none = panic 7
then_end (some n) = end

abbrev three : Any ℕ
three = record { type_id = 1; value = 3 }

abbrev talker : Fiber ℕ ℕ
talker = with_code (yield_value three 1 then_end)

-- An input of another type is lost, and the fiber here panics.
abbrev last_step : Option (FiberStep × Fiber ℕ ℕ) → Option FiberStep
last_step none = none
last_step (some (step, f)) = some step

abbrev answered : ℕ → Option (FiberStep × Fiber ℕ ℕ) → Option FiberStep
answered type_id none = none
answered type_id (some (step, f)) =
    last_step (resume_with f (record { type_id = type_id; value = 5 }))

answered-same : answered 1 (resume talker) ≡ some FiberStep.done
unfolding resume resume_with
answered-same = refl

answered-other : answered 2 (resume talker) ≡ some FiberStep.errored
unfolding resume resume_with
answered-other = refl

resume-state_example :
    (step : FiberStep) × (f' : Fiber ℕ ℕ) × (o : Outcome ℕ) × (resume talker ≡ some (step, f'))
    × Runs talker.code none none o
    × Tells o step f'
resume-state_example = resume-state talker refl refl

yield_value-resume_with_example :
    (f' : Fiber ℕ ℕ) × (resume talker ≡ some (FiberStep.yielded, f'))
    × ((take_yield_value f' 1).0 ≡ some 3)
    × (let g = run (then_end (some 3)) (record f' { input_slot = none }) in
        resume_with f' three ≡ some (step_of g.done g.errored, g))
yield_value-resume_with_example = yield_value-resume_with talker three three 1 then_end refl refl
