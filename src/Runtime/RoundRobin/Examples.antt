-- ===== src/Runtime/RoundRobin/Examples.antt =====
-- `RoundRobin` at three tasks that count down, of which one is at its end.
use krio.Base.{ℕ, zero, suc, ◌≡◌, refl, some, inl, inr, [], ◌∷◌, arith, ◌<◌}
use krio.Core.{Suspension, completed, yielded, Task}
use krio.Runtime.Load.{load, Advances}
use krio.Runtime.RoundRobin.{RoundRobin, visit, run_to_completion}
use krio.Runtime.RoundRobin.Rounds.{run_to_completion_lem}

abbrev count_step : ℕ → ℕ → ℕ × Suspension × ℕ
count_step zero w = (zero, completed, suc w)
count_step (suc n) w = (n, yielded, suc w)

abbrev countdown : Task ℕ ℕ
countdown = record { step = count_step }

abbrev three : RoundRobin ℕ
three = record { tasks = 2 ∷ 0 ∷ 1 ∷ [] }

countdown-Advances : Advances (λ n. n) (visit countdown)
countdown-Advances zero w = inl refl
countdown-Advances (suc n) w = inr (omega arith)

three-load : load (λ n. n) three.tasks < 7
unfolding load
three-load = omega arith

run_to_completion_lem_example :
    (w' : ℕ) × (run_to_completion countdown 7 three 0 ≡ some (record { tasks = [] }, w'))
run_to_completion_lem_example =
    run_to_completion_lem countdown (λ n. n) 7 three 0 countdown-Advances three-load
