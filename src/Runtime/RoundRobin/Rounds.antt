-- ===== src/Runtime/RoundRobin/Rounds.antt =====
-- What a round of `RoundRobin` does, and that rounds come to an end.
use mathlib.Core.List.Perm
use krio.Base.{
  ℕ, zero, suc, ◌+◌, ◌≤◌, ◌<◌, ◌≡◌, refl, ap, ◌∙◌, not, some, List, [], ◌∷◌, Perm, arith, length,
}
use krio.Core.{Task}
use krio.Runtime.Sweep.{visits, visited_world, survivors, sweep-visits, remove_all-survivors}
use krio.Runtime.Load.{load, load-perm, Advances, load-survivors}
use krio.Runtime.RoundRobin.{RoundRobin, is_empty, visit, drop_completed, tick, run_to_completion}

module _ {ℓ κ} {T : Type ℓ} {W : Type κ} (task : Task T W) where
  -- What the tasks that have not completed are after one step of each, in the order of the steps.
  abbrev pub still_alive : List T → W → List T
  still_alive ts w = survivors (visits (visit task) ts w)

  abbrev Ticks : List T → W → Type (ℓ ⊔ κ)
  Ticks ts w =
      (s' : RoundRobin T) × (tick task (record { tasks = ts }) w
        ≡ some (not (is_empty s'.tasks), s', visited_world (visit task) ts w))
      × Perm s'.tasks (still_alive ts w)

  tick_none : (w : W) → Ticks [] w
  unfolding tick visited_world survivors visits
  tick_none w = (record { tasks = [] }, refl, Perm.rfl)

  tick_some : (t : T) (ts : List T) (w : W) → Ticks (t ∷ ts) w
  unfolding tick
  tick_some t ts w =
      let (out, e, p) = remove_all-survivors (visits (visit task) (t ∷ ts) w) in
      (
        record { tasks = out },
        ap drop_completed (sweep-visits (visit task) 0 (t ∷ ts) w) ∙ rw (e, drop_completed),
        p,
      )

  tick_on : (ts : List T) (w : W) → Ticks ts w
  tick_on [] w = tick_none w
  tick_on (t ∷ ts) w = tick_some t ts w

  pub tick_lem :
      (s : RoundRobin T) (w : W)
      → (s' : RoundRobin T) × (tick task s w
          ≡ some (not (is_empty s'.tasks), s', visited_world (visit task) s.tasks w))
        × Perm s'.tasks (still_alive s.tasks w)
  tick_lem s w = tick_on s.tasks w

module _ {ℓ κ} {T : Type ℓ} {W : Type κ} (task : Task T W) (rank : T → ℕ) where
  abbrev Ends : ℕ → List T → W → Type (ℓ ⊔ κ)
  Ends fuel ts w =
      (w' : W) × (run_to_completion task fuel (record { tasks = ts }) w
        ≡ some (record { tasks = [] }, w'))

  Ends-step :
      (fuel : ℕ) (ts left : List T) (w w' : W)
      → tick task (record { tasks = ts }) w
        ≡ some (not (is_empty left), record { tasks = left }, w')
      → Ends fuel left w'
      → Ends (suc fuel) ts w
  unfolding run_to_completion
  Ends-step fuel ts [] w w' e rest = (w', rw (e, run_to_completion))
  Ends-step fuel ts (t ∷ left) w w' e (w'', ends) = (w'', rw (e, run_to_completion) ends)

  Ends-none : (fuel : ℕ) (w : W) → Ends (suc fuel) [] w
  unfolding run_to_completion tick
  Ends-none fuel w = (w, refl)

  load-round :
      (ts left : List T) (w : W)
      → Advances rank (visit task)
      → Perm left (still_alive task ts w)
      → load rank left + length ts ≤ load rank ts
  load-round ts left w adv p =
      omega (arith, load-perm rank p, load-survivors rank (visit task) adv ts w)

  run_on :
      (fuel : ℕ) (ts : List T) (w : W)
      → Advances rank (visit task)
      → load rank ts < fuel
      → Ends fuel ts w
  run_on zero ts w adv enough = absurd (omega arith)
  run_on (suc fuel) [] w adv enough = Ends-none fuel w
  run_on (suc fuel) (t ∷ ts) w adv enough =
      let (s', e, p) = tick_lem task (record { tasks = t ∷ ts }) w in
      Ends-step fuel (t ∷ ts) s'.tasks w _ e
        (run_on fuel s'.tasks _ adv (omega (arith, load-round (t ∷ ts) s'.tasks w adv p)))

  -- If every step of a task either completes it or takes at least one off its rank, the loop ends,
  -- with more fuel than the load of its tasks, and no task is left.
  pub run_to_completion_lem :
      (fuel : ℕ) (s : RoundRobin T) (w : W)
      → Advances rank (visit task)
      → load rank s.tasks < fuel
      → (w' : W) × (run_to_completion task fuel s w ≡ some (record { tasks = [] }, w'))
  run_to_completion_lem fuel s w = run_on fuel s.tasks w
