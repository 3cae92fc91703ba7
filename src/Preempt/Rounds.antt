-- ===== src/Preempt/Rounds.antt =====
-- What a round of `TimeSliceScheduler` does, and what `run_to_completion` counts.
use mathlib.Core.List.Perm
use mathlib.Core.List.{cons≢nil}
use krio.Base.{
  ℕ, zero, suc, ◌+◌, ◌≤◌, ◌<◌, ◌≡◌, refl, ap, ◌∙◌, ◌≢◌, not, Bool, true, false, inl, inr,
  Bool-cases, All, if◌then◌else◌, Option, none, some, List, [], ◌∷◌, Perm, arith, length,
}
use krio.Core.{Suspension, completed, yielded, pending}
use krio.Runtime.Sweep.{visits, visited_world, survivors, sweep-visits, remove_all-survivors}
use krio.Runtime.Load.{load, load-perm, Advances, load-survivors}
use krio.Runtime.RoundRobin.{is_empty}
use krio.Preempt.{
  Fibers, TimeSliceScheduler, after_step, drop_finished, visit, tick, run_from, run_to_completion,
}

module _ {ℓ κ μ} {F : Type ℓ} {W : Type κ} {Time : Type μ} (fib : Fibers F W Time)
    (slice : Time) where
  abbrev sched : List F → TimeSliceScheduler F Time
  sched fs = record { fibers = fs; slice = slice }

  -- What the fibers that have not finished are after a resume of each, in the order of the resumes.
  abbrev pub still_alive : List F → W → List F
  still_alive fs w = survivors (visits (visit fib slice) fs w)

  abbrev pub Ticks : List F → W → Type (ℓ ⊔ κ ⊔ μ)
  Ticks fs w =
      (left : List F) × (tick fib (sched fs) w
        ≡ some (not (is_empty left), sched left, visited_world (visit fib slice) fs w))
      × Perm left (still_alive fs w)

  tick_none : (w : W) → Ticks [] w
  unfolding tick visited_world survivors visits
  tick_none w = ([], refl, Perm.rfl)

  tick_some : (f : F) (fs : List F) (w : W) → Ticks (f ∷ fs) w
  unfolding tick
  tick_some f fs w =
      let (out, e, p) = remove_all-survivors (visits (visit fib slice) (f ∷ fs) w) in
      (
        out,
        ap (drop_finished slice) (sweep-visits (visit fib slice) 0 (f ∷ fs) w)
            ∙ rw (e, drop_finished),
        p,
      )

  pub tick-Ticks : (fs : List F) (w : W) → Ticks fs w
  tick-Ticks [] w = tick_none w
  tick-Ticks (f ∷ fs) w = tick_some f fs w

  -- A round, fiber by fiber, with what it keeps. A fiber that was done is dropped without a step. Any
  -- other is given the time of its turn and a slice as its deadline, and stepped: it is dropped if
  -- that completes it, and kept without a deadline if it yielded or waits.
  pub data Round : List F → W → List F → W → Type (ℓ ⊔ κ) where
    over : {w : W} → Round [] w [] w
    was_done :
        {f : F} {fs kept : List F} {w w' : W}
        → fib.fiber_done f ≡ true
        → Round fs w kept w'
        → Round (f ∷ fs) w kept w'
    completes :
        {f f' : F} {fs kept : List F} {w w' w'' : W}
        → fib.fiber_done f ≡ false
        → fib.step (fib.set_deadline_ms (fib.after (fib.now_ms w) slice) f) w ≡ (f', completed, w')
        → Round fs w' kept w''
        → Round (f ∷ fs) w kept w''
    yields :
        {f f' : F} {fs kept : List F} {w w' w'' : W}
        → fib.fiber_done f ≡ false
        → fib.step (fib.set_deadline_ms (fib.after (fib.now_ms w) slice) f) w ≡ (f', yielded, w')
        → Round fs w' kept w''
        → Round (f ∷ fs) w (fib.clear_deadline f' ∷ kept) w''
    waits :
        {f f' : F} {fs kept : List F} {w w' w'' : W}
        → fib.fiber_done f ≡ false
        → fib.step (fib.set_deadline_ms (fib.after (fib.now_ms w) slice) f) w ≡ (f', pending, w')
        → Round fs w' kept w''
        → Round (f ∷ fs) w (fib.clear_deadline f' ∷ kept) w''

  -- The fiber of a turn, by what its step answered.
  stepped :
      (f : F) (fs : List F) (w : W) (answer : F × Suspension × W)
      → fib.fiber_done f ≡ false
      → fib.step (fib.set_deadline_ms (fib.after (fib.now_ms w) slice) f) w ≡ answer
      → ((w' : W) → Round fs w' (still_alive fs w') (visited_world (visit fib slice) fs w'))
      → let v = after_step fib answer in
        Round
          (f ∷ fs)
          w
          (if v.1 then still_alive fs v.2 else v.0 ∷ still_alive fs v.2)
          (visited_world (visit fib slice) fs v.2)
  stepped f fs w (f', completed, w') live e rest = completes live e (rest w')
  stepped f fs w (f', yielded, w') live e rest = yields live e (rest w')
  stepped f fs w (f', pending, w') live e rest = waits live e (rest w')

  round_lem :
      (fs : List F) (w : W) → Round fs w (still_alive fs w) (visited_world (visit fib slice) fs w)
  unfolding survivors visits visited_world
  round_lem [] w = over
  round_lem (f ∷ fs) w = elim (Bool-cases (fib.fiber_done f)) [
    | inl was ↦ rw was (was_done was (round_lem fs w))
    | inr live ↦ rw live (stepped f fs w _ live refl (round_lem fs))
  ]

  Round-clear :
      {fs kept : List F} {w w' : W} → Round fs w kept w' → All (λ f. fib.deadline f ≡ none) kept
  Round-clear over = tt
  Round-clear (was_done was r) = Round-clear r
  Round-clear (completes live e r) = Round-clear r
  Round-clear (yields {f'} live e r) = (fib.deadline-clear f', Round-clear r)
  Round-clear (waits {f'} live e r) = (fib.deadline-clear f', Round-clear r)

  -- A round never panics. Each fiber has its turn, in order: one that was done is dropped, any other
  -- is stepped once with a fresh deadline and dropped exactly if that completes it. What is left
  -- is what the turns kept, in some order, none with a deadline, with the same slice; and the round
  -- reports whether any is left.
  pub slice_tick_lem :
      (fs : List F) (w : W)
      → (left kept : List F) × (w' : W) × Round fs w kept w'
        × (tick fib (sched fs) w ≡ some (not (is_empty left), sched left, w'))
        × Perm left kept
        × All (λ f. fib.deadline f ≡ none) kept
  slice_tick_lem fs w =
      let (left, e, p) = tick-Ticks fs w in
      let r = round_lem fs w in (left, still_alive fs w, _, r, e, p, Round-clear r)

  -- `n` rounds one after the other, whatever they report.
  unfoldable pub rounds : ℕ → List F → W → Option (List F × W)
  rounds zero fs w = some (fs, w)
  rounds (suc n) fs w = elim (tick fib (sched fs) w) [
    | none ↦ none
    | some (alive, s', w') ↦ rounds n s'.fibers w'
  ]

  -- After `k` rounds some fiber is left.
  abbrev pub Busy : ℕ → List F → W → Type (ℓ ⊔ κ)
  Busy k fs w = (left : List F) × (w' : W) × (rounds k fs w ≡ some (left, w')) × (left ≢ [])

  -- The loop, entered with `n` rounds counted, ends with `r` more counted, and round `r + 1` is the
  -- first that leaves no fiber.
  abbrev pub Counts : ℕ → ℕ → List F → W → Type (ℓ ⊔ κ ⊔ μ)
  Counts fuel n fs w =
      (r : ℕ) × (w' : W) × (run_from fib fuel n (sched fs) w ≡ some (n + r, sched [], w'))
      × (rounds (suc r) fs w ≡ some ([], w'))
      × ((k : ℕ) → k ≤ r → Busy k fs w)

  Busy-le_zero : (fs : List F) (w : W) → fs ≢ [] → (k : ℕ) → k ≤ 0 → Busy k fs w
  unfolding rounds
  Busy-le_zero fs w some_fiber zero h = (fs, w, refl, some_fiber)
  Busy-le_zero fs w some_fiber (suc k) h = absurd (omega arith)

  -- A round that leaves `left` comes before the rounds that keep it busy.
  Busy-le_suc :
      (fs left : List F) (w w' : W) (alive : Bool) (r : ℕ)
      → fs ≢ []
      → tick fib (sched fs) w ≡ some (alive, sched left, w')
      → ((k : ℕ) → k ≤ r → Busy k left w')
      → (k : ℕ) → k ≤ suc r
      → Busy k fs w
  unfolding rounds
  Busy-le_suc fs left w w' alive r some_fiber e busy zero h = (fs, w, refl, some_fiber)
  Busy-le_suc fs left w w' alive r some_fiber e busy (suc k) h =
      let (gs, w'', ran, some_left) = busy k (omega arith) in
      (gs, w'', rw (e, rounds) ran, some_left)

  Counts-step :
      (fuel n : ℕ) (fs left : List F) (w w' : W)
      → fs ≢ []
      → tick fib (sched fs) w ≡ some (not (is_empty left), sched left, w')
      → (left ≢ [] → Counts fuel (n + 1) left w')
      → Counts (suc fuel) n fs w
  unfolding run_from rounds
  Counts-step fuel n fs [] w w' some_fiber e rest = (
    0,
    w',
    rw (e, run_from) (ap (λ m. some (m, sched [], w')) (omega arith)),
    rw (e, rounds),
    Busy-le_zero fs w some_fiber,
  )
  Counts-step fuel n fs (f ∷ left) w w' some_fiber e rest =
      let (r, w'', ran, done, busy) = rest cons≢nil in
      (
        suc r,
        w'',
        rw (e, run_from) (ran ∙ ap (λ m. some (m, sched [], w'')) (omega arith)),
        rw (e, rounds) done,
        Busy-le_suc fs (f ∷ left) w w' true r some_fiber e busy,
      )

  module _ (rank : F → ℕ) (adv : Advances rank (visit fib slice)) where
    load-round :
        (fs left : List F) (w : W)
        → Perm left (still_alive fs w)
        → load rank left + length fs ≤ load rank fs
    load-round fs left w p =
        omega (arith, load-perm rank p, load-survivors rank (visit fib slice) adv fs w)

    run_from-Counts :
        (fuel n : ℕ) (fs : List F) (w : W) → load rank fs < fuel → fs ≢ [] → Counts fuel n fs w
    run_from-Counts zero n fs w enough some_fiber = absurd (omega arith)
    run_from-Counts (suc fuel) n [] w enough some_fiber = absurd (some_fiber refl)
    run_from-Counts (suc fuel) n (f ∷ fs) w enough some_fiber =
        let (left, e, p) = tick-Ticks (f ∷ fs) w in
        Counts-step fuel n (f ∷ fs) left w _ some_fiber e
          (run_from-Counts fuel (n + 1) left _ (omega (arith, load-round (f ∷ fs) left w p)))

    -- If every step of a fiber either finishes it or takes at least one off its rank, the loop ends,
    -- with more fuel than the load of its fibers, and returns one less than the number of rounds made: of a schedule that is not empty, round
    -- `r + 1` is the first that leaves no fiber.
    pub run_to_completion-rounds :
        (fuel : ℕ) (fs : List F) (w : W)
        → load rank fs < fuel
        → fs ≢ []
        → (r : ℕ) × (w' : W) × (run_to_completion fib fuel (sched fs) w ≡ some (r, sched [], w'))
          × (rounds (suc r) fs w ≡ some ([], w'))
          × ((k : ℕ) → k ≤ r → Busy k fs w)
    unfolding run_to_completion
    run_to_completion-rounds fuel fs w enough some_fiber =
        let (r, w', ran, done, busy) = run_from-Counts fuel 0 fs w enough some_fiber in
        (r, w', ran ∙ ap (λ m. some (m, sched [], w')) (omega arith), done, busy)
