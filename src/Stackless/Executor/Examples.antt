-- ===== src/Stackless/Executor/Examples.antt =====
-- The theorems on the executors, on small bodies.
use krio.Base.{
  ℕ, ◌==◌, ◌≡◌, refl, true, Option, none, some, List, [], ◌∷◌, Perm, arith, if◌then◌else◌,
}
use krio.Stackless.{Coroutine}
use krio.Stackless.Body.{ℤ, pos, Body, Term, LocalTy, ids_from}
use krio.Stackless.Emit.{Machine}
use krio.Stackless.Exec.{Env, Walks}
use krio.Stackless.Executor.{cooperative_machine}
use krio.Stackless.Executor.Turns.{Accounts}
use krio.Stackless.Executor.Polls.{cooperative_machine-turn, cooperative_machine-skip}
use krio.Stackless.Executor.Priority.{bands_of}
use krio.Stackless.Executor.Priority.Bands.{concat, Sorted, Banded, bands_of-Banded}

-- A loop block 0, an exit block 1 and a dispatch block 2; four locals, of which 3 is `all_done`.
abbrev polled : Body ℕ
polled = record {
  blocks = λ b. ([], Term.unreachable);
  block_count = 3;
  locals = LocalTy.i64_mut ∷ LocalTy.i64_mut ∷ LocalTy.i64_mut ∷ LocalTy.bool_mut ∷ [];
}

abbrev machine : Machine
machine = record {
  state_local = 0;
  poll_result_local = 1;
  progress_local = 2;
  dispatch_bb = 2;
  exit_bb = 1;
}

-- Local 1, the poll result, has the value.
abbrev after_poll : ℤ → Env
after_poll v = record { ints = λ l. if l == 1 then v else pos 9999; bools = λ l. true }

cooperative_machine-turn_example :
    let (after_c, next_bb) = cooperative_machine polled 3 2 0 0 machine in
    (env' : Env) × Walks after_c (after_poll (pos 2)) 1 env' next_bb
    × Accounts polled 3 2 0 0 machine (after_poll (pos 2)) env'
cooperative_machine-turn_example =
    cooperative_machine-turn polled 3 2 0 machine 0 (omega arith) (omega arith)
      (λ e. omega (arith, e)) refl (λ e. omega (arith, e)) (omega arith) (after_poll (pos 2))

cooperative_machine-skip_example :
    let (after_c, next_bb) = cooperative_machine polled 3 2 1 0 machine in
    (env' : Env) × Walks after_c (after_poll (pos 0)) 3 env' next_bb
    × (env'.ints 2 ≡ pos 1)
    × (env'.bools 3 ≡ true)
cooperative_machine-skip_example =
    cooperative_machine-skip polled 3 2 0 machine 0 (omega arith) (omega arith)
      (λ e. omega (arith, e)) (λ e. omega (arith, e)) (omega arith) (after_poll (pos 0)) refl refl

abbrev with_priority : Option ℕ → Coroutine ℕ
with_priority p = record { begin = (0, 0); end = (0, 1); priority = p }

abbrev four : List (Coroutine ℕ)
four =
    with_priority none
    ∷ with_priority (some 5)
    ∷ with_priority (some 1)
    ∷ with_priority (some 5)
    ∷ []

bands_of-four : bands_of four 4 ≡ (2 ∷ []) ∷ (1 ∷ 3 ∷ []) ∷ (0 ∷ []) ∷ []
unfolding bands_of ids_from
bands_of-four = refl

-- A coroutine without a priority comes before one with the largest.
abbrev at_the_end : List (Coroutine ℕ)
at_the_end = with_priority none ∷ with_priority (some 4294967295) ∷ []

bands_of-at_the_end : bands_of at_the_end 2 ≡ (0 ∷ []) ∷ (1 ∷ []) ∷ []
unfolding bands_of ids_from
bands_of-at_the_end = refl

bands_of-Banded_example :
    Perm (concat (bands_of four 4)) (ids_from 0 4)
    × Sorted four (concat (bands_of four 4))
    × Banded four (bands_of four 4)
bands_of-Banded_example =
    bands_of-Banded four 4 (tt, (omega arith, (omega arith, (omega arith, tt))))
