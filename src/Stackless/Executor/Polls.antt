-- ===== src/Stackless/Executor/Polls.antt =====
-- A turn of the cooperative loop, after a poll and without one.
use krio.Base.{
  ℕ, zero, suc, ==_self, ◌<◌, ◌≡◌, ◌≢◌, refl, ap, ◌∙◌, true, arith, List, [], ◌∷◌, ◌++◌, length,
  length-append,
}
use krio.Stackless.Body.{pos, eqz, Body, Stmt, Term, LocalTy, goto, branch, eq_check_i64}
use krio.Stackless.Emit.{Machine, done_state}
use krio.Stackless.Executor.{check_block, poll_machine, cooperative_machine}
use krio.Stackless.Executor.Turns.{
  checked, check_bb, turned, is_done, is_ready, blocked, after_poll_bb, next_bb, turned-exit,
  turned-check, Accounts, after_poll-turn, not_blocked,
}
use krio.Stackless.Exec.{Env, put_bool, Walks, through}

module _ {U : Type 0} (c : Body U) (all_done progress current_bb : ℕ) (m : Machine) where
  check_block-fits :
      (i : ℕ)
      → current_bb < c.block_count
      → check_bb c all_done progress i current_bb m
        < (checked c all_done progress i current_bb m).block_count
  unfolding check_block
  check_block-fits zero h = h
  check_block-fits (suc i) h = omega arith

  exit-fits :
      (i : ℕ)
      → m.exit_bb < c.block_count
      → m.exit_bb < (checked c all_done progress i current_bb m).block_count
  unfolding check_block
  exit-fits zero h = h
  exit-fits (suc i) h = omega (arith, h)

  check_block-apart :
      (i : ℕ)
      → m.exit_bb < c.block_count
      → current_bb ≢ m.exit_bb
      → check_bb c all_done progress i current_bb m ≢ m.exit_bb
  unfolding check_block
  check_block-apart zero h apart = apart
  check_block-apart (suc i) h apart = λ e. omega (arith, h, e)

  checked-exit :
      (i : ℕ)
      → m.exit_bb < c.block_count
      → current_bb ≢ m.exit_bb
      → (checked c all_done progress i current_bb m).blocks m.exit_bb ≡ c.blocks m.exit_bb
  unfolding check_block
  checked-exit zero h apart = refl
  checked-exit (suc i) h apart = ground (arith, h, apart)

  checked-locals : (i : ℕ) → (checked c all_done progress i current_bb m).locals ≡ c.locals
  unfolding check_block
  checked-locals zero = refl
  checked-locals (suc i) = refl

  fresh :
      (i : ℕ)
      → all_done < length c.locals
      → (all_done ≢ is_done c all_done progress i current_bb m)
        × (all_done ≢ is_ready c all_done progress i current_bb m)
        × (all_done ≢ blocked c all_done progress i current_bb m)
  fresh i h =
      let locals : List LocalTy = (checked c all_done progress i current_bb m).locals in
      let same : length locals ≡ length c.locals = ap length (checked-locals i) in
      (
        λ e. omega (arith, h, e, same),
        λ e. omega (arith, h, e, same, length-append locals (LocalTy.bool ∷ [])),
        λ e. omega (
          arith,
          h,
          e,
          same,
          length-append locals (LocalTy.bool ∷ []),
          length-append (locals ++ LocalTy.bool ∷ []) (LocalTy.bool ∷ []),
        ),
      )

  -- After a poll, which leaves a machine by its exit block, a turn of the cooperative loop ends: a
  -- completed machine is marked done, one that is not clears `all_done`, and progress is recorded
  -- unless the poll was blocked.
  pub cooperative_machine-turn :
      (i : ℕ)
      → current_bb < c.block_count
      → m.exit_bb < c.block_count
      → current_bb ≢ m.exit_bb
      → (c.blocks m.exit_bb).0 ≡ []
      → m.state_local ≢ progress
      → all_done < length c.locals
      → (env : Env)
      → let (after_c, next_bb) = cooperative_machine c all_done progress i current_bb m in
        (env' : Env) × Walks after_c env m.exit_bb env' next_bb
        × Accounts c all_done progress i current_bb m env env'
  unfolding cooperative_machine poll_machine
  cooperative_machine-turn i h k apart empty locals known env =
      let (env', walk, accounts) =
        after_poll-turn c all_done progress i current_bb m env (check_block-fits i h)
          (exit-fits i k) locals (fresh i known).1 (fresh i known).2 in
      (
        env',
        through (turned c all_done progress i current_bb m) []
            (goto (after_poll_bb c all_done progress i current_bb m)) env m.exit_bb
            (after_poll_bb c all_done progress i current_bb m) env' _
            (turned-exit c all_done progress i current_bb m (check_block-fits i h) (exit-fits i k)
                (check_block-apart i k apart)
              ∙ ap (λ stmts. (stmts, goto (after_poll_bb c all_done progress i current_bb m)))
                  (ap (λ block. block.0) (checked-exit i k apart) ∙ empty))
            refl walk,
        accounts,
      )

  check_block-empty :
      (i : ℕ)
      → current_bb < c.block_count
      → (checked c all_done progress (suc i) current_bb m).blocks c.block_count
        ≡ ([], Term.unreachable)
  unfolding check_block
  check_block-empty i h = ground (arith, h)

  -- A machine that is done is not polled: from its check block, when it is not the first, control
  -- goes on to the next machine. With the poll result that the machine left when it completed, this
  -- records progress, as a poll that completes does, and leaves `all_done`.
  pub cooperative_machine-skip :
      (i : ℕ)
      → current_bb < c.block_count
      → m.exit_bb < c.block_count
      → current_bb ≢ m.exit_bb
      → m.state_local ≢ progress
      → all_done < length c.locals
      → (env : Env) → eqz (env.ints m.state_local) done_state ≡ true
      → eqz (env.ints m.poll_result_local) (pos 0) ≡ true
      → let (after_c, next_bb) = cooperative_machine c all_done progress (suc i) current_bb m in
        (env' : Env) × Walks after_c env c.block_count env' next_bb
        × (env'.ints progress ≡ pos 1)
        × (env'.bools all_done ≡ env.bools all_done)
  unfolding cooperative_machine poll_machine check_block
  cooperative_machine-skip i h k apart locals known env done ready =
      let after_c : Body U = turned c all_done progress (suc i) current_bb m in
      let done_local : ℕ = is_done c all_done progress (suc i) current_bb m in
      let after_poll : ℕ = after_poll_bb c all_done progress (suc i) current_bb m in
      let check : Stmt U = eq_check_i64 done_local m.state_local done_state in
      let seen : Env = put_bool env done_local (eqz (env.ints m.state_local) done_state) in
      let (env', walk, accounts) =
        after_poll-turn c all_done progress (suc i) current_bb m seen (check_block-fits (suc i) h)
          (exit-fits (suc i) k) locals (fresh (suc i) known).1 (fresh (suc i) known).2 in
      (
        env',
        through after_c (check ∷ []) (branch done_local after_poll m.dispatch_bb) env c.block_count
            after_poll env' _
            (turned-check c all_done progress (suc i) current_bb m (check_block-fits (suc i) h)
                (exit-fits (suc i) k) (check_block-apart (suc i) k apart)
              ∙ ap (λ block. (block.0 ++ check ∷ [], branch done_local after_poll m.dispatch_bb))
                  (check_block-empty i h))
            (rw (==_self done_local, done) refl) walk,
        accounts.progressed ∙ rw (not_blocked (env.ints m.poll_result_local) ready) refl,
        accounts.cleared ∙ rw ready (ground (arith, (fresh (suc i) known).0)),
      )
