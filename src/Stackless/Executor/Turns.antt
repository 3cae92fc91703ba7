-- ===== src/Stackless/Executor/Turns.antt =====
-- What a turn of the cooperative loop does with the result of a poll.
use krio.Base.{
  ℕ, ◌+◌, ==_self, ◌<◌, ◌≡◌, ◌≢◌, refl, true, false, inl, inr, arith, [], ◌∷◌, ◌++◌, length,
  Bool-cases, if◌then◌else◌,
}
use krio.Stackless.Body.{
  ℤ, pos, negsuc, eqz, Body, LocalTy, assign_i64, assign_bool, eq_check_i64, goto, branch,
}
use krio.Stackless.Emit.{Machine, done_state, poll_blocked}
use krio.Stackless.Executor.{check_block, poll_machine, cooperative_machine}
use krio.Stackless.Exec.{Env, put_int, put_bool, Walks, stop, through}

pub not_blocked : (v : ℤ) → eqz v (pos 0) ≡ true → eqz v poll_blocked ≡ false
not_blocked (pos n) h = ground (arith, h)
not_blocked (negsuc n) h = absurd (cc h)

module _ {U : Type 0} (c : Body U) (all_done progress i current_bb : ℕ) (m : Machine) where
  -- The body with the check block, and the body after the turn.
  abbrev pub checked : Body U
  checked = (check_block c i current_bb).0

  abbrev pub check_bb : ℕ
  check_bb = (check_block c i current_bb).1

  abbrev pub turned : Body U
  turned = (cooperative_machine c all_done progress i current_bb m).0

  -- The locals of the turn.
  abbrev pub is_done : ℕ
  is_done = length checked.locals

  abbrev pub is_ready : ℕ
  is_ready = length (checked.locals ++ LocalTy.bool ∷ [])

  abbrev pub blocked : ℕ
  blocked = length ((checked.locals ++ LocalTy.bool ∷ []) ++ LocalTy.bool ∷ [])

  -- The blocks of the turn.
  abbrev pub after_poll_bb : ℕ
  after_poll_bb = checked.block_count

  abbrev pub mark_done_bb : ℕ
  mark_done_bb = checked.block_count + 1

  abbrev pub mark_pending_bb : ℕ
  mark_pending_bb = checked.block_count + 1 + 1

  abbrev pub next_bb : ℕ
  next_bb = checked.block_count + 1 + 1 + 1

  abbrev pub ran_bb : ℕ
  ran_bb = checked.block_count + 1 + 1 + 1 + 1

  turned-mark_done :
      check_bb < checked.block_count
      → m.exit_bb < checked.block_count
      → turned.blocks mark_done_bb
        ≡ (assign_i64 m.state_local done_state ∷ assign_i64 progress (pos 1) ∷ [], goto next_bb)
  unfolding cooperative_machine poll_machine
  turned-mark_done h k = ground (arith, h, k)

  turned-after_poll :
      check_bb < checked.block_count
      → m.exit_bb < checked.block_count
      → turned.blocks after_poll_bb ≡ (
        eq_check_i64 is_ready m.poll_result_local (pos 0) ∷ [],
        branch is_ready mark_done_bb mark_pending_bb,
      )
  unfolding cooperative_machine poll_machine
  turned-after_poll h k = ground (arith, h, k)

  turned-mark_pending :
      check_bb < checked.block_count
      → m.exit_bb < checked.block_count
      → turned.blocks mark_pending_bb ≡ (
        assign_bool all_done false ∷ eq_check_i64 blocked m.poll_result_local poll_blocked ∷ [],
        branch blocked next_bb ran_bb,
      )
  unfolding cooperative_machine poll_machine
  turned-mark_pending h k = ground (arith, h, k)

  turned-ran :
      check_bb < checked.block_count
      → m.exit_bb < checked.block_count
      → turned.blocks ran_bb ≡ (assign_i64 progress (pos 1) ∷ [], goto next_bb)
  unfolding cooperative_machine poll_machine
  turned-ran h k = ground (arith, h, k)

  pub turned-exit :
      check_bb < checked.block_count
      → m.exit_bb < checked.block_count
      → check_bb ≢ m.exit_bb
      → turned.blocks m.exit_bb ≡ ((checked.blocks m.exit_bb).0, goto after_poll_bb)
  unfolding cooperative_machine poll_machine
  turned-exit h k apart = ground (arith, h, k, apart)

  pub turned-check :
      check_bb < checked.block_count
      → m.exit_bb < checked.block_count
      → check_bb ≢ m.exit_bb
      → turned.blocks check_bb ≡ (
        (checked.blocks check_bb).0 ++ eq_check_i64 is_done m.state_local done_state ∷ [],
        branch is_done after_poll_bb m.dispatch_bb,
      )
  unfolding cooperative_machine poll_machine
  turned-check h k apart = ground (arith, h, k, apart)

  -- What the turn leaves of the locals, by the result of the poll.
  pub record Accounts (env env' : Env) : Type 0 where
    pub latched : env'.ints m.state_local ≡ (
        if eqz (env.ints m.poll_result_local) (pos 0) then done_state else env.ints m.state_local)
    pub progressed :
        env'.ints progress
        ≡ (if eqz (env.ints m.poll_result_local) poll_blocked then env.ints progress else pos 1)
    pub cleared :
        env'.bools all_done
        ≡ (if eqz (env.ints m.poll_result_local) (pos 0) then env.bools all_done else false)

  pub after_poll-turn :
      (env : Env)
      → check_bb < checked.block_count
      → m.exit_bb < checked.block_count
      → m.state_local ≢ progress
      → all_done ≢ is_ready
      → all_done ≢ blocked
      → (env' : Env) × Walks turned env after_poll_bb env' next_bb × Accounts env env'
  after_poll-turn env h k apart fresh fresh' =
      elim (Bool-cases (eqz (env.ints m.poll_result_local) (pos 0))) [
        | inl ready ↦
            let polled : Env = put_bool env is_ready (eqz (env.ints m.poll_result_local) (pos 0)) in
            let latched : Env =
              put_int (put_int polled m.state_local done_state) progress (pos 1) in
            (
              latched,
              through turned _ _ env after_poll_bb mark_done_bb latched next_bb
                  (turned-after_poll h k) (rw (==_self is_ready, ready) refl)
                  (through turned _ _ polled mark_done_bb next_bb latched next_bb
                    (turned-mark_done h k) refl (stop latched next_bb)),
              record {
                latched = rw ready (ground (arith, apart));
                progressed = rw (not_blocked (env.ints m.poll_result_local) ready) (ground arith);
                cleared = rw ready (ground (arith, fresh));
              },
            )
        | inr pending ↦ elim (Bool-cases (eqz (env.ints m.poll_result_local) poll_blocked)) [
          | inl shut ↦
              let polled : Env =
                put_bool env is_ready (eqz (env.ints m.poll_result_local) (pos 0)) in
              let marked : Env =
                put_bool (put_bool polled all_done false) blocked
                  (eqz (env.ints m.poll_result_local) poll_blocked) in
              (
                marked,
                through turned _ _ env after_poll_bb mark_pending_bb marked next_bb
                    (turned-after_poll h k) (rw (==_self is_ready, pending) refl)
                    (through turned _ _ polled mark_pending_bb next_bb marked next_bb
                      (turned-mark_pending h k) (rw (==_self blocked, shut) refl)
                      (stop marked next_bb)),
                record {
                  latched = rw pending (ground (arith, apart));
                  progressed = rw shut (ground arith);
                  cleared = rw pending (ground (arith, fresh, fresh'));
                },
              )
          | inr yielded ↦
              let polled : Env =
                put_bool env is_ready (eqz (env.ints m.poll_result_local) (pos 0)) in
              let marked : Env =
                put_bool (put_bool polled all_done false) blocked
                  (eqz (env.ints m.poll_result_local) poll_blocked) in
              let ran : Env = put_int marked progress (pos 1) in
              (
                ran,
                through turned _ _ env after_poll_bb mark_pending_bb ran next_bb
                    (turned-after_poll h k) (rw (==_self is_ready, pending) refl)
                    (through turned _ _ polled mark_pending_bb ran_bb ran next_bb
                      (turned-mark_pending h k) (rw (==_self blocked, yielded) refl)
                      (through turned _ _ marked ran_bb next_bb ran next_bb (turned-ran h k) refl
                        (stop ran next_bb))),
                record {
                  latched = rw pending (ground (arith, apart));
                  progressed = rw yielded (ground arith);
                  cleared = rw pending (ground (arith, fresh, fresh'));
                },
              )
        ]
      ]
