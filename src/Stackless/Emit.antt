-- ===== src/Stackless/Emit.antt =====
-- crates/krio-stackless/src/lib.rs: the state machine of a coroutine.
pub mod Suspend
pub mod Blocks
pub mod Resume
use krio.Base.{ℕ, zero, suc, ◌+◌, List, [], ◌∷◌}
use krio.Stackless.{Coroutine, SuspKind, yield, guarded_recv, producing_send}
use krio.Stackless.Body.{
  ℤ, pos, Body, Hooks, new_block, new_state_local, new_bool_local, emit_assign_i64,
  emit_eq_check_i64, replace_with_nop, split_after, prepend_assign_i64, set_goto, set_branch,
  set_switch,
}

abbrev pub done_state : ℤ
done_state = pos 9999

abbrev pub poll_ready : ℤ
poll_ready = pos 0

abbrev pub poll_pending : ℤ
poll_pending = pos 1

abbrev pub poll_blocked : ℤ
poll_blocked = pos 2

-- `Machine`.
pub record Machine : Type 0 where
  pub state_local : ℕ
  pub poll_result_local : ℕ
  pub progress_local : ℕ
  pub dispatch_bb : ℕ
  pub exit_bb : ℕ

-- The pairs of `state_entries.iter().enumerate()`, from a state.
unfoldable pub enumerate : ℕ → List ℕ → List (ℤ × ℕ)
enumerate i [] = []
enumerate i (bb ∷ entries) = (pos i, bb) ∷ enumerate (i + 1) entries

module _ {ℓ} {U : Type ℓ} where
  -- A block that leaves the machine with a state and a poll result.
  unfoldable pub leave_block : Body U → Machine → ℤ → ℤ → Body U × ℕ
  leave_block c m state poll =
      let (c, bb) = new_block c in
      let c = emit_assign_i64 c bb m.state_local state in
      let c = emit_assign_i64 c bb m.poll_result_local poll in (set_goto c bb m.exit_bb, bb)

  -- The done block: the poll result, then the state.
  unfoldable pub done_block : Body U → Machine → Body U × ℕ
  done_block c m =
      let (c, bb) = new_block c in
      let c = emit_assign_i64 c bb m.poll_result_local poll_ready in
      let c = emit_assign_i64 c bb m.state_local done_state in (set_goto c bb m.exit_bb, bb)

  -- `emit_no_suspension_machine`.
  unfoldable pub emit_no_suspension_machine : Body U → Coroutine ℕ → Machine → Body U
  unfolding done_block
  emit_no_suspension_machine c k m =
      let (c, done_bb) = done_block c m in
      let (c, check_done) = new_bool_local c in
      let c = emit_eq_check_i64 c m.dispatch_bb check_done m.state_local done_state in
      let c = set_branch c m.dispatch_bb check_done m.exit_bb k.begin.0 in
      set_goto c k.end.0 done_bb

  -- The block of a guarded receive, at its head.
  unfoldable pub guard_block : Body U → ℕ → ℕ → Body U × ℕ
  guard_block c susp_bb zero = (c, susp_bb)
  guard_block c susp_bb (suc before) =
      let (c, guard_bb) = split_after c susp_bb before in (set_goto c susp_bb guard_bb, guard_bb)

module _ {ℓ} {U : Type ℓ} (hooks : Hooks U) where
  -- The guard, from after it has a block.
  unfoldable pub emit_guard : Body U → Machine → ℤ → ℕ → Body U
  unfolding leave_block
  emit_guard c m state_id guard_bb =
      let (c, resume_bb) = split_after c guard_bb 0 in
      let (c, is_ready) = hooks.emit_guarded_recv_peek c guard_bb 0 resume_bb in
      let c = prepend_assign_i64 c resume_bb m.progress_local (pos 1) in
      let (c, blocked_bb) = leave_block c m state_id poll_blocked in
      set_branch c guard_bb is_ready resume_bb blocked_bb

  -- The body of the loop over the suspensions, from after the yield block: the entry of the state.
  unfoldable pub emit_resume : Body U → Machine → ℤ → ℕ → ℕ × ℕ × SuspKind → Body U × ℕ
  unfolding guard_block emit_guard
  emit_resume c m state_id yield_bb (susp_bb, susp_stmt, guarded_recv) =
      let (c, guard_bb) = guard_block c susp_bb susp_stmt in
      (emit_guard c m state_id guard_bb, guard_bb)
  emit_resume c m state_id yield_bb (susp_bb, susp_stmt, producing_send) =
      let (c, resume_bb) = split_after c susp_bb susp_stmt in
      (set_goto c susp_bb yield_bb, resume_bb)
  emit_resume c m state_id yield_bb (susp_bb, susp_stmt, yield) =
      let (c, resume_bb) = split_after c susp_bb susp_stmt in
      let c = replace_with_nop c susp_bb susp_stmt in (set_goto c susp_bb yield_bb, resume_bb)

  unfoldable pub emit_suspension : Body U → Machine → ℕ → ℕ × ℕ × SuspKind → Body U × ℕ
  unfolding leave_block emit_resume
  emit_suspension c m susp_idx susp =
      let state_id = pos (susp_idx + 1) in
      let (c, yield_bb) = leave_block c m state_id poll_pending in
      emit_resume c m state_id yield_bb susp

  -- The loop over the suspensions from `susp_idx`, with the entries that it pushes.
  unfoldable pub emit_suspensions : Body U → Machine → ℕ → List (ℕ × ℕ × SuspKind) → Body U × List ℕ
  unfolding emit_suspension
  emit_suspensions c m susp_idx [] = (c, [])
  emit_suspensions c m susp_idx (susp ∷ suspensions) =
      let (c, entry) = emit_suspension c m susp_idx susp in
      let (c, entries) = emit_suspensions c m (susp_idx + 1) suspensions in (c, entry ∷ entries)

  -- `emit_multi_state_machine`.
  unfoldable pub emit_multi_state_machine :
      Body U → Coroutine ℕ → List (ℕ × ℕ × SuspKind) → Machine → Body U
  unfolding emit_suspensions done_block enumerate
  emit_multi_state_machine c k suspensions m =
      let (c, entries) = emit_suspensions c m 0 suspensions in
      let (c, done_bb) = done_block c m in
      let c = set_goto c k.end.0 done_bb in
      set_switch c m.dispatch_bb m.state_local (enumerate 0 (k.begin.0 ∷ entries)) m.exit_bb

  unfoldable pub emit_machine : Body U → Coroutine ℕ → List (ℕ × ℕ × SuspKind) → Machine → Body U
  unfolding emit_no_suspension_machine emit_multi_state_machine
  emit_machine c k [] m = emit_no_suspension_machine c k m
  emit_machine c k (susp ∷ suspensions) m = emit_multi_state_machine c k (susp ∷ suspensions) m

  -- `build_state_machine`.
  unfoldable pub build_state_machine :
      Body U → Coroutine ℕ → List (ℕ × ℕ × SuspKind) → ℕ → Body U × Machine
  unfolding emit_machine
  build_state_machine c k suspensions progress_local =
      let (c, state_local) = new_state_local c in
      let (c, poll_result_local) = new_state_local c in
      let (c, dispatch_bb) = new_block c in
      let (c, exit_bb) = new_block c in
      let m : Machine = record {
        state_local = state_local;
        poll_result_local = poll_result_local;
        progress_local = progress_local;
        dispatch_bb = dispatch_bb;
        exit_bb = exit_bb;
      } in
      (emit_machine c k suspensions m, m)
