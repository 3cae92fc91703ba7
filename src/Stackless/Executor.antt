-- ===== src/Stackless/Executor.antt =====
-- crates/krio-stackless/src/executor.rs: what the executors share, the cooperative loop and the
-- one-shot poll.
pub mod Priority
pub mod Turns
pub mod Polls
mod Examples
use krio.Base.{
  ℕ, zero, suc, ◌+◌, ◌-◌, ◌==◌, Bool, true, false, Option, none, some, List, [], ◌∷◌, ◌++◌,
  if◌then◌else◌,
}
use krio.Stackless.{Coroutine, Region}
use krio.Stackless.Body.{
  pos, Body, Hooks, new_block, new_state_local, new_bool_local, new_mut_bool_local, emit_assign_i64,
  emit_assign_bool, emit_eq_check_i64, replace_with_nop, split_after, set_goto, set_branch,
  redirect_targets, statement_count,
}
use krio.Stackless.Emit.{Machine, done_state, poll_blocked}

module _ {ℓ} {U : Type ℓ} where
  -- `region_exit`, from after its block is there.
  unfoldable pub follow_region : Body U → Region ℕ → ℕ → Body U
  follow_region c r exit_bb =
      let last_idx = statement_count c r.region_end.0 - 1 in
      let (c, post_region_bb) = split_after c r.region_end.0 last_idx in
      set_goto c exit_bb post_region_bb

  unfoldable pub region_exit : Body U → Region ℕ → Body U × ℕ
  unfolding follow_region
  region_exit c r =
      let (c, region_exit_bb) = new_block c in (follow_region c r region_exit_bb, region_exit_bb)

  unfoldable pub erase_coroutines : Body U → List (Coroutine ℕ) → Body U
  erase_coroutines c [] = c
  erase_coroutines c (k ∷ coroutines) =
      let c = replace_with_nop c k.begin.0 k.begin.1 in
      let c = replace_with_nop c k.end.0 k.end.1 in erase_coroutines c coroutines

  unfoldable pub init_states : Body U → ℕ → List Machine → Body U
  init_states c bb [] = c
  init_states c bb (m ∷ machines) =
      init_states (emit_assign_i64 c bb m.state_local (pos 0)) bb machines

  -- The first machine's state 0, when its coroutine began in the block of the region's begin.
  unfoldable pub retarget_first : Body U → Region ℕ → List Machine → ℕ → List (Coroutine ℕ) → Body U
  retarget_first c r [] new_entry coroutines = c
  retarget_first c r (m ∷ machines) new_entry [] = c
  retarget_first c r (m ∷ machines) new_entry (k ∷ coroutines) =
      if k.begin.0 == r.region_begin.0
      then redirect_targets c m.dispatch_bb k.begin.0 new_entry
      else c

  -- `finish_region`.
  unfoldable pub finish_region : Body U → Region ℕ → List Machine → ℕ → Body U
  unfolding erase_coroutines init_states retarget_first
  finish_region c r machines entry_bb =
      let c = erase_coroutines c r.coroutines in
      let c = replace_with_nop c r.region_begin.0 r.region_begin.1 in
      let c = replace_with_nop c r.region_end.0 r.region_end.1 in
      let (c, new_entry) = split_after c r.region_begin.0 r.region_begin.1 in
      let c = retarget_first c r machines new_entry r.coroutines in
      let c = init_states c r.region_begin.0 machines in set_goto c r.region_begin.0 entry_bb

  -- The check block of a machine: the block so far for the first, else a fresh one after it.
  unfoldable pub check_block : Body U → ℕ → ℕ → Body U × ℕ
  check_block c zero current_bb = (c, current_bb)
  check_block c (suc i) current_bb =
      let (c, check_bb) = new_block c in (set_goto c current_bb check_bb, check_bb)

  -- The part of the loops' bodies that polls the machine: the blocks for a completed poll, for one
  -- that is not, and after both.
  unfoldable pub poll_machine : Body U → ℕ → ℕ → Machine → Body U × ℕ × ℕ × ℕ
  unfolding check_block
  poll_machine c i current_bb m =
      let (c, check_bb) = check_block c i current_bb in
      let (c, is_done) = new_bool_local c in
      let c = emit_eq_check_i64 c check_bb is_done m.state_local done_state in
      let (c, after_poll_bb) = new_block c in
      let c = set_branch c check_bb is_done after_poll_bb m.dispatch_bb in
      let c = set_goto c m.exit_bb after_poll_bb in
      let (c, is_ready) = new_bool_local c in
      let c = emit_eq_check_i64 c after_poll_bb is_ready m.poll_result_local (pos 0) in
      let (c, mark_done_bb) = new_block c in
      let (c, mark_pending_bb) = new_block c in
      let (c, next_bb) = new_block c in
      let c = set_branch c after_poll_bb is_ready mark_done_bb mark_pending_bb in
      let c = emit_assign_i64 c mark_done_bb m.state_local done_state in
      (set_goto c mark_done_bb next_bb, mark_done_bb, mark_pending_bb, next_bb)

  -- A turn of the cooperative loop's `for`, with the block after it.
  unfoldable pub cooperative_machine : Body U → ℕ → ℕ → ℕ → ℕ → Machine → Body U × ℕ
  unfolding poll_machine
  cooperative_machine c all_done progress i current_bb m =
      let (c, mark_done_bb, mark_pending_bb, next_bb) = poll_machine c i current_bb m in
      let c = emit_assign_i64 c mark_done_bb progress (pos 1) in
      let c = emit_assign_bool c mark_pending_bb all_done false in
      let (c, blocked) = new_bool_local c in
      let c = emit_eq_check_i64 c mark_pending_bb blocked m.poll_result_local poll_blocked in
      let (c, ran_bb) = new_block c in
      let c = set_branch c mark_pending_bb blocked next_bb ran_bb in
      let c = emit_assign_i64 c ran_bb progress (pos 1) in (set_goto c ran_bb next_bb, next_bb)

  unfoldable pub cooperative_machines : Body U → ℕ → ℕ → ℕ → ℕ → List Machine → Body U × ℕ
  unfolding cooperative_machine
  cooperative_machines c all_done progress i current_bb [] = (c, current_bb)
  cooperative_machines c all_done progress i current_bb (m ∷ machines) =
      let (c, next_bb) = cooperative_machine c all_done progress i current_bb m in
      cooperative_machines c all_done progress (i + 1) next_bb machines

  -- The report of a deadlock, or another scan from `again_bb`.
  unfoldable pub stuck_block : Hooks U → Body U → ℕ → ℕ → Body U
  stuck_block hooks c stuck_bb again_bb =
      let (c, reported) = hooks.emit_deadlock c stuck_bb in
      if reported then c else set_goto c stuck_bb again_bb

  -- `build_cooperative_loop`; without a machine the code panics, and a region that is transformed
  -- has one.
  unfoldable pub build_cooperative_loop : Hooks U → Body U → Region ℕ → List Machine → Body U
  unfolding region_exit cooperative_machines stuck_block finish_region
  build_cooperative_loop hooks c r [] = c
  build_cooperative_loop hooks c r (m ∷ machines) =
      let (c, loop_bb) = new_block c in
      let (c, region_exit_bb) = region_exit c r in
      let (c, all_done) = new_mut_bool_local c in
      let progress = m.progress_local in
      let c = emit_assign_bool c loop_bb all_done true in
      let c = emit_assign_i64 c loop_bb progress (pos 0) in
      let (c, current_bb) = cooperative_machines c all_done progress 0 loop_bb (m ∷ machines) in
      let (c, not_done_bb) = new_block c in
      let c = set_branch c current_bb all_done region_exit_bb not_done_bb in
      let (c, stuck_bb) = new_block c in
      let (c, progressed) = new_bool_local c in
      let c = emit_eq_check_i64 c not_done_bb progressed progress (pos 1) in
      let c = set_branch c not_done_bb progressed loop_bb stuck_bb in
      let c = stuck_block hooks c stuck_bb loop_bb in finish_region c r (m ∷ machines) loop_bb

  -- A turn of the one-shot poll's `for`, with the block after it.
  unfoldable pub oneshot_machine : Body U → ℕ → ℕ → ℕ → Machine → Body U × ℕ
  unfolding poll_machine
  oneshot_machine c all_done i current_bb m =
      let (c, mark_done_bb, mark_pending_bb, next_bb) = poll_machine c i current_bb m in
      let c = emit_assign_bool c mark_pending_bb all_done false in
      (set_goto c mark_pending_bb next_bb, next_bb)

  unfoldable pub oneshot_machines : Body U → ℕ → ℕ → ℕ → List Machine → Body U × ℕ
  unfolding oneshot_machine
  oneshot_machines c all_done i current_bb [] = (c, current_bb)
  oneshot_machines c all_done i current_bb (m ∷ machines) =
      let (c, next_bb) = oneshot_machine c all_done i current_bb m in
      oneshot_machines c all_done (i + 1) next_bb machines

-- `RegionExits`.
pub record RegionExits : Type 0 where
  pub done : ℕ
  pub pending : ℕ

module _ {ℓ} {U : Type ℓ} where
  -- `build_oneshot_poll`.
  unfoldable pub build_oneshot_poll : Body U → Region ℕ → List Machine → Body U × RegionExits
  unfolding follow_region oneshot_machines finish_region
  build_oneshot_poll c r machines =
      let (c, poll_top_bb) = new_block c in
      let (c, region_done_bb) = new_block c in
      let (c, region_pending_bb) = new_block c in
      let c = follow_region c r region_done_bb in
      let (c, all_done) = new_mut_bool_local c in
      let c = emit_assign_bool c poll_top_bb all_done true in
      let (c, current_bb) = oneshot_machines c all_done 0 poll_top_bb machines in
      let c = set_branch c current_bb all_done region_done_bb region_pending_bb in
      (
        finish_region c r machines poll_top_bb,
        record { done = region_done_bb; pending = region_pending_bb },
      )
