-- ===== src/Stackless/Emit/Suspend.antt =====
-- The blocks of a suspension, as `emit_multi_state_machine` leaves them.
use krio.Base.{ℕ, zero, suc, ◌+◌, ◌≤◌, ◌<◌, ◌≡◌, ◌≢◌, refl, ◌∙◌, List, [], ◌∷◌, arith, All}
use krio.Stackless.{SuspKind, yield, guarded_recv, producing_send}
use krio.Stackless.Body.{
  ℤ, pos, Stmt, Term, Body, Hooks, assign_i64, goto, write_block, split_after, prepend_assign_i64,
  replace_with_nop,
}
use krio.Stackless.Emit.{
  Machine, poll_pending, poll_blocked, leave_block, done_block, guard_block, emit_guard,
  emit_resume, emit_suspension, emit_suspensions,
}

-- The peek of a guarded receive changes its two blocks only, and adds no block.
pub record PeekLocal {ℓ} {U : Type ℓ} (hooks : Hooks U) : Type ℓ where
  pub elsewhere :
      (c : Body U) (bb idx resume b : ℕ)
      → b ≢ bb
      → b ≢ resume
      → (hooks.emit_guarded_recv_peek c bb idx resume).0.blocks b ≡ c.blocks b
  pub count :
      (c : Body U) (bb idx resume : ℕ)
      → (hooks.emit_guarded_recv_peek c bb idx resume).0.block_count ≡ c.block_count

module _ {ℓ} {U : Type ℓ} (c : Body U) (m : Machine) where
  pub leave_block-keeps :
      (state poll : ℤ) (b : ℕ)
      → b < c.block_count
      → (leave_block c m state poll).0.blocks b ≡ c.blocks b
  unfolding leave_block
  leave_block-keeps state poll b h = ground (arith, h)

  pub leave_block-count :
      (state poll : ℤ) → (leave_block c m state poll).0.block_count ≡ c.block_count + 1
  unfolding leave_block
  leave_block-count state poll = refl

  pub leave_block-block :
      (state poll : ℤ)
      → (leave_block c m state poll).0.blocks c.block_count ≡ (
        assign_i64 m.state_local state ∷ assign_i64 m.poll_result_local poll ∷ [],
        goto m.exit_bb,
      )
  unfolding leave_block
  leave_block-block state poll = ground arith

  pub done_block-keeps : (b : ℕ) → b < c.block_count → (done_block c m).0.blocks b ≡ c.blocks b
  unfolding done_block
  done_block-keeps b h = ground (arith, h)

module _ {ℓ} {U : Type ℓ} where
  pub write_block-keeps :
      (c : Body U) (bb b : ℕ) (block : List (Stmt U) × Term)
      → b ≢ bb
      → (write_block c bb block).blocks b ≡ c.blocks b
  write_block-keeps c bb b block apart = ground (arith, apart)

  split_after-keeps :
      (c : Body U) (bb idx b : ℕ)
      → b < c.block_count
      → b ≢ bb
      → (split_after c bb idx).0.blocks b ≡ c.blocks b
  split_after-keeps c bb idx b h apart = ground (arith, h, apart)

  guard_block-keeps :
      (c : Body U) (bb idx b : ℕ)
      → b < c.block_count
      → b ≢ bb
      → (guard_block c bb idx).0.blocks b ≡ c.blocks b
  unfolding guard_block
  guard_block-keeps c bb zero b h apart = refl
  guard_block-keeps c bb (suc idx) b h apart =
      write_block-keeps (split_after c bb idx).0 bb b _ apart ∙ split_after-keeps c bb idx b h apart

  guard_block-apart :
      (c : Body U) (bb idx b : ℕ) → b < c.block_count → b ≢ bb → b ≢ (guard_block c bb idx).1
  unfolding guard_block
  guard_block-apart c bb zero b h apart = apart
  guard_block-apart c bb (suc idx) b h apart = λ e. omega (arith, h, e)

  guard_block-count :
      (c : Body U) (bb idx : ℕ) → c.block_count ≤ (guard_block c bb idx).0.block_count
  unfolding guard_block
  guard_block-count c bb zero = omega arith
  guard_block-count c bb (suc idx) = omega arith

module _ {ℓ} {U : Type ℓ} (hooks : Hooks U) (peeks : PeekLocal hooks) where
  emit_guard-count :
      (c : Body U) (m : Machine) (id : ℤ) (bb : ℕ)
      → (emit_guard hooks c m id bb).block_count ≡ c.block_count + 2
  unfolding emit_guard leave_block
  emit_guard-count c m id bb = omega (arith, peeks.count (split_after c bb 0).0 bb 0 c.block_count)

  emit_guard-keeps :
      (c : Body U) (m : Machine) (id : ℤ) (bb b : ℕ)
      → b < c.block_count
      → b ≢ bb
      → (emit_guard hooks c m id bb).blocks b ≡ c.blocks b
  unfolding emit_guard
  emit_guard-keeps c m id bb b h apart =
      let split : Body U = (split_after c bb 0).0 in
      let peeked : Body U = (hooks.emit_guarded_recv_peek split bb 0 c.block_count).0 in
      let ready : Body U = prepend_assign_i64 peeked c.block_count m.progress_local (pos 1) in
      write_block-keeps (leave_block ready m id poll_blocked).0 bb b _ apart
      ∙ leave_block-keeps ready m id poll_blocked b
          (omega (arith, h, peeks.count split bb 0 c.block_count))
      ∙ write_block-keeps peeked c.block_count b _ (λ e. omega (arith, h, e))
      ∙ peeks.elsewhere split bb 0 c.block_count b apart (λ e. omega (arith, h, e))
      ∙ split_after-keeps c bb 0 b h apart

  pub emit_resume-keeps :
      (c : Body U) (m : Machine) (id : ℤ) (y : ℕ) (susp : ℕ × ℕ × SuspKind) (b : ℕ)
      → b < c.block_count
      → b ≢ susp.0
      → (emit_resume hooks c m id y susp).0.blocks b ≡ c.blocks b
  unfolding emit_resume
  emit_resume-keeps c m id y (bb, idx, yield) b h apart =
      write_block-keeps (replace_with_nop (split_after c bb idx).0 bb idx) bb b _ apart
      ∙ write_block-keeps (split_after c bb idx).0 bb b _ apart
      ∙ split_after-keeps c bb idx b h apart
  emit_resume-keeps c m id y (bb, idx, producing_send) b h apart =
      write_block-keeps (split_after c bb idx).0 bb b _ apart ∙ split_after-keeps c bb idx b h apart
  emit_resume-keeps c m id y (bb, idx, guarded_recv) b h apart =
      emit_guard-keeps (guard_block c bb idx).0 m id (guard_block c bb idx).1 b
        (omega (arith, h, guard_block-count c bb idx)) (guard_block-apart c bb idx b h apart)
      ∙ guard_block-keeps c bb idx b h apart

  pub emit_resume-count :
      (c : Body U) (m : Machine) (id : ℤ) (y : ℕ) (susp : ℕ × ℕ × SuspKind)
      → c.block_count < (emit_resume hooks c m id y susp).0.block_count
  unfolding emit_resume
  emit_resume-count c m id y (bb, idx, yield) = omega arith
  emit_resume-count c m id y (bb, idx, producing_send) = omega arith
  emit_resume-count c m id y (bb, idx, guarded_recv) = omega (
    arith,
    emit_guard-count (guard_block c bb idx).0 m id (guard_block c bb idx).1,
    guard_block-count c bb idx,
  )

  pub emit_suspension-keeps :
      (c : Body U) (m : Machine) (n : ℕ) (susp : ℕ × ℕ × SuspKind) (b : ℕ)
      → b < c.block_count
      → b ≢ susp.0
      → (emit_suspension hooks c m n susp).0.blocks b ≡ c.blocks b
  unfolding emit_suspension leave_block
  emit_suspension-keeps c m n susp b h apart =
      emit_resume-keeps (leave_block c m (pos (n + 1)) poll_pending).0 m (pos (n + 1)) c.block_count
        susp b (omega (arith, h)) apart
      ∙ leave_block-keeps c m (pos (n + 1)) poll_pending b h

  pub emit_suspension-count :
      (c : Body U) (m : Machine) (n : ℕ) (susp : ℕ × ℕ × SuspKind)
      → c.block_count < (emit_suspension hooks c m n susp).0.block_count
  unfolding emit_suspension leave_block
  emit_suspension-count c m n susp = omega (
    arith,
    emit_resume-count (leave_block c m (pos (n + 1)) poll_pending).0 m (pos (n + 1)) c.block_count
        susp,
  )

  pub emit_suspensions-keeps :
      (c : Body U) (m : Machine) (n : ℕ) (suspensions : List (ℕ × ℕ × SuspKind)) (b : ℕ)
      → b < c.block_count
      → All (λ susp. b ≢ susp.0) suspensions
      → (emit_suspensions hooks c m n suspensions).0.blocks b ≡ c.blocks b
  unfolding emit_suspensions
  emit_suspensions-keeps c m n [] b h apart = refl
  emit_suspensions-keeps c m n (susp ∷ suspensions) b h (apart, aparts) =
      emit_suspensions-keeps (emit_suspension hooks c m n susp).0 m (n + 1) suspensions b
        (omega (arith, h, emit_suspension-count c m n susp)) aparts
      ∙ emit_suspension-keeps c m n susp b h apart

  pub emit_suspensions-count :
      (c : Body U) (m : Machine) (n : ℕ) (suspensions : List (ℕ × ℕ × SuspKind))
      → c.block_count ≤ (emit_suspensions hooks c m n suspensions).0.block_count
  unfolding emit_suspensions
  emit_suspensions-count c m n [] = omega arith
  emit_suspensions-count c m n (susp ∷ suspensions) = omega (
    arith,
    emit_suspension-count c m n susp,
    emit_suspensions-count (emit_suspension hooks c m n susp).0 m (n + 1) suspensions,
  )
