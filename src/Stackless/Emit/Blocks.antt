-- ===== src/Stackless/Emit/Blocks.antt =====
-- A yield and a producing send, as `emit_multi_state_machine` leaves their blocks.
use krio.Base.{
  ℕ, suc, ◌+◌, ◌≤◌, ◌<◌, ◌==◌, ==_self, ◌≡◌, ◌≢◌, refl, ap, sym, subst, ◌∙◌, ◌⊎◌, inl, inr, false,
  Option, some, List, [], ◌∷◌, ◌++◌, arith, length, get_elem?, set, All,
}
use krio.Stackless.{SuspKind, yield, guarded_recv, producing_send}
use krio.Stackless.Body.{
  ℤ, pos, Stmt, Term, Body, Hooks, up_to, after, assign_i64, goto, nop, write_block, split_after,
  replace_with_nop,
}
use krio.Stackless.Emit.{
  Machine, poll_pending, leave_block, emit_resume, emit_suspension, emit_suspensions,
}
use krio.Stackless.Emit.Suspend.{
  PeekLocal, write_block-keeps, leave_block-keeps, leave_block-block, emit_resume-keeps,
  emit_resume-count, emit_suspension-keeps, emit_suspension-count, emit_suspensions-keeps,
  emit_suspensions-count,
}

-- The suspensions of a coroutine are in blocks of their own, among the first `base`.
abbrev pub Apart : ℕ → ℕ → List (ℕ × ℕ × SuspKind) → Type 0
Apart base bb suspensions = All (λ susp. (susp.0 < base) × (bb ≢ susp.0)) suspensions

-- What stays in the block of the suspension: a yield's marker is erased, a send stays.
abbrev pub stays {ℓ} : {U : Type ℓ} → SuspKind → List (Stmt U) → ℕ → List (Stmt U)
stays yield stmts idx = set (up_to stmts idx) idx nop
stays producing_send stmts idx = up_to stmts idx
stays guarded_recv stmts idx = stmts

-- The block of the suspension goes to a block that leaves the machine in state `n` as pending, and
-- the entry has what was after the suspension.
pub record Suspends {ℓ} {U : Type ℓ} (c after_c : Body U) (m : Machine) (n : ℕ)
    (susp : ℕ × ℕ × SuspKind) (entry : Option ℕ) : Type ℓ where
  pub yield_bb : ℕ
  pub resume_bb : ℕ
  pub yield_lo : c.block_count ≤ yield_bb
  pub yield_hi : yield_bb < after_c.block_count
  pub resume_lo : c.block_count ≤ resume_bb
  pub resume_hi : resume_bb < after_c.block_count
  pub entered : entry ≡ some resume_bb
  pub leaves : after_c.blocks susp.0 ≡ (stays susp.2 (c.blocks susp.0).0 susp.1, goto yield_bb)
  pub yields : after_c.blocks yield_bb ≡ (
    assign_i64 m.state_local (pos n) ∷ assign_i64 m.poll_result_local poll_pending ∷ [],
    goto m.exit_bb,
  )
  pub resumes : after_c.blocks resume_bb ≡ (after (c.blocks susp.0).0 susp.1, (c.blocks susp.0).1)

module _ {ℓ} {U : Type ℓ} where
  pub write_block-same :
      (c : Body U) (bb : ℕ) (block : List (Stmt U) × Term)
      → (write_block c bb block).blocks bb ≡ block
  write_block-same c bb block = rw (==_self bb) refl

  split_after-old :
      (c : Body U) (bb idx : ℕ)
      → bb < c.block_count
      → (split_after c bb idx).0.blocks bb ≡ (up_to (c.blocks bb).0 idx, Term.unreachable)
  split_after-old c bb idx h =
      let old : (bb == c.block_count) ≡ false = ground (arith, h) in rw (old, ==_self bb) refl

  split_after-new :
      (c : Body U) (bb idx : ℕ)
      → (split_after c bb idx).0.blocks c.block_count ≡ (after (c.blocks bb).0 idx, (c.blocks bb).1)
  split_after-new c bb idx = rw (==_self c.block_count) refl

module _ {ℓ} {U : Type ℓ} (hooks : Hooks U) where
  emit_resume-entry :
      (c : Body U) (m : Machine) (id : ℤ) (y bb idx : ℕ) (kind : SuspKind)
      → kind ≢ guarded_recv
      → (emit_resume hooks c m id y (bb, idx, kind)).1 ≡ c.block_count
  unfolding emit_resume
  emit_resume-entry c m id y bb idx yield plain = refl
  emit_resume-entry c m id y bb idx producing_send plain = refl
  emit_resume-entry c m id y bb idx guarded_recv plain = absurd (plain refl)

  emit_resume-leaves :
      (c : Body U) (m : Machine) (id : ℤ) (y bb idx : ℕ) (kind : SuspKind)
      → kind ≢ guarded_recv
      → bb < c.block_count
      → (emit_resume hooks c m id y (bb, idx, kind)).0.blocks bb
        ≡ (stays kind (c.blocks bb).0 idx, goto y)
  unfolding emit_resume
  emit_resume-leaves c m id y bb idx yield plain h =
      write_block-same (replace_with_nop (split_after c bb idx).0 bb idx) bb _
      ∙ ap (λ block. (block.0, goto y))
          (write_block-same (split_after c bb idx).0 bb _
            ∙ ap (λ block. (set block.0 idx nop, block.1)) (split_after-old c bb idx h))
  emit_resume-leaves c m id y bb idx producing_send plain h =
      write_block-same (split_after c bb idx).0 bb _
      ∙ ap (λ block. (block.0, goto y)) (split_after-old c bb idx h)
  emit_resume-leaves c m id y bb idx guarded_recv plain h = absurd (plain refl)

  emit_resume-resumes :
      (c : Body U) (m : Machine) (id : ℤ) (y bb idx : ℕ) (kind : SuspKind)
      → kind ≢ guarded_recv
      → bb < c.block_count
      → (emit_resume hooks c m id y (bb, idx, kind)).0.blocks c.block_count
        ≡ (after (c.blocks bb).0 idx, (c.blocks bb).1)
  unfolding emit_resume
  emit_resume-resumes c m id y bb idx yield plain h =
      write_block-keeps (replace_with_nop (split_after c bb idx).0 bb idx) bb c.block_count _
        (λ e. omega (arith, h, e))
      ∙ write_block-keeps (split_after c bb idx).0 bb c.block_count _ (λ e. omega (arith, h, e))
      ∙ split_after-new c bb idx
  emit_resume-resumes c m id y bb idx producing_send plain h =
      write_block-keeps (split_after c bb idx).0 bb c.block_count _ (λ e. omega (arith, h, e))
      ∙ split_after-new c bb idx
  emit_resume-resumes c m id y bb idx guarded_recv plain h = absurd (plain refl)

module _ {ℓ} {U : Type ℓ} (hooks : Hooks U) (peeks : PeekLocal hooks) where
  emit_suspension-Suspends :
      (c : Body U) (m : Machine) (n bb idx : ℕ) (kind : SuspKind)
      → kind ≢ guarded_recv
      → bb < c.block_count
      → Suspends c
          (emit_suspension hooks c m n (bb, idx, kind)).0
          m
          (n + 1)
          (bb, idx, kind)
          (some (emit_suspension hooks c m n (bb, idx, kind)).1)
  unfolding emit_suspension
  emit_suspension-Suspends c m n bb idx kind plain h =
      let id : ℤ = pos (n + 1) in
      let left : Body U = (leave_block c m id poll_pending).0 in
      let y : ℕ = (leave_block c m id poll_pending).1 in
      let same : left.blocks bb ≡ c.blocks bb = leave_block-keeps c m id poll_pending bb h in
      record {
        yield_bb = y;
        resume_bb = left.block_count;
        yield_lo = omega arith;
        yield_hi = omega (arith, emit_resume-count hooks peeks left m id y (bb, idx, kind));
        resume_lo = omega arith;
        resume_hi = omega (arith, emit_resume-count hooks peeks left m id y (bb, idx, kind));
        entered = ap some (emit_resume-entry hooks left m id y bb idx kind plain);
        leaves =
            emit_resume-leaves hooks left m id y bb idx kind plain (omega (arith, h))
            ∙ ap (λ block. (stays kind block.0 idx, goto y)) same;
        yields =
            emit_resume-keeps hooks peeks left m id y (bb, idx, kind) y (omega arith)
              (λ e. omega (arith, h, e))
            ∙ leave_block-block c m id poll_pending;
        resumes =
            emit_resume-resumes hooks left m id y bb idx kind plain (omega (arith, h))
            ∙ ap (λ block. (after block.0 idx, block.1)) same;
      }

  -- Blocks of a suspension that later steps keep.
  pub later :
      (c c1 c2 : Body U) (m : Machine) (n : ℕ) (susp : ℕ × ℕ × SuspKind) (entry : Option ℕ)
      → c1.block_count ≤ c2.block_count
      → ((b : ℕ)
          → (b ≡ susp.0) ⊎ (c.block_count ≤ b)
          → b < c1.block_count
          → c2.blocks b ≡ c1.blocks b)
      → susp.0 < c.block_count
      → Suspends c c1 m n susp entry
      → Suspends c c2 m n susp entry
  later c c1 c2 m n susp entry more keeps h s = record {
    yield_bb = s.yield_bb;
    resume_bb = s.resume_bb;
    yield_lo = s.yield_lo;
    yield_hi = omega (arith, s.yield_hi, more);
    resume_lo = s.resume_lo;
    resume_hi = omega (arith, s.resume_hi, more);
    entered = s.entered;
    leaves = keeps susp.0 (inl refl) (omega (arith, h, s.yield_lo, s.yield_hi)) ∙ s.leaves;
    yields = keeps s.yield_bb (inr s.yield_lo) s.yield_hi ∙ s.yields;
    resumes = keeps s.resume_bb (inr s.resume_lo) s.resume_hi ∙ s.resumes;
  }

  pub entering :
      (c c1 : Body U) (m : Machine) (n : ℕ) (susp : ℕ × ℕ × SuspKind) (entry : Option ℕ)
      (s : Suspends c c1 m n susp entry) (found : Option ℕ)
      → found ≡ some s.resume_bb
      → Suspends c c1 m n susp found
  entering c c1 m n susp entry s found e =
      subst (λ x. Suspends c c1 m n susp x) (s.entered ∙ sym e) s

  -- Steps before that keep the block of the suspension.
  pub earlier :
      (c c1 c2 : Body U) (m : Machine) (n : ℕ) (susp : ℕ × ℕ × SuspKind) (entry : Option ℕ)
      → c.block_count ≤ c1.block_count
      → c1.blocks susp.0 ≡ c.blocks susp.0
      → Suspends c1 c2 m n susp entry
      → Suspends c c2 m n susp entry
  earlier c c1 c2 m n susp entry more same s = record {
    yield_bb = s.yield_bb;
    resume_bb = s.resume_bb;
    yield_lo = omega (arith, s.yield_lo, more);
    yield_hi = s.yield_hi;
    resume_lo = omega (arith, s.resume_lo, more);
    resume_hi = s.resume_hi;
    entered = s.entered;
    leaves = s.leaves ∙ ap (λ block. (stays susp.2 block.0 susp.1, goto s.yield_bb)) same;
    yields = s.yields;
    resumes = s.resumes ∙ ap (λ block. (after block.0 susp.1, block.1)) same;
  }

  pub Apart-new :
      (base bb b : ℕ) (suspensions : List (ℕ × ℕ × SuspKind))
      → Apart base bb suspensions
      → (b ≡ bb) ⊎ (base ≤ b)
      → All (λ susp. b ≢ susp.0) suspensions
  Apart-new base bb b [] apart new = tt
  Apart-new base bb b (susp ∷ suspensions) (apart, aparts) new = (
    λ e. elim new [
      | inl here ↦ apart.1 (sym here ∙ e)
      | inr fresh ↦ omega (arith, apart.0, fresh, e)
    ],
    Apart-new base bb b suspensions aparts new,
  )

  pub emit_suspensions-Suspends :
      (base : ℕ) (c : Body U) (m : Machine) (n bb idx : ℕ) (kind : SuspKind)
      (before behind : List (ℕ × ℕ × SuspKind))
      → kind ≢ guarded_recv
      → bb < base
      → base ≤ c.block_count
      → Apart base bb before
      → Apart base bb behind
      → Suspends c
          (emit_suspensions hooks c m n (before ++ (bb, idx, kind) ∷ behind)).0
          m
          (n + length before + 1)
          (bb, idx, kind)
          (get_elem?
            (emit_suspensions hooks c m n (before ++ (bb, idx, kind) ∷ behind)).1
            (length before))
  unfolding emit_suspensions
  emit_suspensions-Suspends base c m n bb idx kind [] behind plain h fits _ aparts =
      let c1 : Body U = (emit_suspension hooks c m n (bb, idx, kind)).0 in
      let count : n + 1 ≡ n + 0 + 1 = omega arith in
      subst
        (λ state.
          Suspends c (emit_suspensions hooks c1 m (n + 1) behind).0 m state (bb, idx, kind)
            (some (emit_suspension hooks c m n (bb, idx, kind)).1))
        count
        (later c c1 (emit_suspensions hooks c1 m (n + 1) behind).0 m (n + 1) (bb, idx, kind) _
          (emit_suspensions-count hooks peeks c1 m (n + 1) behind)
          (λ b new old. emit_suspensions-keeps hooks peeks c1 m (n + 1) behind b old (
            Apart-new base bb b behind aparts
              (elim new [ inl here ↦ inl here | inr fresh ↦ inr (omega (arith, fits, fresh)) ])))
          (omega (arith, h, fits))
          (emit_suspension-Suspends c m n bb idx kind plain (omega (arith, h, fits))))
  emit_suspensions-Suspends base c m n bb idx kind (susp ∷ before) behind plain h fits
        (apart, aparts) others =
      let c1 : Body U = (emit_suspension hooks c m n susp).0 in
      let more : c.block_count < c1.block_count = emit_suspension-count hooks peeks c m n susp in
      let count : n + 1 + length before + 1 ≡ n + suc (length before) + 1 = omega arith in
      let rest : Body U × List ℕ =
        emit_suspensions hooks c1 m (n + 1) (before ++ (bb, idx, kind) ∷ behind) in
      earlier c c1 rest.0 m (n + suc (length before) + 1) (bb, idx, kind)
        (get_elem? rest.1 (length before)) (omega (arith, more))
        (emit_suspension-keeps hooks peeks c m n susp bb (omega (arith, h, fits)) apart.1)
        (subst
          (λ state. Suspends c1 rest.0 m state (bb, idx, kind) (get_elem? rest.1 (length before)))
          count
          (emit_suspensions-Suspends base c1 m (n + 1) bb idx kind before behind plain h
            (omega (arith, fits, more)) aparts others))
