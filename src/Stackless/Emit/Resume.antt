-- ===== src/Stackless/Emit/Resume.antt =====
-- The dispatch of a coroutine's machine, and what it enters.
use mathlib.Core.Option.{some-injective}
use krio.Base.{
  ℕ, zero, suc, ◌+◌, ◌≤◌, ◌<◌, ◌==◌, ==_self, ◌≡◌, ◌≢◌, refl, ap, sym, subst, ◌∙◌, inl, inr, false,
  Option, none, some, List, [], ◌∷◌, ◌++◌, arith, length, get_elem?, if◌then◌else◌,
}
use krio.Stackless.{Coroutine, SuspKind, guarded_recv}
use krio.Stackless.Body.{
  ℤ, pos, eqz, Term, Body, Hooks, switch, unreachable, goto, branch, return, set_goto, new_block,
  new_state_local,
}
use krio.Stackless.Emit.{
  Machine, done_state, enumerate, done_block, emit_suspension, emit_suspensions,
  emit_multi_state_machine, emit_machine, build_state_machine,
}
use krio.Stackless.Emit.Suspend.{PeekLocal, write_block-keeps, done_block-keeps}
use krio.Stackless.Emit.Blocks.{
  Suspends, Apart, earlier, later, entering, emit_suspensions-Suspends, write_block-same,
}

-- The block that a switch's arms give a value.
unfoldable pub pick : List (ℤ × ℕ) → ℕ → ℤ → ℕ
pick [] otherwise v = otherwise
pick ((w, bb) ∷ targets) otherwise v = if eqz w v then bb else pick targets otherwise v

-- Where a terminator that switches on the local goes when the local has the value.
abbrev pub enters : Term → ℕ → ℤ → Option ℕ
enters unreachable l v = none
enters (goto t) l v = none
enters (branch cond t f) l v = none
enters (switch discr targets otherwise) l v =
    if discr == l then some (pick targets otherwise v) else none
enters return l v = none

pick-enumerate :
    (entries : List ℕ) (i otherwise j v bb : ℕ)
    → get_elem? entries j ≡ some bb
    → i + j ≡ v
    → pick (enumerate i entries) otherwise (pos v) ≡ bb
unfolding pick enumerate
pick-enumerate [] i otherwise j v bb e at = absurd (cc e)
pick-enumerate (x ∷ entries) i otherwise zero v bb e at = ground (arith, at, some-injective e)
pick-enumerate (x ∷ entries) i otherwise (suc j) v bb e at =
    ground (arith, at, pick-enumerate entries (i + 1) otherwise j v bb e)

pick-past :
    (entries : List ℕ) (i otherwise v : ℕ)
    → i + length entries ≤ v
    → pick (enumerate i entries) otherwise (pos v) ≡ otherwise
unfolding pick enumerate
pick-past [] i otherwise v h = refl
pick-past (x ∷ entries) i otherwise v h = ground (arith, h, pick-past entries (i + 1) otherwise v)

module _ {ℓ} {U : Type ℓ} (hooks : Hooks U) where
  emit_suspensions-length :
      (c : Body U) (m : Machine) (n : ℕ) (suspensions : List (ℕ × ℕ × SuspKind))
      → length (emit_suspensions hooks c m n suspensions).1 ≡ length suspensions
  unfolding emit_suspensions
  emit_suspensions-length c m n [] = refl
  emit_suspensions-length c m n (susp ∷ suspensions) =
      omega
        (arith, emit_suspensions-length (emit_suspension hooks c m n susp).0 m (n + 1) suspensions)

  -- The body before the dispatch gets its switch.
  abbrev finished : Body U → Coroutine ℕ → List (ℕ × ℕ × SuspKind) → Machine → Body U
  finished c k suspensions m =
      set_goto (done_block (emit_suspensions hooks c m 0 suspensions).0 m).0 k.end.0
        (done_block (emit_suspensions hooks c m 0 suspensions).0 m).1

  emit_multi-dispatch :
      (c : Body U) (k : Coroutine ℕ) (suspensions : List (ℕ × ℕ × SuspKind)) (m : Machine)
      → ((emit_multi_state_machine hooks c k suspensions m).blocks m.dispatch_bb).1
        ≡ switch m.state_local
            (enumerate 0 (k.begin.0 ∷ (emit_suspensions hooks c m 0 suspensions).1))
            m.exit_bb
  unfolding emit_multi_state_machine
  emit_multi-dispatch c k suspensions m =
      ap (λ block. block.1) (write_block-same (finished c k suspensions m) m.dispatch_bb _)

  emit_multi-enters :
      (c : Body U) (k : Coroutine ℕ) (suspensions : List (ℕ × ℕ × SuspKind)) (m : Machine) (v : ℤ)
      → enters
          ((emit_multi_state_machine hooks c k suspensions m).blocks m.dispatch_bb).1
          m.state_local
          v
        ≡ some (
            pick
              (enumerate 0 (k.begin.0 ∷ (emit_suspensions hooks c m 0 suspensions).1))
              m.exit_bb
              v)
  emit_multi-enters c k suspensions m v =
      ap (λ t. enters t m.state_local v) (emit_multi-dispatch c k suspensions m)
      ∙ rw (==_self m.state_local) refl

-- The body with the locals and the blocks of a machine, and the machine.
abbrev pub prepared {ℓ} : {U : Type ℓ} → Body U → Body U
prepared c = (new_block (new_block (new_state_local (new_state_local c).0).0).0).0

abbrev pub machine_of {ℓ} : {U : Type ℓ} → Body U → ℕ → Machine
machine_of c progress = record {
  state_local = (new_state_local c).1;
  poll_result_local = (new_state_local (new_state_local c).0).1;
  progress_local = progress;
  dispatch_bb = c.block_count;
  exit_bb = c.block_count + 1;
}

module _ {ℓ} {U : Type ℓ} (hooks : Hooks U) where
  built :
      (c : Body U) (k : Coroutine ℕ) (susp : ℕ × ℕ × SuspKind)
      (suspensions : List (ℕ × ℕ × SuspKind)) (progress : ℕ)
      → build_state_machine hooks c k (susp ∷ suspensions) progress ≡ (
        emit_multi_state_machine hooks (prepared c) k (susp ∷ suspensions) (machine_of c progress),
        machine_of c progress,
      )
  unfolding build_state_machine emit_machine
  built c k susp suspensions progress = refl

  -- With a suspension and fewer suspensions than the state of a machine that is done, the dispatch
  -- enters the coroutine's first block in state 0, and leaves by the exit block in the state of a
  -- machine that is done and in every state past the last suspension's.
  pub build_state_machine-dispatch :
      (c : Body U) (k : Coroutine ℕ) (susp : ℕ × ℕ × SuspKind)
      (suspensions : List (ℕ × ℕ × SuspKind)) (progress : ℕ)
      → length suspensions + 1 < 9999
      → let (c', m) = build_state_machine hooks c k (susp ∷ suspensions) progress in
        (enters (c'.blocks m.dispatch_bb).1 m.state_local (pos 0) ≡ some k.begin.0)
        × (enters (c'.blocks m.dispatch_bb).1 m.state_local done_state ≡ some m.exit_bb)
        × ((v : ℕ)
            → length suspensions + 1 < v
            → enters (c'.blocks m.dispatch_bb).1 m.state_local (pos v) ≡ some m.exit_bb)
  unfolding build_state_machine emit_machine
  build_state_machine-dispatch c k susp suspensions progress few =
      let entries : List ℕ =
        k.begin.0
        ∷ (emit_suspensions hooks (prepared c) (machine_of c progress) 0 (susp ∷ suspensions)).1 in
      let count : length entries ≡ length suspensions + 2 = omega (
        arith,
        emit_suspensions-length hooks (prepared c) (machine_of c progress) 0 (susp ∷ suspensions),
      ) in
      (
        emit_multi-enters hooks (prepared c) k (susp ∷ suspensions) (machine_of c progress) (pos 0)
            ∙ ap some
                (pick-enumerate entries 0 (c.block_count + 1) 0 0 k.begin.0 refl (omega arith)),
        emit_multi-enters hooks (prepared c) k (susp ∷ suspensions) (machine_of c progress)
              done_state
            ∙ ap some (pick-past entries 0 (c.block_count + 1) 9999 (omega (arith, few, count))),
        λ v past.
            emit_multi-enters hooks (prepared c) k (susp ∷ suspensions) (machine_of c progress)
              (pos v)
            ∙ ap some (pick-past entries 0 (c.block_count + 1) v (omega (arith, past, count))),
      )

prepared-keeps {ℓ} :
    {U : Type ℓ} (c : Body U) (b : ℕ) → b < c.block_count → (prepared c).blocks b ≡ c.blocks b
prepared-keeps c b h =
    let one : (b == c.block_count) ≡ false = ground (arith, h) in
    let two : (b == c.block_count + 1) ≡ false = ground (arith, h) in rw (two, one) refl

module _ {ℓ} {U : Type ℓ} (hooks : Hooks U) (peeks : PeekLocal hooks) where
  finished-keeps :
      (c : Body U) (k : Coroutine ℕ) (suspensions : List (ℕ × ℕ × SuspKind)) (m : Machine) (b : ℕ)
      → b < (emit_suspensions hooks c m 0 suspensions).0.block_count
      → b ≢ k.end.0
      → b ≢ m.dispatch_bb
      → (emit_multi_state_machine hooks c k suspensions m).blocks b
        ≡ (emit_suspensions hooks c m 0 suspensions).0.blocks b
  unfolding emit_multi_state_machine
  finished-keeps c k suspensions m b old not_end not_dispatch =
      let emitted : Body U = (emit_suspensions hooks c m 0 suspensions).0 in
      write_block-keeps (finished hooks c k suspensions m) m.dispatch_bb b _ not_dispatch
      ∙ write_block-keeps (done_block emitted m).0 k.end.0 b _ not_end
      ∙ done_block-keeps emitted m b old

  emit_multi-count :
      (c : Body U) (k : Coroutine ℕ) (suspensions : List (ℕ × ℕ × SuspKind)) (m : Machine)
      → (emit_suspensions hooks c m 0 suspensions).0.block_count
        ≤ (emit_multi_state_machine hooks c k suspensions m).block_count
  unfolding emit_multi_state_machine done_block
  emit_multi-count c k suspensions m = omega arith

  built_append :
      (c : Body U) (k : Coroutine ℕ) (before : List (ℕ × ℕ × SuspKind)) (susp : ℕ × ℕ × SuspKind)
      (behind : List (ℕ × ℕ × SuspKind)) (progress : ℕ)
      → build_state_machine hooks c k (before ++ susp ∷ behind) progress ≡ (
        emit_multi_state_machine hooks
            (prepared c)
            k
            (before ++ susp ∷ behind)
            (machine_of c progress),
        machine_of c progress,
      )
  built_append c k [] susp behind progress = built hooks c k susp behind progress
  built_append c k (first ∷ before) susp behind progress =
      built hooks c k first (before ++ susp ∷ behind) progress

  multi-Suspends :
      (c : Body U) (k : Coroutine ℕ) (bb idx : ℕ) (kind : SuspKind)
      (before behind : List (ℕ × ℕ × SuspKind)) (progress : ℕ)
      → kind ≢ guarded_recv
      → bb < c.block_count
      → k.end.0 < c.block_count
      → bb ≢ k.end.0
      → Apart c.block_count bb before
      → Apart c.block_count bb behind
      → let m : Machine = machine_of c progress in
        let after_c : Body U =
          emit_multi_state_machine hooks (prepared c) k (before ++ (bb, idx, kind) ∷ behind) m in
        Suspends c after_c m
          (length before + 1)
          (bb, idx, kind)
          (enters (after_c.blocks m.dispatch_bb).1 m.state_local (pos (length before + 1)))
  multi-Suspends c k bb idx kind before behind progress plain h end not_end aparts others =
      let p : Body U = prepared c in
      let m : Machine = machine_of c progress in
      let all : List (ℕ × ℕ × SuspKind) = before ++ (bb, idx, kind) ∷ behind in
      let emitted : Body U × List ℕ = emit_suspensions hooks p m 0 all in
      let final : Body U = emit_multi_state_machine hooks p k all m in
      let early : Suspends p emitted.0 m (length before + 1) (bb, idx, kind)
          (get_elem? emitted.1 (length before)) =
        subst (λ n. Suspends p emitted.0 m n (bb, idx, kind) (get_elem? emitted.1 (length before)))
          (omega arith)
          (emit_suspensions-Suspends hooks peeks c.block_count p m 0 bb idx kind before behind plain
            h (omega arith) aparts others) in
      let late : Suspends p final m (length before + 1) (bb, idx, kind)
          (get_elem? emitted.1 (length before)) =
        later hooks peeks p emitted.0 final m (length before + 1) (bb, idx, kind) _
          (emit_multi-count p k all m)
          (λ b new old.
            finished-keeps p k all m b old
              (λ e. elim new [
                | inl here ↦ not_end (sym here ∙ e)
                | inr fresh ↦ omega (arith, fresh, end, e)
              ])
              (λ e. elim new [
                | inl here ↦ omega (arith, here, h, e)
                | inr fresh ↦ omega (arith, fresh, e)
              ]))
          (omega (arith, h)) early in
      let whole : Suspends c final m (length before + 1) (bb, idx, kind)
          (get_elem? emitted.1 (length before)) =
        earlier hooks peeks c p final m (length before + 1) (bb, idx, kind) _ (omega arith)
          (prepared-keeps c bb h) late in
      entering hooks peeks c final m (length before + 1) (bb, idx, kind) _ whole _
        (emit_multi-enters hooks p k all m (pos (length before + 1))
          ∙ ap some (
              pick-enumerate (k.begin.0 ∷ emitted.1) 0 m.exit_bb (suc (length before))
                (length before + 1) whole.resume_bb whole.entered (omega arith)))

  -- When the suspensions are in blocks of their own and the end marker in another, the block of the
  -- i-th suspension, a yield or a producing send, keeps what was before the suspension (the yield's
  -- marker erased, the send kept) and goes to a fresh block that sets the state to i, the poll result
  -- to pending and leaves by the exit block; and in state i the dispatch enters a fresh block with
  -- the statements that were after the suspension and the block's own terminator.
  pub build_state_machine-suspends :
      (c : Body U) (k : Coroutine ℕ) (bb idx : ℕ) (kind : SuspKind)
      (before behind : List (ℕ × ℕ × SuspKind)) (progress : ℕ)
      → kind ≢ guarded_recv
      → bb < c.block_count
      → k.end.0 < c.block_count
      → bb ≢ k.end.0
      → Apart c.block_count bb before
      → Apart c.block_count bb behind
      → let (after_c, m) =
          build_state_machine hooks c k (before ++ (bb, idx, kind) ∷ behind) progress in
        Suspends c after_c m
          (length before + 1)
          (bb, idx, kind)
          (enters (after_c.blocks m.dispatch_bb).1 m.state_local (pos (length before + 1)))
  build_state_machine-suspends c k bb idx kind before behind progress plain h end not_end aparts
        others =
      subst
        (λ x.
          Suspends c x.0 x.1 (length before + 1) (bb, idx, kind)
            (enters (x.0.blocks x.1.dispatch_bb).1 x.1.state_local (pos (length before + 1))))
        (sym (built_append c k before (bb, idx, kind) behind progress))
        (multi-Suspends c k bb idx kind before behind progress plain h end not_end aparts others)
