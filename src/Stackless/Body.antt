-- ===== src/Stackless/Body.antt =====
-- crates/krio-stackless/tests/toy_adapter.rs: a host's function body, which implements `CoroCfg` of
-- crates/krio-stackless/src/cfg.rs, and the hooks.
use krio.Base.{
  ℕ, zero, suc, ◌+◌, ◌==◌, Bool, false, Option, none, some, List, [], ◌∷◌, ◌++◌, map, get_elem?,
  set, length, if◌then◌else◌,
}
use krio.Core.{Marker}
use krio.Stackless.{Flow}

-- An i64.
pub data ℤ : Type 0 where
  pos negsuc : ℕ → ℤ

abbrev pub eqz : ℤ → ℤ → Bool
eqz (pos m) (pos n) = m == n
eqz (negsuc m) (negsuc n) = m == n
eqz (pos m) (negsuc n) = false
eqz (negsuc m) (pos n) = false

-- `LocalTy`.
pub data LocalTy : Type 0 where
  i64_mut bool bool_mut : LocalTy

-- `ToyStmt`.
pub data Stmt {ℓ} (U : Type ℓ) : Type ℓ where
  marker : Marker → Stmt U
  user : U → Stmt U
  assign_i64 : ℕ → ℤ → Stmt U
  assign_bool : ℕ → Bool → Stmt U
  eq_check_i64 : ℕ → ℕ → ℤ → Stmt U
  nop : Stmt U

-- `ToyTerm`.
pub data Term : Type 0 where
  unreachable : Term
  goto : ℕ → Term
  branch : ℕ → ℕ → ℕ → Term
  switch : ℕ → List (ℤ × ℕ) → ℕ → Term
  return : Term

-- `ToyBody`: the vector of blocks is a function of the index, with its length.
pub record Body {ℓ} (U : Type ℓ) : Type ℓ where
  pub blocks : ℕ → List (Stmt U) × Term
  pub block_count : ℕ
  pub locals : List LocalTy

module _ {ℓ} {A : Type ℓ} where
  -- The elements up to the index, and those after it: `drain((idx + 1)..)`.
  unfoldable pub up_to : List A → ℕ → List A
  up_to [] idx = []
  up_to (x ∷ xs) zero = x ∷ []
  up_to (x ∷ xs) (suc idx) = x ∷ up_to xs idx

  unfoldable pub after : List A → ℕ → List A
  after [] idx = []
  after (x ∷ xs) zero = xs
  after (x ∷ xs) (suc idx) = after xs idx

abbrev pub redirect : ℕ → ℕ → ℕ → ℕ
redirect from to b = if b == from then to else b

-- The arms of `redirect_targets`.
abbrev pub redirect_term : ℕ → ℕ → Term → Term
redirect_term from to unreachable = unreachable
redirect_term from to (goto t) = goto (redirect from to t)
redirect_term from to (branch cond t f) = branch cond (redirect from to t) (redirect from to f)
redirect_term from to (switch discr targets otherwise) =
    switch discr (map (λ (v, b). (v, redirect from to b)) targets) (redirect from to otherwise)
redirect_term from to return = return

abbrev pub term_successors : Term → List ℕ
term_successors unreachable = []
term_successors (goto t) = t ∷ []
term_successors (branch cond t f) = t ∷ f ∷ []
term_successors (switch discr targets otherwise) = map (λ (v, b). b) targets ++ otherwise ∷ []
term_successors return = []

abbrev pub marker_of {ℓ} : {U : Type ℓ} → Option (Stmt U) → Option Marker
marker_of none = none
marker_of (some (marker m)) = some m
marker_of (some (user u)) = none
marker_of (some (assign_i64 l v)) = none
marker_of (some (assign_bool l v)) = none
marker_of (some (eq_check_i64 dest lhs rhs)) = none
marker_of (some nop) = none

-- The ids from `first`, `left` of them.
unfoldable pub ids_from : ℕ → ℕ → List ℕ
ids_from first zero = []
ids_from first (suc left) = first ∷ ids_from (first + 1) left

module _ {ℓ} {U : Type ℓ} where
  -- `self.blocks[bb] = …`.
  abbrev pub write_block : Body U → ℕ → List (Stmt U) × Term → Body U
  write_block c bb block = record c { blocks = λ b. if b == bb then block else c.blocks b }

  abbrev pub new_block : Body U → Body U × ℕ
  new_block c = (
    record c {
      blocks = λ b. if b == c.block_count then ([], unreachable) else c.blocks b;
      block_count = c.block_count + 1;
    },
    c.block_count,
  )

  abbrev pub new_local : Body U → LocalTy → Body U × ℕ
  new_local c ty = (record c { locals = c.locals ++ ty ∷ [] }, length c.locals)

  abbrev pub new_state_local : Body U → Body U × ℕ
  new_state_local c = new_local c i64_mut

  abbrev pub new_bool_local : Body U → Body U × ℕ
  new_bool_local c = new_local c bool

  abbrev pub new_mut_bool_local : Body U → Body U × ℕ
  new_mut_bool_local c = new_local c bool_mut

  abbrev pub push_stmt : Body U → ℕ → Stmt U → Body U
  push_stmt c bb s = write_block c bb ((c.blocks bb).0 ++ s ∷ [], (c.blocks bb).1)

  abbrev pub emit_assign_i64 : Body U → ℕ → ℕ → ℤ → Body U
  emit_assign_i64 c bb l value = push_stmt c bb (assign_i64 l value)

  abbrev pub emit_assign_bool : Body U → ℕ → ℕ → Bool → Body U
  emit_assign_bool c bb l value = push_stmt c bb (assign_bool l value)

  abbrev pub emit_eq_check_i64 : Body U → ℕ → ℕ → ℕ → ℤ → Body U
  emit_eq_check_i64 c bb dest lhs rhs = push_stmt c bb (eq_check_i64 dest lhs rhs)

  -- An index that is out of range changes nothing; the vector would panic.
  abbrev pub replace_with_nop : Body U → ℕ → ℕ → Body U
  replace_with_nop c bb idx = write_block c bb (set (c.blocks bb).0 idx nop, (c.blocks bb).1)

  abbrev pub split_after : Body U → ℕ → ℕ → Body U × ℕ
  split_after c src idx = (
    record c {
      blocks = λ b.
          if b == c.block_count
          then (after (c.blocks src).0 idx, (c.blocks src).1)
          else if b == src
          then (up_to (c.blocks src).0 idx, unreachable)
          else c.blocks b;
      block_count = c.block_count + 1;
    },
    c.block_count,
  )

  abbrev pub prepend_assign_i64 : Body U → ℕ → ℕ → ℤ → Body U
  prepend_assign_i64 c bb l value =
      write_block c bb (assign_i64 l value ∷ (c.blocks bb).0, (c.blocks bb).1)

  abbrev pub set_term : Body U → ℕ → Term → Body U
  set_term c bb t = write_block c bb ((c.blocks bb).0, t)

  abbrev pub set_goto : Body U → ℕ → ℕ → Body U
  set_goto c bb target = set_term c bb (goto target)

  abbrev pub set_branch : Body U → ℕ → ℕ → ℕ → ℕ → Body U
  set_branch c bb cond true_bb false_bb = set_term c bb (branch cond true_bb false_bb)

  abbrev pub set_switch : Body U → ℕ → ℕ → List (ℤ × ℕ) → ℕ → Body U
  set_switch c bb discr targets otherwise = set_term c bb (switch discr targets otherwise)

  abbrev pub redirect_targets : Body U → ℕ → ℕ → ℕ → Body U
  redirect_targets c bb from to = set_term c bb (redirect_term from to (c.blocks bb).1)

  abbrev pub successors : Body U → ℕ → List ℕ
  successors c bb = term_successors (c.blocks bb).1

  abbrev pub statement_count : Body U → ℕ → ℕ
  statement_count c bb = length (c.blocks bb).0

  abbrev pub block_ids : Body U → List ℕ
  block_ids c = ids_from 0 c.block_count

  abbrev pub classify_marker : Body U → ℕ → ℕ → Option Marker
  classify_marker c bb idx = marker_of (get_elem? (c.blocks bb).0 idx)

-- What the host adds: the peek of a guarded receive, with the body after it and the local of its
-- result; whether and how it reports a deadlock; and the coroutines' priorities.
pub record Hooks {ℓ} (U : Type ℓ) : Type ℓ where
  pub emit_guarded_recv_peek : Body U → ℕ → ℕ → ℕ → Body U × ℕ
  pub emit_deadlock : Body U → ℕ → Body U × Bool
  pub coroutine_priority : Body U → ℕ → ℕ → Option ℕ

abbrev pub flow_of {ℓ} : {U : Type ℓ} → Hooks U → Flow (Body U) ℕ
flow_of hooks = record {
  block_ids = block_ids;
  statement_count = statement_count;
  successors = successors;
  classify_marker = classify_marker;
  coroutine_priority = hooks.coroutine_priority;
}
