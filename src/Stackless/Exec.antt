-- ===== src/Stackless/Exec.antt =====
-- How the statements and terminators that the transform emits run, as the documentation of `CoroCfg`
-- in crates/krio-stackless/src/cfg.rs says: a user's statements leave the emitted locals alone.
use krio.Base.{ℕ, ◌==◌, ◌≡◌, subst, sym, Bool, Option, none, some, List, [], ◌∷◌, if◌then◌else◌}
use krio.Stackless.Body.{
  ℤ, eqz, Stmt, marker, user, assign_i64, assign_bool, eq_check_i64, nop, Term, unreachable, goto,
  branch, switch, return, Body,
}
use krio.Stackless.Emit.Resume.{pick}

-- The values of the locals.
pub record Env : Type 0 where
  pub ints : ℕ → ℤ
  pub bools : ℕ → Bool

abbrev pub put_int : Env → ℕ → ℤ → Env
put_int env l v = record env { ints = λ x. if x == l then v else env.ints x }

abbrev pub put_bool : Env → ℕ → Bool → Env
put_bool env l v = record env { bools = λ x. if x == l then v else env.bools x }

module _ {ℓ} {U : Type ℓ} where
  abbrev pub exec : Env → Stmt U → Env
  exec env (marker m) = env
  exec env (user u) = env
  exec env (assign_i64 l v) = put_int env l v
  exec env (assign_bool l v) = put_bool env l v
  exec env (eq_check_i64 dest lhs rhs) = put_bool env dest (eqz (env.ints lhs) rhs)
  exec env nop = env

  abbrev pub exec_all : Env → List (Stmt U) → Env
  exec_all env [] = env
  exec_all env (s ∷ stmts) = exec_all (exec env s) stmts

abbrev pub goes : Env → Term → Option ℕ
goes env unreachable = none
goes env (goto t) = some t
goes env (branch cond t f) = some (if env.bools cond then t else f)
goes env (switch discr targets otherwise) = some (pick targets otherwise (env.ints discr))
goes env return = none

-- Control goes from the head of a block to the head of another.
pub data Walks {ℓ} {U : Type ℓ} (c : Body U) : Env → ℕ → Env → ℕ → Type ℓ where
  stop : (env : Env) (b : ℕ) → Walks c env b env b
  go :
      (env : Env) (b next : ℕ) (end_env : Env) (end_b : ℕ)
      → goes (exec_all env (c.blocks b).0) (c.blocks b).1 ≡ some next
      → Walks c (exec_all env (c.blocks b).0) next end_env end_b
      → Walks c env b end_env end_b

module _ {ℓ} {U : Type ℓ} (c : Body U) where
  -- A step through a block whose contents are known.
  pub through :
      (stmts : List (Stmt U)) (term : Term) (env : Env) (b next : ℕ) (end_env : Env) (end_b : ℕ)
      → c.blocks b ≡ (stmts, term)
      → goes (exec_all env stmts) term ≡ some next
      → Walks c (exec_all env stmts) next end_env end_b
      → Walks c env b end_env end_b
  through stmts term env b next end_env end_b e to rest =
      Walks.go env b next end_env end_b (rw e to)
        (subst (λ block. Walks c (exec_all env block.0) next end_env end_b) (sym e) rest)
