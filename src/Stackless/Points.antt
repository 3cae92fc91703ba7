-- ===== src/Stackless/Points.antt =====
-- `find_suspension_points`: the blocks of a coroutine's body by a search from its begin block, and
-- the suspensions in them.
pub mod Body
pub mod Marks
use krio.Base.{
  ℕ, zero, suc, ◌+◌, ◌-◌, Bool, true, false, ◌||◌, Option, none, some, List, [], ◌∷◌, ◌++◌,
  if◌then◌else◌,
}
use krio.Core.{
  Ord, Marker, region_begin, region_end, coroutine_begin, coroutine_end, yield, guarded_recv,
  producing_send,
}
use krio.Stackless.{Flow, Coroutine, SuspKind}

-- `body.contains(&b)`.
unfoldable pub member {ℓ} : {B : Type ℓ} ⦃o : Ord B⦄ → B → List B → Bool
member b [] = false
member ⦃o⦄ b (a ∷ body) = o.eq.agree a b || member b body

module _ {ℓ} {B : Type ℓ} ⦃o : Ord B⦄ where
  -- The loop over the successors, with `body` and `stack`; the top of the stack is in front.
  unfoldable pub offer : List B → List B × List B → List B × List B
  offer [] (body, stack) = (body, stack)
  offer (s ∷ succs) (body, stack) =
      offer succs (if member s body then (body, stack) else (body ++ s ∷ [], s ∷ stack))

  unfoldable pub insert_block : B → List B → List B
  insert_block b [] = b ∷ []
  insert_block b (a ∷ body) = if o.lt a b then a ∷ insert_block b body else b ∷ a ∷ body

  -- `body.sort()`.
  unfoldable pub sort_blocks : List B → List B
  unfolding insert_block
  sort_blocks [] = []
  sort_blocks (b ∷ body) = insert_block b (sort_blocks body)

-- The suspension that a marker stands for.
abbrev pub kind_of : Option Marker → Option SuspKind
kind_of none = none
kind_of (some region_begin) = none
kind_of (some region_end) = none
kind_of (some coroutine_begin) = none
kind_of (some coroutine_end) = none
kind_of (some yield) = some SuspKind.yield
kind_of (some guarded_recv) = some SuspKind.guarded_recv
kind_of (some producing_send) = some SuspKind.producing_send

-- The arms of the `match` on a marker, in front of the points of the rest.
abbrev pub add_point {ℓ} :
    {B : Type ℓ} → B → ℕ → Option SuspKind → List (B × ℕ × SuspKind) → List (B × ℕ × SuspKind)
add_point bb idx none rest = rest
add_point bb idx (some kind) rest = (bb, idx, kind) ∷ rest

module _ {ℓ κ} {C : Type κ} {B : Type ℓ} ⦃o : Ord B⦄ (flow : Flow C B) (c : C) where
  -- The `while` loop over the stack; `none` is a loop that outlives the fuel.
  unfoldable pub search : ℕ → B → List B → List B → Option (List B)
  unfolding offer
  search fuel end body [] = some body
  search zero end body (bb ∷ stack) = none
  search (suc fuel) end body (bb ∷ stack) =
      let (body', stack') =
        if o.eq.agree bb end then (body, stack) else offer (flow.successors c bb) (body, stack) in
      search fuel end body' stack'

  -- `for idx in first..last`, from `idx` with `left` statements to go.
  unfoldable pub points_from : B → ℕ → ℕ → List (B × ℕ × SuspKind)
  points_from bb idx zero = []
  points_from bb idx (suc left) =
      add_point bb idx (kind_of (flow.classify_marker c bb idx)) (points_from bb (idx + 1) left)

  -- The statements of a block that are in the coroutine, from the first to before the last.
  abbrev pub first_of : Coroutine B → B → ℕ
  first_of k bb = if o.eq.agree bb k.begin.0 then k.begin.1 + 1 else 0

  abbrev pub last_of : Coroutine B → B → ℕ
  last_of k bb = if o.eq.agree bb k.end.0 then k.end.1 else flow.statement_count c bb

  unfoldable pub points_in : Coroutine B → List B → List (B × ℕ × SuspKind)
  unfolding points_from
  points_in k [] = []
  points_in k (bb ∷ body) =
      points_from bb (first_of k bb) (last_of k bb - first_of k bb) ++ points_in k body

  -- `find_suspension_points`.
  unfoldable pub find_suspension_points : ℕ → Coroutine B → Option (List (B × ℕ × SuspKind))
  unfolding search sort_blocks points_in
  find_suspension_points fuel k = elim (search fuel k.end.0 (k.begin.0 ∷ []) (k.begin.0 ∷ [])) [
    | none ↦ none
    | some body ↦ some (points_in k (sort_blocks body))
  ]
