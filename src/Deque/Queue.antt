-- ===== src/Deque/Queue.antt =====
-- What a deque promises: a bounded list, oldest first, from which the owner takes the last element
-- and a thief the first.
use krio.Base.{ℕ, Option, none, some, List, [], ◌∷◌, ◌++◌, length, ltb, if◌then◌else◌}
use krio.Deque.{Pushed, stored, full}

module _ {ℓ} {T : Type ℓ} where
  unfoldable pub push : ℕ → List T → T → Pushed T × List T
  push cap xs v = if ltb (length xs) cap then (stored, xs ++ v ∷ []) else (full v, xs)

  -- All but the last element, and the last.
  unfoldable pub pop : List T → Option T × List T
  pop [] = (none, [])
  pop (x ∷ []) = (some x, [])
  pop (x ∷ y ∷ xs) = let (v, rest) = pop (y ∷ xs) in (v, x ∷ rest)

  unfoldable pub steal : List T → Option T × List T
  steal [] = (none, [])
  steal (x ∷ xs) = (some x, xs)
