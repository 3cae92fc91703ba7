-- ===== src/Injector.antt =====
-- crates/krio-parallel/src/injector.rs: the overflow queue of a cluster, oldest first. Each operation
-- runs under the spin lock, so that it is one step here.
use krio.Base.{Bool, true, false, Option, none, some, List, [], ◌∷◌, ◌++◌}

module _ {ℓ} {T : Type ℓ} where
  -- `Injector::new`.
  abbrev pub new : List T
  new = []

  -- `push`.
  abbrev pub push : List T → T → List T
  push queue value = queue ++ value ∷ []

  -- `pop`.
  abbrev pub pop : List T → Option T × List T
  pop [] = (none, [])
  pop (value ∷ queue) = (some value, queue)

  -- `is_empty`.
  abbrev pub is_empty : List T → Bool
  is_empty [] = true
  is_empty (value ∷ queue) = false
