-- ===== src/Stackless/Points/Marks.antt =====
-- Which suspensions `find_suspension_points` finds.
use krio.Base.{ℕ, ◌≡◌, some, List}
use krio.Core.{Ord}
use krio.Stackless.{Flow, SuspKind}
use krio.Stackless.Points.{kind_of}

module _ {ℓ κ} {C : Type κ} {B : Type ℓ} ⦃o : Ord B⦄ (flow : Flow C B) (c : C) where
  -- A suspension of this kind is at the place.
  abbrev Marked : B → ℕ → SuspKind → Type 0
  Marked bb idx kind = kind_of (flow.classify_marker c bb idx) ≡ some kind
