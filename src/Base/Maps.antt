-- ===== src/Base/Maps.antt =====
-- Maps and sets with u64 keys, as lists: what the code uses of `BTreeMap` and `BTreeSet`. No
-- operation of the code shows the order of the keys.
use Prim.Native.Nat.{ℕ}
use mathlib.Core.Path.{◌≡◌, refl, ap, ◌∙◌}
use mathlib.Core.Bool.{Bool, false, ◌||◌}
use mathlib.Core.List.{List, [], ◌∷◌}
use mathlib.Core.Option.{Option, none, some}
use native.Mathlib.Omega.{arith}
use krio.Base.Tests.{◌==◌, ltb, if◌then◌else◌}

module _ {ℓ} {V : Type ℓ} where
  unfoldable pub lookup : ℕ → List (ℕ × V) → Option V
  lookup k [] = none
  lookup k ((j, v) ∷ m) = if j == k then some v else lookup k m

  -- A value under the key is replaced.
  unfoldable pub insert : ℕ → V → List (ℕ × V) → List (ℕ × V)
  insert k v [] = (k, v) ∷ []
  insert k v ((j, w) ∷ m) = if j == k then (k, v) ∷ m else (j, w) ∷ insert k v m

  -- Every entry under the key goes.
  unfoldable pub remove : ℕ → List (ℕ × V) → List (ℕ × V)
  remove k [] = []
  remove k ((j, w) ∷ m) = let rest = remove k m in if j == k then rest else (j, w) ∷ rest

  pub lookup-insert :
      (key other : ℕ) (new : V) (entries : List (ℕ × V))
      → lookup other (insert key new entries)
        ≡ (if key == other then some new else lookup other entries)
  unfolding lookup insert
  lookup-insert key other new [] = refl
  lookup-insert key other new ((here, old) ∷ entries) =
      ground (arith, lookup-insert key other new entries)

  pub lookup-remove :
      (key other : ℕ) (entries : List (ℕ × V))
      → lookup other (remove key entries) ≡ (if key == other then none else lookup other entries)
  unfolding lookup remove
  lookup-remove key other [] = ground arith
  lookup-remove key other ((here, old) ∷ entries) = ground (arith, lookup-remove key other entries)

-- Sets of keys.
unfoldable pub contains : ℕ → List ℕ → Bool
contains k [] = false
contains k (j ∷ s) = j == k || contains k s

unfoldable pub discard : ℕ → List ℕ → List ℕ
discard k [] = []
discard k (j ∷ s) = let rest = discard k s in if j == k then rest else j ∷ rest

-- A key that is there already is not put in again.
unfoldable pub include : ℕ → List ℕ → List ℕ
unfolding contains
include k s = if contains k s then s else k ∷ s

pub contains-include : (k j : ℕ) (s : List ℕ) → contains j (include k s) ≡ (k == j || contains j s)
unfolding contains include
contains-include k j s = ground arith

pub contains-discard :
    (k j : ℕ) (s : List ℕ) → contains j (discard k s) ≡ (if k == j then false else contains j s)
unfolding contains discard
contains-discard k j [] = ground arith
contains-discard k j (i ∷ s) = ground (arith, contains-discard k j s)

-- The keys of a `BTreeMap`, ascending and without repetition.
unfoldable pub insert_sorted : ℕ → List ℕ → List ℕ
insert_sorted k [] = k ∷ []
insert_sorted k (j ∷ s) =
    if k == j then j ∷ s else if ltb k j then k ∷ j ∷ s else j ∷ insert_sorted k s

unfoldable pub sorted_keys : List ℕ → List ℕ
sorted_keys [] = []
sorted_keys (k ∷ ks) = insert_sorted k (sorted_keys ks)

contains-insert_sorted :
    (k j : ℕ) (s : List ℕ) → contains j (insert_sorted k s) ≡ (k == j || contains j s)
unfolding contains insert_sorted
contains-insert_sorted k j [] = refl
contains-insert_sorted k j (i ∷ s) = ground (arith, contains-insert_sorted k j s)

pub contains-sorted_keys : (j : ℕ) (ks : List ℕ) → contains j (sorted_keys ks) ≡ contains j ks
unfolding contains sorted_keys
contains-sorted_keys j [] = refl
contains-sorted_keys j (k ∷ ks) =
    contains-insert_sorted k j (sorted_keys ks) ∙ ap (λ b. k == j || b) (contains-sorted_keys j ks)
