-- ===== src/Stackless/Executor/Priority/Bands.antt =====
-- The bands of `build_priority_loop`: every coroutine once, by priority and then in order.
use mathlib.Core.List.Perm
use mathlib.Core.List.{append_assoc, append-nil}
use krio.Base.{
  ℕ, ◌≡◌, refl, ap, sym, subst, ◌∙◌, Bool, true, false, inl, inr, List, [], ◌∷◌, ◌++◌, map, Perm,
  arith, All, All-append, Bool-cases,
}
use krio.Stackless.{Coroutine}
use krio.Stackless.Body.{ids_from}
use krio.Stackless.Executor.Priority.{
  same_priority, priority_at, key_lt, insert_index, sort_indices, push_band, push_bands, bands_of,
}
use krio.Stackless.Executor.Priority.Order.{Below, InOrder, keys-InOrder, priority_at-Below}

-- The members of the bands, one band after the other.
abbrev pub concat : List (List ℕ) → List ℕ
concat [] = []
concat (band ∷ bands) = band ++ concat bands

module _ (coroutines : List (Coroutine ℕ)) where
  -- No index comes after one that the sort's keys put behind it.
  abbrev KeySorted : List ℕ → Type 0
  KeySorted [] = Unit
  KeySorted (i ∷ order) = All (λ j. key_lt coroutines j i ≡ false) order × KeySorted order

  key_lt_asymm : (i j : ℕ) → key_lt coroutines i j ≡ true → key_lt coroutines j i ≡ false
  key_lt_asymm i j h = ground (arith, h)

  key_lt_trans :
      (i j k : ℕ)
      → key_lt coroutines k j ≡ false
      → key_lt coroutines j i ≡ false
      → key_lt coroutines k i ≡ false
  key_lt_trans i j k h h' = ground (arith, h, h')

  All-key_lt :
      (i j : ℕ) (order : List ℕ)
      → key_lt coroutines j i ≡ false
      → All (λ k. key_lt coroutines k j ≡ false) order
      → All (λ k. key_lt coroutines k i ≡ false) order
  All-key_lt i j [] h all = tt
  All-key_lt i j (k ∷ order) h (here, behind) =
      (key_lt_trans i j k here h, All-key_lt i j order h behind)

  insert_index-All {κ} :
      (Q : ℕ → Type κ) (i : ℕ) (order : List ℕ)
      → Q i
      → All Q order
      → All Q (insert_index coroutines i order)
  unfolding insert_index
  insert_index-All Q i [] q all = (q, all)
  insert_index-All Q i (j ∷ order) q (here, behind) = elim (Bool-cases (key_lt coroutines j i)) [
    | inl lt ↦ rw (lt, insert_index) (here, insert_index-All Q i order q behind)
    | inr ge ↦ rw (ge, insert_index) (q, (here, behind))
  ]

  insert_index-KeySorted :
      (i : ℕ) (order : List ℕ) → KeySorted order → KeySorted (insert_index coroutines i order)
  unfolding insert_index
  insert_index-KeySorted i [] s = (tt, tt)
  insert_index-KeySorted i (j ∷ order) (here, s) = elim (Bool-cases (key_lt coroutines j i)) [
    | inl lt ↦
        rw (lt, insert_index)
          (
            insert_index-All (λ k. key_lt coroutines k j ≡ false) i order (key_lt_asymm j i lt)
                here,
            insert_index-KeySorted i order s,
          )
    | inr ge ↦ rw (ge, insert_index) ((ge, All-key_lt i j order ge here), (here, s))
  ]

  insert_index-Perm : (i : ℕ) (order : List ℕ) → Perm (insert_index coroutines i order) (i ∷ order)
  unfolding insert_index
  insert_index-Perm i [] = Perm.rfl
  insert_index-Perm i (j ∷ order) = elim (Bool-cases (key_lt coroutines j i)) [
    | inl lt ↦
        rw (lt, insert_index)
          (Perm.trans (Perm.cons j (insert_index-Perm i order)) (Perm.swap i j order))
    | inr ge ↦ rw (ge, insert_index) Perm.rfl
  ]

  sort_indices-KeySorted : (order : List ℕ) → KeySorted (sort_indices coroutines order)
  unfolding sort_indices
  sort_indices-KeySorted [] = tt
  sort_indices-KeySorted (i ∷ order) =
      insert_index-KeySorted i (sort_indices coroutines order) (sort_indices-KeySorted order)

  sort_indices-Perm : (order : List ℕ) → Perm (sort_indices coroutines order) order
  unfolding sort_indices
  sort_indices-Perm [] = Perm.rfl
  sort_indices-Perm (i ∷ order) =
      Perm.trans (insert_index-Perm i (sort_indices coroutines order))
        (Perm.cons i (sort_indices-Perm order))

  members : List (ℕ × List ℕ) → List ℕ
  members [] = []
  members ((first, rest) ∷ bands) = first ∷ (rest ++ members bands)

  push_band-members :
      (bands : List (ℕ × List ℕ)) (i : ℕ)
      → members (push_band coroutines bands i) ≡ members bands ++ i ∷ []
  unfolding push_band members
  push_band-members [] i = refl
  push_band-members ((first, rest) ∷ []) i =
      elim (Bool-cases (same_priority (priority_at coroutines first) (priority_at coroutines i))) [
        | inl same ↦ rw (same, push_band, append-nil, append-nil) refl
        | inr other ↦
            rw (other, push_band) (ap (λ is. first ∷ (is ++ i ∷ [])) (sym (append-nil rest)))
      ]
  push_band-members ((first, rest) ∷ next ∷ bands) i =
      ap (λ is. first ∷ (rest ++ is)) (push_band-members (next ∷ bands) i)
      ∙ ap (λ is. first ∷ is) (sym (append_assoc rest (members (next ∷ bands)) (i ∷ [])))

  push_bands-members :
      (bands : List (ℕ × List ℕ)) (order : List ℕ)
      → members (push_bands coroutines bands order) ≡ members bands ++ order
  unfolding push_bands
  push_bands-members bands [] = sym (append-nil (members bands))
  push_bands-members bands (i ∷ order) =
      push_bands-members (push_band coroutines bands i) order
      ∙ ap (λ is. is ++ order) (push_band-members bands i)
      ∙ append_assoc (members bands) (i ∷ []) order

  -- Two coroutines have one priority, or none.
  abbrev pub same_at : ℕ → ℕ → Bool
  same_at i j = same_priority (priority_at coroutines i) (priority_at coroutines j)

  abbrev Differs : ℕ → List (ℕ × List ℕ) → Type 0
  Differs first [] = Unit
  Differs first ((next, rest) ∷ bands) = same_at first next ≡ false

  abbrev Bands : List (ℕ × List ℕ) → Type 0
  Bands [] = Unit
  Bands ((first, rest) ∷ bands) =
      All (λ i. same_at first i ≡ true) rest × Differs first bands × Bands bands

  push_band-Differs :
      (first i : ℕ) (next : ℕ × List ℕ) (bands : List (ℕ × List ℕ))
      → Differs first (next ∷ bands)
      → Differs first (push_band coroutines (next ∷ bands) i)
  unfolding push_band
  push_band-Differs first i (second, rest) [] h = elim (Bool-cases (same_at second i)) [
    | inl same ↦ rw (same, push_band) h
    | inr other ↦ rw (other, push_band) h
  ]
  push_band-Differs first i (second, rest) (third ∷ bands) h = h

  push_band-Bands :
      (bands : List (ℕ × List ℕ)) (i : ℕ) → Bands bands → Bands (push_band coroutines bands i)
  unfolding push_band
  push_band-Bands [] i h = (tt, tt, tt)
  push_band-Bands ((first, rest) ∷ []) i h = elim (Bool-cases (same_at first i)) [
    | inl same ↦
        rw (same, push_band)
          (All-append (λ j. same_at first j ≡ true) rest (i ∷ []) h.0 (same, tt), tt, tt)
    | inr other ↦ rw (other, push_band) (h.0, other, (tt, tt, tt))
  ]
  push_band-Bands ((first, rest) ∷ next ∷ bands) i (alike, differs, behind) =
      (alike, push_band-Differs first i next bands differs, push_band-Bands (next ∷ bands) i behind)

  push_bands-Bands :
      (bands : List (ℕ × List ℕ)) (order : List ℕ)
      → Bands bands
      → Bands (push_bands coroutines bands order)
  unfolding push_bands
  push_bands-Bands bands [] h = h
  push_bands-Bands bands (i ∷ order) h =
      push_bands-Bands (push_band coroutines bands i) order (push_band-Bands bands i h)

  -- A band has a member, and all its members have one priority.
  abbrev pub OnePriority : List ℕ → Type 0
  OnePriority [] = ⊥
  OnePriority (first ∷ rest) = All (λ i. same_at first i ≡ true) rest

  -- The band in front, if there is one, starts with another priority.
  abbrev pub NextDiffers : List ℕ → List (List ℕ) → Type 0
  NextDiffers [] bands = ⊥
  NextDiffers (first ∷ rest) [] = Unit
  NextDiffers (first ∷ rest) ([] ∷ bands) = ⊥
  NextDiffers (first ∷ rest) ((next ∷ others) ∷ bands) = same_at first next ≡ false

  abbrev pub Banded : List (List ℕ) → Type 0
  Banded [] = Unit
  Banded (band ∷ bands) = OnePriority band × NextDiffers band bands × Banded bands

  Bands-Banded :
      (bands : List (ℕ × List ℕ)) → Bands bands → Banded (map (λ (first, rest). first ∷ rest) bands)
  Bands-Banded [] h = tt
  Bands-Banded ((first, rest) ∷ []) (alike, differs, behind) = (alike, tt, tt)
  Bands-Banded ((first, rest) ∷ next ∷ bands) (alike, differs, behind) =
      (alike, differs, Bands-Banded (next ∷ bands) behind)

  concat-members :
      (bands : List (ℕ × List ℕ))
      → concat (map (λ (first, rest). first ∷ rest) bands) ≡ members bands
  unfolding members
  concat-members [] = refl
  concat-members ((first, rest) ∷ bands) = ap (λ is. first ∷ (rest ++ is)) (concat-members bands)

  concat-bands_of :
      (n : ℕ) → concat (bands_of coroutines n) ≡ sort_indices coroutines (ids_from 0 n)
  unfolding bands_of members
  concat-bands_of n =
      concat-members (push_bands coroutines [] (sort_indices coroutines (ids_from 0 n)))
      ∙ push_bands-members [] (sort_indices coroutines (ids_from 0 n))

  -- Whatever stands behind a member may run after it.
  abbrev pub Sorted : List ℕ → Type 0
  Sorted [] = Unit
  Sorted (i ∷ order) =
      All (λ j. InOrder (priority_at coroutines i) (priority_at coroutines j) i j) order
      × Sorted order

  All-InOrder :
      (i : ℕ) (order : List ℕ)
      → All (λ k. Below k.priority) coroutines
      → All (λ j. key_lt coroutines j i ≡ false) order
      → All (λ j. InOrder (priority_at coroutines i) (priority_at coroutines j) i j) order
  All-InOrder i [] small all = tt
  All-InOrder i (j ∷ order) small (here, behind) = (
    keys-InOrder (priority_at coroutines i) (priority_at coroutines j) i j
        (priority_at-Below coroutines i small) (priority_at-Below coroutines j small) here,
    All-InOrder i order small behind,
  )

  KeySorted-Sorted :
      (order : List ℕ) → All (λ k. Below k.priority) coroutines → KeySorted order → Sorted order
  KeySorted-Sorted [] small s = tt
  KeySorted-Sorted (i ∷ order) small (here, s) =
      (All-InOrder i order small here, KeySorted-Sorted order small s)

  -- If no coroutine has the largest priority of a u32, the bands of n coroutines hold each of 0 to
  -- n - 1 once: the smaller priority first, those without one after all that have one, and by index
  -- where it is equal. A band has a member, all its members have one priority, or all none, and
  -- the next band starts with another.
  pub bands_of-Banded :
      (n : ℕ)
      → All (λ k. Below k.priority) coroutines
      → Perm (concat (bands_of coroutines n)) (ids_from 0 n)
        × Sorted (concat (bands_of coroutines n))
        × Banded (bands_of coroutines n)
  unfolding bands_of
  bands_of-Banded n small = (
    subst (λ is. Perm is (ids_from 0 n)) (sym (concat-bands_of n))
        (sort_indices-Perm (ids_from 0 n)),
    subst Sorted (sym (concat-bands_of n))
        (KeySorted-Sorted _ small (sort_indices-KeySorted (ids_from 0 n))),
    Bands-Banded (push_bands coroutines [] (sort_indices coroutines (ids_from 0 n)))
        (push_bands-Bands [] (sort_indices coroutines (ids_from 0 n)) tt),
  )
