-- ===== src/Runtime/Sweep.antt =====
-- The shape of a scheduling round in crates/krio-runtime/src/lib.rs and
-- crates/krio-preempt/src/lib.rs: visit every slot in place, note the indices of those that are
-- done, then `swap_remove` these from the highest down.
use mathlib.Core.List.Perm
use mathlib.Core.List.{
  perm_append_singleton, append_assoc, reverse-append, reverse-cons, append-nil, map-append,
  reverse-reverse,
}
use krio.Base.{
  ℕ, suc, ◌+◌, ◌≡◌, refl, sym, ap, subst, ◌∙◌, Bool, true, false, Option, none, some, List, [], ◌∷◌,
  ◌++◌, map, reverse, Perm, arith, length, set, ltb, ◌==◌, if◌then◌else◌, length-append, set-append,
  snoc_view,
}

module _ {ℓ} {A : Type ℓ} where
  -- All but the last element, and the last; `none` for an empty vector.
  pub pop_back : List A → Option (List A × A)
  pop_back [] = none
  pop_back (x ∷ xs) =
      some (elim (pop_back xs) [ none ↦ ([], x) | some (ys, last) ↦ (x ∷ ys, last) ])

  -- `Vec::swap_remove`: the last element takes the place of the one removed. `none` is the panic on
  -- an index out of bounds.
  unfoldable pub swap_remove : ℕ → List A → Option (List A)
  unfolding pop_back
  swap_remove i xs = elim (pop_back xs) [
    | none ↦ none
    | some (ys, last) ↦
        if i == length ys then some ys else if ltb i (length ys) then some (set ys i last) else none
  ]

  -- `for &i in order { v.swap_remove(i); }`
  unfoldable pub remove_all : List ℕ → List A → Option (List A)
  remove_all [] xs = some xs
  remove_all (i ∷ is) xs = elim (swap_remove i xs) [ none ↦ none | some ys ↦ remove_all is ys ]

  -- The indices, counted from `i`, of the visited slots that are done.
  pub done_indices : ℕ → List (A × Bool) → List ℕ
  done_indices i [] = []
  done_indices i ((a, done) ∷ vs) =
      let rest = done_indices (i + 1) vs in if done then i ∷ rest else rest

  abbrev pub slots : List (A × Bool) → List A
  slots = map (λ v. v.0)

  -- The slots that a round keeps, in the order of the visits.
  unfoldable pub survivors : List (A × Bool) → List A
  survivors [] = []
  survivors ((a, done) ∷ vs) = let rest = survivors vs in if done then rest else a ∷ rest

module _ {ℓ κ} {A : Type ℓ} {W : Type κ} (visit : A → W → A × Bool × W) where
  -- `for (i, slot) in v.iter_mut().enumerate() { if .. { to_remove.push(i) } }`: the slots after
  -- their visits, the indices noted, and the world afterwards.
  unfoldable pub sweep : ℕ → List A → W → List A × List ℕ × W
  sweep i [] w = ([], [], w)
  sweep i (x ∷ xs) w =
      let (x', done, w') = visit x w in
      let (xs', noted, w'') = sweep (i + 1) xs w' in
      (x' ∷ xs', if done then i ∷ noted else noted, w'')

  -- What the visits of one round give, in order.
  unfoldable pub visits : List A → W → List (A × Bool)
  visits [] w = []
  visits (x ∷ xs) w = let (x', done, w') = visit x w in (x', done) ∷ visits xs w'

  -- The world that one round of visits leaves.
  unfoldable pub visited_world : List A → W → W
  visited_world [] w = w
  visited_world (x ∷ xs) w = let (x', done, w') = visit x w in visited_world xs w'

  pub sweep-visits :
      (i : ℕ) (xs : List A) (w : W)
      → sweep i xs w ≡ (slots (visits xs w), done_indices i (visits xs w), visited_world xs w)
  unfolding sweep visits visited_world done_indices
  sweep-visits i [] w = refl
  sweep-visits i (x ∷ xs) w = rw (sweep-visits (i + 1) xs (visit x w).2)

module _ {ℓ} {A : Type ℓ} where
  pub pop_back-snoc : (xs : List A) (x : A) → pop_back (xs ++ x ∷ []) ≡ some (xs, x)
  unfolding pop_back
  pop_back-snoc [] x = refl
  pop_back-snoc (y ∷ xs) x = rw (pop_back-snoc xs x)

  swap_remove-middle :
      (pre : List A) (x : A) (post : List A)
      → (out : List A) × (swap_remove (length pre) (pre ++ x ∷ post) ≡ some (pre ++ out))
        × Perm out post
  unfolding swap_remove
  swap_remove-middle pre x [] =
      ([], rw (pop_back-snoc pre x, swap_remove, append-nil) (ground arith), Perm.rfl)
  swap_remove-middle pre x (y ∷ post) =
      let (ys, z, e) = snoc_view y post in
      (z ∷ ys, at_last ys z e, rw e (Perm.symm (perm_append_singleton z ys)))
    where
      at_last :
          (ys : List A) (z : A)
          → y ∷ post ≡ ys ++ z ∷ []
          → swap_remove (length pre) (pre ++ x ∷ y ∷ post) ≡ some (pre ++ z ∷ ys)
      at_last ys z e =
          rw (e, ← append_assoc pre (x ∷ ys) (z ∷ []), pop_back-snoc (pre ++ x ∷ ys) z, swap_remove)
            (ground (arith, set-append pre x z ys, length-append pre (x ∷ ys)))

  done_indices-snoc :
      (i : ℕ) (vs : List (A × Bool)) (a : A) (done : Bool)
      → done_indices i (vs ++ (a, done) ∷ [])
        ≡ done_indices i vs ++ (if done then (i + length vs) ∷ [] else [])
  unfolding done_indices
  done_indices-snoc i [] a true = ap (λ j. j ∷ []) (omega arith)
  done_indices-snoc i [] a false = refl
  done_indices-snoc i ((b, d) ∷ vs) a done = ground (arith, done_indices-snoc (i + 1) vs a done)

  survivors-snoc :
      (vs : List (A × Bool)) (a : A) (done : Bool)
      → survivors (vs ++ (a, done) ∷ []) ≡ survivors vs ++ (if done then [] else a ∷ [])
  unfolding survivors
  survivors-snoc [] a done = ground arith
  survivors-snoc ((b, d) ∷ vs) a done = ground (arith, survivors-snoc vs a done)

  length-slots : (vs : List (A × Bool)) → length (slots vs) ≡ length vs
  length-slots [] = refl
  length-slots (v ∷ vs) = ap suc (length-slots vs)

  -- Removing one done slot in the middle.
  remove_all-cons :
      (pre : List A) (n : ℕ) (a : A) (is : List ℕ) (post : List A)
      → length pre ≡ n
      → (out : List A) × (remove_all (n ∷ is) (pre ++ a ∷ post) ≡ remove_all is (pre ++ out))
        × Perm out post
  unfolding remove_all
  remove_all-cons pre n a is post e =
      let (out, removed, p) = swap_remove-middle pre a post in
      (out, rw (← e, removed, remove_all), p)

  -- Removing what is noted of `vs`, with `post` behind it, succeeds and keeps the survivors.
  abbrev Removes : List (A × Bool) → List A → Type ℓ
  Removes vs post =
      (out : List A) × (remove_all (reverse (done_indices 0 vs)) (slots vs ++ post) ≡ some out)
      × Perm out (survivors vs ++ post)

  Removes-snoc :
      (vs : List (A × Bool)) (a : A) (done : Bool)
      → ((post : List A) → Removes vs post)
      → (post : List A) → Removes (vs ++ (a, done) ∷ []) post
  Removes-snoc vs a false ih post =
      rw
        (
          done_indices-snoc 0 vs a false,
          survivors-snoc vs a false,
          map-append,
          append-nil,
          append_assoc,
          append_assoc,
        )
        (ih (a ∷ post))
  Removes-snoc vs a true ih post =
      let (mid, step, p) =
        remove_all-cons (slots vs) (0 + length vs) a (reverse (done_indices 0 vs)) post
          (omega (arith, length-slots vs)) in
      let (out, rest, q) = ih mid in
      (
        out,
        rw
            (
              done_indices-snoc 0 vs a true,
              reverse-append (done_indices 0 vs) _,
              map-append,
              append_assoc,
            )
            (step ∙ rest),
        rw (survivors-snoc vs a true, append-nil) (Perm.trans q (Perm.append_left _ p)),
      )

  remove_all-Removes : (rv : List (A × Bool)) (post : List A) → Removes (reverse rv) post
  unfolding remove_all survivors done_indices
  remove_all-Removes [] post = (post, refl, Perm.rfl)
  remove_all-Removes ((a, done) ∷ rv) post =
      subst (λ vs. Removes vs post) (sym (reverse-cons (a, done) rv))
        (Removes-snoc (reverse rv) a done (remove_all-Removes rv) post)

  -- Removing the noted indices from the highest down never panics, and keeps the slots that are not
  -- done, in some order.
  pub remove_all-survivors :
      (vs : List (A × Bool))
      → (out : List A) × (remove_all (reverse (done_indices 0 vs)) (slots vs) ≡ some out)
        × Perm out (survivors vs)
  remove_all-survivors vs =
      let (out, e, p) =
        subst (λ l. Removes l []) (reverse-reverse vs) (remove_all-Removes (reverse vs) []) in
      (out, rw append-nil at e, rw append-nil at p)
