-- ===== src/Runtime/Load.antt =====
-- A bound on the rounds that a scheduler of crates/krio-runtime or crates/krio-preempt can make:
-- the steps that its slots have left, each slot counted once more for the round that drops it.
use mathlib.Core.List.{Permᴰ}
use mathlib.Core.Logic.{∥∥₁_elim}
use native.Mathlib.Nat.{ℕ_set}
use krio.Base.{
  ℕ, suc, ◌+◌, ◌≤◌, ◌<◌, ◌≡◌, refl, ◌⊎◌, ap, ◌∙◌, Bool, true, List, [], ◌∷◌, Perm, arith, length,
}
use krio.Runtime.Sweep.{survivors, visits}

module _ {ℓ} {A : Type ℓ} (rank : A → ℕ) where
  unfoldable pub load : List A → ℕ
  load [] = 0
  load (x ∷ xs) = suc (rank x) + load xs

  load-Permᴰ : {xs ys : List A} → Permᴰ xs ys → load xs ≡ load ys
  unfolding load
  load-Permᴰ Permᴰ.nil = refl
  load-Permᴰ (Permᴰ.cons e p) = omega (arith, ap rank e, load-Permᴰ p)
  load-Permᴰ (Permᴰ.swap e f) = omega (arith, ap rank e, ap rank f)
  load-Permᴰ (Permᴰ.trans p q) = load-Permᴰ p ∙ load-Permᴰ q

  pub load-perm : {xs ys : List A} → Perm xs ys → load xs ≡ load ys
  load-perm p = ∥∥₁_elim p (ℕ_set _ _) load-Permᴰ

  pub load-eq-zero : (xs : List A) → load xs ≡ 0 → xs ≡ []
  unfolding load
  load-eq-zero [] e = refl
  load-eq-zero (x ∷ xs) e = absurd (omega arith)

module _ {ℓ κ} {A : Type ℓ} {W : Type κ} (rank : A → ℕ) (visit : A → W → A × Bool × W) where
  -- A visit finishes its slot or takes at least one off its rank.
  abbrev pub Advances : Type (ℓ ⊔ κ)
  Advances = (x : A) (w : W) → ((visit x w).1 ≡ true) ⊎ (rank (visit x w).0 < rank x)

  -- Each slot brings the load down by one in a round, whether it is dropped or kept.
  pub load-survivors :
      Advances
      → (xs : List A) (w : W) → load rank (survivors (visits visit xs w)) + length xs ≤ load rank xs
  unfolding load survivors visits
  load-survivors adv [] w = omega arith
  load-survivors adv (x ∷ xs) w = ground (arith, adv x w, load-survivors adv xs (visit x w).2)
