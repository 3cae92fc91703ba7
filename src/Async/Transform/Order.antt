-- ===== src/Async/Transform/Order.antt =====
-- The sorted sites ascend: within a block, each is behind the one before it.
use native.Mathlib.Nat.{le_refl}
use krio.Base.{
  ℕ, zero, suc, ◌+◌, ◌≤◌, ◌≡◌, refl, true, false, ◌&&◌, List, [], ◌∷◌, ◌++◌, arith, All, All-append,
  ◌==◌, Bool-cases, Option-cases, inl, inr,
}
use krio.Core.{Ord}
use krio.Async.{SuspensionSite}
use krio.Async.Transform.{Host, Site, key_lt, insert_site, sort_sites, scan_block, scan}

module _ {ℓ} {B V F : Type ℓ} ⦃o : Ord B⦄ where
  -- Neighbours ascend.
  abbrev pub Ascends : List (Site B V F) → Type 0
  Ascends [] = Unit
  Ascends (x ∷ []) = Unit
  Ascends (x ∷ y ∷ ys) = (key_lt x y ≡ true) × Ascends (y ∷ ys)

  -- The sites have different keys.
  abbrev pub Apart : Site B V F → Site B V F → Type 0
  Apart (a, i, s) (b, j, t) = (o.eq.agree a b && i == j) ≡ false

  abbrev pub AllApart : List (Site B V F) → Type 0
  AllApart [] = Unit
  AllApart (x ∷ xs) = All (Apart x) xs × AllApart xs

  key_lt_total : (x y : Site B V F) → Apart x y → key_lt y x ≡ false → key_lt x y ≡ true
  key_lt_total (a, i, s) (b, j, t) apart le =
      ground (arith, o.lt_total b a, o.eq.agree_iff a b, o.eq.agree_iff b a)

  insert_site-All :
      (P : Site B V F → Type 0) (x : Site B V F) (ys : List (Site B V F))
      → P x
      → All P ys
      → All P (insert_site x ys)
  unfolding insert_site
  insert_site-All P x [] px pys = (px, tt)
  insert_site-All P x (y ∷ ys) px pys = elim (Bool-cases (key_lt y x)) [
    | inl less ↦ rw less (pys.0, insert_site-All P x ys px pys.1)
    | inr more ↦ rw more (px, pys)
  ]

  -- The first of the list is above `y`.
  abbrev Above : Site B V F → List (Site B V F) → Type 0
  Above y [] = Unit
  Above y (z ∷ zs) = key_lt y z ≡ true

  Ascends-cons : (y : Site B V F) (l : List (Site B V F)) → Above y l → Ascends l → Ascends (y ∷ l)
  Ascends-cons y [] h a = tt
  Ascends-cons y (z ∷ zs) h a = (h, a)

  Ascends-tail : (y : Site B V F) (l : List (Site B V F)) → Ascends (y ∷ l) → Above y l × Ascends l
  Ascends-tail y [] a = (tt, tt)
  Ascends-tail y (z ∷ zs) a = (a.0, a.1)

  insert_site-Above :
      (y x : Site B V F) (l : List (Site B V F))
      → key_lt y x ≡ true
      → Above y l
      → Above y (insert_site x l)
  unfolding insert_site
  insert_site-Above y x [] less h = less
  insert_site-Above y x (z ∷ zs) less h = elim (Bool-cases (key_lt z x)) [
    | inl before ↦ rw before h
    | inr behind ↦ rw behind less
  ]

  insert_site-Ascends :
      (x : Site B V F) (l : List (Site B V F))
      → All (Apart x) l
      → Ascends l
      → Ascends (insert_site x l)
  unfolding insert_site
  insert_site-Ascends x [] apart a = tt
  insert_site-Ascends x (y ∷ ys) apart a = elim (Bool-cases (key_lt y x)) [
    | inl less ↦
        let (above, rest) = Ascends-tail y ys a in
        rw less (
          Ascends-cons y (insert_site x ys) (insert_site-Above y x ys less above)
            (insert_site-Ascends x ys apart.1 rest))
    | inr more ↦ rw more (key_lt_total x y apart.0 more, a)
  ]

  sort_sites-All :
      (P : Site B V F → Type 0) (xs : List (Site B V F)) → All P xs → All P (sort_sites xs)
  unfolding sort_sites
  sort_sites-All P [] h = tt
  sort_sites-All P (x ∷ xs) h = insert_site-All P x (sort_sites xs) h.0 (sort_sites-All P xs h.1)

  -- Sorting sites with different keys makes them ascend.
  pub sort_sites-Ascends : (xs : List (Site B V F)) → AllApart xs → Ascends (sort_sites xs)
  unfolding sort_sites
  sort_sites-Ascends [] h = tt
  sort_sites-Ascends (x ∷ xs) h =
      insert_site-Ascends x (sort_sites xs) (sort_sites-All (Apart x) xs h.0)
        (sort_sites-Ascends xs h.1)

  AllApart-append :
      (xs ys : List (Site B V F))
      → AllApart xs
      → AllApart ys
      → All (λ x. All (Apart x) ys) xs
      → AllApart (xs ++ ys)
  AllApart-append [] ys hx hy across = hy
  AllApart-append (x ∷ xs) ys hx hy across =
      (All-append (Apart x) xs ys hx.0 across.0, AllApart-append xs ys hx.1 hy across.1)

-- The block ids are pairwise different.
abbrev pub DistinctBlocks {ℓ} : {B : Type ℓ} ⦃o : Ord B⦄ → List B → Type 0
DistinctBlocks [] = Unit
DistinctBlocks ⦃o⦄ (b ∷ bs) = All (λ a. o.eq.agree b a ≡ false) bs × DistinctBlocks bs

-- An implication between properties holds of all.
All-map {ℓ κ μ} :
    {A : Type ℓ} (P : A → Type κ) (Q : A → Type μ) (xs : List A)
    → ((x : A) → P x → Q x)
    → All P xs
    → All Q xs
All-map P Q [] f h = tt
All-map P Q (x ∷ xs) f h = (f x h.0, All-map P Q xs f h.1)

module _ {ℓ κ} {C : Type κ} {B V F : Type ℓ} ⦃o : Ord B⦄ (host : Host C B V F) (c : C) where
  -- A site of the block `bb`, at `idx` or behind it.
  abbrev At : B → ℕ → Site B V F → Type ℓ
  At bb idx (b, i, s) = (b ≡ bb) × (idx ≤ i)

  scan_block-At : (bb : B) (idx n : ℕ) → All (At bb idx) (scan_block host c bb idx n)
  unfolding scan_block
  scan_block-At bb idx zero = tt
  scan_block-At bb idx (suc n) =
      let rest =
        All-map (At bb (idx + 1)) (At bb idx) _ (λ x h. (h.0, omega (arith, h.1)))
          (scan_block-At bb (idx + 1) n) in
      elim (Option-cases (host.classify c bb idx)) [
        | inl e ↦ rw (e, scan_block) rest
        | inr (site, e) ↦ rw (e, scan_block) ((refl, le_refl idx), rest)
      ]

  -- The site is of another block than `bb`.
  abbrev Outside : B → Site B V F → Type 0
  Outside bb (b, i, s) = o.eq.agree bb b ≡ false

  At-Apart :
      (bb : B) (idx : ℕ) (s : SuspensionSite F V) (x : Site B V F)
      → At bb (idx + 1) x
      → Apart (bb, idx, s) x
  At-Apart bb idx s (b, i, t) h = ground (arith, h.1)

  Outside-Apart : (bb : B) (x y : Site B V F) → At bb 0 x → Outside bb y → Apart x y
  Outside-Apart bb (a, i, s) (b, j, t) here out = ground (arith, here.0)

  scan_block-AllApart : (bb : B) (idx n : ℕ) → AllApart (scan_block host c bb idx n)
  unfolding scan_block
  scan_block-AllApart bb idx zero = tt
  scan_block-AllApart bb idx (suc n) = elim (Option-cases (host.classify c bb idx)) [
    | inl e ↦ rw (e, scan_block) (scan_block-AllApart bb (idx + 1) n)
    | inr (site, e) ↦
        rw (e, scan_block)
          (
            All-map (At bb (idx + 1)) (Apart (bb, idx, site)) _ (At-Apart bb idx site)
                (scan_block-At bb (idx + 1) n),
            scan_block-AllApart bb (idx + 1) n,
          )
  ]

  scan-Outside :
      (bb : B) (blocks : List B)
      → All (λ a. o.eq.agree bb a ≡ false) blocks
      → All (Outside bb) (scan host c blocks)
  unfolding scan
  scan-Outside bb [] h = tt
  scan-Outside bb (a ∷ blocks) h =
      All-append (Outside bb) (scan_block host c a 0 (host.statement_count c a))
        (scan host c blocks)
        (All-map (At a 0) (Outside bb) _ (λ x e. other x e.0) (scan_block-At a 0 _))
        (scan-Outside bb blocks h.1)
    where
      other : (x : Site B V F) → x.0 ≡ a → Outside bb x
      other (b, i, s) e = rw e h.0

  -- The sites of different blocks, and of different statements of one block, have different keys.
  pub scan-AllApart : (blocks : List B) → DistinctBlocks blocks → AllApart (scan host c blocks)
  unfolding scan
  scan-AllApart [] h = tt
  scan-AllApart (bb ∷ blocks) h =
      AllApart-append (scan_block host c bb 0 (host.statement_count c bb)) (scan host c blocks)
        (scan_block-AllApart bb 0 _) (scan-AllApart blocks h.1)
        (All-map (At bb 0) (λ x. All (Apart x) (scan host c blocks)) _
          (λ x here.
            All-map (Outside bb) (Apart x) _ (λ y out. Outside-Apart bb x y here out)
              (scan-Outside bb blocks h.0))
          (scan_block-At bb 0 _))
