-- ===== src/Fiber/Machine/Layout.antt =====
-- Frames of saved registers: which register stands where, and what a load finds in a frame.
use krio.Base.{
  ℕ, ◌+◌, ◌%◌, ◌^◌, ◌≤◌, ◌<◌, ◌≡◌, ◌⊎◌, refl, ap, ◌∙◌, arith, leb, ◌==◌, if◌then◌else◌, Bool,
  Bool-cases, inl, inr, true, ◌&&◌, ◌||◌, List, [], ◌∷◌, All,
}
use krio.Fiber.Machine.{Mem, store, load}
use krio.Fiber.Machine.Bytes.{store_other, load-store_other, load-store_self}

pub record Saved : Type 0 where
  pub reg : ℕ
  pub width : ℕ
  pub off : ℕ

abbrev pub saved : ℕ → ℕ → ℕ → Saved
saved w r o = record { reg = r; width = w; off = o }

pub All-map₂ {ℓ κ} :
    {P Q : Saved → Type ℓ} {R : Saved → Type κ} (l : List Saved)
    → ((e : Saved) → P e → Q e → R e)
    → All P l
    → All Q l
    → All R l
All-map₂ [] f ps qs = tt
All-map₂ (e ∷ l) f ps qs = (f e ps.0 qs.0, All-map₂ l f ps.1 qs.1)

-- The registers of a layout are stored into the frame at `b`, in order.
abbrev pub put : List Saved → ℕ → (ℕ → ℕ) → Mem → Mem
put [] b f m = m
put (e ∷ l) b f m = put l b f (store e.width (b + e.off) (f e.reg) m)

abbrev pub apart : Saved → List Saved → Bool
apart e [] = true
apart e (d ∷ l) = (leb (e.off + e.width) d.off || leb (d.off + d.width) e.off) && apart e l

-- No two slots overlap, and none ends behind `n`.
abbrev pub disjoint : List Saved → Bool
disjoint [] = true
disjoint (e ∷ l) = apart e l && disjoint l

abbrev pub within : ℕ → List Saved → Bool
within n [] = true
within n (e ∷ l) = leb (e.off + e.width) n && within n l

pub All-within : (n : ℕ) (l : List Saved) → within n l ≡ true → All (λ e. e.off + e.width ≤ n) l
All-within n [] h = tt
All-within n (e ∷ l) h = (ground arith, All-within n l (ground arith))

-- What a load finds behind the stores of a layout, each into the slot of the load or apart from it.
abbrev pub same : Saved → Saved → Bool
same d e = d.off == e.off && d.width == e.width

abbrev pub consistent : List Saved → Saved → Bool
consistent [] e = true
consistent (d ∷ l) e = (same d e || apart e (d ∷ [])) && consistent l e

abbrev pub agrees : List Saved → List Saved → Bool
agrees w [] = true
agrees w (e ∷ l) = consistent w e && agrees w l

abbrev pub fetch : List Saved → (ℕ → ℕ) → Saved → ℕ → ℕ
fetch [] f e v = v
fetch (d ∷ l) f e v = fetch l f e (if same d e then f d.reg % 256 ^ d.width else v)

module _ (b : ℕ) (f : ℕ → ℕ) where
  pub put_other :
      (n : ℕ) (l : List Saved) (m : Mem) (x : ℕ)
      → within n l ≡ true
      → (x < b) ⊎ (b + n ≤ x)
      → put l b f m x ≡ m x
  put_other n [] m x h k = refl
  put_other n (e ∷ l) m x h k =
      put_other n l (store e.width (b + e.off) (f e.reg) m) x (ground arith) k
      ∙ store_other e.width (b + e.off) (f e.reg) m x (ground arith)

  load-put_apart :
      (e : Saved) (l : List Saved) (m : Mem)
      → apart e l ≡ true
      → load e.width (b + e.off) (put l b f m) ≡ load e.width (b + e.off) m
  load-put_apart e [] m h = refl
  load-put_apart e (d ∷ l) m h =
      load-put_apart e l (store d.width (b + d.off) (f d.reg) m) (ground arith)
      ∙ load-store_other e.width (b + e.off) d.width (b + d.off) (f d.reg) m (ground arith)

  pub load-put :
      (l : List Saved) (m : Mem)
      → disjoint l ≡ true
      → All (λ e. load e.width (b + e.off) (put l b f m) ≡ f e.reg % 256 ^ e.width) l
  load-put [] m h = tt
  load-put (e ∷ l) m h = (
    load-put_apart e l (store e.width (b + e.off) (f e.reg) m) (ground arith)
        ∙ load-store_self e.width (b + e.off) (f e.reg) m,
    load-put l (store e.width (b + e.off) (f e.reg) m) (ground arith),
  )

  load-store_equal :
      (d e : Saved) (m : Mem)
      → d.off ≡ e.off
      → d.width ≡ e.width
      → load e.width (b + e.off) (store d.width (b + d.off) (f d.reg) m) ≡ f d.reg % 256 ^ d.width
  load-store_equal d e m o w = rw (← o, ← w) (load-store_self d.width (b + d.off) (f d.reg) m)

  load-store_same :
      (d e : Saved) (m : Mem)
      → (same d e || apart e (d ∷ [])) ≡ true
      → load e.width (b + e.off) (store d.width (b + d.off) (f d.reg) m)
        ≡ (if same d e then f d.reg % 256 ^ d.width else load e.width (b + e.off) m)
  load-store_same d e m h = elim (Bool-cases (same d e)) [
    | inl equal ↦ rw equal (load-store_equal d e m (ground arith) (ground arith))
    | inr differ ↦
        rw differ
          (load-store_other e.width (b + e.off) d.width (b + d.off) (f d.reg) m (ground arith))
  ]

  pub load-put-fetch :
      (l : List Saved) (e : Saved) (m : Mem)
      → consistent l e ≡ true
      → load e.width (b + e.off) (put l b f m) ≡ fetch l f e (load e.width (b + e.off) m)
  load-put-fetch [] e m h = refl
  load-put-fetch (d ∷ l) e m h =
      load-put-fetch l e (store d.width (b + d.off) (f d.reg) m) (ground arith)
      ∙ ap (fetch l f e) (load-store_same d e m (ground arith))

  pub loads-put-fetch :
      (w l : List Saved) (m : Mem)
      → agrees w l ≡ true
      → All
          (λ e. load e.width (b + e.off) (put w b f m) ≡ fetch w f e (load e.width (b + e.off) m))
          l
  loads-put-fetch w [] m h = tt
  loads-put-fetch w (e ∷ l) m h =
      (load-put-fetch w e m (ground arith), loads-put-fetch w l m (ground arith))
