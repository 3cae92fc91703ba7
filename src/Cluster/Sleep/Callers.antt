-- ===== src/Cluster/Sleep/Callers.antt =====
-- What stays of the callers when one of them goes on.
use krio.Base.{ℕ, ◌+◌, ◌≤◌, ◌<◌, ◌≡◌, ◌≢◌, inl, inr, sym, ap, ◌∙◌, arith, Bool-cases, ◌==◌, ==_iff}
use krio.Cluster.Sleep.{Caller, absent, scanning, closing, rousing, assign}
use krio.Cluster.Sleep.Wakes.{Scans, Closes, assign_self, keep}

-- A scan that has not reached its end goes on though another has.
pub Scans-finds_none :
    (f : ℕ → Caller) (p k n : ℕ)
    → f p ≡ scanning k
    → n ≤ k
    → Scans f n
    → Scans (assign p absent f) n
Scans-finds_none f p k n e le (q, j, at, lt) = (
  q,
  j,
  keep f p q absent (scanning j) at (λ same. let h : k ≡ j = cc (e, same) in omega (arith, h)),
  lt,
)

-- The next agent of a shutdown's loop that has stored into slot `k`, for an agent that is not `k`.
pub Closes-rousing :
    (f : ℕ → Caller) (p k i : ℕ)
    → f p ≡ closing k
    → i ≢ k
    → Closes f i
    → Closes (assign p (rousing k) f) i
Closes-rousing f p k i e ne (q, j, inl (at, le)) = elim (Bool-cases (q == p)) [
  | inl same ↦
      let h : closing k ≡ closing j = sym e ∙ ap f (sym ((==_iff q p).0 same)) ∙ at in
      let kj : k ≡ j = cc h in (p, k, inr (assign_self p (rousing k) f, omega (arith, kj, le, ne)))
  | inr other ↦ (q, j, inl (rw other at, le))
]
Closes-rousing f p k i e ne (q, j, inr (at, lt)) =
    (q, j, inr (keep f p q (rousing k) (rousing j) at (λ same. cc (e, same)), lt))

pub Closes-next :
    (f : ℕ → Caller) (p k i : ℕ)
    → f p ≡ rousing k
    → Closes f i
    → Closes (assign p (closing (k + 1)) f) i
Closes-next f p k i e (q, j, inl (at, le)) =
    (q, j, inl (keep f p q (closing (k + 1)) (closing j) at (λ same. cc (e, same)), le))
Closes-next f p k i e (q, j, inr (at, lt)) = elim (Bool-cases (q == p)) [
  | inl same ↦
      let h : rousing k ≡ rousing j = sym e ∙ ap f (sym ((==_iff q p).0 same)) ∙ at in
      let kj : k ≡ j = cc h in
      (p, k + 1, inl (assign_self p (closing (k + 1)) f, omega (arith, kj, lt)))
  | inr other ↦ (q, j, inr (rw other at, lt))
]

pub Closes-absent :
    (f : ℕ → Caller) (p k n i : ℕ)
    → f p ≡ closing k
    → n ≤ k
    → i < n
    → Closes f i
    → Closes (assign p absent f) i
Closes-absent f p k n i e le lt (q, j, inl (at, before)) = (
  q,
  j,
  inl (
    keep f p q absent (closing j) at (λ same. let h : k ≡ j = cc (e, same) in omega (arith, h)),
    before,
  ),
)
Closes-absent f p k n i e le lt (q, j, inr (at, before)) =
    (q, j, inr (keep f p q absent (rousing j) at (λ same. cc (e, same)), before))
