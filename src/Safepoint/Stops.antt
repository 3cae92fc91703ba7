-- ===== src/Safepoint/Stops.antt =====
-- A stop is granted once, until it is released.
use krio.Base.{ℕ, ◌+◌, ◌%◌, ◌^◌, ◌≡◌, refl, ap, ◌∙◌, true, false, not, arith, Bool-cases, inl, inr}
use krio.Words.{bit_and-mask}
use krio.Safepoint.{Safepoint, pending, requested, request, release}

pending_flips : (n : ℕ) → pending ((n + 1) % 2 ^ 32) ≡ not (pending n)
pending_flips n = ground (arith, bit_and-mask 1 n, bit_and-mask 1 ((n + 1) % 2 ^ 32))

-- A request is granted exactly if no stop is pending, and a stop is pending behind it in any case;
-- behind a release none is. Without a pending stop a release changes nothing. Neither touches the
-- count.
pub request-release :
    (s : Safepoint)
    → ((request s).0 ≡ not (requested s))
      × (requested (request s).1 ≡ true)
      × ((request s).1.stopped ≡ s.stopped)
      × (requested (release s) ≡ false)
      × ((release s).stopped ≡ s.stopped)
      × (requested s ≡ false → release s ≡ s)
unfolding request release
request-release s = elim (Bool-cases (requested s)) [
  | inl yes_one ↦
      rw yes_one
        (refl, yes_one, refl, pending_flips s.state ∙ ap not yes_one, refl, λ e. absurd (cc e))
  | inr no_one ↦
      rw no_one (refl, pending_flips s.state ∙ ap not no_one, refl, no_one, refl, λ e. refl)
]
