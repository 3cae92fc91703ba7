-- ===== src/Fiber/Stacks/Examples.antt =====
-- The theorems on stacks, with pages of 4096 bytes and a system that maps above all that is mapped.
use mathlib.Core.Option.{some-injective}
use krio.Base.{ℕ, ◌+◌, ◌≤◌, ◌==◌, ◌≡◌, refl, Option, some, List, [], ◌∷◌, arith, tally}
use krio.Fiber.Stacks.{
  Stack, Thread, new_thread, same_region, rposition, take, drop_stack, drop_pool, new_stack,
}
use krio.Fiber.Stacks.Balance.{Balanced}
use krio.Fiber.Stacks.Lives.{Fresh, Reaches, Reaches-Balanced, drop_pool-empty}

free_base : List (ℕ × ℕ) → ℕ
free_base [] = 8192
free_base ((base, length) ∷ mapped) = base + length + free_base mapped + 1

above : List (ℕ × ℕ) → ℕ → Option ℕ
unfolding free_base
above mapped n = some (free_base mapped)

free_base-new :
    (mapped : List (ℕ × ℕ)) (b : ℕ) → free_base mapped ≤ b → tally (λ r. r.0 == b) mapped ≡ 0
unfolding free_base tally
free_base-new [] b h = refl
free_base-new ((base, length) ∷ mapped) b h =
    ground (arith, h, free_base-new mapped b (omega (arith, h)))

above-Fresh : Fresh above
unfolding above
above-Fresh mapped n base e =
    free_base-new mapped base (omega (arith, some-injective (free_base mapped) base e))

-- A stack of 5000 bytes takes two pages.
abbrev first : Stack
first = record { base = 8192; total_bytes = 12288; usable_start = 12288; usable_len = 8192 }

abbrev one : Thread
one = record { pool = some []; mapped = (8192, 12288) ∷ [] }

made_first : new_stack 4096 above new_thread 5000 ≡ some (first, one)
unfolding new_stack take rposition above
made_first = refl

abbrev with_first : Reaches 4096 above one (first ∷ [])
with_first = Reaches.made new_thread one [] first 5000 Reaches.fresh made_first

abbrev without : Reaches 4096 above (drop_stack one first) []
without = Reaches.dropped one [] [] first with_first

Reaches-Balanced_example : Balanced (drop_stack one first) []
Reaches-Balanced_example = Reaches-Balanced 4096 above above-Fresh (drop_stack one first) [] without

drop_pool-empty_example :
    tally (same_region (8192, 12288)) (drop_pool (drop_stack one first)).mapped ≡ 0
drop_pool-empty_example =
    drop_pool-empty 4096 above above-Fresh (drop_stack one first) without (8192, 12288)
