-- ===== src/Fiber/Machine/Bytes.antt =====
-- Loads behind stores, byte by byte.
use native.Mathlib.Nat.{pow-suc, one-le-pow}
use krio.Base.{ℕ, zero, suc, ◌+◌, ◌*◌, ◌/◌, ◌%◌, ◌^◌, ◌≤◌, ◌<◌, ◌≡◌, ◌⊎◌, refl, arith, ==_self, ◌∙◌}
use krio.Fiber.Machine.{Mem, assign, store, load, clear}

-- The bytes from `a` on, `n` of them, and those from `b` on, `k` of them, have none in common.
abbrev pub Apart : ℕ → ℕ → ℕ → ℕ → Type 0
Apart a n b k = (a + n ≤ b) ⊎ (b + k ≤ a)

-- Two memories have the same bytes from `a` on, `n` of them.
abbrev pub Agree : ℕ → ℕ → Mem → Mem → Type 0
Agree a n m m' = (x : ℕ) → a ≤ x → x < a + n → m x ≡ m' x

pub store_other : (w a v : ℕ) (m : Mem) (x : ℕ) → (x < a) ⊎ (a + w ≤ x) → store w a v m x ≡ m x
unfolding store
store_other zero a v m x h = refl
store_other (suc w) a v m x h =
    ground (arith, store_other w (suc a) (v / 256) (assign a (v % 256) m) x)

pub clear_other : (n a : ℕ) (m : Mem) (x : ℕ) → (x < a) ⊎ (a + n ≤ x) → clear n a m x ≡ m x
unfolding clear
clear_other zero a m x h = refl
clear_other (suc n) a m x h = ground (arith, clear_other n (suc a) (assign a 0 m) x)

pub clear_inside : (n a : ℕ) (m : Mem) (x : ℕ) → a ≤ x → x < a + n → clear n a m x ≡ 0
unfolding clear
clear_inside zero a m x h k = ground arith
clear_inside (suc n) a m x h k =
    ground (arith, clear_inside n (suc a) (assign a 0 m) x, clear_other n (suc a) (assign a 0 m) x)

pub load-Agree : (w a : ℕ) (m m' : Mem) → Agree a w m m' → load w a m ≡ load w a m'
unfolding load
load-Agree zero a m m' h = refl
load-Agree (suc w) a m m' h = ground (
  arith,
  h a (omega arith) (omega arith),
  load-Agree w (suc a) m m' (λ x p q. h x (omega arith) (omega arith)),
)

pub load-store_other :
    (w a k b v : ℕ) (m : Mem) → Apart a w b k → load w a (store k b v m) ≡ load w a m
load-store_other w a k b v m h =
    load-Agree w a (store k b v m) m (λ x p q. store_other k b v m x (omega arith))

mod_byte : (v p : ℕ) → 0 < p → v % (p * 256) ≡ v % 256 + 256 * (v / 256 % p)
mod_byte v p h = grind arith

store_first : (w a v : ℕ) (m : Mem) → store w (suc a) (v / 256) (assign a (v % 256) m) a ≡ v % 256
store_first w a v m =
    store_other w (suc a) (v / 256) (assign a (v % 256) m) a (omega arith) ∙ rw (==_self a)

pub load-store_self : (w a v : ℕ) (m : Mem) → load w a (store w a v m) ≡ v % 256 ^ w
unfolding load store
load-store_self zero a v m = omega arith
load-store_self (suc w) a v m = ground (
  arith,
  store_first w a v m,
  load-store_self w (suc a) (v / 256) (assign a (v % 256) m),
  pow-suc 256 w,
  mod_byte v (256 ^ w) (one-le-pow w 256 (omega arith)),
)

pub load-clear : (w a n b : ℕ) (m : Mem) → b ≤ a → a + w ≤ b + n → load w a (clear n b m) ≡ 0
unfolding load
load-clear zero a n b m h k = refl
load-clear (suc w) a n b m h k = omega (
  arith,
  clear_inside n b m a (omega arith) (omega arith),
  load-clear w (suc a) n b m (omega arith) (omega arith),
)
