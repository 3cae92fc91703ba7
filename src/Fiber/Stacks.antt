-- ===== src/Fiber/Stacks.antt =====
-- crates/krio-fiber/src/stack.rs on unix: the stacks of a thread, mapped by the system and kept for
-- reuse.
pub mod Pool
pub mod Balance
pub mod Lives
mod Examples
use krio.Base.{
  ℕ, zero, suc, ◌+◌, ◌*◌, ◌/◌, ◌%◌, ◌==◌, leb, Bool, true, false, ◌&&◌, Option, none, some, List,
  [], ◌∷◌, ◌++◌, length, get_elem?, if◌then◌else◌,
}
use krio.Runtime.Sweep.{swap_remove}

-- `Stack` and `Parked`.
pub record Stack : Type 0 where
  pub base : ℕ
  pub total_bytes : ℕ
  pub usable_start : ℕ
  pub usable_len : ℕ

-- A thread's `POOL`, `none` when the thread has destroyed it, and the regions the system has mapped
-- for it, each a base and a length.
pub record Thread : Type 0 where
  pub pool : Option (List Stack)
  pub mapped : List (ℕ × ℕ)

abbrev pub new_thread : Thread
new_thread = record { pool = some []; mapped = [] }

abbrev pub same_region : ℕ × ℕ → ℕ × ℕ → Bool
same_region r q = (r.0 == q.0) && (r.1 == q.1)

-- The system's side of `munmap`: the region goes from the list of those mapped.
unfoldable pub munmap : ℕ × ℕ → List (ℕ × ℕ) → List (ℕ × ℕ)
munmap r [] = []
munmap r (q ∷ mapped) = if same_region r q then mapped else q ∷ munmap r mapped

abbrev pub region : Stack → ℕ × ℕ
region s = (s.base, s.total_bytes)

-- `div_ceil`.
abbrev pub div_ceil : ℕ → ℕ → ℕ
div_ceil n d = if n % d == 0 then n / d else n / d + 1

-- The place found behind the first, else the first if it satisfies the test.
abbrev pub or_here : Bool → Option ℕ → Option ℕ
or_here here (some i) = some (suc i)
or_here true none = some 0
or_here false none = none

-- `iter().rposition(|p| p.usable_len == usable_len)`.
unfoldable pub rposition : ℕ → List Stack → Option ℕ
rposition n [] = none
rposition n (p ∷ pool) = or_here (p.usable_len == n) (rposition n pool)

-- The stack at the place found, and the pool without it.
abbrev pub picked : Thread → Option Stack → Option (List Stack) → Option Stack × Thread
picked th none pool = (none, th)
picked th (some s) none = (none, th)
picked th (some s) (some pool) = (some s, record th { pool = some pool })

abbrev pub take_at : Thread → List Stack → Option ℕ → Option Stack × Thread
take_at th pool none = (none, th)
take_at th pool (some i) = picked th (get_elem? pool i) (swap_remove i pool)

abbrev pub take_from : Thread → ℕ → Option (List Stack) → Option Stack × Thread
take_from th n none = (none, th)
take_from th n (some pool) = take_at th pool (rposition n pool)

-- `cache::take`.
unfoldable pub take : Thread → ℕ → Option Stack × Thread
unfolding rposition swap_remove
take th n = take_from th n th.pool

abbrev pub park_in : Thread → Stack → Option (List Stack) → Bool × Thread
park_in th s none = (false, th)
park_in th s (some pool) =
    if leb 16 (length pool) then (false, th) else (true, record th { pool = some (pool ++ s ∷ []) })

-- `cache::park`.
abbrev pub park : Thread → Stack → Bool × Thread
park th s = park_in th s th.pool

abbrev pub settled : Stack → Bool × Thread → Thread
settled s (kept, th') = if kept then th' else record th' { mapped = munmap (region s) th'.mapped }

-- `drop` of a stack.
unfoldable pub drop_stack : Thread → Stack → Thread
unfolding munmap
drop_stack th s = settled s (park th s)

unfoldable pub unmap_all : List Stack → List (ℕ × ℕ) → List (ℕ × ℕ)
unfolding munmap
unmap_all [] mapped = mapped
unmap_all (p ∷ pool) mapped = unmap_all pool (munmap (region p) mapped)

abbrev pub unmap_pool : Option (List Stack) → List (ℕ × ℕ) → List (ℕ × ℕ)
unmap_pool none mapped = mapped
unmap_pool (some pool) mapped = unmap_all pool mapped

-- `drop` of the pool, when the thread ends.
unfoldable pub drop_pool : Thread → Thread
unfolding unmap_all
drop_pool th = record { pool = none; mapped = unmap_pool th.pool th.mapped }

-- `usable_size`, with what `page_size` returns.
abbrev pub usable_size : ℕ → ℕ → ℕ
usable_size page_size requested = div_ceil requested page_size * page_size

-- The system: the page size, and where `mmap` puts a region of a length, `none` when it fails.
module _ (page_size : ℕ) (mmap : List (ℕ × ℕ) → ℕ → Option ℕ) where
  abbrev pub mmap_at : Thread → ℕ → Option ℕ → Option (Stack × Thread)
  mmap_at th requested none = none
  mmap_at th requested (some base) =
      let total = usable_size page_size requested + page_size in
      some (
        record {
          base = base;
          total_bytes = total;
          usable_start = base + page_size;
          usable_len = usable_size page_size requested;
        },
        record th { mapped = (base, total) ∷ th.mapped },
      )

  -- `mmap_stack`; `none` is the panic.
  abbrev pub mmap_stack : Thread → ℕ → Option (Stack × Thread)
  mmap_stack th requested =
      mmap_at th requested (mmap th.mapped (usable_size page_size requested + page_size))

  abbrev pub or_mmap : ℕ → Option Stack × Thread → Option (Stack × Thread)
  or_mmap requested (none, th) = mmap_stack th requested
  or_mmap requested (some s, th) = some (s, th)

  -- `Stack::new`.
  unfoldable pub new_stack : Thread → ℕ → Option (Stack × Thread)
  unfolding take
  new_stack th requested = or_mmap requested (take th (usable_size page_size requested))
