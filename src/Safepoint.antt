-- ===== src/Safepoint.antt =====
-- crates/krio-parallel/src/safepoint.rs: the word that says whether a stop is pending, the count of
-- the agents at the barrier, and the atomic steps that agents and requesters take on them.
pub mod Barrier
pub mod Stops
mod Examples
use Prim.Native.Nat.{bit_and}
use krio.Base.{
  ℕ, zero, suc, ◌+◌, ◌-◌, ◌%◌, ◌^◌, ◌≡◌, ◌≢◌, Bool, true, false, Option, none, some, List, [], ◌∷◌,
  get_elem?, set, ◌==◌, if◌then◌else◌,
}

-- `Safepoint`: two u32 words.
pub record Safepoint : Type 0 where
  pub state : ℕ
  pub stopped : ℕ

-- `Safepoint::new`.
abbrev pub new : Safepoint
new = record { state = 0; stopped = 0 }

-- `state & PENDING == PENDING`.
abbrev pub pending : ℕ → Bool
pending state = bit_and state 1 == 1

-- `requested`.
abbrev pub requested : Safepoint → Bool
requested s = pending s.state

-- `state.wrapping_add(1)`.
abbrev pub bumped : Safepoint → Safepoint
bumped s = record s { state = (s.state + 1) % 2 ^ 32 }

-- `request`: the loop ends when the compare-exchange meets the state it read.
unfoldable pub request : Safepoint → Bool × Safepoint
request s = if requested s then (false, s) else (true, bumped s)

-- The part of `release` before it waits for the barrier to empty.
unfoldable pub release : Safepoint → Safepoint
release s = if requested s then bumped s else s

-- Where an agent is in `enter`: not in it, behind its first load with the state it read, counted and
-- waiting for that state to change, or on its way out.
pub data Place : Type 0 where
  outside : Place
  arriving waiting : (snapshot : ℕ) → Place
  leaving : Place

pub record System : Type 0 where
  pub safepoint : Safepoint
  pub places : List Place

abbrev pub moved : System → ℕ → Place → System
moved s i p = record s { places = set s.places i p }

abbrev pub counted : System → ℕ → System
counted s stopped = record s { safepoint = record s.safepoint { stopped = stopped } }

-- One atomic step of a requester or of agent `i`.
pub data Step (s : System) : System → Type 0 where
  requests : Step s (record s { safepoint = (request s.safepoint).1 })
  releases : Step s (record s { safepoint = release s.safepoint })
  observes :
      (i : ℕ)
      → get_elem? s.places i ≡ some outside
      → requested s.safepoint ≡ true
      → Step s (moved s i (arriving s.safepoint.state))
  announces :
      (i snapshot : ℕ)
      → get_elem? s.places i ≡ some (arriving snapshot)
      → Step s (moved (counted s ((s.safepoint.stopped + 1) % 2 ^ 32)) i (waiting snapshot))
  resumes :
      (i snapshot : ℕ)
      → get_elem? s.places i ≡ some (waiting snapshot)
      → s.safepoint.state ≢ snapshot
      → Step s (moved s i leaving)
  departs :
      (i : ℕ)
      → get_elem? s.places i ≡ some leaving
      → Step s (moved (counted s ((s.safepoint.stopped + 2 ^ 32 - 1) % 2 ^ 32)) i outside)

pub data Reaches (start : System) : System → Type 0 where
  here : Reaches start start
  after : {s s' : System} → Reaches start s → Step s s' → Reaches start s'
