-- ===== src/Cluster/Drive/Examples.antt =====
-- An agent with one task that never ends, beside a host whose clock is its world.
use krio.Base.{ℕ, ◌+◌, ◌-◌, ◌<◌, ◌≡◌, ◌⊎◌, inl, inr, leb, true, false, Bool-cases, [], ◌∷◌, arith}
use krio.Core.{yielded}
use krio.Words.{host64}
use krio.Deque
use krio.Deque.Run.{with_capacity-Repr}
use krio.Parked
use krio.Cluster.{Cluster, running}
use krio.Cluster.Jobs.{nobody, agent}
use krio.Runtime.Roles.{main}
use krio.Cluster.Drive.{Host, spawns, drive_once}
use krio.Cluster.Drive.Ends.{Drivable, Returns, drive_once-Returns}

-- The clock counts quarters of a millisecond, of which each step takes one. It spawns a task, too.
abbrev busy : Host ℕ ℕ ℕ
busy = record {
  step = λ task clock. (yielded, task, spawns (task + 1) ∷ [], clock + 1);
  stopping = λ _. false;
  requested = λ _. false;
  now_ms = λ clock. clock;
  after = λ now frame. now + frame;
  reached = λ now at. leb at now;
  past_barrier = λ clock. clock;
}

abbrev solo : Cluster ℕ
solo = record {
  agents = record { deque = Deque.with_capacity 2; park_state = running } ∷ [];
  injector = record { id = record { value = 1 }; task = 5 } ∷ [];
  waiting = Parked.new;
  rotor = 0;
  next_id = 2;
}

solo-Drivable : Drivable host64 0 solo
solo-Drivable = record {
  queues = [] ∷ [];
  standing = agent (with_capacity-Repr host64 2 (omega arith)).0 nobody;
  agent = omega arith;
  rotor = omega arith;
  few = omega arith;
}

-- A frame of 8 milliseconds has room for 32 steps.
abbrev room : ℕ → ℕ
room clock = 132 - clock

room-ends : (task clock : ℕ) → (leb (100 + 32) (clock + 1) ≡ true) ⊎ (room (clock + 1) < room clock)
room-ends task clock = elim (Bool-cases (leb (100 + 32) (clock + 1))) [
  | inl late ↦ inl late
  | inr early ↦ inr (ground (arith, early))
]

drive_once-Returns_example : Returns host64 0 33 (drive_once host64 busy 33 solo 0 main 32 100)
drive_once-Returns_example =
    drive_once-Returns host64 busy room 32 0 solo 100 room-ends solo-Drivable
