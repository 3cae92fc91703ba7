-- ===== src/Cluster/Drive/Ends.antt =====
-- The loop of `drive_once` for a main agent: crates/krio-parallel/src/lib.rs.
use krio.Base.{
  ℕ, zero, suc, ◌+◌, ◌^◌, ◌≤◌, ◌<◌, ◌≡◌, subst, sym, Option, none, some, List, [], ◌∷◌, arith,
  length, Bool-cases, inl, inr, true, false, ◌⊎◌,
}
use krio.Core.{Suspension}
use krio.Words.{Target, modulus}
use krio.Parked.{Parked}
use krio.Parked
use krio.Cluster.{Job, Cluster, spawn, wake, resume_found, next_job, settle}
use krio.Cluster.Jobs.{Standing}
use krio.Cluster.Next.{next_job_lem}
use krio.Cluster.Settle.{settle-Standing, length-notify_first}
use krio.Cluster.Arrivals.{notify_first-Standing}
use krio.Runtime.Roles.{main, Drive, idle, ran, shutting_down}
use krio.Cluster.Drive.{
  Call, spawns, wakes, Host, Pass, returned, call, call_all, outcome, check_deadline, after_settle,
  after_next, drive_loop, drive_once,
}
use krio.Cluster.Drive.Rotor.{IsWord, FoundIsWord, LeftIsWord, next_job-IsWord, settle-IsWord}

-- At most `k` tasks were stepped.
abbrev pub AtMost : ℕ → Drive → Type 0
AtMost k (ran n) = n ≤ k
AtMost k idle = Unit
AtMost k shutting_down = Unit

outcome-AtMost : (k count : ℕ) → count ≤ k → AtMost k (outcome count)
outcome-AtMost k zero h = tt
outcome-AtMost k (suc n) h = h

module _ {ℓ} (t : Target) {T : Type ℓ} where
  -- A cluster that agent `i` can drive: its deques stand for queues, and its rotor cannot overflow.
  pub record Drivable (i : ℕ) (c : Cluster T) : Type ℓ where
    pub queues : List (List (Job T))
    pub standing : Standing t c.agents queues
    pub agent : i < length c.agents
    pub rotor : IsWord c
    pub few : 2 ^ 32 + length c.agents ≤ modulus t

  resume_found-Drivable :
      (i : ℕ) (c : Cluster T) (found : Option (Job T)) (p : Parked (Job T))
      → Drivable i c
      → Drivable i (resume_found (found, p) c).1
  resume_found-Drivable i c none p d = record {
    queues = d.queues;
    standing = d.standing;
    agent = d.agent;
    rotor = d.rotor;
    few = d.few;
  }
  resume_found-Drivable i c (some job) p d = record {
    queues = d.queues;
    standing = notify_first-Standing d.standing;
    agent = omega (arith, length-notify_first c.agents, d.agent);
    rotor = d.rotor;
    few = omega (arith, length-notify_first c.agents, d.few);
  }

  call-Drivable : (i : ℕ) (c : Cluster T) (one : Call T) → Drivable i c → Drivable i (call c one)
  unfolding spawn wake
  call-Drivable i c (spawns task) d = record {
    queues = d.queues;
    standing = notify_first-Standing d.standing;
    agent = omega (arith, length-notify_first c.agents, d.agent);
    rotor = d.rotor;
    few = omega (arith, length-notify_first c.agents, d.few);
  }
  call-Drivable i c (wakes id) d =
      let (found, p) = Parked.wake c.waiting id in resume_found-Drivable i c found p d

  call_all-Drivable :
      (i : ℕ) (c : Cluster T) (calls : List (Call T)) → Drivable i c → Drivable i (call_all c calls)
  unfolding call_all
  call_all-Drivable i c [] d = d
  call_all-Drivable i c (one ∷ calls) d =
      call_all-Drivable i (call c one) calls (call-Drivable i c one d)

  -- The outcomes of `next_job` and of `settle` are drivable again.
  next_job-Drivable :
      (i : ℕ) (c : Cluster T)
      → Drivable i c
      → (job : Option (Job T × Option ℕ)) × (c' : Cluster T) × (next_job t c i ≡ some (job, c'))
        × Drivable i c'
  next_job-Drivable i c d =
      let (job, c', qs', e, s', size, answer) =
        next_job_lem t c d.queues i d.standing d.agent (omega (arith, d.rotor, d.few)) in
      (
        job,
        c',
        e,
        record {
          queues = qs';
          standing = s';
          agent = omega (arith, size, d.agent);
          rotor = subst FoundIsWord e (next_job-IsWord t c i d.rotor);
          few = omega (arith, size, d.few);
        },
      )

  settle-Drivable :
      (i : ℕ) (c : Cluster T) (job : Job T) (suspension : Suspension)
      → Drivable i c
      → (c' : Cluster T) × (settle t c i job suspension ≡ some c') × Drivable i c'
  settle-Drivable i c job suspension d =
      let (c', qs', e, s', size) =
        settle-Standing t c d.queues i job suspension d.standing d.agent in
      (
        c',
        e,
        record {
          queues = qs';
          standing = s';
          agent = omega (arith, size, d.agent);
          rotor = subst LeftIsWord e (settle-IsWord t c i job suspension d.rotor);
          few = omega (arith, size, d.few);
        },
      )

module _ {ℓ} (t : Target) {T W : Type ℓ} (i : ℕ) where
  -- The pass returned with at most `k` tasks stepped, and with a cluster that can be driven on.
  pub data Returns (k : ℕ) : Pass T W → Type ℓ where
    returns :
        (d : Drive) (c : Cluster T) (w : W)
        → AtMost k d
        → Drivable t i c
        → Returns k (returned d c w)

module _ {ℓ} (t : Target) {T W Time : Type ℓ} (host : Host T W Time) (i : ℕ) (at : Time)
    (left : W → ℕ) where
  -- What follows the step of a task, with the rest of the loop.
  after_settle_lem :
      (k count : ℕ) (again : Cluster T → ℕ → W → Pass T W) (c : Cluster T) (w : W)
      → count ≤ k
      → Drivable t i c
      → (host.reached (host.now_ms w) at ≡ false → Returns t i k (again c count w))
      → Returns t i k (after_settle t host main (some at) count again (some c) w)
  after_settle_lem k count again c w h d rest = elim (Bool-cases (host.stopping w)) [
    | inl stops ↦ rw (stops, after_settle) (returns shutting_down c w tt d)
    | inr goes_on ↦
        rw (goes_on, after_settle)
          (elim (Bool-cases (host.requested w)) [
            | inl stop ↦
                rw (stop, after_settle) (returns (outcome count) c w (outcome-AtMost k count h) d)
            | inr no_stop ↦
                rw (no_stop, after_settle)
                  (elim (Bool-cases (host.reached (host.now_ms w) at)) [
                    | inl late ↦
                        rw (late, check_deadline)
                          (returns (outcome count) c w (outcome-AtMost k count h) d)
                    | inr early ↦ rw (early, check_deadline) (rest early)
                  ])
          ])
  ]

  -- The body of the loop, whose rest returns if the deadline is not reached.
  after_next_lem :
      (k count : ℕ) (again : Cluster T → ℕ → W → Pass T W) (found : Option (Job T × Option ℕ))
      (c : Cluster T) (w : W)
      → count + 1 ≤ k
      → Drivable t i c
      → ((task : T) (c' : Cluster T)
          → host.reached (host.now_ms (host.step task w).3) at ≡ false
          → Drivable t i c'
          → Returns t i k (again c' (suc count) (host.step task w).3))
      → Returns t i k (after_next t host i main (some at) count again (some (found, c)) w)
  after_next_lem k count again none c w h d rest =
      returns (outcome count) c w (outcome-AtMost k count (omega arith)) d
  after_next_lem k count again (some (job, from)) c w h d rest =
      let (suspension, task, calls, w') = host.step job.task w in
      let (c', e, d') =
        settle-Drivable t i (call_all c calls) (record job { task = task }) suspension
          (call_all-Drivable t i c calls d) in
      subst
        (λ settled. Returns t i k (after_settle t host main (some at) (suc count) again settled w'))
        (sym e)
        (after_settle_lem k (suc count) again c' w' (omega arith) d'
          (λ early. rest job.task c' early d'))

  loop_lem :
      ((task : T) (w : W)
        → (host.reached (host.now_ms (host.step task w).3) at ≡ true)
          ⊎ (left (host.step task w).3 < left w))
      → (fuel k count : ℕ) (c : Cluster T) (w : W) → count + fuel ≤ k
      → left w < fuel
      → Drivable t i c
      → Returns t i k (drive_loop t host fuel i main (some at) c count w)
  unfolding drive_loop
  loop_lem ends zero k count c w h enough d = absurd (omega arith)
  loop_lem ends (suc fuel) k count c w h enough d =
      let (job, c', e, d') = next_job-Drivable t i c d in
      subst
        (λ found. Returns t i k (
          after_next t host i main (some at) count (drive_loop t host fuel i main (some at)) found
            w))
        (sym e)
        (after_next_lem k count (drive_loop t host fuel i main (some at)) job c' w (omega arith) d'
          (λ task c'' early d''.
            loop_lem ends fuel k (suc count) c'' (host.step task w).3 (omega arith)
              (elim (ends task w) [
                | inl late ↦ cc (early, late)
                | inr less ↦ omega (arith, less, enough)
              ])
              d''))

-- A main agent gives control back: if the frame has room for a bounded number of further steps,
-- that is, each step either brings the clock to the deadline of the pass or takes at least one off
-- `left`, then a pass of a cluster that the agent can drive does not panic and returns after at most
-- `left` and one steps, whatever the tasks answer and call, and whatever becomes of the flags; the
-- cluster can be driven on. Fuel of `left` and one is enough. The cluster is one whose deques stand
-- for queues, whose rotor is a u32, and whose agents fit `usize` beside it.
pub drive_once-Returns {ℓ} :
    (t : Target) {T W Time : Type ℓ} (host : Host T W Time) (left : W → ℕ) (frame_ms : Time) (i : ℕ)
    (c : Cluster T) (w : W)
    → ((task : T) (w' : W)
        → (host.reached (host.now_ms (host.step task w').3) (host.after (host.now_ms w) frame_ms)
            ≡ true)
          ⊎ (left (host.step task w').3 < left w'))
    → Drivable t i c
    → Returns t i (left w + 1) (drive_once t host (suc (left w)) c i main frame_ms w)
unfolding drive_once
drive_once-Returns t host left frame_ms i c w ends d = elim (Bool-cases (host.stopping w)) [
  | inl stops ↦ rw (stops, drive_once) (returns shutting_down c w tt d)
  | inr goes_on ↦
      rw (goes_on, drive_once)
        (loop_lem t host i (host.after (host.now_ms w) frame_ms) left ends (suc (left w))
          (left w + 1) 0 c w (omega arith) (omega arith) d)
]
