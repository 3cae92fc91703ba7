-- ===== src/Cluster/Sleep.antt =====
-- crates/krio-parallel/src/lib.rs: how agents go to sleep in `run` and are woken, in atomic steps of
-- any number of agents and callers. Of the jobs only their number counts here, `has_work` reads it in
-- one step, and the platform's `park` and `unpark` are those of crates/krio-parallel/src/park.rs.
pub mod Wakes
pub mod Callers
pub mod Calls
pub mod Steps
mod Examples
use krio.Base.{
  ℕ, zero, suc, ◌+◌, ◌-◌, ◌≤◌, ◌<◌, ◌≡◌, ◌≢◌, ◌⊎◌, Bool, true, false, ◌==◌, if◌then◌else◌,
}
use krio.Cluster.{running, parked, notified}

-- Where an agent is in `run`: at the top of the loop or in `drive_once`; behind the exchange that
-- publishes PARKED; behind a check that found something, or nothing; in `park`, and behind it;
-- behind the store of RUNNING; at the barrier; and gone.
pub data Place : Type 0 where
  awake checking clearing parking asleep woken deciding at_barrier gone : Place

-- Where a caller is: in the scan of `notify_one` and its `unpark`, in the loop of `shutdown` and its
-- `unpark`, or in the loop of `stop_the_world` over the agents.
pub data Caller : Type 0 where
  absent : Caller
  scanning unparking closing rousing calling : ℕ → Caller

pub record System : Type 0 where
  pub agents : ℕ
  pub place : ℕ → Place
  pub slot : ℕ → ℕ
  pub work : ℕ
  pub stopping : Bool
  pub requested : Bool
  pub caller : ℕ → Caller

abbrev pub assign {ℓ} : {A : Type ℓ} → ℕ → A → (ℕ → A) → ℕ → A
assign i v f j = if j == i then v else f j

abbrev pub moves : ℕ → Place → System → System
moves i p s = record s { place = assign i p s.place }

abbrev pub stores : ℕ → ℕ → System → System
stores i v s = record s { slot = assign i v s.slot }

abbrev pub goes : ℕ → Caller → System → System
goes p c s = record s { caller = assign p c s.caller }

-- `unpark`: an agent that sleeps wakes up.
abbrev pub roused : Place → Place
roused asleep = woken
roused place = place

abbrev pub rouse : ℕ → System → System
rouse i s = moves i (roused (s.place i)) s

pub data Step (s : System) : System → Type 0 where
  -- A push on the injector, behind which `notify_one` follows.
  pushes :
      (p : ℕ) → s.caller p ≡ absent → Step s (goes p (scanning 0) (record s { work = s.work + 1 }))
  scans_past :
      (p k : ℕ)
      → s.caller p ≡ scanning k
      → k < s.agents
      → s.slot k ≢ parked
      → Step s (goes p (scanning (k + 1)) s)
  notifies :
      (p k : ℕ)
      → s.caller p ≡ scanning k
      → k < s.agents
      → s.slot k ≡ parked
      → Step s (goes p (unparking k) (stores k notified s))
  finds_none : (p k : ℕ) → s.caller p ≡ scanning k → s.agents ≤ k → Step s (goes p absent s)
  unparks : (p k : ℕ) → s.caller p ≡ unparking k → Step s (goes p absent (rouse k s))
  -- A job leaves the queues, and one that has yielded comes back without a notification.
  takes :
      (i : ℕ)
      → i < s.agents
      → s.place i ≡ awake
      → 0 < s.work
      → Step s (record s { work = s.work - 1 })
  keeps : (i : ℕ) → i < s.agents → s.place i ≡ awake → Step s (record s { work = s.work + 1 })
  -- The exchange of RUNNING for PARKED, and its failure.
  publishes :
      (i : ℕ)
      → i < s.agents
      → s.place i ≡ awake
      → s.slot i ≡ running
      → Step s (moves i checking (stores i parked s))
  consumes :
      (i : ℕ) → i < s.agents → s.place i ≡ awake → s.slot i ≢ running → Step s (stores i running s)
  -- The check behind it.
  sees :
      (i : ℕ)
      → i < s.agents
      → s.place i ≡ checking
      → (s.stopping ≡ true) ⊎ (0 < s.work)
      → Step s (moves i clearing s)
  sees_none :
      (i : ℕ)
      → i < s.agents
      → s.place i ≡ checking
      → s.stopping ≡ false
      → s.work ≡ 0
      → Step s (moves i parking s)
  -- `park` waits while the slot holds PARKED, and may return of itself.
  parks :
      (i : ℕ) → i < s.agents → s.place i ≡ parking → s.slot i ≢ parked → Step s (moves i woken s)
  sleeps :
      (i : ℕ) → i < s.agents → s.place i ≡ parking → s.slot i ≡ parked → Step s (moves i asleep s)
  wakes : (i : ℕ) → i < s.agents → s.place i ≡ asleep → Step s (moves i woken s)
  clears :
      (i : ℕ)
      → i < s.agents
      → (s.place i ≡ clearing) ⊎ (s.place i ≡ woken)
      → Step s (moves i deciding (stores i running s))
  decides :
      (i : ℕ)
      → i < s.agents
      → s.place i ≡ deciding
      → Step s (moves i (if s.stopping then gone else awake) s)
  quits : (i : ℕ) → i < s.agents → s.place i ≡ awake → s.stopping ≡ true → Step s (moves i gone s)
  enters :
      (i : ℕ)
      → i < s.agents
      → s.place i ≡ awake
      → s.requested ≡ true
      → Step s (moves i at_barrier s)
  leaves :
      (i : ℕ)
      → i < s.agents
      → s.place i ≡ at_barrier
      → s.requested ≡ false
      → Step s (moves i awake s)
  -- `shutdown`: the flag and the release of the barrier, then each agent's slot and its `unpark`.
  stops :
      (p : ℕ)
      → s.caller p ≡ absent
      → Step s (goes p (closing 0) (record s { stopping = true; requested = false }))
  closes :
      (p k : ℕ)
      → s.caller p ≡ closing k
      → k < s.agents
      → Step s (goes p (rousing k) (stores k notified s))
  closes_next : (p k : ℕ) → s.caller p ≡ rousing k → Step s (goes p (closing (k + 1)) (rouse k s))
  closed : (p k : ℕ) → s.caller p ≡ closing k → s.agents ≤ k → Step s (goes p absent s)
  -- `stop_the_world` up to its wait for the others: the request, then an `unpark_all` for each agent,
  -- with its slot left alone. The release comes later.
  requests :
      (p : ℕ)
      → s.caller p ≡ absent
      → s.requested ≡ false
      → Step s (goes p (calling 0) (record s { requested = true }))
  calls :
      (p k : ℕ)
      → s.caller p ≡ calling k
      → k < s.agents
      → Step s (goes p (calling (k + 1)) (rouse k s))
  called : (p k : ℕ) → s.caller p ≡ calling k → s.agents ≤ k → Step s (goes p absent s)
  releases : Step s (record s { requested = false })

pub data Reaches (start : System) : System → Type 0 where
  here : Reaches start start
  after : {s s' : System} → Reaches start s → Step s s' → Reaches start s'

-- A cluster that has started.
abbrev pub started : ℕ → ℕ → System
started agents work = record {
  agents = agents;
  place = λ _. awake;
  slot = λ _. running;
  work = work;
  stopping = false;
  requested = false;
  caller = λ _. absent;
}
