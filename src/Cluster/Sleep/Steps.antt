-- ===== src/Cluster/Sleep/Steps.antt =====
-- Who attends to a job or a shutdown, step by step: crates/krio-parallel/src/lib.rs.
use krio.Base.{
  ◌-◌, ℕ, ◌+◌, ◌<◌, ◌≡◌, ◌≢◌, inl, inr, refl, sym, ap, ◌∙◌, arith, Bool, true, false, Bool-cases,
  ◌==◌, ==_iff, if◌then◌else◌,
}
use krio.Cluster.{running, parked, notified}
use krio.Cluster.Sleep.{
  awake, checking, clearing, asleep, woken, deciding, at_barrier, gone, absent, scanning, unparking,
  closing, calling, System, assign, roused, Step, Reaches, here, after, started, pushes, scans_past,
  notifies, finds_none, unparks, takes, keeps, publishes, consumes, sees, sees_none, parks, sleeps,
  wakes, clears, decides, quits, enters, leaves, stops, closes, closes_next, closed, requests,
  calls, called, releases,
}
use krio.Cluster.Sleep.Calls.{Called, Step-Called}
use krio.Cluster.Sleep.Wakes.{
  committed, Attended, is_scanning, is_closing, assign_self, Scans-keep, Closes-keep,
  committed-slot, rouse-committed, aside, move_lem, store_lem, awake_lem, working_lem,
}
use krio.Cluster.Sleep.Callers.{Scans-finds_none, Closes-rousing, Closes-next, Closes-absent}

decided : (stop : Bool) (slot : ℕ) → committed (if stop then gone else awake) slot ≡ false
decided true slot = refl
decided false slot = refl

-- What is stored into slot `k` is not PARKED, and agent `k` is not committed.
notified_free : (s : System) (k : ℕ) → committed (s.place k) (assign k notified s.slot k) ≡ true → ⊥
notified_free s k h =
    let e = committed-slot (s.place k) (assign k notified s.slot k) h in
    let h' : notified ≡ parked = sym (assign_self k notified s.slot) ∙ e in omega (arith, h')

stored_other :
    (s : System) (k j : ℕ)
    → committed (s.place j) (assign k notified s.slot j) ≡ true
    → (j ≢ k) × (committed (s.place j) (s.slot j) ≡ true)
stored_other s k j h = elim (Bool-cases (j == k)) [
  | inl same ↦ absurd (
      notified_free s k (
        ap (λ i. committed (s.place i) (assign k notified s.slot i)) (sym ((==_iff j k).0 same))
        ∙ h))
  | inr other ↦ ((λ e. cc (other, (==_iff j k).1 e)), rw other at h)
]

pub Step-Attended : {s s' : System} → Step s s' → Attended s → Attended s'
Step-Attended {s} (pushes p e) att = record {
  some_agent = att.some_agent;
  jobs = λ some all. (p, 0, assign_self p (scanning 0) s.caller, att.some_agent);
  shutdown = λ stop j jl h.
      Closes-keep s.caller p j (scanning 0) (ap is_closing e) (att.shutdown stop j jl h);
}
Step-Attended {s} (scans_past p k e lt ne) att = record {
  some_agent = att.some_agent;
  jobs = λ some all. absurd (ne (committed-slot (s.place k) (s.slot k) (all k lt)));
  shutdown = λ stop j jl h.
      Closes-keep s.caller p j (scanning (k + 1)) (ap is_closing e) (att.shutdown stop j jl h);
}
Step-Attended {s} (notifies p k e lt eq) att = record {
  some_agent = att.some_agent;
  jobs = λ some all. absurd (notified_free s k (all k lt));
  shutdown = λ stop j jl h.
      Closes-keep s.caller p j (unparking k) (ap is_closing e)
        (att.shutdown stop j jl (stored_other s k j h).1);
}
Step-Attended {s} (finds_none p k e le) att = record {
  some_agent = att.some_agent;
  jobs = λ some all. Scans-finds_none s.caller p k s.agents e le (att.jobs some all);
  shutdown =
      λ stop j jl h. Closes-keep s.caller p j absent (ap is_closing e) (att.shutdown stop j jl h);
}
Step-Attended {s} (unparks p k e) att =
    aside s att p absent (assign k (roused (s.place k)) s.place) s.requested (ap is_scanning e)
      (ap is_closing e) (rouse-committed s k)
Step-Attended {s} (takes i lt up some) att = working_lem s att i (s.work - 1) lt up
Step-Attended {s} (keeps i lt up) att = working_lem s att i (s.work + 1) lt up
Step-Attended {s} (publishes i lt up eq) att = store_lem s att i parked checking lt refl
Step-Attended {s} (consumes i lt up ne) att = awake_lem s att i running s.work lt up
Step-Attended {s} (sees i lt at h) att = move_lem s att i clearing s.work lt refl
Step-Attended {s} (sees_none i lt at goes_on none_left) att = record {
  some_agent = att.some_agent;
  jobs = λ some all. absurd (omega (arith, none_left, some));
  shutdown = λ stop j jl h. cc (stop, goes_on);
}
Step-Attended {s} (parks i lt at ne) att = move_lem s att i woken s.work lt refl
Step-Attended {s} (sleeps i lt at eq) att = record {
  some_agent = att.some_agent;
  jobs = λ some all. att.jobs some (λ j jl. back j (all j jl));
  shutdown = λ stop j jl h. att.shutdown stop j jl (back j h);
}
  where
    back :
        (j : ℕ)
        → committed (assign i asleep s.place j) (s.slot j) ≡ true
        → committed (s.place j) (s.slot j) ≡ true
    back j h = elim (Bool-cases (j == i)) [
      | inl same ↦
          ap (λ k. committed (s.place k) (s.slot j)) ((==_iff j i).0 same)
          ∙ ap (λ pl. committed pl (s.slot j)) at
          ∙ (rw same at h)
      | inr other ↦ rw other at h
    ]
Step-Attended {s} (wakes i lt at) att = move_lem s att i woken s.work lt refl
Step-Attended {s} (clears i lt at) att = store_lem s att i running deciding lt refl
Step-Attended {s} (decides i lt at) att =
    move_lem s att i (if s.stopping then gone else awake) s.work lt (decided s.stopping (s.slot i))
Step-Attended {s} (quits i lt up stop) att = move_lem s att i gone s.work lt refl
Step-Attended {s} (enters i lt up wanted) att = move_lem s att i at_barrier s.work lt refl
Step-Attended {s} (leaves i lt at over) att = move_lem s att i awake s.work lt refl
Step-Attended {s} (stops p e) att = record {
  some_agent = att.some_agent;
  jobs =
      λ some all. Scans-keep s.caller p s.agents (closing 0) (ap is_scanning e) (att.jobs some all);
  shutdown = λ stop j jl h. (p, 0, inl (assign_self p (closing 0) s.caller, omega arith));
}
Step-Attended {s} (closes p k e lt) att = record {
  some_agent = att.some_agent;
  jobs = λ some all. absurd (notified_free s k (all k lt));
  shutdown = λ stop j jl h.
      let (ne, before) = stored_other s k j h in
      Closes-rousing s.caller p k j e ne (att.shutdown stop j jl before);
}
Step-Attended {s} (closes_next p k e) att = record {
  some_agent = att.some_agent;
  jobs = λ some all.
      Scans-keep s.caller p s.agents (closing (k + 1)) (ap is_scanning e)
        (att.jobs some (λ j jl. rouse-committed s k j (all j jl)));
  shutdown = λ stop j jl h.
      Closes-next s.caller p k j e (att.shutdown stop j jl (rouse-committed s k j h));
}
Step-Attended {s} (closed p k e le) att = record {
  some_agent = att.some_agent;
  jobs = λ some all. Scans-keep s.caller p s.agents absent (ap is_scanning e) (att.jobs some all);
  shutdown =
      λ stop j jl h. Closes-absent s.caller p k s.agents j e le jl (att.shutdown stop j jl h);
}
Step-Attended {s} (requests p e idle) att =
    aside s att p (calling 0) s.place true (ap is_scanning e) (ap is_closing e) (λ j h. h)
Step-Attended {s} (calls p k e lt) att =
    aside s att p (calling (k + 1)) (assign k (roused (s.place k)) s.place) s.requested
      (ap is_scanning e) (ap is_closing e) (rouse-committed s k)
Step-Attended {s} (called p k e le) att =
    aside s att p absent s.place s.requested (ap is_scanning e) (ap is_closing e) (λ j h. h)
Step-Attended {s} releases att = record {
  some_agent = att.some_agent;
  jobs = att.jobs;
  shutdown = att.shutdown;
}

-- In every interleaving of agents and callers from a start with some agents awake: if there is work
-- and every agent sleeps or is about to, with PARKED in its slot, then some `notify_one` has agents
-- left to look at; if the cluster is stopping, then some `shutdown` has yet to come to each agent that
-- sleeps or is about to, with PARKED in its slot; and each agent that sleeps although its slot no
-- longer says PARKED is about to be called.
pub Reaches-Attended :
    (agents work : ℕ) (s : System)
    → 0 < agents
    → Reaches (started agents work) s
    → Attended s × Called s
Reaches-Attended agents work s some here = (
  record {
    some_agent = some;
    jobs = λ more all. cc (all 0 some);
    shutdown = λ stop j jl h. cc stop;
  },
  λ i at ne. cc at,
)
Reaches-Attended agents work s' some (after {s} r step) =
    let (attended, called_up) = Reaches-Attended agents work s some r in
    (Step-Attended step attended, Step-Called step called_up)
