-- ===== src/Cluster/Sleep/Examples.antt =====
-- Two agents, of which agent 0 goes to sleep while something else begins.
use krio.Base.{◌≡◌, refl, true, arith}
use krio.Cluster.{parked}
use krio.Cluster.Sleep.{
  checking, parking, asleep, absent, scanning, calling, System, moves, stores, goes, rouse, Reaches,
  here, after, started, pushes, publishes, sees_none, sleeps, requests, calls, called,
}
use krio.Cluster.Sleep.Wakes.{Attended}
use krio.Cluster.Sleep.Calls.{Called}
use krio.Cluster.Sleep.Steps.{Reaches-Attended}

-- The check behind PARKED has found nothing.
abbrev parking_agent : System
parking_agent = moves 0 parking (moves 0 checking (stores 0 parked (started 2 0)))

parking_agent-Reaches : Reaches (started 2 0) parking_agent
parking_agent-Reaches =
    after (after here (publishes 0 (omega arith) refl refl))
      (sees_none 0 (omega arith) refl refl refl)

-- A job has come, and the agent sleeps.
abbrev slept : System
slept = moves 0 asleep (goes 1 (scanning 0) (record parking_agent { work = 1 }))

slept-Reaches : Reaches (started 2 0) slept
slept-Reaches =
    after (after parking_agent-Reaches (pushes 1 refl)) (sleeps 0 (omega arith) refl refl)

Reaches-Attended_example : Attended slept × Called slept
Reaches-Attended_example = Reaches-Attended 2 0 slept (omega arith) slept-Reaches

-- Agent 1 stops the world and has called both agents before agent 0 sleeps.
abbrev all_called : System
all_called = goes 1 (calling 2) (
    rouse 1 (
      goes 1 (calling 1)
        (rouse 0 (goes 1 (calling 0) (record parking_agent { requested = true })))))

abbrev stop_missed : System
stop_missed = moves 0 asleep (goes 1 absent all_called)

stop_missed-Reaches : Reaches (started 2 0) stop_missed
stop_missed-Reaches =
    after
      (after
        (after
          (after (after parking_agent-Reaches (requests 1 refl refl))
            (calls 1 0 refl (omega arith)))
          (calls 1 1 refl (omega arith)))
        (called 1 2 refl (omega arith)))
      (sleeps 0 (omega arith) refl refl)

-- The stop is pending, nobody calls any more, and agent 0 sleeps with PARKED in its slot.
stop_missed_run :
    (stop_missed.requested ≡ true)
    × (stop_missed.caller 1 ≡ absent)
    × (stop_missed.place 0 ≡ asleep)
    × (stop_missed.slot 0 ≡ parked)
stop_missed_run = (refl, refl, refl, refl)
