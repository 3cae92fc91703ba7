-- ===== src/Safepoint/Examples.antt =====
-- Two stops in a row, and an agent that reads the first and arrives in the second.
use krio.Base.{◌≡◌, refl, true, false, not, [], ◌∷◌, arith}
use krio.Safepoint.{
  Safepoint, requested, request, release, waiting, System, requests, releases, observes, announces,
  Reaches, here, after,
}
use krio.Safepoint.Stops.{request-release}
use krio.Safepoint.Barrier.{IsCounted, quiet, Reaches-IsCounted}

abbrev stop_word : Safepoint
stop_word = record { state = 4294967295; stopped = 1 }

request-release_example :
    ((request stop_word).0 ≡ not (requested stop_word))
    × (requested (request stop_word).1 ≡ true)
    × ((request stop_word).1.stopped ≡ 1)
    × (requested (release stop_word) ≡ false)
    × ((release stop_word).stopped ≡ 1)
    × (requested stop_word ≡ false → release stop_word ≡ stop_word)
request-release_example = request-release stop_word

-- The agent waits on the first stop, whose number is 1, while the second, 3, is pending and counts it.
abbrev stale : System
stale = record { safepoint = record { state = 3; stopped = 1 }; places = waiting 1 ∷ [] }

stale-Reaches : Reaches (quiet 1) stale
unfolding request release
stale-Reaches =
    after (after (after (after (after here requests) (observes 0 refl refl)) releases) requests)
      (announces 0 1 refl)

Reaches-IsCounted_example : IsCounted 1 stale
Reaches-IsCounted_example = Reaches-IsCounted 1 stale (omega arith) stale-Reaches
