-- ===== src/Parked/Examples.antt =====
-- The store of parked tasks with one task parked and one wake that came early.
use krio.Base.{ℕ, ◌≡◌, refl, none, some, [], ◌∷◌, arith, ◌==◌, if◌then◌else◌}
use krio.Base.Maps.{lookup, contains, insert, include}
use krio.Core.{TaskId}
use krio.Parked.{Parked, new, park, wake}
use krio.Parked.Wakes.{
  idle, view, park_waiting, wake_waiting, IsValid, parks, wakes, apply, run, park-view, wake-view,
  no_lost_wake, new-IsValid,
}

abbrev seven : TaskId
seven = record { value = 7 }

abbrev eight : TaskId
eight = record { value = 8 }

abbrev busy : Parked ℕ
busy = run new (parks (record { value = 3 }) 30 ∷ wakes seven ∷ [])

busy-IsValid : IsValid busy
busy-IsValid = new-IsValid (parks (record { value = 3 }) 30 ∷ wakes seven ∷ [])

park-view_example :
    ((park busy seven 70).0 ≡ (park_waiting (view busy 7) 70).0)
    × (view (park busy seven 70).1 7
        ≡ (if 7 == 7 then (park_waiting (view busy 7) 70).1 else view busy 7))
park-view_example = park-view busy seven 70 7 busy-IsValid

wake-view_example :
    ((wake busy seven).0 ≡ (wake_waiting (view busy 7)).0)
    × (view (wake busy seven).1 3
        ≡ (if 7 == 3 then (wake_waiting (view busy 3)).1 else view busy 3))
wake-view_example = wake-view busy seven 3 busy-IsValid

eight_idle : view busy 8 ≡ idle
unfolding run apply park wake lookup contains insert include
eight_idle = refl

no_lost_wake_example :
    ((park busy eight 80).0 ≡ none)
    × ((wake (run (park busy eight 80).1 (wakes seven ∷ [])) eight).0 ≡ some 80)
    × (view (wake (run (park busy eight 80).1 (wakes seven ∷ [])) eight).1 8 ≡ idle)
    × ((wake busy eight).0 ≡ none)
    × ((park (run (wake busy eight).1 (wakes seven ∷ [])) eight 80).0 ≡ some 80)
    × (view (park (run (wake busy eight).1 (wakes seven ∷ [])) eight 80).1 8 ≡ idle)
no_lost_wake_example =
    no_lost_wake busy eight 80 (wakes seven ∷ []) busy-IsValid eight_idle
      (λ e. omega (arith, e), tt)

new-IsValid_example : IsValid (run {T = ℕ} new (parks seven 70 ∷ wakes seven ∷ []))
new-IsValid_example = new-IsValid {T = ℕ} (parks seven 70 ∷ wakes seven ∷ [])
