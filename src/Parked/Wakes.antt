-- ===== src/Parked/Wakes.antt =====
-- No wake is lost, whatever order the agents' operations take.
use krio.Base.{
  ℕ, ◌≡◌, refl, ◌∙◌, ◌≢◌, ap, Bool, true, false, Option, none, some, List, [], ◌∷◌, arith, length,
  All, if◌then◌else◌, ◌==◌, ==_self,
}
use krio.Base.Maps.{
  lookup, contains, lookup-insert, lookup-remove, contains-include, contains-discard,
}
use krio.Core.{TaskId}
use krio.Parked.{Parked, new, park, wake}

-- What the store promises of one id.
pub data Waiting {ℓ} (T : Type ℓ) : Type ℓ where
  idle : Waiting T
  asleep : T → Waiting T
  woken : Waiting T

-- `park` and `wake` of an id, as they change what is known of it.
abbrev pub park_waiting {ℓ} : {T : Type ℓ} → Waiting T → T → Option T × Waiting T
park_waiting idle t = (none, asleep t)
park_waiting (asleep s) t = (none, asleep t)
park_waiting woken t = (some t, idle)

abbrev pub wake_waiting {ℓ} : {T : Type ℓ} → Waiting T → Option T × Waiting T
wake_waiting idle = (none, woken)
wake_waiting (asleep s) = (some s, idle)
wake_waiting woken = (none, woken)

module _ {ℓ} {T : Type ℓ} where
  abbrev waiting_of : Bool → Option T → Waiting T
  waiting_of true found = woken
  waiting_of false none = idle
  waiting_of false (some t) = asleep t

  -- What the store knows of the id `k`.
  abbrev pub view : Parked T → ℕ → Waiting T
  view p k = waiting_of (contains k p.early_wakes) (lookup k p.tasks)

  -- The mirror of the map's size is right, and no id is both parked and woken early.
  pub record IsValid (p : Parked T) : Type ℓ where
    pub counted : p.count ≡ length p.tasks
    pub disjoint : (k : ℕ) → contains k p.early_wakes ≡ true → lookup k p.tasks ≡ none

  -- On a valid store, `park` gives the task back exactly when its wake came first, and changes its own id as promised
  -- and no other.
  pub park-view :
      (p : Parked T) (id : TaskId) (t : T) (k : ℕ)
      → IsValid p
      → ((park p id t).0 ≡ (park_waiting (view p id.value) t).0)
        × (view (park p id t).1 k
            ≡ (if id.value == k then (park_waiting (view p k) t).1 else view p k))
  unfolding park
  park-view p id t k v = ground (
    arith,
    contains-discard id.value k p.early_wakes,
    lookup-insert id.value k t p.tasks,
    v.disjoint k,
  )

  park-IsValid : (p : Parked T) (id : TaskId) (t : T) → IsValid p → IsValid (park p id t).1
  unfolding park
  park-IsValid p id t v = record {
    counted = ground (arith, v.counted);
    disjoint = λ k. ground (
      arith,
      contains-discard id.value k p.early_wakes,
      lookup-insert id.value k t p.tasks,
      v.disjoint k,
    );
  }

  -- On a valid store, `wake` takes the task that waits under its id, or leaves a wake for it, and changes no other id.
  pub wake-view :
      (p : Parked T) (id : TaskId) (k : ℕ)
      → IsValid p
      → ((wake p id).0 ≡ (wake_waiting (view p id.value)).0)
        × (view (wake p id).1 k ≡ (if id.value == k then (wake_waiting (view p k)).1 else view p k))
  unfolding wake
  wake-view p id k v = ground (
    arith,
    contains-include id.value k p.early_wakes,
    lookup-remove id.value k p.tasks,
    v.disjoint k,
    v.disjoint id.value,
  )

  wake-IsValid : (p : Parked T) (id : TaskId) → IsValid p → IsValid (wake p id).1
  unfolding wake
  wake-IsValid p id v = record {
    counted = ground (arith, v.counted);
    disjoint = λ k. ground (
      arith,
      contains-include id.value k p.early_wakes,
      lookup-remove id.value k p.tasks,
      v.disjoint k,
    );
  }

pub data Op {ℓ} (T : Type ℓ) : Type ℓ where
  parks : TaskId → T → Op T
  wakes : TaskId → Op T

module _ {ℓ} {T : Type ℓ} where
  -- The store after one operation, and after several.
  unfoldable pub apply : Parked T → Op T → Parked T
  apply p (parks id t) = (park p id t).1
  apply p (wakes id) = (wake p id).1

  unfoldable pub run : Parked T → List (Op T) → Parked T
  run p [] = p
  run p (op ∷ ops) = run (apply p op) ops

  -- The operation is on another id than `k`.
  abbrev pub IsElsewhere : ℕ → Op T → Type 0
  IsElsewhere k (parks id t) = id.value ≢ k
  IsElsewhere k (wakes id) = id.value ≢ k

  apply-IsValid : (p : Parked T) (op : Op T) → IsValid p → IsValid (apply p op)
  unfolding apply
  apply-IsValid p (parks id t) v = park-IsValid p id t v
  apply-IsValid p (wakes id) v = wake-IsValid p id v

  apply-elsewhere :
      (p : Parked T) (k : ℕ) (op : Op T)
      → IsValid p
      → IsElsewhere k op
      → view (apply p op) k ≡ view p k
  unfolding apply
  apply-elsewhere p k (parks id t) v h = ground (arith, (park-view p id t k v).1)
  apply-elsewhere p k (wakes id) v h = ground (arith, (wake-view p id k v).1)

  pub run-IsValid : (p : Parked T) (ops : List (Op T)) → IsValid p → IsValid (run p ops)
  unfolding run
  run-IsValid p [] v = v
  run-IsValid p (op ∷ ops) v = run-IsValid (apply p op) ops (apply-IsValid p op v)

  run-elsewhere :
      (p : Parked T) (k : ℕ) (ops : List (Op T))
      → IsValid p
      → All (IsElsewhere k) ops
      → view (run p ops) k ≡ view p k
  unfolding run
  run-elsewhere p k [] v h = refl
  run-elsewhere p k (op ∷ ops) v h =
      run-elsewhere (apply p op) k ops (apply-IsValid p op v) h.1 ∙ apply-elsewhere p k op v h.0

  -- The effect of an operation on its own id, from what is known of it.
  park_own :
      (p : Parked T) (id : TaskId) (t : T) (known : Waiting T)
      → IsValid p
      → view p id.value ≡ known
      → ((park p id t).0 ≡ (park_waiting known t).0)
        × (view (park p id t).1 id.value ≡ (park_waiting known t).1)
  park_own p id t known v e =
      let (answer, after) = park-view p id t id.value v in
      (
        answer ∙ ap (λ w. (park_waiting w t).0) e,
        after ∙ rw (==_self id.value) (ap (λ w. (park_waiting w t).1) e),
      )

  wake_own :
      (p : Parked T) (id : TaskId) (known : Waiting T)
      → IsValid p
      → view p id.value ≡ known
      → ((wake p id).0 ≡ (wake_waiting known).0)
        × (view (wake p id).1 id.value ≡ (wake_waiting known).1)
  wake_own p id known v e =
      let (answer, after) = wake-view p id id.value v in
      (
        answer ∙ ap (λ w. (wake_waiting w).0) e,
        after ∙ rw (==_self id.value) (ap (λ w. (wake_waiting w).1) e),
      )

  -- On a valid store, a task of which nothing is known is given back once by a park and a wake of its id, in
  -- whichever order these come, and whatever is done to other ids in between: to the waker if it
  -- comes second, to the parker if the wake came first. Then nothing is known of the id again.
  pub no_lost_wake :
      (p : Parked T) (id : TaskId) (t : T) (ops : List (Op T))
      → IsValid p
      → view p id.value ≡ idle
      → All (IsElsewhere id.value) ops
      → let asleep_then = run (park p id t).1 ops in
        let woken_then = run (wake p id).1 ops in
        ((park p id t).0 ≡ none)
        × ((wake asleep_then id).0 ≡ some t)
        × (view (wake asleep_then id).1 id.value ≡ idle)
        × ((wake p id).0 ≡ none)
        × ((park woken_then id t).0 ≡ some t)
        × (view (park woken_then id t).1 id.value ≡ idle)
  no_lost_wake p id t ops v start others =
      let (parked, asleep_now) = park_own p id t idle v start in
      let (early, woken_now) = wake_own p id idle v start in
      let asleep_later =
        run-elsewhere (park p id t).1 id.value ops (park-IsValid p id t v) others ∙ asleep_now in
      let woken_later =
        run-elsewhere (wake p id).1 id.value ops (wake-IsValid p id v) others ∙ woken_now in
      let (given, idle_again) =
        wake_own (run (park p id t).1 ops) id (asleep t) (run-IsValid _ ops (park-IsValid p id t v))
          asleep_later in
      let (back, idle_too) =
        park_own (run (wake p id).1 ops) id t woken (run-IsValid _ ops (wake-IsValid p id v))
          woken_later in
      (parked, given, idle_again, early, back, idle_too)

  -- Whatever is done to a fresh store, `count` is the number of tasks that wait, and no id is both
  -- parked and woken early.
  pub new-IsValid : (ops : List (Op T)) → IsValid (run new ops)
  unfolding lookup
  new-IsValid ops = run-IsValid new ops (record { counted = refl; disjoint = λ k h. refl })
