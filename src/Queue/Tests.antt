-- ===== src/Queue/Tests.antt =====
-- A schedule of the build queue, and instances of the theorems.
use willy.Prelude.{ℕ, ◌≤◌, ◌≡◌, ◌⊎◌, refl, ◌&&◌, none, some, List, [], ◌∷◌, ◌==◌, count, arith}
use willy.Queue.{Phase, BuildQueue, Event, enqueue, start, is_running, step, run, new_queue}
use willy.Queue.Invariant.{in_flight, run-IsValid, new_queue-IsValid, run_limits}
use willy.Queue.Draining.{Drains, IsBounded, drains}

-- One slot, two jobs of a deployment and one of another, which has to wait for the slot.
abbrev schedule : List Event
schedule = enqueue 1 7 ∷ enqueue 2 7 ∷ enqueue 3 8 ∷ start 1 ∷ start 3 ∷ []

abbrev busy_queue : BuildQueue
busy_queue = record {
  max_concurrent = 1;
  active = 1;
  waiters = 3 ∷ [];
  jobs =
      record { id = 1; deployment = 7; phase = Phase.running }
      ∷ record { id = 2; deployment = 7; phase = Phase.queued }
      ∷ record { id = 3; deployment = 8; phase = Phase.waiting }
      ∷ [];
}

reached : run schedule (new_queue (some 1)) ≡ some busy_queue
unfolding run new_queue
reached = refl

-- The second job of a deployment cannot start while the first runs.
held_back : step (start 2) busy_queue ≡ none
unfolding step
held_back = refl

run_limits_example :
    (count in_flight busy_queue.jobs ≤ 1)
    × ((d : ℕ) → count (λ j. j.deployment == d && is_running j.phase) busy_queue.jobs ≤ 1)
    × ((busy_queue.waiters ≡ []) ⊎ (count in_flight busy_queue.jobs ≡ 1))
run_limits_example = run_limits 1 schedule busy_queue reached

drains_example : Drains busy_queue × IsBounded busy_queue
drains_example =
    drains busy_queue
      (run-IsValid schedule (new_queue (some 1)) busy_queue (new_queue-IsValid (some 1)) reached)
      (omega arith)
