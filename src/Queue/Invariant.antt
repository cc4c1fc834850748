-- ===== src/Queue/Invariant.antt =====
-- The invariant of the build queue, kept by every event.
use willy.Prelude.{
  ℕ, ◌+◌, ◌-◌, ◌≤◌, ◌≡◌, ◌⊎◌, inl, inr, refl, Bool, true, false, ◌&&◌, Option, none, some, List, [],
  ◌∷◌, ◌++◌, ◌==◌, ltb, find, any, count, arith, Bool-cases, Option-cases, ◌∙◌,
}
use willy.Prelude.Counting.{count-any}
use willy.Queue.{
  Phase, Job, BuildQueue, Event, enqueue, start, settle, is_waiting, is_running, is_job, drop_job,
  add_job, acquire, wake, release, is_ready, step, run, new_queue,
}
use willy.Queue.Counts.{
  bit, count-set_phase, count-drop_job, find-is_job, count-append, count-find, ready-find, busy_in,
  IsSerial, start-IsSerial, wake-IsSerial, drop-IsSerial, append-IsSerial, serial_one,
}

abbrev pub in_flight : Job → Bool
in_flight j = is_running j.phase

abbrev pub waits_as : ℕ → Job → Bool
waits_as k j = is_job k j && is_waiting j.phase

pub record IsValid (q : BuildQueue) : Type 0 where
  pub counted : count in_flight q.jobs ≡ q.active
  pub bounded : q.active ≤ q.max_concurrent
  pub saturated : (q.waiters ≡ []) ⊎ (q.active ≡ q.max_concurrent)
  pub waiting_jobs : (k : ℕ) → count (λ w. w == k) q.waiters ≡ count (waits_as k) q.jobs
  pub unique_ids : (k : ℕ) → count (is_job k) q.jobs ≤ 1
  pub serial : IsSerial q.jobs

waiters-append :
    (k w : ℕ) (ws : List ℕ)
    → count (λ x. x == k) (ws ++ w ∷ []) ≡ count (λ x. x == k) ws + bit (w == k)
waiters-append k w [] = ground arith
waiters-append k w (x ∷ ws) = ground (arith, waiters-append k w ws)

-- `wake` where the slots in use and the running jobs agree; a slot is free if a job waits.
wake-IsValid :
    (ws : List ℕ) (q : BuildQueue)
    → count in_flight q.jobs ≡ q.active
    → (ws ≡ []) ⊎ (q.active + 1 ≡ q.max_concurrent)
    → q.active ≤ q.max_concurrent
    → q.waiters ≡ ws
    → ((k : ℕ) → count (λ w. w == k) ws ≡ count (waits_as k) q.jobs)
    → ((k : ℕ) → count (is_job k) q.jobs ≤ 1)
    → IsSerial q.jobs
    → IsValid (wake ws q)
unfolding wake
wake-IsValid [] q counted slot bounded same waiting unique serial = record {
  counted = counted;
  bounded = bounded;
  saturated = inl same;
  waiting_jobs = λ k. rw same (waiting k);
  unique_ids = unique;
  serial = serial;
}
wake-IsValid (w ∷ ws) q counted slot bounded same waiting unique serial =
    let (j, found, waits) =
      count-find w (λ j. is_waiting j.phase) q.jobs (ground (arith, waiting w)) (unique w) in
    let own : j.id ≡ w = find-is_job w q.jobs j found in
    let full : q.active + 1 ≡ q.max_concurrent = ground (arith, slot) in
    record {
      counted = ground (arith, count-set_phase in_flight w Phase.running q.jobs j found, counted);
      bounded = omega arith;
      saturated = inr full;
      waiting_jobs = λ k. ground (
        arith,
        waiting k,
        count-set_phase (waits_as k) w Phase.running q.jobs j found,
        own,
        waits,
      );
      unique_ids =
          λ k. ground (arith, unique k, count-set_phase (is_job k) w Phase.running q.jobs j found);
      serial = wake-IsSerial w q.jobs j found (ground arith) serial;
    }

acquire-IsValid :
    (k : ℕ) (q : BuildQueue) → IsValid q → is_ready k q.jobs [] ≡ true → IsValid (acquire k q)
unfolding acquire
acquire-IsValid k q v ready =
    let (j, found, unstarted, _) = ready-find k q.jobs [] ready in
    let own : j.id ≡ k = find-is_job k q.jobs j found in
    elim (Bool-cases (ltb q.active q.max_concurrent)) [
      | inl free ↦ rw free (record {
        counted =
            ground (arith, count-set_phase in_flight k Phase.running q.jobs j found, v.counted);
        bounded = ground arith;
        saturated = ground (arith, v.saturated);
        waiting_jobs = λ i.
            ground (
              arith,
              v.waiting_jobs i,
              count-set_phase (waits_as i) k Phase.running q.jobs j found,
            );
        unique_ids = λ i.
            ground
              (arith, v.unique_ids i, count-set_phase (is_job i) k Phase.running q.jobs j found);
        serial = start-IsSerial k Phase.running q.jobs [] ready v.serial;
      })
      | inr full ↦ rw full (record {
        counted =
            ground (arith, count-set_phase in_flight k Phase.waiting q.jobs j found, v.counted);
        bounded = v.bounded;
        saturated = inr (ground (arith, v.bounded));
        waiting_jobs = λ i. ground (
          arith,
          v.waiting_jobs i,
          count-set_phase (waits_as i) k Phase.waiting q.jobs j found,
          waiters-append i k q.waiters,
          own,
        );
        unique_ids = λ i.
            ground
              (arith, v.unique_ids i, count-set_phase (is_job i) k Phase.waiting q.jobs j found);
        serial = start-IsSerial k Phase.waiting q.jobs [] ready v.serial;
      })
    ]

settle-IsValid :
    (k : ℕ) (q : BuildQueue) (j : Job)
    → IsValid q
    → find (is_job k) q.jobs ≡ some j
    → is_running j.phase ≡ true
    → IsValid (release (record q { jobs = drop_job k q.jobs }))
unfolding release
settle-IsValid k q j v found going =
    let one_less : count in_flight (drop_job k q.jobs) ≡ q.active - 1 =
      ground (arith, count-drop_job in_flight k q.jobs j found, v.counted) in
    let some_active : 1 ≤ q.active =
      ground (arith, count-drop_job in_flight k q.jobs j found, v.counted) in
    wake-IsValid q.waiters (record q { active = q.active - 1; jobs = drop_job k q.jobs }) one_less
      (slot v.saturated some_active) (omega (arith, v.bounded)) refl
      (λ i. ground (arith, v.waiting_jobs i, count-drop_job (waits_as i) k q.jobs j found))
      (λ i. omega (arith, v.unique_ids i, count-drop_job (is_job i) k q.jobs j found))
      (drop-IsSerial k q.jobs v.serial)
  where
    slot :
        (q.waiters ≡ []) ⊎ (q.active ≡ q.max_concurrent)
        → 1 ≤ q.active
        → (q.waiters ≡ []) ⊎ (q.active - 1 + 1 ≡ q.max_concurrent)
    slot (inl none_waits) h = inl none_waits
    slot (inr full) h = inr (omega arith)

add_job-IsValid :
    (k d : ℕ) (q : BuildQueue) → IsValid q → any (is_job k) q.jobs ≡ false → IsValid (add_job k d q)
unfolding add_job
add_job-IsValid k d q v fresh =
    let j : Job = record { id = k; deployment = d; phase = Phase.queued } in
    record {
      counted = ground (arith, count-append in_flight q.jobs j, v.counted);
      bounded = v.bounded;
      saturated = v.saturated;
      waiting_jobs = λ i. ground (arith, v.waiting_jobs i, count-append (waits_as i) q.jobs j);
      unique_ids = λ i. ground (
        arith,
        v.unique_ids i,
        count-append (is_job i) q.jobs j,
        count-any (is_job k) q.jobs fresh,
      );
      serial = append-IsSerial j q.jobs refl v.serial;
    }

pub step-IsValid : (e : Event) (q q' : BuildQueue) → IsValid q → step e q ≡ some q' → IsValid q'
unfolding step
step-IsValid (enqueue k d) q q' v h = elim (Bool-cases (any (is_job k) q.jobs)) [
  | inl known ↦ absurd (ground arith)
  | inr fresh ↦
      let e : add_job k d q ≡ q' = ground arith in rw (← e) (add_job-IsValid k d q v fresh)
]
step-IsValid (start k) q q' v h = elim (Bool-cases (is_ready k q.jobs [])) [
  | inl ready ↦ let e : acquire k q ≡ q' = ground arith in rw (← e) (acquire-IsValid k q v ready)
  | inr early ↦ absurd (ground arith)
]
step-IsValid (settle k) q q' v h = elim (Option-cases (find (is_job k) q.jobs)) [
  | inl missing ↦ absurd (ground arith)
  | inr (j, found) ↦ elim (Bool-cases (is_running j.phase)) [
    | inl going ↦
        let e : release (record q { jobs = drop_job k q.jobs }) ≡ q' = ground arith in
        rw (← e) (settle-IsValid k q j v found going)
    | inr idle ↦ absurd (ground arith)
  ]
]

pub run-IsValid :
    (events : List Event) (q q' : BuildQueue) → IsValid q → run events q ≡ some q' → IsValid q'
unfolding run
run-IsValid [] q q' v h = let e : q ≡ q' = ground arith in rw (← e) v
run-IsValid (e ∷ events) q q' v h = elim (Option-cases (step e q)) [
  | inl refused ↦ absurd (ground arith)
  | inr (next, moved) ↦
      run-IsValid events next q' (step-IsValid e q next v moved) (rw (moved, run) at h)
]

pub new_queue-IsValid : (limit : Option ℕ) → IsValid (new_queue limit)
unfolding new_queue
new_queue-IsValid none = record {
  counted = refl;
  bounded = omega arith;
  saturated = inl refl;
  waiting_jobs = λ k. refl;
  unique_ids = λ k. omega arith;
  serial = tt;
}
new_queue-IsValid (some n) = record {
  counted = refl;
  bounded = omega arith;
  saturated = inl refl;
  waiting_jobs = λ k. refl;
  unique_ids = λ k. omega arith;
  serial = tt;
}

count-le :
    (d : ℕ) (jobs : List Job)
    → count (λ j. j.deployment == d && is_running j.phase) jobs ≤ count (busy_in d) jobs
count-le d [] = omega arith
count-le d (j ∷ jobs) = ground (arith, count-le d jobs)

wake-max : (ws : List ℕ) (q : BuildQueue) → (wake ws q).max_concurrent ≡ q.max_concurrent
unfolding wake
wake-max [] q = refl
wake-max (w ∷ ws) q = refl

same-max :
    (e : Event) (q q' : BuildQueue) → step e q ≡ some q' → q'.max_concurrent ≡ q.max_concurrent
unfolding step add_job acquire release
same-max (enqueue k d) q q' h = ground arith
same-max (start k) q q' h = ground arith
same-max (settle k) q q' h =
    ground
      (arith, wake-max q.waiters (record q { active = q.active - 1; jobs = drop_job k q.jobs }))

run-max :
    (events : List Event) (q q' : BuildQueue)
    → run events q ≡ some q'
    → q'.max_concurrent ≡ q.max_concurrent
unfolding run
run-max [] q q' h = ground arith
run-max (e ∷ events) q q' h = elim (Option-cases (step e q)) [
  | inl refused ↦ absurd (ground arith)
  | inr (next, moved) ↦ run-max events next q' (rw (moved, run) at h) ∙ same-max e q next moved
]

-- Whatever the order of calls, starts and ends: at most `limit` builds run at once, no deployment
-- builds concurrently with itself, and a job waits for a slot only while all slots are in use.
pub run_limits :
    (limit : ℕ) (events : List Event) (q : BuildQueue)
    → run events (new_queue (some limit)) ≡ some q
    → (count in_flight q.jobs ≤ limit)
      × ((d : ℕ) → count (λ j. j.deployment == d && is_running j.phase) q.jobs ≤ 1)
      × ((q.waiters ≡ []) ⊎ (count in_flight q.jobs ≡ limit))
unfolding new_queue
run_limits limit events q h =
    let v = run-IsValid events _ q (new_queue-IsValid (some limit)) h in
    let m = run-max events _ q h in
    (
      ground (arith, v.counted, v.bounded, m),
      (λ d. omega (arith, count-le d q.jobs, serial_one d q.jobs v.serial)),
      ground (arith, v.saturated, v.counted, m),
    )
