-- ===== src/Queue/Draining.antt =====
-- The queue drains: whatever it holds, starts and settlements empty it.
use willy.Prelude.{
  ℕ, zero, suc, ◌+◌, ◌*◌, length, ◌-◌, ◌≤◌, ◌<◌, ◌≡◌, inl, inr, refl, Bool, true, false, none, some,
  List, [], ◌∷◌, ltb, find, count, arith, All, Bool-cases, Option-cases,
}
use willy.Queue.{
  Job, Phase, BuildQueue, Event, enqueue, start, settle, is_running, is_queued, is_job, is_ready,
  set_phase, drop_job, acquire, wake, release, step, run,
}
use willy.Queue.Counts.{count-set_phase, bit, count-drop_job, ready-find}
use willy.Queue.Invariant.{IsValid, step-IsValid}
use willy.Queue.Progress.{IsOwn, progress}

-- A job has two steps before it when it is queued, and one from then on.
abbrev any_job : Job → Bool
any_job j = true

abbrev work : BuildQueue → ℕ
work q = count any_job q.jobs + count (λ j. is_queued j.phase) q.jobs

count-running_le :
    (k : ℕ) (jobs : List Job)
    → (count any_job (set_phase k Phase.running jobs) ≡ count any_job jobs)
      × (count (λ j. is_queued j.phase) (set_phase k Phase.running jobs)
          ≤ count (λ j. is_queued j.phase) jobs)
unfolding set_phase
count-running_le k [] = (refl, omega arith)
count-running_le k (j ∷ jobs) =
    let (same, fewer) = count-running_le k jobs in (ground (arith, same), ground (arith, fewer))

wake_le :
    (ws : List ℕ) (q : BuildQueue)
    → (work (wake ws q) ≤ work q) × ((wake ws q).max_concurrent ≡ q.max_concurrent)
unfolding wake
wake_le [] q = (omega arith, refl)
wake_le (k ∷ ws) q = let (same, fewer) = count-running_le k q.jobs in (omega arith, refl)

acquire_lt :
    (k : ℕ) (q : BuildQueue)
    → is_ready k q.jobs [] ≡ true
    → (work (acquire k q) < work q) × ((acquire k q).max_concurrent ≡ q.max_concurrent)
unfolding acquire
acquire_lt k q h =
    let (j, found, unstarted, _) = ready-find k q.jobs [] h in
    elim (Bool-cases (ltb q.active q.max_concurrent)) [
      | inl free ↦ rw free (
        omega (
          arith,
          one j unstarted,
          count-set_phase (λ i. is_queued i.phase) k Phase.running q.jobs j found,
          count-set_phase any_job k Phase.running q.jobs j found,
        ),
        refl,
      )
      | inr full ↦ rw full (
        omega (
          arith,
          one j unstarted,
          count-set_phase (λ i. is_queued i.phase) k Phase.waiting q.jobs j found,
          count-set_phase any_job k Phase.waiting q.jobs j found,
        ),
        refl,
      )
    ]
  where
    one : (j : Job) → j.phase ≡ Phase.queued → bit (is_queued j.phase) ≡ 1
    one j e = rw e refl

release_lt :
    (k : ℕ) (q : BuildQueue) (j : Job)
    → find (is_job k) q.jobs ≡ some j
    → (work (release (record q { jobs = drop_job k q.jobs })) < work q)
      × ((release (record q { jobs = drop_job k q.jobs })).max_concurrent ≡ q.max_concurrent)
unfolding release
release_lt k q j h =
    let (less, same) =
      wake_le q.waiters (record q { active = q.active - 1; jobs = drop_job k q.jobs }) in
    (
      omega (
        arith,
        less,
        count-drop_job any_job k q.jobs j h,
        count-drop_job (λ i. is_queued i.phase) k q.jobs j h,
      ),
      same,
    )

-- A start or a settlement leaves less work, and the limit as it is.
step_lt :
    (e : Event) (q q' : BuildQueue)
    → IsOwn e
    → step e q ≡ some q'
    → (work q' < work q) × (q'.max_concurrent ≡ q.max_concurrent)
unfolding step
step_lt (enqueue k d) q q' own h = absurd own
step_lt (start k) q q' own h = elim (Bool-cases (is_ready k q.jobs [])) [
  | inl ready ↦ let e : acquire k q ≡ q' = ground arith in rw (← e) (acquire_lt k q ready)
  | inr early ↦ absurd (ground arith)
]
step_lt (settle k) q q' own h = elim (Option-cases (find (is_job k) q.jobs)) [
  | inl missing ↦ absurd (ground arith)
  | inr (j, found) ↦ elim (Bool-cases (is_running j.phase)) [
    | inl going ↦
        let e : release (record q { jobs = drop_job k q.jobs }) ≡ q' = ground arith in
        rw (← e) (release_lt k q j found)
    | inr idle ↦ absurd (ground arith)
  ]
]

-- What a queue drained by its own steps has gone through.
abbrev pub Drains : BuildQueue → Type 0
Drains q =
    (events : List Event) × All IsOwn events
    × (q' : BuildQueue) × (run events q ≡ some q')
    × (q'.jobs ≡ [])

run-step :
    (e : Event) (events : List Event) (q next q' : BuildQueue)
    → step e q ≡ some next
    → run events next ≡ some q'
    → run (e ∷ events) q ≡ some q'
unfolding run
run-step e events q next q' taken reached = rw (taken, run) reached

work-Drains :
    (fuel : ℕ) (q : BuildQueue)
    → work q ≤ fuel
    → IsValid q
    → 0 < q.max_concurrent
    → (jobs : List Job) → q.jobs ≡ jobs
    → Drains q
unfolding run
work-Drains fuel q enough v slots [] none_left = ([], tt, q, refl, none_left)
work-Drains zero q enough v slots (j ∷ jobs) some_left =
    let w : 1 ≤ work q = rw some_left (omega arith) in absurd (omega arith)
work-Drains (suc fuel) q enough v slots (j ∷ jobs) some_left =
    let (e, own, possible) = progress q v slots (λ h. cc (h, some_left)) in
    elim (Option-cases (step e q)) [
      | inl stuck ↦ let bad : false ≡ true = rw stuck at possible in absurd (cc bad)
      | inr (next, taken) ↦
          let (less, same) = step_lt e q next own taken in
          let (events, owns, q', reached, empty) =
            work-Drains fuel next (omega (arith, less)) (step-IsValid e q next v taken)
              (omega (arith, same)) next.jobs refl in
          (e ∷ events, (own, owns), q', run-step e events q next q' taken reached, empty)
    ]

-- Steps of its own that a queue can take are two for each job at most.
abbrev pub IsBounded : BuildQueue → Type 0
IsBounded q =
    (events : List Event) (q' : BuildQueue)
    → All IsOwn events
    → run events q ≡ some q'
    → length events ≤ 2 * length q.jobs

work_le :
    (jobs : List Job) → count any_job jobs + count (λ j. is_queued j.phase) jobs ≤ 2 * length jobs
work_le [] = omega arith
work_le (j ∷ jobs) = ground (arith, work_le jobs)

events_le :
    (events : List Event) (q q' : BuildQueue)
    → All IsOwn events
    → run events q ≡ some q'
    → length events ≤ work q
unfolding run
events_le [] q q' own h = omega arith
events_le (e ∷ events) q q' (own, owns) h = elim (Option-cases (step e q)) [
  | inl stuck ↦ let bad : none ≡ some q' = rw (stuck, run) at h in absurd (cc bad)
  | inr (next, taken) ↦
      let rest : run events next ≡ some q' = rw (taken, run) at h in
      let (less, _) = step_lt e q next own taken in
      omega (arith, less, events_le events next q' owns rest)
]

-- From every valid queue with a positive limit, some starts and settlements lead to an empty one, and no
-- sequence of them is longer than twice the number of jobs.
pub drains : (q : BuildQueue) → IsValid q → 0 < q.max_concurrent → Drains q × IsBounded q
drains q v slots = (
  work-Drains (work q) q (omega arith) v slots q.jobs refl,
  λ events q' owns reached. omega (arith, events_le events q q' owns reached, work_le q.jobs),
)
