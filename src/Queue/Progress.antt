-- ===== src/Queue/Progress.antt =====
-- The queue never gets stuck: while a job is left, one can start or a running one can settle.
use willy.Prelude.{
  ℕ, ◌≤◌, ◌<◌, ◌≡◌, ◌≢◌, inl, inr, refl, true, ◌&&◌, some, List, [], ◌∷◌, ◌==◌, find, count, arith,
  Bool-cases, is_some,
}
use willy.Queue.{Job, BuildQueue, Event, enqueue, start, settle, is_running, is_job, is_ready, step}
use willy.Queue.Counts.{count-find, is_busy}
use willy.Queue.Invariant.{IsValid, in_flight, waits_as}

-- A running job of the list, by its id.
find-running :
    (jobs : List Job)
    → 1 ≤ count in_flight jobs
    → (k : ℕ) × (1 ≤ count (λ j. is_job k j && is_running j.phase) jobs)
find-running [] h = absurd (omega arith)
find-running (j ∷ jobs) h = elim (Bool-cases (is_running j.phase)) [
  | inl going ↦ (j.id, ground arith)
  | inr idle ↦ let (k, later) = find-running jobs (ground arith) in (k, ground arith)
]

waits-queued :
    (jobs : List Job)
    → ((k : ℕ) → count (waits_as k) jobs ≡ 0)
    → count in_flight jobs ≡ 0
    → count is_busy jobs ≡ 0
waits-queued [] h z = omega arith
waits-queued (j ∷ jobs) h z = ground (arith, h j.id, waits-queued jobs (λ k. ground (arith, h k)))

-- Where nothing runs and nothing waits for a slot, the first job may start.
first-ready :
    (j : Job) (jobs : List Job) → count is_busy (j ∷ jobs) ≡ 0 → is_ready j.id (j ∷ jobs) [] ≡ true
unfolding is_ready
first-ready j jobs h = ground arith

start-some :
    (k : ℕ) (q : BuildQueue) → is_ready k q.jobs [] ≡ true → is_some (step (start k) q) ≡ true
unfolding step
start-some k q h = rw h

settle-some :
    (k : ℕ) (q : BuildQueue) (j : Job)
    → find (is_job k) q.jobs ≡ some j
    → is_running j.phase ≡ true
    → is_some (step (settle k) q) ≡ true
unfolding step
settle-some k q j h g = rw (h, g)

-- A step that the queue takes by itself: nothing is enqueued.
abbrev pub IsOwn : Event → Type 0
IsOwn (enqueue k d) = ⊥
IsOwn (start k) = Unit
IsOwn (settle k) = Unit

first-start :
    (q : BuildQueue) (jobs : List Job)
    → q.jobs ≡ jobs
    → jobs ≢ []
    → count is_busy jobs ≡ 0
    → (e : Event) × IsOwn e × (is_some (step e q) ≡ true)
first-start q [] same left z = absurd (left refl)
first-start q (j ∷ jobs) same left z =
    (start j.id, tt, start-some j.id q (rw same (first-ready j jobs z)))

-- With a positive limit and a job left, a job can start or a running one can settle.
pub progress :
    (q : BuildQueue)
    → IsValid q
    → 0 < q.max_concurrent
    → q.jobs ≢ []
    → (e : Event) × IsOwn e × (is_some (step e q) ≡ true)
progress q v slots left = elim (Bool-cases (q.active == 0)) [
  | inr going ↦
      let (k, one) = find-running q.jobs (ground (arith, v.counted)) in
      let (j, found, runs_now) =
        count-find k (λ j. is_running j.phase) q.jobs one (v.unique_ids k) in
      (settle k, tt, settle-some k q j found runs_now)
  | inl idle ↦
      let none_waits : q.waiters ≡ [] = ground (arith, v.saturated) in
      first-start q q.jobs refl left (
        waits-queued q.jobs (λ k. ground (arith, v.waiting_jobs k, none_waits))
          (ground (arith, v.counted)))
]
