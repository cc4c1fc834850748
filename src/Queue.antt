-- ===== src/Queue.antt =====
-- backend/src/build/build-queue.ts: the in-process build queue, as a machine whose events are the
-- points at which the source runs: a call of `enqueue`, the start of a job whose predecessor in its
-- deployment's promise chain has settled (`runWithLimit`), and the end of its task.
pub mod Counts
pub mod Invariant
pub mod Progress
pub mod Draining
mod Tests
use willy.Prelude.{
  ℕ, zero, suc, ◌+◌, ◌-◌, ◌≡◌, Bool, true, false, not, ◌&&◌, Option, none, some, List, [], ◌∷◌,
  ◌++◌, ◌==◌, ltb, if◌then◌else◌, find, any,
}

-- `queued`: behind the chain's previous promise; `waiting`: in `waiters`; `running`: the task runs.
pub data Phase : Type 0 where
  queued waiting running : Phase

pub record Job : Type 0 where
  pub id : ℕ
  pub deployment : ℕ
  pub phase : Phase

pub record BuildQueue : Type 0 where
  pub max_concurrent : ℕ
  pub active : ℕ
  pub waiters : List ℕ
  pub jobs : List Job

pub data Event : Type 0 where
  enqueue : ℕ → ℕ → Event
  start settle : ℕ → Event

abbrev pub is_queued : Phase → Bool
is_queued Phase.queued = true
is_queued _ = false

abbrev pub is_waiting : Phase → Bool
is_waiting Phase.waiting = true
is_waiting _ = false

abbrev pub is_running : Phase → Bool
is_running Phase.running = true
is_running _ = false

abbrev pub is_job : ℕ → Job → Bool
is_job k j = j.id == k

pub set_phase : ℕ → Phase → List Job → List Job
set_phase k phase [] = []
set_phase k phase (j ∷ jobs) =
    if j.id == k then record j { phase = phase } ∷ jobs else j ∷ set_phase k phase jobs

pub drop_job : ℕ → List Job → List Job
drop_job k [] = []
drop_job k (j ∷ jobs) = if j.id == k then jobs else j ∷ drop_job k jobs

-- `enqueue`: the job goes behind the deployment's tail.
pub add_job : ℕ → ℕ → BuildQueue → BuildQueue
add_job k deployment q = record q {
  jobs = q.jobs ++ record { id = k; deployment = deployment; phase = Phase.queued } ∷ [];
}

-- `acquire`
pub acquire : ℕ → BuildQueue → BuildQueue
unfolding set_phase
acquire k q =
    if ltb q.active q.max_concurrent
    then record q { active = q.active + 1; jobs = set_phase k Phase.running q.jobs }
    else record q { waiters = q.waiters ++ k ∷ []; jobs = set_phase k Phase.waiting q.jobs }

-- `this.waiters.shift()`, and the call of what it returns.
pub wake : List ℕ → BuildQueue → BuildQueue
unfolding set_phase
wake [] q = q
wake (k ∷ waiters) q = record q {
  active = q.active + 1;
  waiters = waiters;
  jobs = set_phase k Phase.running q.jobs;
}

-- `release`
pub release : BuildQueue → BuildQueue
unfolding wake
release q = wake q.waiters (record q { active = q.active - 1 })

-- Whether the job is the first of its deployment's chain that has not settled, and has not started.
pub is_ready : ℕ → List Job → List ℕ → Bool
is_ready k [] earlier = false
is_ready k (j ∷ jobs) earlier =
    let rest = is_ready k jobs (j.deployment ∷ earlier) in
    if j.id == k then is_queued j.phase && not (any (λ d. d == j.deployment) earlier) else rest

-- The job's task may settle while it runs.
abbrev pub runs : Option Job → Bool
runs none = false
runs (some j) = is_running j.phase

pub step : Event → BuildQueue → Option BuildQueue
unfolding add_job acquire release is_ready drop_job
step (enqueue k deployment) q =
    if any (is_job k) q.jobs then none else some (add_job k deployment q)
step (start k) q = if is_ready k q.jobs [] then some (acquire k q) else none
step (settle k) q =
    if runs (find (is_job k) q.jobs)
    then some (release (record q { jobs = drop_job k q.jobs }))
    else none

pub run : List Event → BuildQueue → Option BuildQueue
unfolding step
run [] q = some q
run (e ∷ events) q = elim (step e q) [ none ↦ none | some q' ↦ run events q' ]

-- The queue of a fresh process; `maxConcurrent` is the configured number, or 2.
pub new_queue : Option ℕ → BuildQueue
new_queue none = record { max_concurrent = 2; active = 0; waiters = []; jobs = [] }
new_queue (some n) = record { max_concurrent = n; active = 0; waiters = []; jobs = [] }
