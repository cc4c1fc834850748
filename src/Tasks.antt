-- ===== src/Tasks.antt =====
-- backend/src/tasks/tasks.service.ts: the activity tasks that mirror the long operations. A statement
-- on the table is its meaning on the list of its rows, newest first; `now` is the clock it reads.
pub mod Closing
mod Tests
use willy.Prelude.{
  ℕ, Bool, true, false, not, Option, none, some, List, [], ◌∷◌, ◌==◌, if◌then◌else◌, find, take,
  filter, ltb, ◌&&◌, update_where, delete_where, Result, ok, err, Error,
}

pub data TaskStatus : Type 0 where
  pending running success failed : TaskStatus

pub data TaskKind : Type 0 where
  deploy_task backup_task restore_task offsite_push_task volume_reset_task : TaskKind

pub record Task : Type 0 where
  pub id : ℕ
  pub kind : TaskKind
  pub deployment_id : Option ℕ
  pub status : TaskStatus
  pub progress : Option ℕ
  pub error : Option Error
  pub started_at : Option ℕ
  pub finished_at : Option ℕ

-- The test of `ACTIVE_STATUSES`.
abbrev pub is_active : TaskStatus → Bool
is_active TaskStatus.pending = true
is_active TaskStatus.running = true
is_active TaskStatus.success = false
is_active TaskStatus.failed = false

abbrev pub is_task : ℕ → Task → Bool
is_task id t = t.id == id

abbrev pub active_task : Task → Bool
active_task t = is_active t.status

abbrev pub create : ℕ → TaskKind → Option ℕ → Option ℕ → List Task → List Task
create new_id kind deployment_id progress rows =
    record {
      id = new_id;
      kind = kind;
      deployment_id = deployment_id;
      status = TaskStatus.pending;
      progress = progress;
      error = none;
      started_at = none;
      finished_at = none;
    }
    ∷ rows

abbrev pub start : ℕ → ℕ → List Task → List Task
start now id rows =
    update_where (is_task id) (λ t. record t { status = TaskStatus.running; started_at = some now })
      rows

-- `Math.max(0, Math.min(100, …))`, on whole numbers.
abbrev pub set_progress : ℕ → ℕ → List Task → List Task
set_progress id progress rows =
    update_where (is_task id)
      (λ t. record t { progress = some (if ltb 100 progress then 100 else progress) }) rows

abbrev pub succeed : ℕ → ℕ → List Task → List Task
succeed now id rows =
    update_where (is_task id)
      (λ t. record t { status = TaskStatus.success; progress = some 100; finished_at = some now })
      rows

abbrev pub fail : ℕ → ℕ → Error → List Task → List Task
fail now id reason rows =
    update_where (is_task id)
      (λ t. record t { status = TaskStatus.failed; error = some reason; finished_at = some now })
      rows

-- The end of `track`: `succeed`, or `fail` and the exception thrown again.
abbrev pub close_task {ℓ} : {A : Type ℓ} → ℕ → ℕ → Result A × List Task → Result A × List Task
close_task now id (ok result, after) = (ok result, succeed now id after)
close_task now id (err e, after) = (err e, fail now id e after)

-- `track`: the work reads the tasks with its own among them, and may change them.
pub track {ℓ} :
    {A : Type ℓ}
    → ℕ
    → ℕ
    → TaskKind
    → Option ℕ
    → (List Task → Result A × List Task)
    → List Task
    → Result A × List Task
track now new_id kind deployment_id work rows =
    close_task now new_id (work (start now new_id (create new_id kind deployment_id none rows)))

-- The class of the message "Interrupted by restart".
pub mark_interrupted : ℕ → Error → List Task → List Task
mark_interrupted now reason rows =
    update_where active_task
      (λ t. record t { status = TaskStatus.failed; error = some reason; finished_at = some now })
      rows

pub clear : ℕ → List Task → Result (List Task)
clear id rows = elim (find (is_task id) rows) [
  | none ↦ err Error.not_found
  | some row ↦
      if is_active row.status then err Error.conflict else ok (delete_where (is_task id) rows)
]

pub clear_finished : List Task → List Task
clear_finished rows = delete_where (λ t. not (is_active t.status)) rows

-- `deploymentId ? eq(…) : undefined`
abbrev pub in_scope : Option ℕ → Task → Bool
in_scope none t = true
in_scope (some d) t = elim t.deployment_id [ none ↦ false | some d' ↦ d' == d ]

pub list_active : Option ℕ → List Task → List Task
list_active deployment_id rows = filter (λ t. is_active t.status && in_scope deployment_id t) rows

pub list_recent : Option ℕ → List Task → List Task
list_recent deployment_id rows = take 50 (filter (in_scope deployment_id) rows)
