-- ===== src/Backups.antt =====
-- backend/src/backups: the backups of volumes, the work that is queued for them, and their retention.
-- This file has the state and BackupsService. Docker, the artifacts' directory and the offsite drivers
-- are the record `Outside`, whose answers depend on the clock, which every call moves on.
pub mod Jobs
pub mod Pruning
pub mod Closing
pub mod Mirroring
pub mod Restarts
pub mod Schedules
pub mod Registry
mod Tests
use willy.Prelude.{
  ℕ, suc, ◌+◌, ◌≡◌, Bool, true, false, not, ◌&&◌, ◌||◌, Option, none, some, List, [], ◌∷◌, ◌++◌,
  ◌==◌, ltb, if◌then◌else◌, find, filter, drop, is_some, update_where, delete_where, sort_by, Text,
  codes, text_eq, to_decimal, Result, ok, err, Error, contains,
}
use willy.Prelude.Effects.{
  Run, pass_on, ◌>>=◌, ◌>>◌, pure, throw, get, modify, try_catch, handle, throw_if, from_result,
}
use willy.Tasks.{Task, TaskKind}
use willy.Tasks

pub data BackupStatus : Type 0 where
  pending running success failed : BackupStatus

pub data BackupKind : Type 0 where
  volume_tar s3_sync : BackupKind

pub record Backup : Type 0 where
  pub id : ℕ
  pub kind : BackupKind
  pub target : Option Text
  pub deployment_id : Option ℕ
  pub status : BackupStatus
  pub location : Option Text
  pub size_bytes : Option ℕ
  pub checksum : Option Text
  pub offsite_url : Option Text
  pub error : Option Error
  pub created_at : ℕ
  pub started_at : Option ℕ
  pub finished_at : Option ℕ

-- What a queued function does.
pub data Work : Type 0 where
  tar_volume : ℕ → Text → Work
  push_file : ℕ → Text → ℕ → Work
  rewrite_volume : ℕ → Text → Option Text → Work
  prune : Text → ℕ → Work

-- A queued function, under its key, with the task that mirrors it.
pub record Queued : Type 0 where
  pub key : Text
  pub task : Option ℕ
  pub work : Work

-- The tables, the queue, the artifacts on disk, the running containers and the clock.
pub record Depot : Type 0 where
  pub backups : List Backup
  pub tasks : List Task
  pub queue : List Queued
  pub files : List Text
  pub running : List ℕ
  pub clock : ℕ

pub record Outside : Type 0 where
  -- The exit code of a helper container.
  pub tar_exit : ℕ → Text → Result ℕ
  pub measure : ℕ → Text → Result (ℕ × Text)
  pub rewrite_exit : ℕ → Text → Option Text → Result ℕ
  pub unlinks : ℕ → Text → Bool
  pub containers_using_volume : ℕ → ℕ → Text → Result (List ℕ)
  pub stops : ℕ → ℕ → Bool
  pub starts : ℕ → ℕ → Bool
  pub has_deployment : ℕ → Bool
  pub has_destination : ℕ → Bool
  pub push : ℕ → ℕ → Text → Result Text

abbrev pub Depots : Type 0 → Type 0
Depots A = Run Depot A

abbrev pub ask : {A : Type 0} → (ℕ → A) → Depots A
ask f w = (ok (f w.clock), record w { clock = suc w.clock })

-- A call that may throw.
abbrev pub call : {A : Type 0} → (ℕ → Result A) → Depots A
call f w = (f w.clock, record w { clock = suc w.clock })

abbrev pub set_backups : (List Backup → List Backup) → Depots (Unit {0})
set_backups f = modify (λ w. record w { backups = f w.backups })

abbrev pub set_tasks : (List Task → List Task) → Depots (Unit {0})
set_tasks f = modify (λ w. record w { tasks = f w.tasks })

abbrev pub is_backup : ℕ → Backup → Bool
is_backup id b = b.id == id

abbrev pub is_success : BackupStatus → Bool
is_success BackupStatus.success = true
is_success _ = false

-- A text that is there and not empty.
abbrev pub present : Option Text → Option Text
present (some (c ∷ s)) = some (c ∷ s)
present _ = none

abbrev pub found : Option Backup → Depots Backup
found none = throw Error.not_found
found (some b) = pure b

-- `get`
abbrev pub get_backup : ℕ → Depots Backup
get_backup id w = found (find (is_backup id) w.backups) w

abbrev pub enqueue : Text → Option ℕ → Work → Depots (Unit {0})
enqueue key task work =
    modify
      (λ w. record w { queue = w.queue ++ record { key = key; task = task; work = work } ∷ [] })

-- A task, and the work that it mirrors.
abbrev pub enqueue_tracked : Text → TaskKind → Option ℕ → Work → Depots (Unit {0})
enqueue_tracked key kind deployment_id work = do
  task ← ask (λ t. t)
  set_tasks (Tasks.create task kind deployment_id none)
  enqueue key (some task) work

abbrev pub pending_backup : ℕ → Text → Option ℕ → Backup
pending_backup id target deployment_id = record {
  id = id;
  kind = BackupKind.volume_tar;
  target = some target;
  deployment_id = deployment_id;
  status = BackupStatus.pending;
  location = none;
  size_bytes = none;
  checksum = none;
  offsite_url = none;
  error = none;
  created_at = id;
  started_at = none;
  finished_at = none;
}

abbrev pub is_volume_tar : BackupKind → Bool
is_volume_tar BackupKind.volume_tar = true
is_volume_tar BackupKind.s3_sync = false

-- The id is drawn, and stands for the time of the insert too.
unfoldable pub create : BackupKind → Text → Option ℕ → Depots ℕ
create kind target deployment_id = do
  throw_if (not (is_volume_tar kind)) Error.backup_error
  id ← ask (λ t. t)
  set_backups (λ rows. pending_backup id target deployment_id ∷ rows)
  enqueue_tracked target TaskKind.backup_task deployment_id (Work.tar_volume id target)
  pure id

-- A finished backup with its target and its file.
abbrev pub available : Backup → Option (Text × Text)
available b =
    if is_success b.status
    then elim (present b.location) [
      | none ↦ none
      | some file ↦ elim (present b.target) [ none ↦ none | some target ↦ some (target, file) ]
    ]
    else none

module _ (o : Outside) where
  abbrev pub enqueue_push : ℕ → ℕ → Backup → Option (Text × Text) → Depots (Unit {0})
  enqueue_push id destination b none = throw Error.backup_error
  enqueue_push id destination b (some (target, file)) = do
    throw_if (not (o.has_destination destination)) Error.not_found
    enqueue_tracked target TaskKind.offsite_push_task b.deployment_id
        (Work.push_file id file destination)

  unfoldable pub push_offsite : ℕ → ℕ → Depots (Unit {0})
  push_offsite id destination = do b ← get_backup id; enqueue_push id destination b (available b)

  abbrev pub enqueue_restore : Option ℕ → Option (Text × Text) → Depots (Unit {0})
  enqueue_restore (some deployment) (some (target, file)) = do
    throw_if (not (o.has_deployment deployment)) Error.backup_error
    enqueue_tracked target TaskKind.restore_task (some deployment)
        (Work.rewrite_volume deployment target (some file))
  enqueue_restore _ _ = throw Error.backup_error

  unfoldable pub restore : ℕ → Depots (Unit {0})
  restore id = do b ← get_backup id; enqueue_restore b.deployment_id (available b)

  unfoldable pub reset_volume : ℕ → Text → Depots (Unit {0})
  reset_volume deployment volume = do
    throw_if (not (o.has_deployment deployment)) Error.backup_error
    enqueue_tracked volume TaskKind.volume_reset_task (some deployment)
        (Work.rewrite_volume deployment volume none)

  -- `unlink(…).catch(…)`
  abbrev pub unlink_file : Option Text → Depots (Unit {0})
  unlink_file none w = (ok tt, w)
  unlink_file (some file) w = (
    ok tt,
    record w {
      clock = suc w.clock;
      files = if o.unlinks w.clock file then delete_where (text_eq file) w.files else w.files;
    },
  )

  unfoldable pub remove : ℕ → Depots (Unit {0})
  remove id = do
    b ← get_backup id
    unlink_file (present b.location)
    set_backups (delete_where (is_backup id))
