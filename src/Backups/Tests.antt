-- ===== src/Backups/Tests.antt =====
-- Two backups of a volume and a machine that answers, and instances of the theorems.
use willy.Prelude.{
  ◌≡◌, ◌↔◌, refl, true, none, some, [], ◌∷◌, Elem, Text, codes, text_eq, ok, arith, sort_by,
}
use willy.Backups.{Backup, BackupStatus, BackupKind, Depot, Outside, remove}
use willy.Backups.Jobs.{run_queued, prune_target}
use willy.Backups.Pruning.{IsKept, prune_target-keeps}
use willy.Backups.Closing.{IsClosed}
use willy.Backups.Mirroring.{IsMirrored, queued_tar, run_queued-IsClosed}
use willy.Tasks.{Task, TaskKind, TaskStatus}
use willy.Backups.Restarts.{Leaves, run_volume_op-restarts}
use willy.Backups.Schedules.{Scheduler, CreateScheduleInput}
use willy.Backups.Registry.{IsSynced, Request, serve, serve-IsSynced}

abbrev data_volume : Text
data_volume = codes "data"

-- The archive fails with the exit code 2, and everything else succeeds.
abbrev machine : Outside
machine = record {
  tar_exit = λ t target. ok 2;
  measure = λ t file. ok (10, []);
  rewrite_exit = λ t volume file. ok 1;
  unlinks = λ t file. true;
  containers_using_volume = λ t d volume. ok (7 ∷ []);
  stops = λ t c. true;
  starts = λ t c. true;
  has_deployment = λ d. true;
  has_destination = λ d. true;
  push = λ t d file. ok [];
}

abbrev old_backup : Backup
old_backup = record {
  id = 1;
  kind = BackupKind.volume_tar;
  target = some data_volume;
  deployment_id = some 1;
  status = BackupStatus.success;
  location = some (codes "1.tar.gz");
  size_bytes = some 10;
  checksum = none;
  offsite_url = none;
  error = none;
  created_at = 1;
  started_at = some 1;
  finished_at = some 2;
}

abbrev new_backup : Backup
new_backup = record old_backup { id = 2; created_at = 5 }

abbrev depot : Depot
depot = record {
  backups = old_backup ∷ new_backup ∷ [];
  tasks = [];
  queue = [];
  files = [];
  running = 7 ∷ [];
  clock = 10;
}

pruned : (prune_target machine data_volume 1 depot).1.backups ≡ new_backup ∷ []
unfolding prune_target remove sort_by text_eq
pruned = refl

prune_target-keeps_example :
    Elem new_backup (prune_target machine data_volume 1 depot).1.backups
    ↔ (Elem new_backup depot.backups × IsKept machine data_volume 1 depot.backups new_backup)
prune_target-keeps_example = prune_target-keeps machine data_volume 1 new_backup depot (omega arith)

abbrev pending_task : Task
pending_task = record {
  id = 4;
  kind = TaskKind.backup_task;
  deployment_id = some 1;
  status = TaskStatus.pending;
  progress = none;
  error = none;
  started_at = none;
  finished_at = none;
}

abbrev waiting_depot : Depot
waiting_depot = record depot { tasks = pending_task ∷ [] }

run_queued-IsClosed_example :
    IsClosed 2 waiting_depot.backups
      (run_queued machine (queued_tar data_volume 2 4 data_volume) waiting_depot).0
      (run_queued machine (queued_tar data_volume 2 4 data_volume) waiting_depot).1.backups
    × IsMirrored 4 waiting_depot.tasks
        (run_queued machine (queued_tar data_volume 2 4 data_volume) waiting_depot).0
        (run_queued machine (queued_tar data_volume 2 4 data_volume) waiting_depot).1.tasks
run_queued-IsClosed_example = run_queued-IsClosed machine data_volume 2 4 data_volume waiting_depot

run_volume_op-restarts_example : Leaves machine 1 data_volume none depot (ok (7 ∷ []))
run_volume_op-restarts_example = run_volume_op-restarts machine 1 data_volume none depot

abbrev nightly : CreateScheduleInput
nightly = record {
  target = data_volume;
  cron = codes "0 3 * * *";
  retention = none;
  deployment_id = none;
}

abbrev nothing : Scheduler
nothing = record { schedules = []; registry = [] }

nothing-IsSynced : IsSynced (λ e. true) nothing
nothing-IsSynced = record { crons = tt; jobs = λ k. refl }

serve-IsSynced_example :
    IsSynced (λ e. true) (serve (λ e. true) (Request.create_one 4 nightly) nothing).1
serve-IsSynced_example =
    serve-IsSynced (λ e. true) (Request.create_one 4 nightly) nothing nothing-IsSynced
