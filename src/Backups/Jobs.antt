-- ===== src/Backups/Jobs.antt =====
-- backend/src/backups/backups.service.ts: the work that the queue runs.
use willy.Prelude.{
  ℕ, suc, Bool, false, not, ◌&&◌, Option, none, some, List, [], ◌∷◌, ◌++◌, ◌==◌, ltb, if◌then◌else◌,
  filter, drop, update_where, delete_where, sort_by, Text, codes, text_eq, to_decimal, Result, ok,
  Error,
}
use willy.Prelude.Effects.{◌>>=◌, ◌>>◌, pure, throw, modify, try_catch, throw_if, from_result}
use willy.Tasks
use willy.Backups.{
  Backup, BackupStatus, Work, Queued, Outside, Depots, ask, call, set_backups, set_tasks, is_backup,
  is_success, remove,
}

-- `${id}.tar.gz`
abbrev pub archive : ℕ → Text
archive id = to_decimal id ++ codes ".tar.gz"

abbrev pub with_status : BackupStatus → Backup → Backup
with_status status b = record b { status = status }

abbrev pub update_backup : ℕ → (Backup → Backup) → Depots (Unit {0})
update_backup id f = set_backups (update_where (is_backup id) f)

abbrev pub targets : Text → Backup → Bool
targets target b = elim b.target [ none ↦ false | some t ↦ text_eq t target ] && is_success b.status

abbrev pub newer : Backup → Backup → Bool
newer a b = ltb b.created_at a.created_at

-- `continue` after a call whose refusal is logged or ignored.
abbrev pub ignore : Depots (Unit {0}) → Depots (Unit {0})
ignore m = try_catch m (λ e. pure tt)

module _ (o : Outside) where
  abbrev pub make_archive : ℕ → Text → Depots (Unit {0})
  make_archive id target = do
    exit_code ← call (λ t. o.tar_exit t target)
    throw_if (not (exit_code == 0)) Error.backup_error
    modify (λ w. record w { files = archive id ∷ w.files })
    (size, checksum) ← call (λ t. o.measure t (archive id))
    finished ← ask (λ t. t)
    update_backup id (λ b. record b {
      status = BackupStatus.success;
      location = some (archive id);
      size_bytes = some size;
      checksum = some checksum;
      finished_at = some finished;
    })

  abbrev pub fail_backup : ℕ → Error → Depots (Unit {0})
  fail_backup id e = do
    finished ← ask (λ t. t)
    update_backup id (λ b. record b {
      status = BackupStatus.failed;
      error = some e;
      finished_at = some finished;
    })
    throw e

  unfoldable pub run_volume_tar : ℕ → Text → Depots (Unit {0})
  run_volume_tar id target = do
    started ← ask (λ t. t)
    update_backup id (λ b. record b { status = BackupStatus.running; started_at = some started })
    try_catch (make_archive id target) (fail_backup id)

  unfoldable pub run_offsite : ℕ → Text → ℕ → Depots (Unit {0})
  run_offsite id file destination = do
    url ← call (λ t. o.push t destination file)
    update_backup id (λ b. record b { offsite_url = some url })

  abbrev pub remove_each : List Backup → Depots (Unit {0})
  remove_each [] = pure tt
  remove_each (b ∷ bs) = ignore (remove o b.id) >> remove_each bs

  -- The newest `keep` stay.
  abbrev pub outdated : Text → ℕ → List Backup → List Backup
  outdated target keep rows = drop keep (sort_by newer (filter (targets target) rows))

  unfoldable pub prune_target : Text → ℕ → Depots (Unit {0})
  unfolding remove
  prune_target target keep w = remove_each (outdated target keep w.backups) w

  abbrev pub stop_container : ℕ → Depots (Unit {0})
  stop_container id w = (
    ok tt,
    record w {
      clock = suc w.clock;
      running = if o.stops w.clock id then delete_where (λ c. c == id) w.running else w.running;
    },
  )

  -- `startContainer(id).catch(…)`
  abbrev pub start_container : ℕ → Depots (Unit {0})
  start_container id w = (
    ok tt,
    record w {
      clock = suc w.clock;
      running = if o.starts w.clock id then id ∷ w.running else w.running;
    },
  )

  abbrev pub each : (ℕ → Depots (Unit {0})) → List ℕ → Depots (Unit {0})
  each f [] = pure tt
  each f (id ∷ ids) = f id >> each f ids

  abbrev pub rewrite : Text → Option Text → Depots (Unit {0})
  rewrite volume file = do
    exit_code ← call (λ t. o.rewrite_exit t volume file)
    throw_if (not (exit_code == 0)) Error.backup_error

  -- `finally`
  abbrev pub start_again : List ℕ → Result (Unit {0}) → Depots (Unit {0})
  start_again ids r = each start_container ids >> from_result r

  abbrev pub rewrite_with : Text → Option Text → List ℕ → Depots (Unit {0})
  rewrite_with volume file ids w =
      let (r, after) = (each stop_container ids >> rewrite volume file) w in start_again ids r after

  unfoldable pub run_volume_op : ℕ → Text → Option Text → Depots (Unit {0})
  run_volume_op deployment volume file = do
    ids ← call (λ t. o.containers_using_volume t deployment volume)
    rewrite_with volume file ids

  unfoldable pub run_work : Work → Depots (Unit {0})
  run_work (Work.tar_volume id target) = run_volume_tar id target
  run_work (Work.push_file id file destination) = run_offsite id file destination
  run_work (Work.rewrite_volume deployment volume file) = run_volume_op deployment volume file
  run_work (Work.prune target keep) = prune_target target keep

  abbrev pub succeed_task : ℕ → Depots (Unit {0})
  succeed_task task = ask (λ t. t) >>= λ t. set_tasks (Tasks.succeed t task)

  abbrev pub fail_task : ℕ → Error → Depots (Unit {0})
  fail_task task e = ask (λ t. t) >>= λ t. set_tasks (Tasks.fail t task e) >> throw e

  -- A queued function: `enqueueTracked` mirrors its work onto its task.
  abbrev pub run_queued : Queued → Depots (Unit {0})
  run_queued q = elim q.task [
    | none ↦ run_work q.work
    | some task ↦ do
      started ← ask (λ t. t)
      set_tasks (Tasks.start started task)
      try_catch (run_work q.work >> succeed_task task) (fail_task task)
  ]
