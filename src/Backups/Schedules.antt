-- ===== src/Backups/Schedules.antt =====
-- backend/src/backups/schedules.service.ts: the schedules of the backups and the jobs that are
-- registered for them. Whether an expression is valid is a parameter.
use willy.Prelude.{
  ℕ, Bool, true, false, Option, none, some, List, [], ◌∷◌, ◌==◌, if◌then◌else◌, find, or_else,
  update_where, delete_where, Text, Result, ok, err, Error,
}
use willy.Prelude.Effects.{Run, ◌>>=◌, ◌>>◌, pure}
use willy.Backups.{Depot, Work, BackupKind, create, enqueue}

pub record Schedule : Type 0 where
  pub id : ℕ
  pub target : Text
  pub cron : Text
  pub deployment_id : Option ℕ
  pub retention : ℕ
  pub enabled : Bool
  pub last_run_at : Option ℕ

pub record CreateScheduleInput : Type 0 where
  pub target : Text
  pub cron : Text
  pub retention : Option ℕ
  pub deployment_id : Option ℕ

pub record Scheduler : Type 0 where
  pub schedules : List Schedule
  -- The ids with a job in the registry.
  pub registry : List ℕ

abbrev pub is_schedule : ℕ → Schedule → Bool
is_schedule id s = s.id == id

abbrev pub unregister : ℕ → List ℕ → List ℕ
unregister id registry = delete_where (λ k. k == id) registry

abbrev pub new_schedule : ℕ → CreateScheduleInput → Schedule
new_schedule id input = record {
  id = id;
  target = input.target;
  cron = input.cron;
  deployment_id = input.deployment_id;
  retention = or_else input.retention 7;
  enabled = true;
  last_run_at = none;
}

module _ (valid : Text → Bool) where
  -- The job is dropped before the constructor may throw.
  abbrev pub register : Schedule → Run Scheduler (Unit {0})
  register s w =
      let dropped = unregister s.id w.registry in
      if valid s.cron
      then (ok tt, record w { registry = s.id ∷ dropped })
      else (err Error.bad_request, record w { registry = dropped })

  abbrev pub register_enabled : List Schedule → Run Scheduler (Unit {0})
  register_enabled [] = pure tt
  register_enabled (s ∷ rest) = (if s.enabled then register s else pure tt) >> register_enabled rest

  -- `onApplicationBootstrap`
  unfoldable pub boot : Run Scheduler (Unit {0})
  boot w = register_enabled w.schedules w

  -- The database draws the id.
  unfoldable pub create_schedule : ℕ → CreateScheduleInput → Run Scheduler (Unit {0})
  create_schedule new_id input w =
      if valid input.cron
      then register (new_schedule new_id input)
          (record w { schedules = new_schedule new_id input ∷ w.schedules })
      else (err Error.bad_request, w)

  abbrev pub follow : Bool → Schedule → Run Scheduler (Unit {0})
  follow true row w = register row w
  follow false row w = (ok tt, record w { registry = unregister row.id w.registry })

  abbrev pub switch : ℕ → Bool → Option Schedule → Run Scheduler (Unit {0})
  switch id enabled none w = (err Error.backup_error, w)
  switch id enabled (some row) w =
      follow enabled (record row { enabled = enabled })
        (record w {
          schedules =
              update_where (is_schedule id) (λ s. record s { enabled = enabled }) w.schedules;
        })

  unfoldable pub set_enabled : ℕ → Bool → Run Scheduler (Unit {0})
  set_enabled id enabled w = switch id enabled (find (is_schedule id) w.schedules) w

  unfoldable pub remove_schedule : ℕ → Run Scheduler (Unit {0})
  remove_schedule id w = (
    ok tt,
    record w {
      registry = unregister id w.registry;
      schedules = delete_where (is_schedule id) w.schedules;
    },
  )

-- A tick: the backup is recorded, and the prune is queued behind it. An exception is only logged.
abbrev pub queue_backup : Schedule → Run Depot (Unit {0})
queue_backup s = create BackupKind.volume_tar s.target s.deployment_id >>= λ id.
    enqueue s.target none (Work.prune s.target s.retention)

abbrev pub note_run : ℕ → ℕ → Scheduler → Result (Unit {0}) × Depot → Scheduler × Depot
note_run now id w (ok u, depot) = (
  record w {
    schedules =
        update_where (is_schedule id) (λ s. record s { last_run_at = some now }) w.schedules;
  },
  depot,
)
note_run now id w (err e, depot) = (w, depot)

abbrev pub tick : ℕ → Option Schedule → Scheduler → Depot → Scheduler × Depot
tick now none w depot = (w, depot)
tick now (some s) w depot =
    if s.enabled then note_run now s.id w (queue_backup s depot) else (w, depot)

-- `run`
unfoldable pub run_schedule : ℕ → ℕ → Scheduler → Depot → Scheduler × Depot
unfolding create
run_schedule now id w depot = tick now (find (is_schedule id) w.schedules) w depot
