-- ===== src/Deploy/Releases.antt =====
-- backend/src/build/releases.service.ts: the release rows, and the activity task that mirrors each.
use willy.Prelude.{
  ℕ, Bool, true, false, Option, none, some, List, [], ◌∷◌, ◌==◌, find, filter, update_where,
  delete_where, is_some, Text, ok, Error, if◌then◌else◌, or_else,
}
use willy.Tasks.{Task, TaskKind, create, start, succeed, fail, set_progress}
use willy.Deploy.{Release, ReleaseStatus, World, M}

pub record ReleaseUpdate : Type 0 where
  pub git_sha : Option Text
  pub image_tag : Option Text
  pub container_id : Option ℕ
  pub compose_project : Option Text
  pub error : Option Error

abbrev pub no_update : ReleaseUpdate
no_update = record {
  git_sha = none;
  image_tag = none;
  container_id = none;
  compose_project = none;
  error = none;
}

-- `TERMINAL`
abbrev pub is_terminal : ReleaseStatus → Bool
is_terminal ReleaseStatus.live = true
is_terminal ReleaseStatus.failed = true
is_terminal ReleaseStatus.rolledback = true
is_terminal ReleaseStatus.superseded = true
is_terminal ReleaseStatus.interrupted = true
is_terminal ReleaseStatus.queued = false
is_terminal ReleaseStatus.cloning = false
is_terminal ReleaseStatus.building = false
is_terminal ReleaseStatus.healthchecking = false

-- `PROGRESS`
abbrev pub progress_of : ReleaseStatus → Option ℕ
progress_of ReleaseStatus.queued = some 5
progress_of ReleaseStatus.cloning = some 20
progress_of ReleaseStatus.building = some 50
progress_of ReleaseStatus.healthchecking = some 85
progress_of _ = none

abbrev pub is_building : ReleaseStatus → Bool
is_building ReleaseStatus.building = true
is_building _ = false

abbrev pub is_release : ℕ → Release → Bool
is_release id r = r.id == id

-- A field that the update leaves undefined is not written.
abbrev pub patch : {A : Type 0} → Option A → Option A → Option A
patch none old = old
patch (some a) old = some a

abbrev pub with_status : ℕ → ReleaseStatus → ReleaseUpdate → Release → Release
with_status now status update r = record r {
  status = status;
  git_sha = patch update.git_sha r.git_sha;
  image_tag = patch update.image_tag r.image_tag;
  container_id = patch update.container_id r.container_id;
  compose_project = patch update.compose_project r.compose_project;
  error = patch update.error r.error;
  started_at = if is_building status then some now else r.started_at;
  finished_at = if is_terminal status then some now else r.finished_at;
}

-- `taskByRelease.get` and `delete`.
abbrev pub task_of : ℕ → List (ℕ × ℕ) → Option ℕ
task_of release_id [] = none
task_of release_id ((r, t) ∷ rest) = if r == release_id then some t else task_of release_id rest

abbrev pub untrack : ℕ → List (ℕ × ℕ) → List (ℕ × ℕ)
untrack release_id [] = []
untrack release_id ((r, t) ∷ rest) =
    if r == release_id then untrack release_id rest else (r, t) ∷ untrack release_id rest

-- What `updateTask` does to the task of the release: the statements do not fail.
abbrev pub move_task : ℕ → ReleaseStatus → Option Error → ℕ → List Task → List Task
move_task now ReleaseStatus.failed error task_id tasks =
    fail now task_id (or_else error Error.deploy_failed) tasks
move_task now ReleaseStatus.interrupted error task_id tasks =
    fail now task_id (or_else error Error.deploy_failed) tasks
move_task now ReleaseStatus.live error task_id tasks = succeed now task_id tasks
move_task now ReleaseStatus.rolledback error task_id tasks = succeed now task_id tasks
move_task now ReleaseStatus.superseded error task_id tasks = succeed now task_id tasks
move_task now status error task_id tasks = elim (progress_of status) [
  | none ↦ tasks
  | some p ↦ set_progress task_id p tasks
]

unfoldable pub update_task : ℕ → ReleaseStatus → Option Error → World → World
update_task release_id status error w = elim (task_of release_id w.task_by_release) [
  | none ↦ w
  | some task_id ↦ record w {
    tasks = move_task w.clock status error task_id w.tasks;
    task_by_release =
        if is_terminal status then untrack release_id w.task_by_release else w.task_by_release;
  }
]

unfoldable pub set_status : ℕ → ReleaseStatus → ReleaseUpdate → M (Unit {0})
unfolding update_task
set_status id status update w = (
  ok tt,
  update_task id status update.error (record w {
    releases = update_where (is_release id) (with_status w.clock status update) w.releases;
  }),
)

unfoldable pub find_release : ℕ → M (Option Release)
find_release id w = (ok (find (is_release id) w.releases), w)

-- `create`, with the ids that the two tables give the new rows.
unfoldable pub create_release : ℕ → ℕ → ℕ → M Release
create_release new_id task_id deployment_id w =
    let release : Release = record {
      id = new_id;
      deployment_id = deployment_id;
      status = ReleaseStatus.queued;
      git_sha = none;
      image_tag = none;
      container_id = none;
      compose_project = none;
      error = none;
      started_at = none;
      finished_at = none;
    } in
    (
      ok release,
      record w {
        releases = release ∷ w.releases;
        tasks =
            start w.clock task_id
              (create task_id TaskKind.deploy_task (some deployment_id) (some 5) w.tasks);
        task_by_release = (new_id, task_id) ∷ untrack new_id w.task_by_release;
      },
    )

-- The statuses of a build that runs.
abbrev pub in_flight : Release → Bool
in_flight r = is_some (progress_of r.status)

unfoldable pub mark_interrupted : World → World
mark_interrupted w = record w {
  releases =
      update_where in_flight
        (λ r. record r { status = ReleaseStatus.interrupted; finished_at = some w.clock })
        w.releases;
}

unfoldable pub list_for_deployment : ℕ → List Release → List Release
list_for_deployment deployment_id rows = filter (λ r. r.deployment_id == deployment_id) rows

unfoldable pub delete_release_row : ℕ → M (Unit {0})
delete_release_row id w = (ok tt, record w { releases = delete_where (is_release id) w.releases })
