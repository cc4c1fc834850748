-- ===== src/Deploy/Orchestrator.antt =====
-- backend/src/build/build-orchestrator.service.ts: the requests on a deployment. Each is checked and
-- either refused or put on the deployment's queue.

use willy.Prelude.{
  ℕ, Bool, false, not, Option, none, some, List, [], ◌∷◌, ◌==◌, is_some, Text, Error, if◌then◌else◌,
}
use willy.Deploy.{
  Deployment, DeploymentState, Release, Outside, M, pure, throw, throw_if, set_state, ◌>>=◌, ◌>>◌,
}
use willy.Deploy.Releases.{find_release, create_release, delete_release_row}
use willy.Deploy.Swap.{stop_and_remove}
use willy.Deploy.Images.{remove_image}
use willy.Deploy.Runner.{
  require, require_deployment, is_cron, is_compose, nonempty_text, sync, stop_containers,
}

-- What the request puts on the queue.
pub data Work : Type 0 where
  run_release_of : Deployment → ℕ → Work
  run_stop_of run_relaunch_of : ℕ → Work
  run_rollback_of : ℕ → ℕ → Work

abbrev pub owns : ℕ → Option Release → Option Release
owns deployment_id none = none
owns deployment_id (some r) = if r.deployment_id == deployment_id then some r else none

module _ (o : Outside) where
  -- `deploy`, with the ids that the new rows get.
  unfoldable pub deploy : ℕ → ℕ → ℕ → M (List Work)
  deploy new_id task_id id = do
    d ← require_deployment o id
    release ← create_release new_id task_id id
    set_state id DeploymentState.deploying
    pure (run_release_of d release.id ∷ [])

  unfoldable pub stop : ℕ → M (List Work)
  stop id = do d ← require_deployment o id; pure (run_stop_of id ∷ [])

  unfoldable pub rearm : ℕ → M (List Work)
  rearm id = do
    set_state id DeploymentState.running
    armed ← require_deployment o id
    sync o armed
    pure []

  unfoldable pub start : ℕ → ℕ → ℕ → M (List Work)
  unfolding deploy rearm
  start new_id task_id id = do
    d ← require_deployment o id
    (if is_compose d.strategy
        then deploy new_id task_id id
        else if not (is_some d.active_release)
        then throw Error.bad_request
        else if is_cron d.kind
        then rearm id
        else (set_state id DeploymentState.deploying >>= λ a. pure (run_relaunch_of id ∷ [])))

  -- The active release's container is made again, by a start.
  unfoldable pub restart : ℕ → ℕ → ℕ → M (List Work)
  unfolding start
  restart new_id task_id id = start new_id task_id id

  unfoldable pub rollback : ℕ → ℕ → M (List Work)
  rollback id release_id = do
    d ← require_deployment o id
    throw_if (is_compose d.strategy) Error.bad_request
    throw_if (is_cron d.kind) Error.bad_request
    found ← find_release release_id
    target ← require Error.not_found (owns id found)
    require Error.bad_request (nonempty_text target.image_tag)
    set_state id DeploymentState.deploying
    pure (run_rollback_of id release_id ∷ [])

  abbrev pub is_active_release : Deployment → ℕ → Bool
  is_active_release d release_id = elim d.active_release [ none ↦ false | some a ↦ a == release_id ]

  abbrev pub drop_container : Option ℕ → M (Unit {0})
  drop_container none = pure tt
  drop_container (some id) = stop_and_remove o id

  abbrev pub drop_image : Option Text → M (Unit {0})
  drop_image none = pure tt
  drop_image (some tag) = remove_image o tag

  unfoldable pub delete_release : ℕ → ℕ → M (Unit {0})
  delete_release id release_id = do
    d ← require_deployment o id
    found ← find_release release_id
    release ← require Error.not_found (owns id found)
    throw_if (is_active_release d release_id) Error.bad_request
    drop_container release.container_id
    drop_image (nonempty_text release.image_tag)
    delete_release_row release_id

  unfoldable pub teardown : ℕ → M (Unit {0})
  teardown id = do d ← require_deployment o id; stop_containers o d
