-- ===== src/Deploy.antt =====
-- backend/src/build: a deploy, from its release row to the swap of containers. This file has the state
-- that the services share and the way they run: a computation reads the state and returns the state
-- with its value or with the exception, since what was written before a throw stays written.
pub mod Releases
pub mod Swap
pub mod Images
pub mod Runner
pub mod ComposeRelease
pub mod BlueGreen
pub mod Cutover
pub mod NonDestructive
pub mod Hoare
pub mod Frames
pub mod Safety
pub mod Activation
pub mod NoLoss
pub mod Outcome
pub mod Single
pub mod Tracking
pub mod Orchestrator
pub mod Requests
mod Tests
mod ComposeTests
use willy.Prelude.{
  ℕ, suc, ◌≡◌, Bool, true, false, Option, none, some, List, [], ◌∷◌, ◌==◌, Text, Result, ok, err,
  Error, Elem, find, update_where,
}
pub use willy.Prelude.Effects.{
  pass_on, ◌>>=◌, ◌>>◌, pure, throw, get, modify, handle, try_catch, throw_if, from_result,
}
use willy.Prelude.Effects.{Run}
use willy.Domains.{Domain}
use willy.Domains.Routes.{Binding}
use willy.Health.{Observer}
use willy.Tasks.{Task}

pub data DeploymentKind : Type 0 where
  web worker cron : DeploymentKind

pub data BuildStrategy : Type 0 where
  dockerfile image compose : BuildStrategy

pub data DeploymentState : Type 0 where
  created deploying running degraded stopped error_state : DeploymentState

pub record Deployment : Type 0 where
  pub id : ℕ
  pub name : Text
  pub kind : DeploymentKind
  pub strategy : BuildStrategy
  pub state : DeploymentState
  pub active_release : Option ℕ
  pub image_ref : Option Text
  pub cron_expr : Option Text
  pub health_timeout_sec : Option ℕ
  pub web_service_port : Option ℕ

pub data ReleaseStatus : Type 0 where
  queued cloning building healthchecking live failed rolledback superseded interrupted :
      ReleaseStatus

pub record Release : Type 0 where
  pub id : ℕ
  pub deployment_id : ℕ
  pub status : ReleaseStatus
  pub git_sha : Option Text
  pub image_tag : Option Text
  pub container_id : Option ℕ
  pub compose_project : Option Text
  pub error : Option Error
  pub started_at : Option ℕ
  pub finished_at : Option ℕ

-- A container: its id, its name, the deployment in its owner label and the compose project in its
-- project label.
pub record Box : Type 0 where
  pub id : ℕ
  pub name : Text
  pub owner : ℕ
  pub project : Option Text

-- The tables, the maps in memory, the containers of the machine, and a clock that every call of a
-- program outside moves on.
pub record World : Type 0 where
  pub deployments : List Deployment
  pub releases : List Release
  pub tasks : List Task
  pub task_by_release : List (ℕ × ℕ)
  pub domains : List Domain
  pub bindings : List Binding
  pub containers : List Box
  pub images : List Text
  pub schedules : List ℕ
  pub clock : ℕ

-- What Docker, git and the environment-variable store answer at a time of the clock.
pub record Outside : Type 0 where
  pub clone : ℕ → Deployment → Result Text
  pub ensure_image : ℕ → Text → Result (Unit {0})
  pub build : ℕ → Text → Result (Unit {0})
  pub resolve_env : ℕ → ℕ → Result (Unit {0})
  pub exposed_ports : ℕ → Text → List ℕ
  -- The `name` filter of `listContainers`.
  pub name_matches : Text → Text → Bool
  pub create : ℕ → List ℕ → Result ℕ
  pub starts : ℕ → ℕ → Result (Unit {0})
  -- Whether a removal succeeds: `stopAndRemove` only logs a refusal.
  pub removes : ℕ → ℕ → Bool
  pub lists : ℕ → Result (Unit {0})
  -- `docker compose down` of the deployment's projects.
  pub compose_down : ℕ → Deployment → List Box → Result (List Box)
  -- The first eight characters of a release's id.
  pub release_short : ℕ → Text
  pub image_tags : ℕ → List Text → Result (List Text)
  pub removes_image : ℕ → Text → Bool
  pub valid_expr : Text → Bool
  pub observer : ℕ → Observer
  pub default_timeout_sec : Option ℕ

abbrev pub M : Type 0 → Type 0
M A = Run World A

-- A call of a program outside, at the time it is made.
abbrev pub ask : {A : Type 0} → (ℕ → A) → M A
ask f w = (ok (f w.clock), record w { clock = suc w.clock })

abbrev pub call : {A : Type 0} → (ℕ → Result A) → M A
call f w = (f w.clock, record w { clock = suc w.clock })

-- deployments.service.ts: `findById`, `setState` and `setActiveRelease`.
abbrev pub has_id : ℕ → Deployment → Bool
has_id id d = d.id == id

unfoldable pub find_deployment : ℕ → M (Option Deployment)
find_deployment id w = (ok (find (has_id id) w.deployments), w)

unfoldable pub set_state : ℕ → DeploymentState → M (Unit {0})
set_state id state w = (
  ok tt,
  record w {
    deployments = update_where (has_id id) (λ d. record d { state = state }) w.deployments;
  },
)

unfoldable pub set_active_release : ℕ → ℕ → M (Unit {0})
set_active_release id release_id w = (
  ok tt,
  record w {
    deployments =
        update_where (has_id id) (λ d. record d { active_release = some release_id }) w.deployments;
  },
)
