-- ===== src/Deploy/Tests.antt =====
-- A deployment with a serving container, and instances of the deploy's theorems.
use willy.Prelude.{
  ℕ, suc, ◌+◌, ◌*◌, ◌≤◌, ◌≡◌, ◌⊎◌, inl, inr, refl, sym, true, false, none, some, List, [], ◌∷◌,
  contains, Bool-cases, codes, text_eq, Elem, ok, arith, ◌==◌, err, Error,
}
use willy.Health.{Observer, ContainerStatus, HealthState}
use willy.Deploy.{
  Deployment, DeploymentKind, DeploymentState, BuildStrategy, Release, ReleaseStatus, Box, World,
  Outside,
}
use willy.Deploy.Safety.{Lawful, Stands}
use willy.Deploy.Activation.{IsActive}
use willy.Deploy.NoLoss.{run_release-keeps}
use willy.Deploy.Outcome.{run_release-outcome, IsDeployed, IsFailed}
use willy.Tasks.{Task, TaskKind, TaskStatus, is_active}
use willy.Deploy.Releases.{set_status, no_update, task_of}
use willy.Deploy.Tracking.{set_status-closes}
use willy.Deploy.Single.{HasOne, run_release-HasOne}
use willy.Deploy.Requests.{rollback-Checked, Checked, delete_release-keeps_active}
use willy.Deploy.Orchestrator.{rollback, delete_release}
use willy.Deploy.{find_deployment, set_state}
use willy.Deploy.Releases.{find_release}
use willy.Deploy.Runner.{mark_action_failed}
use willy.Deploy.Swap.{
  remove_by_name, remove_each, stop_and_remove, list_by_label, check_routes, run_container,
  container_name, launch_and_health_check,
}
use willy.Deploy.Runner.{run_release, run_relaunch, require_deployment}

-- The new container never becomes healthy.
abbrev stuck : ContainerStatus
stuck = record { running = true; exited = false; exit_code = 0; health = some HealthState.starting }

abbrev no_health : Observer
no_health = record {
  time = λ n. n * 2500;
  inspect = λ n id. some stuck;
  connects = λ n ip port. false;
  advances = λ n. omega arith;
}

abbrev pub total : List ℕ → ℕ
total [] = 0
total (x ∷ xs) = x + total xs

pub contains-le-total : (k : ℕ) (xs : List ℕ) → contains k xs ≡ true → k ≤ total xs
contains-le-total k [] h = absurd (cc h)
contains-le-total k (x ∷ xs) h = elim (Bool-cases (x == k)) [
  | inl y ↦ ground arith
  | inr n ↦ let h' : contains k xs ≡ true = ground arith in omega (arith, contains-le-total k xs h')
]

abbrev pub machine : Outside
machine = record {
  clone = λ now d. ok (codes "0123456789abcdef");
  ensure_image = λ now tag. ok tt;
  build = λ now tag. ok tt;
  resolve_env = λ now d. ok tt;
  exposed_ports = λ now tag. [];
  name_matches = text_eq;
  create = λ now taken. ok (suc (total taken));
  starts = λ now id. ok tt;
  removes = λ now id. true;
  lists = λ now. ok tt;
  compose_down = λ now d boxes. ok boxes;
  release_short = λ id. id ∷ [];
  image_tags = λ now tags. ok tags;
  removes_image = λ now tag. true;
  valid_expr = λ expr. true;
  observer = λ now. no_health;
  default_timeout_sec = some 2;
}

machine-Lawful : Lawful machine
machine-Lawful = record {
  create_fresh = λ now taken id e. elim (Bool-cases (contains id taken)) [
    | inl y ↦
        let e' : suc (total taken) ≡ id = ground (arith, e) in
        absurd (omega (arith, contains-le-total id taken y, e'))
    | inr n ↦ n
  ];
}

abbrev pub site : Deployment
site = record {
  id = 7;
  name = codes "shop";
  kind = DeploymentKind.worker;
  strategy = BuildStrategy.dockerfile;
  state = DeploymentState.running;
  active_release = some 1;
  image_ref = none;
  cron_expr = none;
  health_timeout_sec = none;
  web_service_port = none;
}

abbrev first_release : Release
first_release = record {
  id = 1;
  deployment_id = 7;
  status = ReleaseStatus.live;
  git_sha = none;
  image_tag = some (codes "willy/shop:1");
  container_id = some 5;
  compose_project = none;
  error = none;
  started_at = some 0;
  finished_at = some 1;
}

abbrev second_release : Release
second_release = record first_release {
  id = 2;
  status = ReleaseStatus.queued;
  image_tag = none;
  container_id = none;
}

abbrev serving : Box
serving = record { id = 5; name = codes "willy_shop_1"; owner = 7; project = none }

abbrev pub here : World
here = record {
  deployments = site ∷ [];
  releases = second_release ∷ first_release ∷ [];
  tasks = [];
  task_by_release = [];
  domains = [];
  bindings = [];
  containers = serving ∷ [];
  images = codes "willy/shop:1" ∷ [];
  schedules = [];
  clock = 3;
}

-- The machine refuses new containers, and the serving one has the name of the active release's.
abbrev refusing : Outside
refusing = record machine { create = λ now taken. err Error.deploy_failed }

abbrev restarting : World
restarting = record here {
  containers = record serving { name = container_name machine site 1 } ∷ [];
}

serving-Stands : Stands serving here.containers
serving-Stands = (inl refl, λ b m e. elim m [ inl x ↦ sym x | inr x ↦ absurd x ])

run_release-keeps_example :
    Stands serving (run_release machine site 2 here).1.containers
    ⊎ IsActive 7 2 (run_release machine site 2 here).1
unfolding text_eq container_name
run_release-keeps_example =
    run_release-keeps machine machine-Lawful site 2 serving refl here serving-Stands

run_release-outcome_example :
    ((run_release machine site 2 here).0 ≡ ok tt)
    × (IsDeployed machine site 2 (run_release machine site 2 here).1
        ⊎ IsFailed machine site 2 (run_release machine site 2 here).1)
run_release-outcome_example = run_release-outcome machine site 2 here

rollback-Checked_example : Checked machine 7 1 here (rollback machine 7 1 here)
rollback-Checked_example = rollback-Checked machine 7 1 here

delete_release-keeps_active_example :
    Elem first_release (delete_release machine 7 1 here).1.releases
delete_release-keeps_active_example =
    delete_release-keeps_active machine 7 site first_release refl 1 here (inr (inl refl)) refl

-- A restart launches the active release again: its name finds the serving container, which is removed
-- before a new one is there.
restart_stops_serving : (run_relaunch refusing 7 restarting).1.containers ≡ []
unfolding run_relaunch require_deployment launch_and_health_check find_deployment find_release
    remove_by_name remove_each stop_and_remove list_by_label check_routes container_name
    run_container mark_action_failed set_state text_eq
restart_stops_serving = refl

run_release-HasOne_example :
    HasOne machine site (λ now id. refl) (run_release machine site 2 here).1
    ⊎ IsFailed machine site 2 (run_release machine site 2 here).1
run_release-HasOne_example = run_release-HasOne machine site (λ now id. refl) 2 refl here

abbrev deploy_task_row : Task
deploy_task_row = record {
  id = 9;
  kind = TaskKind.deploy_task;
  deployment_id = some 7;
  status = TaskStatus.running;
  progress = some 85;
  error = none;
  started_at = some 2;
  finished_at = none;
}

abbrev tracked : World
tracked = record here { tasks = deploy_task_row ∷ []; task_by_release = (2, 9) ∷ [] }

set_status-closes_example :
    (is_active TaskStatus.success ≡ false)
    × (task_of 2 (set_status 2 ReleaseStatus.live no_update tracked).1.task_by_release ≡ none)
unfolding set_status
set_status-closes_example =
    set_status-closes 2 9 ReleaseStatus.live no_update tracked
      (record deploy_task_row {
        status = TaskStatus.success;
        progress = some 100;
        finished_at = some 3;
      })
      refl refl (inl refl) refl
