-- ===== src/Deploy/ComposeRelease.antt =====
-- `runComposeRelease` of backend/src/build/release-runner.service.ts: the blue-green release of a
-- compose stack. `docker compose up`, the split of the stack that backend/src/build/strategies/
-- compose.service.ts prepares and the inspection of containers are the record `Stack`. The output of
-- one-shots goes to the build log only and is left out.
use willy.Prelude.{
  ℕ, suc, Bool, true, false, not, ◌&&◌, Option, none, some, List, [], ◌∷◌, ◌++◌, filter, or_else,
  Text, codes, text_eq, Result, ok, err, Error, if◌then◌else◌,
}
use willy.Domains.{owned_by}
use willy.Domains.Routes.{DomainRoute, expand_domain_routes}
use willy.Health.{Container, compose_healthy, first_unreachable_route, resolve_timeout_ms}
use willy.Deploy.{
  Deployment, DeploymentState, Release, ReleaseStatus, Box, Outside, M, pure, get, throw, call, ask,
  try_catch, set_state, set_active_release, ◌>>=◌, ◌>>◌,
}
use willy.Deploy.Releases.{set_status, no_update, find_release}
use willy.Deploy.Swap.{ids, remove_each}
use willy.Deploy.Runner.{
  require, nonempty_text, supersede, find_active, fail_release, is_compose, run_release,
}

-- The split of `ComposePlan`.
pub record Plan : Type 0 where
  pub pinned : List Text
  pub eligible : List Text
  pub one_shot : List Text

pub record Stack : Type 0 where
  pub prepare : ℕ → Deployment → Result Plan
  pub up : ℕ → Text → List Box → Result (Unit {0}) × List Box
  pub hydrate : ℕ → List ℕ → List Container
  pub removes_network : ℕ → Text → Result (Unit {0})

abbrev pub in_project : Text → Box → Bool
in_project project b = elim b.project [ none ↦ false | some p ↦ text_eq p project ]

abbrev pub is_nil : List Text → Bool
is_nil [] = true
is_nil (x ∷ xs) = false

abbrev pub is_one_shot_failure : Error → Bool
is_one_shot_failure Error.one_shot_failed = true
is_one_shot_failure _ = false

abbrev pub base_project : Deployment → Text
base_project d = codes "willy_" ++ d.name

abbrev pub compose_project_of : Option Release → Option Text
compose_project_of none = none
compose_project_of (some r) = nonempty_text r.compose_project

module _ (o : Outside) (s : Stack) where
  abbrev pub release_project : Deployment → ℕ → Text
  release_project d release_id = base_project d ++ codes "_r" ++ o.release_short release_id

  unfoldable pub list_by_project : Text → M (List ℕ)
  list_by_project project = do
    call o.lists
    w ← get
    pure (ids (filter (in_project project) w.containers))

  -- `downRelease`
  unfoldable pub down_release : Text → M (Unit {0})
  unfolding list_by_project remove_each
  down_release project = do
    found ← list_by_project project
    remove_each o found
    call (λ now. s.removes_network now project)

  unfoldable pub up_project : Text → M (Unit {0})
  up_project project w = (
    (s.up w.clock project w.containers).0,
    record w { containers = (s.up w.clock project w.containers).1; clock = suc w.clock },
  )

  unfoldable pub remove_failed_release : Option Text → M (Unit {0})
  unfolding down_release
  remove_failed_release none = pure tt
  remove_failed_release (some project) = down_release project

  unfoldable pub fail_gate : Option Text → M (Unit {0})
  unfolding remove_failed_release
  fail_gate project = do remove_failed_release project; throw Error.health_check

  -- A failed `up` of the release tier removes it and throws again.
  abbrev pub up_or_remove : Text → M (Unit {0})
  up_or_remove project =
      try_catch (up_project project) (λ e. remove_failed_release (some project) >>= λ a. throw e)

  unfoldable pub up_eligible : Deployment → ℕ → Plan → M (Option Text)
  unfolding up_project remove_failed_release
  up_eligible d release_id plan =
      if is_nil plan.eligible
      then pure none
      else (up_or_remove (release_project d release_id) >>= λ a.
          pure (some (release_project d release_id)))

  unfoldable pub up_pinned : Deployment → Plan → M (Unit {0})
  unfolding up_project
  up_pinned d plan = if is_nil plan.pinned then pure tt else up_project (base_project d)

  unfoldable pub list_for_project : Text → M (List Container)
  unfolding list_by_project
  list_for_project project = do found ← list_by_project project; ask (λ now. s.hydrate now found)

  abbrev pub list_for_release : Option Text → M (List Container)
  list_for_release none = pure []
  list_for_release (some project) = list_for_project project

  -- The containers that the gates look at.
  unfoldable pub green_set : Deployment → Plan → Option Text → M (List Container)
  unfolding list_for_project
  green_set d plan project = do
    base ← (if is_nil plan.pinned then pure [] else list_for_project (base_project d))
    release ← list_for_release project
    pure (base ++ release)

  -- What the health gate's verdict leads to.
  abbrev pub after_health : Option Text → Result Bool → M (Unit {0})
  after_health project (ok true) = pure tt
  after_health project (ok false) = fail_gate project
  after_health project (err e) = if is_one_shot_failure e then fail_gate project else throw e

  abbrev pub after_routes : Option Text → Option DomainRoute → M (Unit {0})
  after_routes project none = pure tt
  after_routes project (some route) = fail_gate project

  abbrev pub timeout_of : Deployment → ℕ
  timeout_of d = resolve_timeout_ms d.health_timeout_sec o.default_timeout_sec

  unfoldable pub gates : Deployment → Plan → Option Text → List Container → M (Unit {0})
  unfolding fail_gate
  gates d plan project green = do
    verdict ← ask (λ now. compose_healthy (o.observer now) (timeout_of d) plan.one_shot green)
    after_health project verdict
    w ← get
    unreachable ← ask (λ now.
        first_unreachable_route (o.observer now) (timeout_of d) d.web_service_port plan.one_shot
          green (expand_domain_routes (filter (owned_by d.id) w.domains) w.bindings))
    after_routes project unreachable

  -- The prior release's project, unless it is the base project or the new one.
  abbrev pub superseded_project : Deployment → Option Text → Option Text → Bool
  superseded_project d none project = false
  superseded_project d (some prior) project =
      not (text_eq prior (base_project d))
      && not (elim project [ none ↦ false | some p ↦ text_eq prior p ])

  abbrev pub down_prior : Deployment → Option Text → Option Text → M (Unit {0})
  down_prior d none project = pure tt
  down_prior d (some prior) project =
      if superseded_project d (some prior) project then down_release prior else pure tt

  unfoldable pub compose_cut_over : Deployment → ℕ → Option Text → Option Text → M (Unit {0})
  unfolding down_release
  compose_cut_over d release_id prior project = do
    set_status release_id ReleaseStatus.live
        (record no_update { compose_project = some (or_else project (base_project d)) })
    set_active_release d.id release_id
    set_state d.id DeploymentState.running
    down_prior d prior project
    supersede o d.active_release release_id

  -- The `try` of `runComposeRelease`.
  unfoldable pub compose_attempt : Deployment → ℕ → Option Text → M (Unit {0})
  unfolding up_pinned up_eligible green_set gates compose_cut_over
  compose_attempt d release_id prior = do
    found ← find_release release_id
    release ← require Error.not_found found
    set_status release_id ReleaseStatus.cloning no_update
    sha ← call (λ now. o.clone now d)
    set_status release_id ReleaseStatus.building (record no_update { git_sha = some sha })
    plan ← call (λ now. s.prepare now d)
    up_pinned d plan
    project ← up_eligible d release_id plan
    set_status release_id ReleaseStatus.healthchecking
        (record no_update { compose_project = some (or_else project (base_project d)) })
    green ← green_set d plan project
    gates d plan project green
    compose_cut_over d release_id prior project

  unfoldable pub run_compose_release : Deployment → ℕ → M (Unit {0})
  unfolding compose_attempt
  run_compose_release d release_id = do
    prior ← find_active d.active_release
    try_catch (compose_attempt d release_id (compose_project_of prior))
        (fail_release o d release_id)

  -- `runRelease`, on any strategy.
  unfoldable pub run_any_release : Deployment → ℕ → M (Unit {0})
  unfolding run_compose_release
  run_any_release d release_id =
      if is_compose d.strategy then run_compose_release d release_id else run_release o d release_id
