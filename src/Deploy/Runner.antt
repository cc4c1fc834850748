-- ===== src/Deploy/Runner.antt =====
-- backend/src/build/release-runner.service.ts: the background work of a release. The build log and the
-- follows of the containers' output are not part of the state.
use willy.Prelude.{
  ℕ, Bool, true, false, not, ◌&&◌, Option, none, some, [], ◌∷◌, ◌==◌, filter, is_some, Text, Error,
  if◌then◌else◌,
}
use willy.Deploy.{
  Deployment, DeploymentKind, DeploymentState, BuildStrategy, Release, ReleaseStatus, Outside, M,
  pure, get, modify, throw, call, try_catch, find_deployment, set_state, set_active_release, ◌>>=◌,
  ◌>>◌,
}
use willy.Deploy.Releases.{set_status, no_update, find_release}
use willy.Deploy.Swap.{
  launch_and_health_check, remove_stale_containers, remove_all_containers, list_by_label,
}
use willy.Deploy.Images.{pull_image_release, build_git_release, cleanup_images}

abbrev pub is_cron : DeploymentKind → Bool
is_cron DeploymentKind.cron = true
is_cron _ = false

abbrev pub is_compose : BuildStrategy → Bool
is_compose BuildStrategy.compose = true
is_compose _ = false

abbrev pub is_stopped : DeploymentState → Bool
is_stopped DeploymentState.stopped = true
is_stopped _ = false

abbrev pub nonempty_text : Option Text → Option Text
nonempty_text (some (c ∷ s)) = some (c ∷ s)
nonempty_text _ = none

-- A null or empty value throws.
abbrev pub require : {A : Type 0} → Error → Option A → M A
require e none = throw e
require e (some a) = pure a

-- cron.service.ts: `register`, `unregister` and `sync` on the registry of scheduled deployments.
abbrev pub unregister : ℕ → M (Unit {0})
unregister id = modify (λ w. record w { schedules = filter (λ s. not (s == id)) w.schedules })

abbrev pub armed : Deployment → Bool
armed d =
    is_cron d.kind
    && is_some d.active_release
    && is_some (nonempty_text d.cron_expr)
    && not (is_stopped d.state)

-- `deployment.activeReleaseId ? await findById(…) : undefined`
abbrev pub find_active : Option ℕ → M (Option Release)
find_active none = pure none
find_active (some id) = find_release id

-- `release?.imageTag`, or the exception.
abbrev pub image_of : Option Release → Option (Release × Text)
image_of none = none
image_of (some r) = elim (nonempty_text r.image_tag) [ none ↦ none | some tag ↦ some (r, tag) ]

abbrev pub is_image : BuildStrategy → Bool
is_image BuildStrategy.image = true
is_image _ = false

module _ (o : Outside) where
  unfoldable pub register : Deployment → M (Unit {0})
  register d = elim (nonempty_text d.cron_expr) [
    | none ↦ pure tt
    | some expr ↦ do
      unregister d.id
      (if o.valid_expr expr
          then modify (λ w. record w { schedules = d.id ∷ w.schedules })
          else pure tt)
  ]

  unfoldable pub sync : Deployment → M (Unit {0})
  unfolding register
  sync d = if armed d then register d else unregister d.id

  abbrev pub sync_found : Option Deployment → M (Unit {0})
  sync_found none = pure tt
  sync_found (some d) = sync d

  unfoldable pub require_deployment : ℕ → M Deployment
  require_deployment id = do found ← find_deployment id; require Error.not_found found

  -- The prior release is replaced, unless it is the same.
  unfoldable pub supersede : Option ℕ → ℕ → M (Unit {0})
  supersede none release_id = pure tt
  supersede (some prior) release_id =
      if prior == release_id then pure tt else set_status prior ReleaseStatus.superseded no_update

  unfoldable pub mark_action_failed : ℕ → M (Unit {0})
  mark_action_failed id = do
    left ← list_by_label o id
    set_state id
        (elim left [ [] ↦ DeploymentState.error_state | c ∷ cs ↦ DeploymentState.degraded ])

  unfoldable pub compose_down : Deployment → M (Unit {0})
  compose_down d = do
    w ← get
    left ← call (λ now. o.compose_down now d w.containers)
    modify (λ u. record u { containers = left })

  abbrev pub stop_containers : Deployment → M (Unit {0})
  stop_containers d =
      if is_cron d.kind
      then unregister d.id
      else if is_compose d.strategy
      then compose_down d
      else remove_all_containers o d.id

  unfoldable pub run_stop : ℕ → M (Unit {0})
  unfolding require_deployment compose_down mark_action_failed
  run_stop id =
      try_catch
        (do d ← require_deployment id; stop_containers d; set_state id DeploymentState.stopped)
        (λ e. mark_action_failed id)

  unfoldable pub run_relaunch : ℕ → M (Unit {0})
  unfolding require_deployment mark_action_failed
  run_relaunch id =
      try_catch
        (do
          d ← require_deployment id
          found ← find_active d.active_release
          release ← require Error.bad_request (image_of found)
          container_id ← launch_and_health_check o d release.1 release.0.id
          remove_stale_containers o id container_id
          set_state id DeploymentState.running)
        (λ e. mark_action_failed id)

  unfoldable pub run_rollback : ℕ → ℕ → M (Unit {0})
  unfolding require_deployment mark_action_failed supersede
  run_rollback id release_id =
      try_catch
        (do
          d ← require_deployment id
          found ← find_release release_id
          target ← require Error.bad_request (image_of found)
          container_id ← launch_and_health_check o d target.1 release_id
          remove_stale_containers o id container_id
          set_status release_id ReleaseStatus.live
              (record no_update { container_id = some container_id })
          set_active_release id release_id
          set_state id DeploymentState.running
          supersede d.active_release release_id)
        (λ e. mark_action_failed id)

  abbrev pub make_image : Deployment → ℕ → M Text
  make_image d release_id =
      if is_image d.strategy
      then pull_image_release o d release_id
      else build_git_release o d release_id

  -- A CRON release is scheduled.
  unfoldable pub go_scheduled : Deployment → ℕ → Text → M (Unit {0})
  unfolding supersede sync
  go_scheduled d release_id image_tag = do
    set_status release_id ReleaseStatus.live (record no_update { image_tag = some image_tag })
    set_active_release d.id release_id
    set_state d.id DeploymentState.running
    supersede d.active_release release_id
    cleanup_images o d image_tag
    scheduled ← find_deployment d.id
    sync_found scheduled

  -- From the healthy container on: the cutover.
  unfoldable pub cut_over : Deployment → ℕ → Text → ℕ → M (Unit {0})
  unfolding supersede
  cut_over d release_id image_tag container_id = do
    set_status release_id ReleaseStatus.live (record no_update { container_id = some container_id })
    set_active_release d.id release_id
    set_state d.id DeploymentState.running
    remove_stale_containers o d.id container_id
    supersede d.active_release release_id
    cleanup_images o d image_tag

  unfoldable pub go_live : Deployment → ℕ → Text → M (Unit {0})
  unfolding cut_over
  go_live d release_id image_tag = do
    set_status release_id ReleaseStatus.healthchecking
        (record no_update { image_tag = some image_tag })
    container_id ← launch_and_health_check o d image_tag release_id
    cut_over d release_id image_tag container_id

  -- The `catch` of `runRelease`.
  unfoldable pub fail_release : Deployment → ℕ → Error → M (Unit {0})
  fail_release d release_id e = do
    set_status release_id ReleaseStatus.failed (record no_update { error = some e })
    set_state d.id
        (if is_some d.active_release then DeploymentState.degraded else DeploymentState.error_state)

  -- The `try` of `runRelease`.
  unfoldable pub attempt : Deployment → ℕ → M (Unit {0})
  unfolding go_scheduled go_live
  attempt d release_id = do
    found ← find_release release_id
    release ← require Error.not_found found
    image_tag ← make_image d release_id
    if is_cron d.kind then go_scheduled d release_id image_tag else go_live d release_id image_tag

  -- `runRelease`, for the strategies other than COMPOSE.
  unfoldable pub run_release : Deployment → ℕ → M (Unit {0})
  unfolding attempt fail_release
  run_release d release_id = try_catch (attempt d release_id) (fail_release d release_id)
