-- ===== src/Deploy/Swap.antt =====
-- backend/src/build/container-ops.service.ts, with the calls of
-- backend/src/docker/docker-container.service.ts it is made of. The container's environment, labels
-- and limits do not bear on the swap and are left out.
use willy.Prelude.{
  none, ℕ, suc, Bool, true, false, not, ◌&&◌, List, [], ◌∷◌, ◌==◌, ◌++◌, filter, map, delete_where,
  Text, codes, ok, Error, if◌then◌else◌,
}
use willy.Domains.{owned_by}
use willy.Domains.Routes.{expand_domain_routes}
use willy.Health.{probe_web, probe_worker, resolve_timeout_ms}
use willy.Deploy.{
  Deployment, DeploymentKind, Box, World, Outside, M, pure, get, modify, throw, throw_if, call, ask,
  ◌>>=◌, ◌>>◌,
}

abbrev pub is_box : ℕ → Box → Bool
is_box id b = b.id == id

abbrev pub owned : ℕ → Box → Bool
owned deployment_id b = b.owner == deployment_id

abbrev pub ids : List Box → List ℕ
ids = map (λ b. b.id)

abbrev pub is_web : DeploymentKind → Bool
is_web DeploymentKind.web = true
is_web _ = false

abbrev pub has_routes : ℕ → World → Bool
has_routes deployment_id w =
    elim (expand_domain_routes (filter (owned_by deployment_id) w.domains) w.bindings) [
      | [] ↦ false
      | r ∷ rs ↦ true
    ]

module _ (o : Outside) where
  -- `stop` is best effort, and a refused removal is only logged.
  unfoldable pub stop_and_remove : ℕ → M (Unit {0})
  stop_and_remove id w = (
    ok tt,
    record w {
      containers =
          if o.removes w.clock id then delete_where (is_box id) w.containers else w.containers;
      clock = suc w.clock;
    },
  )

  unfoldable pub remove_each : List ℕ → M (Unit {0})
  unfolding stop_and_remove
  remove_each [] = pure tt
  remove_each (id ∷ rest) = do stop_and_remove id; remove_each rest

  unfoldable pub remove_by_name : Text → M (Unit {0})
  unfolding remove_each
  remove_by_name name = do
    call o.lists
    w ← get
    remove_each (ids (filter (λ b. o.name_matches name b.name) w.containers))

  unfoldable pub list_by_label : ℕ → M (List ℕ)
  list_by_label deployment_id = do
    call o.lists
    w ← get
    pure (ids (filter (owned deployment_id) w.containers))

  -- A container that was created and does not start stays on the machine.
  unfoldable pub start_container : ℕ → M ℕ
  start_container id = do call (λ now. o.starts now id); pure id

  abbrev pub add_container : Text → ℕ → ℕ → M (Unit {0})
  add_container name owner id = modify (λ w. record w {
    containers = record { id = id; name = name; owner = owner; project = none } ∷ w.containers;
  })

  unfoldable pub run_container : Text → ℕ → M ℕ
  unfolding start_container
  run_container name owner = do
    w ← get
    id ← call (λ now. o.create now (ids w.containers))
    add_container name owner id
    start_container id

  unfoldable pub container_name : Deployment → ℕ → Text
  container_name d release_id = codes "willy_" ++ d.name ++ codes "_" ++ o.release_short release_id

  unfoldable pub gate : Deployment → ℕ → M Bool
  gate d container_id = ask (λ now.
      if is_web d.kind
      then probe_web (o.observer now)
          (resolve_timeout_ms d.health_timeout_sec o.default_timeout_sec) container_id
      else probe_worker (o.observer now) container_id)

  unfoldable pub check_routes : Deployment → M (Unit {0})
  check_routes d = do w ← get; throw_if (is_web d.kind && not (has_routes d.id w)) Error.bad_request

  -- The last part of `launchAndHealthCheck`: the verdict of the gate.
  unfoldable pub settle : ℕ → Bool → M ℕ
  unfolding stop_and_remove
  settle container_id true = pure container_id
  settle container_id false = do stop_and_remove container_id; throw Error.health_check

  unfoldable pub launch_and_health_check : Deployment → Text → ℕ → M ℕ
  unfolding remove_by_name run_container gate check_routes settle
  launch_and_health_check d image_tag release_id = do
    call (λ now. o.resolve_env now d.id)
    remove_by_name (container_name d release_id)
    exposed ← ask (λ now. o.exposed_ports now image_tag)
    check_routes d
    container_id ← run_container (container_name d release_id) d.id
    healthy ← gate d container_id
    settle container_id healthy

  abbrev pub others : ℕ → List ℕ → List ℕ
  others keep_id = filter (λ id. not (id == keep_id))

  unfoldable pub remove_stale_containers : ℕ → ℕ → M (Unit {0})
  unfolding list_by_label remove_each
  remove_stale_containers deployment_id keep_id = do
    all ← list_by_label deployment_id
    remove_each (others keep_id all)

  unfoldable pub remove_all_containers : ℕ → M (Unit {0})
  unfolding list_by_label remove_each
  remove_all_containers deployment_id = do all ← list_by_label deployment_id; remove_each all
