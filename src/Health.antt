-- ===== src/Health.antt =====
-- backend/src/build/health-prober.service.ts: the gates that a deploy waits at. Docker, the network
-- and the clock are an `Observer`: what each round of a polling loop reads, by the round's number.
pub mod Verdicts
pub mod Gates
mod Tests
use willy.Prelude.{
  ℕ, zero, suc, ◌+◌, ◌-◌, ◌*◌, ◌/◌, ◌≤◌, ◌≡◌, Bool, true, false, not, ◌&&◌, ◌||◌, Option, none,
  some, List, [], ◌∷◌, ◌==◌, ltb, if◌then◌else◌, or_else, find, filter, length, Text, text_eq,
  text_mem, Result, ok, err, Error, head?,
}
use willy.Domains.Routes.{DomainRoute}

pub data HealthState : Type 0 where
  starting healthy unhealthy : HealthState

-- What `inspectContainer` reports; `exited` says that the state is "exited".
pub record ContainerStatus : Type 0 where
  pub running : Bool
  pub exited : Bool
  pub exit_code : ℕ
  pub health : Option HealthState

pub record Container : Type 0 where
  pub id : ℕ
  pub service : Option Text
  pub edge_ip : Option ℕ
  pub exposed_ports : List ℕ

-- Round `n` begins at `time n`, and between two rounds lies the delay of two seconds at least.
pub record Observer : Type 0 where
  pub time : ℕ → ℕ
  pub inspect : ℕ → ℕ → Option ContainerStatus
  pub connects : ℕ → ℕ → ℕ → Bool
  pub advances : (n : ℕ) → time n + 2000 ≤ time (suc n)

abbrev pub worker_health_grace_ms : ℕ
worker_health_grace_ms = 6000

abbrev pub health_interval_ms : ℕ
health_interval_ms = 2000

abbrev pub default_health_timeout_sec : ℕ
default_health_timeout_sec = 90

-- The deployment's own value, else the operator's, else the built-in one.
pub resolve_timeout_ms : Option ℕ → Option ℕ → ℕ
resolve_timeout_ms of_deployment of_operator =
    or_else of_deployment (or_else of_operator default_health_timeout_sec) * 1000

abbrev pub is_healthy : HealthState → Bool
is_healthy HealthState.healthy = true
is_healthy _ = false

abbrev pub is_unhealthy : HealthState → Bool
is_unhealthy HealthState.unhealthy = true
is_unhealthy _ = false

-- `status.health === undefined || status.health === "healthy"`
abbrev pub health_passes : Option HealthState → Bool
health_passes none = true
health_passes (some h) = is_healthy h

abbrev pub web_ready : Option ContainerStatus → Bool
web_ready none = false
web_ready (some s) = s.running && health_passes s.health

abbrev pub reports_unhealthy : Option HealthState → Bool
reports_unhealthy none = false
reports_unhealthy (some h) = is_unhealthy h

-- `!status || !status.running || status.health === "unhealthy"`
abbrev pub worker_down : Option ContainerStatus → Bool
worker_down none = true
worker_down (some s) = not s.running || reports_unhealthy s.health

-- Rounds enough for a wait of `ms`.
abbrev pub rounds_for : ℕ → ℕ
rounds_for ms = suc (ms / health_interval_ms)

-- A polling loop: whether a round before the deadline passes, and the next round.
pub poll : (ℕ → ℕ) → (ℕ → Bool) → ℕ → ℕ → ℕ → Bool × ℕ
poll time passes deadline n zero = (false, n)
poll time passes deadline n (suc fuel) =
    let rest = poll time passes deadline (suc n) fuel in
    if ltb (time n) deadline then (if passes n then (true, suc n) else rest) else (false, n)

-- `container.service && oneShot.has(container.service)`
abbrev pub one_shot_service : List Text → Option Text → Bool
one_shot_service one_shot none = false
one_shot_service one_shot (some []) = false
one_shot_service one_shot (some (c ∷ s)) = text_mem (c ∷ s) one_shot

-- What a round of `composeHealthy` does with the verdict on its containers.
abbrev pub after_round : Result Bool → Result Bool → Result Bool
after_round (err e) rest = err e
after_round (ok true) rest = ok true
after_round (ok false) rest = rest

-- One container of `allContainersHealthy`: it passes, it fails the round, or it throws.
pub container_verdict : List Text → Option ContainerStatus → Option Text → Result Bool
container_verdict one_shot none service = ok false
container_verdict one_shot (some s) service =
    if one_shot_service one_shot service
    then (if not s.exited
        then ok false
        else if s.exit_code == 0
        then ok true
        else err Error.one_shot_failed)
    else ok (s.running && health_passes s.health)

abbrev pub serves : Text → Container → Bool
serves service c = elim c.service [ none ↦ false | some s ↦ text_eq s service ]

-- The container that serves a route, where it is unambiguous.
pub target_of : Option Text → List Container → Option Container
target_of (some (c ∷ s)) containers = find (serves (c ∷ s)) containers
target_of _ (one ∷ []) = some one
target_of _ containers = none

port_of : Option ℕ → Option ℕ → Container → ℕ
port_of target_port web_service_port container =
    or_else target_port (or_else web_service_port (or_else (head? container.exposed_ports) 80))

module _ (o : Observer) where
  pub probe_web : ℕ → ℕ → Bool
  unfolding poll
  probe_web timeout_ms container_id =
      (poll o.time (λ n. web_ready (o.inspect n container_id)) (o.time 0 + timeout_ms) 0
        (rounds_for timeout_ms)).0

  survive : ℕ → ℕ → ℕ → ℕ → Bool
  survive container_id deadline n zero = true
  survive container_id deadline n (suc fuel) =
      let rest = survive container_id deadline (suc n) fuel in
      if ltb (o.time n) deadline
      then (if worker_down (o.inspect n container_id) then false else rest)
      else true

  pub probe_worker : ℕ → Bool
  unfolding survive
  probe_worker container_id =
      survive container_id (o.time 0 + worker_health_grace_ms) 0 (rounds_for worker_health_grace_ms)

  pub all_containers_healthy : ℕ → List Text → List Container → Result Bool
  unfolding container_verdict
  all_containers_healthy n one_shot [] = ok true
  all_containers_healthy n one_shot (c ∷ cs) =
      let rest = all_containers_healthy n one_shot cs in
      elim (container_verdict one_shot (o.inspect n c.id) c.service) [
        | err e ↦ err e
        | ok b ↦ if b then rest else ok false
      ]

  -- The loop of `composeHealthy` with its target set.
  compose_rounds : List Text → List Container → ℕ → ℕ → ℕ → Result Bool
  unfolding all_containers_healthy
  compose_rounds one_shot targets deadline n zero = ok false
  compose_rounds one_shot targets deadline n (suc fuel) =
      let rest = compose_rounds one_shot targets deadline (suc n) fuel in
      if ltb (o.time n) deadline
      then (if ltb 0 (length targets)
          then after_round (all_containers_healthy n one_shot targets) rest
          else rest)
      else ok false

  pub compose_healthy : ℕ → List Text → List Container → Result Bool
  unfolding compose_rounds
  compose_healthy timeout_ms one_shot targets =
      compose_rounds one_shot targets (o.time 0 + timeout_ms) 0 (rounds_for timeout_ms)

  -- The loop of `firstUnreachableRoute`: the first route that is not reached, if there is one.
  unreachable_from : ℕ → Option ℕ → List Container → List DomainRoute → ℕ → Option DomainRoute
  unfolding target_of port_of poll
  unreachable_from timeout_ms web_port containers [] n = none
  unreachable_from timeout_ms web_port containers (route ∷ routes) n =
      elim (target_of route.target_service containers) [
        | none ↦ unreachable_from timeout_ms web_port containers routes n
        | some container ↦ elim container.edge_ip [
          | none ↦ unreachable_from timeout_ms web_port containers routes n
          | some ip ↦
              let port = port_of route.target_port web_port container in
              let (reachable, next) =
                poll o.time (λ i. o.connects i ip port) (o.time n + timeout_ms) n
                  (rounds_for timeout_ms) in
              let rest = unreachable_from timeout_ms web_port containers routes next in
              if reachable then rest else some route
        ]
      ]

  pub first_unreachable_route :
      ℕ → Option ℕ → List Text → List Container → List DomainRoute → Option DomainRoute
  unfolding unreachable_from
  first_unreachable_route timeout_ms web_port one_shot all routes =
      unreachable_from timeout_ms web_port
        (filter (λ c. not (one_shot_service one_shot c.service)) all) routes 0
