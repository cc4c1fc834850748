-- ===== src/Health/Tests.antt =====
-- An observed start of a container, and instances of the gates' theorems.
use willy.Prelude.{
  ◌+◌, ◌*◌, ◌≡◌, refl, true, false, none, some, [], ◌∷◌, codes, ltb, if◌then◌else◌, ok, arith,
}
use willy.Health.{HealthState, ContainerStatus, Container, Observer, probe_web, compose_healthy}
use willy.Health.Gates.{GateSpec, compose_healthy-GateSpec}

abbrev booting : ContainerStatus
booting = record {
  running = true;
  exited = false;
  exit_code = 0;
  health = some HealthState.starting;
}

-- The container is healthy from the third round on.
abbrev slow_start : Observer
slow_start = record {
  time = λ n. n * 2500;
  inspect = λ n id.
      if ltb n 2 then some booting else some (record booting { health = some HealthState.healthy });
  connects = λ n ip port. false;
  advances = λ n. omega arith;
}

abbrev web_box : Container
web_box = record { id = 9; service = some (codes "web"); edge_ip = none; exposed_ports = [] }

healthy_in_time : probe_web slow_start 6000 9 ≡ true
unfolding probe_web
healthy_in_time = refl

too_slow : probe_web slow_start 5000 9 ≡ false
unfolding probe_web
too_slow = refl

stack_healthy : compose_healthy slow_start 6000 [] (web_box ∷ []) ≡ ok true
unfolding compose_healthy
stack_healthy = refl

compose_healthy-GateSpec_example :
    GateSpec slow_start 0
      (slow_start.time 0 + 6000)
      []
      (web_box ∷ [])
      (compose_healthy slow_start 6000 [] (web_box ∷ []))
compose_healthy-GateSpec_example = compose_healthy-GateSpec slow_start 6000 [] (web_box ∷ [])
