-- ===== src/Health/Gates.antt =====
-- What the health gates decide.
use willy.Prelude.{
  ℕ, zero, suc, ◌+◌, ◌*◌, ◌≤◌, ◌<◌, ◌≡◌, ◌≢◌, ◌↔◌, inl, inr, refl, Bool, true, false, List, [], ◌∷◌,
  ltb, length, Text, Elem, Error, Result, ok, err, arith, Bool-cases, All,
}
use willy.Health.{
  Observer, Container, poll, rounds_for, web_ready, worker_down, probe_web, survive, probe_worker,
  worker_health_grace_ms, container_verdict, all_containers_healthy, compose_rounds,
  compose_healthy, after_round,
}
use willy.Health.Verdicts.{Passes, Fails, verdict_iff, all_containers_err}

module _ (o : Observer) where
  time_grows : (n : ℕ) → o.time 0 + n * 2000 ≤ o.time n
  time_grows zero = omega arith
  time_grows (suc n) = omega (arith, time_grows n, o.advances n)

  -- A round before the deadline is within the rounds that the loop makes.
  round_fits : (n ms : ℕ) → o.time n < o.time 0 + ms → n < rounds_for ms
  round_fits n ms h = omega (arith, time_grows n)

  poll_sound :
      (passes : ℕ → Bool) (deadline n fuel : ℕ)
      → (poll o.time passes deadline n fuel).0 ≡ true
      → (i : ℕ) × (n ≤ i) × (o.time i < deadline) × (passes i ≡ true)
  unfolding poll
  poll_sound passes deadline n zero h = absurd (ground arith)
  poll_sound passes deadline n (suc fuel) h = elim (Bool-cases (ltb (o.time n) deadline)) [
    | inl early ↦ elim (Bool-cases (passes n)) [
      | inl here ↦ (n, omega arith, ground arith, here)
      | inr later ↦
          let (i, low, before, good) =
            poll_sound passes deadline (suc n) fuel (rw (early, later) at h) in
          (i, omega arith, before, good)
    ]
    | inr late ↦ absurd (ground arith)
  ]

  early_le : (n i deadline : ℕ) → n ≤ i → o.time i < deadline → o.time n < deadline
  early_le n zero deadline h k = ground arith
  early_le n (suc i) deadline h k = elim (Bool-cases (ltb i n)) [
    | inl same ↦ let e : n ≡ suc i = ground arith in rw e k
    | inr less ↦ early_le n i deadline (ground arith) (omega (arith, o.advances i))
  ]

  poll_complete :
      (passes : ℕ → Bool) (deadline i n fuel : ℕ)
      → n ≤ i
      → i < n + fuel
      → o.time i < deadline
      → passes i ≡ true
      → (poll o.time passes deadline n fuel).0 ≡ true
  unfolding poll
  poll_complete passes deadline i n zero low high before good = absurd (omega arith)
  poll_complete passes deadline i n (suc fuel) low high before good =
      let now : o.time n < deadline = early_le n i deadline low before in
      elim (Bool-cases (passes n)) [
        | inl here ↦ ground (arith, now, here)
        | inr later ↦ elim (Bool-cases (ltb n i)) [
          | inl less ↦ ground (
            arith,
            now,
            later,
            poll_complete passes deadline i (suc n) fuel (ground arith) (omega arith) before good,
          )
          | inr same ↦ let e : n ≡ i = ground arith in absurd (ground (arith, rw (← e) at good))
        ]
      ]

  -- The web gate passes exactly when, in some round before the deadline, the container is running
  -- and reports no health or "healthy": the rounds made are enough.
  pub probe_web_iff :
      (timeout_ms container_id : ℕ)
      → (probe_web o timeout_ms container_id ≡ true) ↔ (
          (n : ℕ) × (o.time n < o.time 0 + timeout_ms)
          × (web_ready (o.inspect n container_id) ≡ true))
  unfolding probe_web
  probe_web_iff timeout_ms container_id =
      let passes = λ (n : ℕ). web_ready (o.inspect n container_id) in
      let deadline = o.time 0 + timeout_ms in
      (
        λ h.
            let (n, _, before, good) = poll_sound passes deadline 0 (rounds_for timeout_ms) h in
            (n, before, good),
        λ (n, before, good).
            poll_complete passes deadline n 0 (rounds_for timeout_ms) (omega arith)
              (omega (arith, round_fits n timeout_ms before)) before good,
      )

  survive_sound :
      (id deadline i n fuel : ℕ)
      → survive o id deadline n fuel ≡ true
      → n ≤ i
      → i < n + fuel
      → o.time i < deadline
      → worker_down (o.inspect i id) ≡ false
  unfolding survive
  survive_sound id deadline i n zero h low high before = absurd (omega arith)
  survive_sound id deadline i n (suc fuel) h low high before =
      let now : o.time n < deadline = early_le n i deadline low before in
      elim (Bool-cases (worker_down (o.inspect n id))) [
        | inl down ↦ absurd (ground (arith, now, down))
        | inr up ↦ elim (Bool-cases (ltb n i)) [
          | inl less ↦
              survive_sound id deadline i (suc n) fuel (ground (arith, now, up)) (ground arith)
                (omega arith) before
          | inr same ↦ let e : n ≡ i = ground arith in rw e at up
        ]
      ]

  survive_complete :
      (id deadline n fuel : ℕ)
      → ((i : ℕ) → o.time i < deadline → worker_down (o.inspect i id) ≡ false)
      → survive o id deadline n fuel ≡ true
  unfolding survive
  survive_complete id deadline n zero up = refl
  survive_complete id deadline n (suc fuel) up = elim (Bool-cases (ltb (o.time n) deadline)) [
    | inl early ↦ rw (early, up n (ground arith)) (survive_complete id deadline (suc n) fuel up)
    | inr late ↦ rw late
  ]

  -- The worker gate passes exactly when no round of the grace window finds the container gone,
  -- stopped or unhealthy.
  pub probe_worker_iff :
      (container_id : ℕ)
      → (probe_worker o container_id ≡ true) ↔ (
          (n : ℕ)
          → o.time n < o.time 0 + worker_health_grace_ms
          → worker_down (o.inspect n container_id) ≡ false)
  unfolding probe_worker
  probe_worker_iff container_id =
      let deadline = o.time 0 + worker_health_grace_ms in
      (
        λ h n before.
            survive_sound container_id deadline n 0 (rounds_for worker_health_grace_ms) h
              (omega arith) (omega (arith, round_fits n worker_health_grace_ms before)) before,
        survive_complete container_id deadline 0 (rounds_for worker_health_grace_ms),
      )

  -- Every container of the set passes in the round.
  abbrev pub AllPass : ℕ → List Text → List Container → Type 0
  AllPass n one_shot = All (λ (c : Container). Passes one_shot (o.inspect n c.id) c.service)

  pub all_containers_healthy_iff :
      (n : ℕ) (one_shot : List Text) (cs : List Container)
      → (all_containers_healthy o n one_shot cs ≡ ok true) ↔ AllPass n one_shot cs
  unfolding all_containers_healthy
  all_containers_healthy_iff n one_shot [] = ((λ h. tt), λ h. refl)
  all_containers_healthy_iff n one_shot (c ∷ cs) = (
    λ h.
        let (here, later) = first n one_shot c cs h in
        (
          (verdict_iff one_shot (o.inspect n c.id) c.service).0 here,
          (all_containers_healthy_iff n one_shot cs).0 later,
        ),
    λ (here, later).
        let passed : container_verdict one_shot (o.inspect n c.id) c.service ≡ ok true =
          (verdict_iff one_shot (o.inspect n c.id) c.service).1 here in
        rw (passed, all_containers_healthy) ((all_containers_healthy_iff n one_shot cs).1 later),
  )
    where
      first :
          (n : ℕ) (one_shot : List Text) (c : Container) (cs : List Container)
          → all_containers_healthy o n one_shot (c ∷ cs) ≡ ok true
          → (container_verdict one_shot (o.inspect n c.id) c.service ≡ ok true)
            × (all_containers_healthy o n one_shot cs ≡ ok true)
      first n one_shot c cs h = ground arith

  -- What the compose gate's result says of the rounds before the deadline.
  abbrev pub GateSpec : ℕ → ℕ → List Text → List Container → Result Bool → Type 0
  GateSpec n deadline one_shot targets (ok true) =
      (i : ℕ) × (n ≤ i) × (o.time i < deadline) × (targets ≢ []) × AllPass i one_shot targets
  GateSpec n deadline one_shot targets (ok false) =
      (i : ℕ) → n ≤ i → o.time i < deadline → targets ≢ [] → ¬ AllPass i one_shot targets
  GateSpec n deadline one_shot targets (err e) =
      (e ≡ Error.one_shot_failed)
      × (i : ℕ) × (n ≤ i)
      × (o.time i < deadline)
      × (c : Container) × Elem c targets
      × Fails one_shot (o.inspect i c.id) c.service

  later-GateSpec :
      (n deadline : ℕ) (one_shot : List Text) (targets : List Container) (r : Result Bool)
      → (targets ≢ [] → ¬ AllPass n one_shot targets)
      → GateSpec (suc n) deadline one_shot targets r
      → GateSpec n deadline one_shot targets r
  later-GateSpec n deadline one_shot targets (ok true) fails (i, low, before, some_target, passes) =
      (i, omega arith, before, some_target, passes)
  later-GateSpec n deadline one_shot targets (ok false) fails none_later =
      λ i low before some_target passes. elim (Bool-cases (ltb n i)) [
        | inl less ↦ none_later i (ground arith) before some_target passes
        | inr same ↦ let e : i ≡ n = ground arith in fails some_target (rw e at passes)
      ]
  later-GateSpec n deadline one_shot targets (err e) fails (kind, i, low, before, c, m, failed) =
      (kind, i, omega arith, before, c, m, failed)

  compose_rounds-GateSpec :
      (n deadline : ℕ) (one_shot : List Text) (targets : List Container) (fuel : ℕ)
      → ((i : ℕ) → n ≤ i → o.time i < deadline → i < n + fuel)
      → GateSpec n deadline one_shot targets (compose_rounds o one_shot targets deadline n fuel)
  unfolding compose_rounds
  compose_rounds-GateSpec n deadline one_shot targets zero enough =
      λ i low before some_target passes. absurd (omega (arith, enough i low before))
  compose_rounds-GateSpec n deadline one_shot targets (suc fuel) enough =
      let rest = compose_rounds o one_shot targets deadline (suc n) fuel in
      let later =
        compose_rounds-GateSpec (suc n) deadline one_shot targets fuel
          (λ i low before. omega (arith, enough i (omega arith) before)) in
      elim (Bool-cases (ltb (o.time n) deadline)) [
        | inr late ↦ rw late (λ i low before some_target passes.
            absurd (ground (arith, early_le n i deadline low before)))
        | inl early ↦ elim (Bool-cases (ltb 0 (length targets))) [
          | inr empty ↦
              rw (early, empty)
                (later-GateSpec n deadline one_shot targets rest
                  (λ some_target passes. no_targets targets empty some_target) later)
          | inl filled ↦
              rw (early, filled)
                (round n deadline one_shot targets rest (ground arith) (some_targets targets filled)
                  (all_containers_healthy o n one_shot targets) refl later)
        ]
      ]
    where
      no_targets : (cs : List Container) → ltb 0 (length cs) ≡ false → cs ≢ [] → ⊥
      no_targets [] e h = h refl
      no_targets (c ∷ cs) e h = ground arith

      some_targets : (cs : List Container) → ltb 0 (length cs) ≡ true → cs ≢ []
      some_targets [] e = absurd (ground arith)
      some_targets (c ∷ cs) e = λ h. cc

      round :
          (n deadline : ℕ) (one_shot : List Text) (targets : List Container) (rest : Result Bool)
          → o.time n < deadline
          → targets ≢ []
          → (r : Result Bool) → all_containers_healthy o n one_shot targets ≡ r
          → GateSpec (suc n) deadline one_shot targets rest
          → GateSpec n deadline one_shot targets (after_round r rest)
      round n deadline one_shot targets rest before filled (ok true) e later =
          (n, omega arith, before, filled, (all_containers_healthy_iff n one_shot targets).0 e)
      round n deadline one_shot targets rest before filled (ok false) e later =
          later-GateSpec n deadline one_shot targets rest
            (λ _ passes. fails ((all_containers_healthy_iff n one_shot targets).1 passes) e) later
        where
          fails : {r : Result Bool} → r ≡ ok true → r ≡ ok false → ⊥
          fails p q = cc
      round n deadline one_shot targets rest before filled (err c) e later =
          let (kind, container, m, failed) = all_containers_err o n one_shot targets c e in
          (kind, n, omega arith, before, container, m, failed)

  -- The compose gate: it passes only if in some round before the deadline there is a target and every
  -- target passes (a one-shot has exited with 0, another container runs and reports no health or
  -- "healthy"); it gives up only if no round before the deadline was such; and it throws only the error
  -- of a failed one-shot, if in a round before the deadline one has exited with another code.
  pub compose_healthy-GateSpec :
      (timeout_ms : ℕ) (one_shot : List Text) (targets : List Container)
      → GateSpec 0
          (o.time 0 + timeout_ms)
          one_shot
          targets
          (compose_healthy o timeout_ms one_shot targets)
  unfolding compose_healthy
  compose_healthy-GateSpec timeout_ms one_shot targets =
      compose_rounds-GateSpec 0 (o.time 0 + timeout_ms) one_shot targets (rounds_for timeout_ms)
        (λ i low before. omega (arith, round_fits i timeout_ms before))
