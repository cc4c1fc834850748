-- ===== src/Health/Verdicts.antt =====
-- What a round of the compose gate asks of one container, described without the code's tests.
use willy.Prelude.{
  ℕ, ◌≡◌, ◌≢◌, ◌⊎◌, ◌↔◌, inl, inr, refl, Bool, true, false, Option, none, some, List, [], ◌∷◌, ◌==◌,
  Text, text_mem, Elem, Error, Result, ok, err, arith, Bool-cases,
}
use willy.Prelude.Effects.{Result-cases}
use willy.Health.{
  HealthState, ContainerStatus, Container, Observer, health_passes, one_shot_service,
  container_verdict, all_containers_healthy,
}

-- The container is one of a service that runs once.
abbrev pub IsOneShot : List Text → Option Text → Type 0
IsOneShot one_shot service =
    (name : Text) × (service ≡ some name) × (name ≢ []) × (text_mem name one_shot ≡ true)

-- A container that Docker reports passes when it is a one-shot that has exited with 0, or another one
-- that runs and reports no health or "healthy".
abbrev pub HasPassed : List Text → Option Text → ContainerStatus → Type 0
HasPassed one_shot service s =
    (IsOneShot one_shot service × (s.exited ≡ true) × (s.exit_code ≡ 0))
    ⊎ ((¬ IsOneShot one_shot service)
        × (s.running ≡ true)
        × ((s.health ≡ none) ⊎ (s.health ≡ some HealthState.healthy)))

-- A one-shot that has exited with another code.
abbrev pub HasFailed : List Text → Option Text → ContainerStatus → Type 0
HasFailed one_shot service s = IsOneShot one_shot service × (s.exited ≡ true) × (s.exit_code ≢ 0)

listed-IsOneShot :
    (one_shot : List Text) (service : Option Text)
    → one_shot_service one_shot service ≡ true
    → IsOneShot one_shot service
listed-IsOneShot one_shot none h = absurd (cc h)
listed-IsOneShot one_shot (some []) h = absurd (cc h)
listed-IsOneShot one_shot (some (c ∷ s)) h = (c ∷ s, refl, (λ e. cc), h)

IsOneShot-one_shot :
    (one_shot : List Text) (service : Option Text)
    → IsOneShot one_shot service
    → one_shot_service one_shot service ≡ true
IsOneShot-one_shot one_shot service (name, e, filled, m) = rw e (of_name name filled m)
  where
    of_name :
        (name : Text)
        → name ≢ []
        → text_mem name one_shot ≡ true
        → one_shot_service one_shot (some name) ≡ true
    of_name [] filled m = absurd (filled refl)
    of_name (c ∷ s) filled m = m

not_passing :
    {h : HealthState}
    → h ≢ HealthState.healthy
    → {b : Bool} → b ≡ false
    → (b ≡ true) ↔ ((some h ≡ none) ⊎ (some h ≡ some HealthState.healthy))
not_passing n e =
    (λ y. absurd (cc (e, y)), λ m. elim m [ inl x ↦ absurd (cc x) | inr x ↦ absurd (n (cc x)) ])

health_passes_iff :
    (h : Option HealthState)
    → (health_passes h ≡ true) ↔ ((h ≡ none) ⊎ (h ≡ some HealthState.healthy))
health_passes_iff none = ((λ e. inl refl), λ e. refl)
health_passes_iff (some HealthState.healthy) = ((λ e. inr refl), λ e. refl)
health_passes_iff (some HealthState.starting) = not_passing (λ e. cc) refl
health_passes_iff (some HealthState.unhealthy) = not_passing (λ e. cc) refl

-- The verdict on a container, whichever it is.
abbrev pub VerdictSays : List Text → Option Text → ContainerStatus → Result Bool → Type 0
VerdictSays one_shot service s (ok true) = HasPassed one_shot service s
VerdictSays one_shot service s (ok false) = ¬ HasPassed one_shot service s
VerdictSays one_shot service s (err e) = (e ≡ Error.one_shot_failed) × HasFailed one_shot service s

verdict-says :
    (one_shot : List Text) (service : Option Text) (s : ContainerStatus)
    → VerdictSays one_shot service s (container_verdict one_shot (some s) service)
unfolding container_verdict
verdict-says one_shot service s = elim (Bool-cases (one_shot_service one_shot service)) [
  | inl once ↦
      let one = listed-IsOneShot one_shot service once in
      elim (Bool-cases s.exited) [
        | inr up ↦
            rw (once, up)
              (λ h. elim h [ inl (_, out, _) ↦ absurd (cc out) | inr (long, _, _) ↦ long one ])
        | inl out ↦ elim (Bool-cases (s.exit_code == 0)) [
          | inl zero_code ↦ rw (once, out, zero_code) (inl (one, refl, ground arith))
          | inr other ↦ rw (once, out, other) (refl, (one, refl, λ e. ground arith))
        ]
      ]
  | inr long ↦
      let never : ¬ IsOneShot one_shot service =
        λ one. cc (long, IsOneShot-one_shot one_shot service one) in
      elim (Bool-cases s.running) [
        | inr down ↦
            rw (long, down)
              (λ h. elim h [ inl (one, _, _) ↦ never one | inr (_, up, _) ↦ absurd (cc up) ])
        | inl up ↦ elim (Bool-cases (health_passes s.health)) [
          | inl good ↦ rw (long, up, good) (inr (never, refl, (health_passes_iff s.health).0 good))
          | inr bad ↦
              rw (long, up, bad)
                (λ h. elim h [
                  | inl (one, _, _) ↦ never one
                  | inr (_, _, good) ↦ absurd (cc (bad, (health_passes_iff s.health).1 good))
                ])
        ]
      ]
]

-- The container is there and passes, or has failed.
abbrev pub Passes : List Text → Option ContainerStatus → Option Text → Type 0
Passes one_shot none service = ⊥
Passes one_shot (some s) service = HasPassed one_shot service s

abbrev pub Fails : List Text → Option ContainerStatus → Option Text → Type 0
Fails one_shot none service = ⊥
Fails one_shot (some s) service = HasFailed one_shot service s

says_iff :
    (one_shot : List Text) (service : Option Text) (s : ContainerStatus) (v r : Result Bool)
    → v ≡ r
    → VerdictSays one_shot service s r
    → (v ≡ ok true) ↔ HasPassed one_shot service s
says_iff one_shot service s v (ok true) e h = ((λ _. h), λ _. e)
says_iff one_shot service s v (ok false) e h = ((λ y. absurd (cc (e, y))), λ p. absurd (h p))
says_iff one_shot service s v (err x) e (_, (one, out, other)) = (
  λ y. absurd (cc (e, y)),
  λ p. elim p [ inl (_, _, z) ↦ absurd (other z) | inr (long, _, _) ↦ absurd (long one) ],
)

pub verdict_iff :
    (one_shot : List Text) (seen : Option ContainerStatus) (service : Option Text)
    → (container_verdict one_shot seen service ≡ ok true) ↔ Passes one_shot seen service
unfolding container_verdict
verdict_iff one_shot none service = ((λ h. absurd (cc h)), λ p. absurd p)
verdict_iff one_shot (some s) service =
    let v = container_verdict one_shot (some s) service in
    says_iff one_shot service s v v refl (verdict-says one_shot service s)

says_err :
    (one_shot : List Text) (service : Option Text) (s : ContainerStatus) (v r : Result Bool)
    → v ≡ r
    → VerdictSays one_shot service s r
    → (e : Error) → v ≡ err e
    → (e ≡ Error.one_shot_failed) × HasFailed one_shot service s
says_err one_shot service s v (ok b) e h x y = absurd (cc (e, y))
says_err one_shot service s v (err z) e (kind, failed) x y =
    let same : z ≡ x = cc (e, y) in (cc (same, kind), failed)

pub verdict_err :
    (one_shot : List Text) (seen : Option ContainerStatus) (service : Option Text) (e : Error)
    → container_verdict one_shot seen service ≡ err e
    → (e ≡ Error.one_shot_failed) × Fails one_shot seen service
unfolding container_verdict
verdict_err one_shot none service e h = absurd (cc h)
verdict_err one_shot (some s) service e h =
    let v = container_verdict one_shot (some s) service in
    says_err one_shot service s v v refl (verdict-says one_shot service s) e h

-- One of the containers has failed in a round that throws.
pub all_containers_err :
    (o : Observer) (n : ℕ) (one_shot : List Text) (cs : List Container) (e : Error)
    → all_containers_healthy o n one_shot cs ≡ err e
    → (e ≡ Error.one_shot_failed)
      × (c : Container) × Elem c cs
      × Fails one_shot (o.inspect n c.id) c.service
unfolding all_containers_healthy
all_containers_err o n one_shot [] e h = absurd (cc h)
all_containers_err o n one_shot (c ∷ cs) e h =
    elim (Result-cases (container_verdict one_shot (o.inspect n c.id) c.service)) [
      | inr (x, thrown) ↦
          let h' : err x ≡ err e = rw (thrown, all_containers_healthy) at h in
          let same : x ≡ e = cc h' in
          let (kind, failed) = verdict_err one_shot (o.inspect n c.id) c.service x thrown in
          (cc (same, kind), c, inl refl, failed)
      | inl (true, passed) ↦
          let h' : all_containers_healthy o n one_shot cs ≡ err e =
            rw (passed, all_containers_healthy) at h in
          let (kind, other, m, failed) = all_containers_err o n one_shot cs e h' in
          (kind, other, inr m, failed)
      | inl (false, waits) ↦
          let h' : ok false ≡ err e = rw (waits, all_containers_healthy) at h in absurd (cc h')
    ]
