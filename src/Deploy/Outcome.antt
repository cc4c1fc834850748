-- ===== src/Deploy/Outcome.antt =====
-- How a release ends: it is live, or it has failed, and its deployment's state says which.
use willy.Prelude.{
  ℕ, ◌≡◌, ◌⊎◌, inl, inr, refl, ap, ◌∙◌, true, false, Option, ◌==◌, update_where, Elem, Bool-cases,
  Text, Result, ok, err, Error, is_some, if◌then◌else◌, arith,
}
use willy.Prelude.Rows.{update-elem}
use willy.Deploy.{
  Deployment, DeploymentState, Release, ReleaseStatus, World, Outside, M, has_id, set_state,
  set_active_release, find_deployment, ◌>>=◌,
}
use willy.Deploy.Hoare.{Triple, Keeps, Ends, bind-Triple, try-Triple, weaken, always, if-Triple}
use willy.Deploy.Frames.{
  Framed, Statusless, deployments-set_status, releases-set_status, cleanup_images-Keeps,
  supersede-Keeps, sync_found-Keeps,
}
use willy.Deploy.Activation.{
  IsActive, Anything, set_active_release-IsActive, set_state-IsActive, IsActive-Statusless,
  remove_stale_containers-Keeps,
}
use willy.Deploy.Releases.{ReleaseUpdate, set_status, find_release, is_release, with_status}
use willy.Deploy.Swap.{launch_and_health_check}
use willy.Deploy.Runner.{
  attempt, supersede, run_release, fail_release, go_scheduled, go_live, cut_over, require, is_cron,
  make_image,
}

-- The rows with an id have a status, or a state.
abbrev pub HasStatus : ℕ → ReleaseStatus → World → Type 0
HasStatus id status w =
    (row : Release) → Elem row w.releases → is_release id row ≡ true → row.status ≡ status

abbrev pub HasState : ℕ → DeploymentState → World → Type 0
HasState id state w =
    (row : Deployment) → Elem row w.deployments → has_id id row ≡ true → row.state ≡ state

set_status-HasStatus :
    (id : ℕ) (status : ReleaseStatus) (update : ReleaseUpdate) {E : World → Type 0}
    → Triple Anything (set_status id status update) (λ a w. HasStatus id status w) E
unfolding set_status
set_status-HasStatus id status update = record {
  ends = λ w p row m h.
      let m₁ : Elem row
          (update_where (is_release id) (with_status w.clock status update) w.releases) =
        rw (← releases-set_status id status update w) m in
      let (x, m', e) =
        update-elem (is_release id) (with_status w.clock status update) row w.releases m₁ in
      elim (Bool-cases (is_release id x)) [
        | inl y ↦
            let e' : row ≡ with_status w.clock status update x = rw y at e in ap (λ z. z.status) e'
        | inr n ↦ let e' : row ≡ x = rw n at e in absurd (cc (h, n, e'))
      ];
}

HasStatus-other :
    (id : ℕ) (status : ReleaseStatus) (k : ℕ) → k == id ≡ false → Statusless (HasStatus id status) k
unfolding set_status
HasStatus-other id status k n s update = always {m = set_status k s update} (λ w p row m h.
    let m₁ : Elem row (update_where (is_release k) (with_status w.clock s update) w.releases) =
      rw (← releases-set_status k s update w) m in
    let (x, m', e) = update-elem (is_release k) (with_status w.clock s update) row w.releases m₁ in
    elim (Bool-cases (is_release k x)) [
      | inl y ↦
          let e' : row ≡ with_status w.clock s update x = rw y at e in
          let i : row.id ≡ x.id = ap (λ z. z.id) e' in absurd (ground (arith, i))
      | inr q ↦ let e' : row ≡ x = rw q at e in ap (λ z. z.status) e' ∙ p x m' (rw (← e') h)
    ])

set_state-HasState :
    (id : ℕ) (state : DeploymentState) {E : World → Type 0}
    → Triple Anything (set_state id state) (λ a w. HasState id state w) E
unfolding set_state
set_state-HasState id state = record {
  ends = λ w p row m h.
      let (x, m', e) =
        update-elem (has_id id) (λ d. record d { state = state }) row w.deployments m in
      elim (Bool-cases (has_id id x)) [
        | inl y ↦ let e' : row ≡ record x { state = state } = rw y at e in ap (λ z. z.state) e'
        | inr n ↦ let e' : row ≡ x = rw n at e in absurd (cc (h, n, e'))
      ];
}

any-Ends : {A : Type 0} (p : Result A × World) → Ends (λ a w. Anything w) Anything p
any-Ends (ok a, w) = tt
any-Ends (err e, w) = tt

pub any-Triple :
    {A : Type 0} {P : World → Type 0} (m : M A) → Triple P m (λ a w. Anything w) Anything
any-Triple m = record { ends = λ w p. any-Ends (m w) }

module _ (o : Outside) (d : Deployment) (release_id : ℕ) where
  -- The release is live, the active one, and the deployment runs.
  abbrev pub IsDeployed : World → Type 0
  IsDeployed w =
      HasStatus release_id ReleaseStatus.live w
      × HasState d.id DeploymentState.running w
      × IsActive d.id release_id w

  -- The state that a failed release leaves.
  abbrev pub fallback : DeploymentState
  fallback =
      if is_some d.active_release then DeploymentState.degraded else DeploymentState.error_state

  abbrev pub IsFailed : World → Type 0
  IsFailed w = HasStatus release_id ReleaseStatus.failed w × HasState d.id fallback w

  pub Deployed-Framed : Framed IsDeployed
  Deployed-Framed = record {
    timeless = λ w n p. p;
    imageless = λ w xs p. p;
    scheduleless = λ w xs p. p;
  }

  Deployed-other : (k : ℕ) → k == release_id ≡ false → Statusless IsDeployed k
  unfolding set_status
  Deployed-other k n status update = always {m = set_status k status update} (λ w p. (
    (HasStatus-other release_id ReleaseStatus.live k n status update).ends w p.0,
    λ row m h. p.1 row (rw (← deployments-set_status k status update w) m) h,
    (IsActive-Statusless d.id release_id k status update).ends w p.2,
  ))

  -- The three statements that make a release the one that serves.
  abbrev switched : ReleaseUpdate → {B : Type 0} → M B → M B
  switched update k = set_status release_id ReleaseStatus.live update >>= λ a.
      set_active_release d.id release_id >>= λ b. set_state d.id DeploymentState.running >>= λ c. k

  pub switched-IsDeployed :
      {B : Type 0} {Q : B → World → Type 0} {E : World → Type 0} (update : ReleaseUpdate) (k : M B)
      → Triple IsDeployed k Q E
      → Triple Anything (switched update k) Q E
  unfolding set_active_release set_state
  switched-IsDeployed {E = E} update k t =
      bind-Triple (set_status-HasStatus release_id ReleaseStatus.live update) (λ a.
        bind-Triple
          {Q = λ b w. HasStatus release_id ReleaseStatus.live w × IsActive d.id release_id w}
          {m = set_active_release d.id release_id}
          (record {
            ends = λ w p. (p, (set_active_release-IsActive d.id release_id {E = E}).ends w tt);
          })
          (λ b.
            bind-Triple {Q = λ c w. IsDeployed w} {m = set_state d.id DeploymentState.running}
              (record {
                ends = λ w p. (
                  p.0,
                  (set_state-HasState d.id DeploymentState.running {E = E}).ends w tt,
                  (set_state-IsActive d.id release_id DeploymentState.running).ends w p.1,
                );
              })
              (λ c. t)))

  pub superseded-Keeps : Keeps IsDeployed (supersede o d.active_release release_id)
  superseded-Keeps = supersede-Keeps o Deployed-Framed d.active_release release_id Deployed-other

  cut_over-IsDeployed :
      (tag : Text) (container_id : ℕ)
      → Triple Anything (cut_over o d release_id tag container_id) (λ a w. IsDeployed w) Anything
  unfolding cut_over
  cut_over-IsDeployed tag container_id = switched-IsDeployed _ _ (
      weaken
        (bind-Triple
          (remove_stale_containers-Keeps o Deployed-Framed (λ w xs p. p) d.id container_id)
          (λ a. bind-Triple superseded-Keeps (λ b. cleanup_images-Keeps o Deployed-Framed d tag)))
        (λ a w p. p) (λ w p. tt))

  go_scheduled-IsDeployed :
      (tag : Text)
      → Triple Anything (go_scheduled o d release_id tag) (λ a w. IsDeployed w) Anything
  unfolding go_scheduled find_deployment
  go_scheduled-IsDeployed tag = switched-IsDeployed _ _ (
      weaken
        (bind-Triple superseded-Keeps (λ a.
          bind-Triple (cleanup_images-Keeps o Deployed-Framed d tag) (λ b.
            bind-Triple {A = Option Deployment} {m = find_deployment d.id} (always (λ w p. p))
              (λ found. sync_found-Keeps o Deployed-Framed found))))
        (λ a w p. p) (λ w p. tt))

  attempt-IsDeployed : Triple Anything (attempt o d release_id) (λ a w. IsDeployed w) Anything
  unfolding attempt go_live
  attempt-IsDeployed = bind-Triple (any-Triple (find_release release_id)) (λ found.
      bind-Triple (any-Triple (require Error.not_found found)) (λ release.
        bind-Triple (any-Triple (make_image o d release_id)) (λ tag.
          if-Triple (is_cron d.kind) (go_scheduled-IsDeployed tag) (
            bind-Triple (any-Triple (set_status release_id ReleaseStatus.healthchecking _)) (λ a.
              bind-Triple (any-Triple (launch_and_health_check o d tag release_id))
                (λ id. cut_over-IsDeployed tag id))))))

  pub fail_release-IsFailed :
      {E : World → Type 0} (e : Error)
      → Triple Anything (fail_release o d release_id e) (λ a w. IsFailed w) E
  unfolding fail_release set_state
  fail_release-IsFailed {E = E} e =
      bind-Triple (set_status-HasStatus release_id ReleaseStatus.failed _)
        (λ a. record { ends = λ w p. (p, (set_state-HasState d.id fallback {E = E}).ends w tt) })

  pub total-Ends :
      (p : Result (Unit {0}) × World)
      → Ends (λ a w. IsDeployed w ⊎ IsFailed w) (λ w. ⊥) p
      → (p.0 ≡ ok tt) × (IsDeployed p.1 ⊎ IsFailed p.1)
  total-Ends (ok tt, w) h = (refl, h)
  total-Ends (err e, w) h = absurd h

  -- Whatever git, Docker and the probes answer, a deploy ends without an exception, and in one of two
  -- ways: its release is live and the active one and the deployment runs, or its release has failed
  -- and the deployment is degraded, or in error if it had no active release before.
  pub run_release-outcome :
      (w : World)
      → ((run_release o d release_id w).0 ≡ ok tt)
        × (IsDeployed (run_release o d release_id w).1 ⊎ IsFailed (run_release o d release_id w).1)
  unfolding run_release
  run_release-outcome w = total-Ends (run_release o d release_id w) (
      (try-Triple (weaken attempt-IsDeployed (λ a u p. inl p) (λ u p. p))
          (λ e. weaken (fail_release-IsFailed e) (λ a u p. inr p) (λ u p. p))).ends
        w tt)
