-- ===== src/Deploy/NonDestructive.antt =====
-- A blue-green release that does not become the active one is not destructive.
use willy.Prelude.{
  ℕ, ◌≡◌, ◌⊎◌, inl, inr, Bool, false, Option, none, some, List, [], or_else, filter, Text, Result,
  ok, err, Error,
}
use willy.Health.{Container, compose_healthy, first_unreachable_route}
use willy.Domains.{owned_by}
use willy.Domains.Routes.{DomainRoute, expand_domain_routes}
use willy.Deploy.{
  Deployment, Release, ReleaseStatus, Box, World, Outside, pure, get, ask, throw, set_state, ◌>>=◌,
}
use willy.Deploy.Hoare.{
  Triple, Keeps, Ends, bind-Triple, try-Triple, weaken, before, always, call-Keeps, if-Triple,
}
use willy.Deploy.Releases.{no_update, set_status, find_release}
use willy.Deploy.Safety.{Stands}
use willy.Deploy.Frames.{Statusless, containers-set_status}
use willy.Deploy.Activation.{IsActive, Anything, IsActive-Statusless, set_state-IsActive}
use willy.Deploy.NoLoss.{require-Keeps}
use willy.Deploy.Outcome.{IsDeployed, IsFailed, fail_release-IsFailed, total-Ends}
use willy.Deploy.Runner.{find_active, fail_release}
use willy.Deploy.ComposeRelease.{
  Plan, Stack, in_project, is_nil, base_project, release_project, compose_project_of, up_eligible,
  up_pinned, green_set, gates, compose_cut_over, compose_attempt, run_compose_release, timeout_of,
}
use willy.Deploy.Cutover.{compose_cut_over-IsActive, compose_attempt-IsDeployed}
use willy.Deploy.BlueGreen.{
  Confined, NotIn, up_project-Safe, remove_failed_release-Safe, list_for_project-Safe,
  list_for_release-Safe, after_health-Safe, after_routes-Safe,
}

module _ (o : Outside) (s : Stack) (law : Confined s) (d : Deployment) (release_id : ℕ) (c : Box)
    (elsewhere : in_project (base_project d) c ≡ false)
    (other : in_project (release_project o s d release_id) c ≡ false) where
  abbrev Stays : World → Type 0
  Stays w = Stands c w.containers

  abbrev Either : World → Type 0
  Either w = Stays w ⊎ IsActive d.id release_id w

  Stays-Statusless : (k : ℕ) → Statusless Stays k
  unfolding set_status
  Stays-Statusless k status update =
      always {m = set_status k status update}
        (λ w p. rw (containers-set_status k status update w) p)

  up_pinned-Stays : (plan : Plan) → Keeps Stays (up_pinned o s d plan)
  unfolding up_pinned
  up_pinned-Stays plan =
      if-Triple (is_nil plan.pinned) (always {m = pure tt} (λ w p. p))
        (up_project-Safe o s law c (base_project d) elsewhere)

  abbrev Fitting : Option Text → World → Type 0
  Fitting project w = Stays w × NotIn o s law c project

  up_eligible-Stays : (plan : Plan) → Triple Stays (up_eligible o s d release_id plan) Fitting Stays
  unfolding up_eligible
  up_eligible-Stays plan =
      if-Triple (is_nil plan.eligible) (record { ends = λ w p. (p, tt) })
        (bind-Triple
          (try-Triple (up_project-Safe o s law c (release_project o s d release_id) other) (λ e.
            bind-Triple {B = Unit {0}}
              (remove_failed_release-Safe o s law c (some (release_project o s d release_id)) other)
              (λ a. always {m = throw e} (λ w p. p))))
          (λ a. record { ends = λ w p. (p, other) }))

  green_set-Stays :
      (plan : Plan) (project : Option Text)
      → NotIn o s law c project
      → Keeps Stays (green_set o s d plan project)
  unfolding green_set
  green_set-Stays plan project n =
      bind-Triple
        (if-Triple (is_nil plan.pinned) (always {m = pure []} (λ w p. p))
          (list_for_project-Safe o s law c (base_project d) elsewhere))
        (λ base.
          bind-Triple (list_for_release-Safe o s law c project n) (λ release. always (λ w p. p)))

  gates-Stays :
      (plan : Plan) (project : Option Text) (green : List Container)
      → NotIn o s law c project
      → Keeps Stays (gates o s d plan project green)
  unfolding gates
  gates-Stays plan project green n =
      bind-Triple {A = Result Bool} {Q = λ v w. Stays w}
        {m = ask (λ now. compose_healthy (o.observer now) (timeout_of o s d) plan.one_shot green)}
        (always (λ w p. p))
        (λ verdict. bind-Triple (after_health-Safe o s law c project verdict n) (λ a.
          bind-Triple {A = World} {Q = λ v w. Stays w} {m = get} (always (λ w p. p)) (λ u.
            bind-Triple {A = Option DomainRoute} {Q = λ v w. Stays w}
              {m = ask (λ now.
                first_unreachable_route (o.observer now) (timeout_of o s d) d.web_service_port
                  plan.one_shot green
                  (expand_domain_routes (filter (owned_by d.id) u.domains) u.bindings))}
              (always (λ w p. p)) (λ route. after_routes-Safe o s law c project route n))))

  up_to_cutover :
      (prior project : Option Text) (plan : Plan)
      → NotIn o s law c project
      → Triple Stays
          (set_status release_id ReleaseStatus.healthchecking
              (record no_update { compose_project = some (or_else project (base_project d)) })
            >>= λ a.
                (green_set o s d plan project >>= λ green.
                (gates o s d plan project green >>= λ b.
                compose_cut_over o s d release_id prior project)))
          (λ a w. Either w)
          Either
  up_to_cutover prior project plan n =
      bind-Triple
        (weaken (Stays-Statusless release_id ReleaseStatus.healthchecking _) (λ a w p. p)
          (λ w p. inl p))
        (λ a.
          bind-Triple (weaken (green_set-Stays plan project n) (λ g w p. p) (λ w p. inl p))
            (λ green.
              bind-Triple (weaken (gates-Stays plan project green n) (λ g w p. p) (λ w p. inl p))
                (λ b.
                  before (λ w p. tt)
                    (weaken (compose_cut_over-IsActive o s d release_id prior project)
                      (λ e w h. inr h) (λ w h. inr h)))))

  compose_attempt-Either :
      (prior : Option Text)
      → Triple Stays (compose_attempt o s d release_id prior) (λ a w. Either w) Either
  unfolding compose_attempt find_release
  compose_attempt-Either prior =
      bind-Triple {A = Option Release} {Q = λ a w. Stays w} {m = find_release release_id}
        (record { ends = λ w p. p })
        (λ found.
          bind-Triple
            (weaken (require-Keeps Stays Error.not_found found) (λ a w p. p) (λ w p. inl p))
            (λ r.
              bind-Triple
                (weaken (Stays-Statusless release_id ReleaseStatus.cloning no_update) (λ a w p. p)
                  (λ w p. inl p))
                (λ a.
                  bind-Triple
                    (weaken (call-Keeps {P = Stays} (λ now. o.clone now d) (λ w k p. p))
                      (λ x w p. p) (λ w p. inl p))
                    (λ sha.
                      bind-Triple
                        (weaken
                          (Stays-Statusless release_id ReleaseStatus.building
                            (record no_update { git_sha = some sha }))
                          (λ x w p. p) (λ w p. inl p))
                        (λ b.
                          bind-Triple
                            (weaken (call-Keeps {P = Stays} (λ now. s.prepare now d) (λ w k p. p))
                              (λ x w p. p) (λ w p. inl p))
                            (λ plan.
                              bind-Triple
                                (weaken (up_pinned-Stays plan) (λ x w p. p) (λ w p. inl p))
                                (λ e.
                                  bind-Triple
                                    (weaken (up_eligible-Stays plan) (λ x w p. p) (λ w p. inl p))
                                    (λ project. record {
                                      ends =
                                          λ w p. (up_to_cutover prior project plan p.1).ends w p.0;
                                    }))))))))

  fail_release-Stays : (e : Error) → Keeps Stays (fail_release o d release_id e)
  unfolding fail_release set_state
  fail_release-Stays e =
      bind-Triple (Stays-Statusless release_id ReleaseStatus.failed _) (λ a. always (λ w p. p))

  failed-IsActive : (e : Error) → Keeps (IsActive d.id release_id) (fail_release o d release_id e)
  unfolding fail_release
  failed-IsActive e =
      bind-Triple (IsActive-Statusless d.id release_id release_id ReleaseStatus.failed _)
        (λ a. set_state-IsActive d.id release_id _)

  fail_release-Either : (e : Error) → Keeps Either (fail_release o d release_id e)
  fail_release-Either e = record {
    ends = λ w h. elim h [
      | inl p ↦ (weaken (fail_release-Stays e) (λ a u q. inl q) (λ u q. inl q)).ends w p
      | inr t ↦ (weaken (failed-IsActive e) (λ a u q. inr q) (λ u q. inr q)).ends w t
    ];
  }

  find_active-Stays : (prior : Option ℕ) → Keeps Stays (find_active prior)
  unfolding find_release
  find_active-Stays none = always (λ w p. p)
  find_active-Stays (some id) = record { ends = λ w p. p }

  one_holds : (p : Result (Unit {0}) × World) → Ends (λ a w. Either w) Either p → Either p.1
  one_holds (ok a, w) h = h
  one_holds (err e, w) h = h

  -- A compose deploy whose release is not the active one afterwards is not destructive: a container
  -- that belongs neither to the base project nor to the new release's, such as the serving release's,
  -- stands if it stood before. `docker compose up` is taken to touch its own project only.
  pub run_compose_release-keeps :
      (w : World)
      → Stands c w.containers
      → Stands c (run_compose_release o s d release_id w).1.containers
        ⊎ IsActive d.id release_id (run_compose_release o s d release_id w).1
  unfolding run_compose_release
  run_compose_release-keeps w p = one_holds (run_compose_release o s d release_id w) (
      (bind-Triple (weaken (find_active-Stays d.active_release) (λ a u q. q) (λ u q. inl q))
          (λ prior.
            try-Triple (compose_attempt-Either (compose_project_of prior))
              fail_release-Either)).ends
        w p)

module _ (o : Outside) (s : Stack) (d : Deployment) (release_id : ℕ) where
  find_active-total :
      (prior : Option ℕ) → Triple Anything (find_active prior) (λ a w. Anything w) (λ w. ⊥)
  unfolding find_release
  find_active-total none = record { ends = λ w p. tt }
  find_active-total (some id) = record { ends = λ w p. tt }

  -- Whatever git, Docker and the probes answer, a compose deploy ends without an exception: its release
  -- is live and the active one and the deployment runs, or its release has failed and the deployment is
  -- degraded, or in error if it had no active release before.
  pub run_compose_release-outcome :
      (w : World)
      → ((run_compose_release o s d release_id w).0 ≡ ok tt)
        × (IsDeployed o d release_id (run_compose_release o s d release_id w).1
            ⊎ IsFailed o d release_id (run_compose_release o s d release_id w).1)
  unfolding run_compose_release
  run_compose_release-outcome w =
      total-Ends o d release_id (run_compose_release o s d release_id w) (
        (bind-Triple (find_active-total d.active_release) (λ prior.
            try-Triple
              (weaken (compose_attempt-IsDeployed o s d release_id (compose_project_of prior))
                (λ a u p. inl p) (λ u p. p))
              (λ e.
                weaken (fail_release-IsFailed o d release_id {E = λ u. ⊥} e) (λ a u p. inr p)
                  (λ u p. p)))).ends
          w tt)
