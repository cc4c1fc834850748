-- ===== src/Deploy/Cutover.antt =====
-- How a blue-green release ends, and that it removes no other project's container before the cutover.
use willy.Prelude.{ℕ, Option, none, some, Text, Error}
use willy.Deploy.{Deployment, DeploymentState, ReleaseStatus, World, Outside, pure, call}
use willy.Deploy.Hoare.{Triple, Keeps, bind-Triple, weaken, always, call-Keeps, if-Triple}
use willy.Deploy.Releases.{no_update, set_status, find_release}
use willy.Deploy.Frames.{Framed, supersede-Keeps}
use willy.Deploy.Activation.{
  IsActive, Anything, Boxless, IsActive-Framed, IsActive-Statusless, remove_each-Keeps,
  set_status-first, set_active_release-IsActive, set_state-IsActive,
}
use willy.Deploy.Outcome.{
  IsDeployed, any-Triple, Deployed-Framed, switched-IsDeployed, superseded-Keeps,
}
use willy.Deploy.Runner.{require}
use willy.Deploy.ComposeRelease.{
  Stack, list_by_project, down_release, down_prior, superseded_project, up_eligible, up_pinned,
  green_set, gates, compose_cut_over, compose_attempt,
}

module _ (o : Outside) (s : Stack) {P : World → Type 0} (frame : Framed P)
    (boxless : Boxless P) where
  down_release-Keeps : (project : Text) → Keeps P (down_release o s project)
  unfolding down_release list_by_project
  down_release-Keeps project =
      bind-Triple {Q = λ xs w. P w} {m = list_by_project o s project}
        (bind-Triple (call-Keeps o.lists frame.timeless) (λ a. record { ends = λ w p. p }))
        (λ xs.
          bind-Triple (remove_each-Keeps o frame boxless xs)
            (λ a. call-Keeps (λ now. s.removes_network now project) frame.timeless))

  down_prior-Keeps :
      (d : Deployment) (prior project : Option Text) → Keeps P (down_prior o s d prior project)
  down_prior-Keeps d none project = always (λ w p. p)
  down_prior-Keeps d (some prior) project =
      if-Triple (superseded_project o s d (some prior) project) (down_release-Keeps prior)
        (always {m = pure tt} (λ w p. p))

module _ (o : Outside) (s : Stack) (d : Deployment) (release_id : ℕ) where
  pub compose_cut_over-IsActive :
      (prior project : Option Text)
      → Triple Anything
          (compose_cut_over o s d release_id prior project)
          (λ a w. IsActive d.id release_id w)
          (IsActive d.id release_id)
  unfolding compose_cut_over
  compose_cut_over-IsActive prior project =
      bind-Triple (set_status-first o d release_id ReleaseStatus.live _) (λ a.
        bind-Triple (set_active_release-IsActive d.id release_id) (λ b.
          bind-Triple (set_state-IsActive d.id release_id DeploymentState.running) (λ c.
            bind-Triple
              (down_prior-Keeps o s (IsActive-Framed d.id release_id) (λ w xs p. p) d prior project)
              (λ e.
                supersede-Keeps o (IsActive-Framed d.id release_id) d.active_release release_id
                  (λ k n. IsActive-Statusless d.id release_id k)))))

  compose_cut_over-IsDeployed :
      (prior project : Option Text)
      → Triple Anything
          (compose_cut_over o s d release_id prior project)
          (λ a w. IsDeployed o d release_id w)
          Anything
  unfolding compose_cut_over
  compose_cut_over-IsDeployed prior project = switched-IsDeployed o d release_id _ _ (
      weaken
        (bind-Triple
          (down_prior-Keeps o s (Deployed-Framed o d release_id) (λ w xs p. p) d prior project)
          (λ a. superseded-Keeps o d release_id))
        (λ a w p. p) (λ w p. tt))

  pub compose_attempt-IsDeployed :
      (prior : Option Text)
      → Triple Anything
          (compose_attempt o s d release_id prior)
          (λ a w. IsDeployed o d release_id w)
          Anything
  unfolding compose_attempt
  compose_attempt-IsDeployed prior = bind-Triple (any-Triple (find_release release_id)) (λ found.
      bind-Triple (any-Triple (require Error.not_found found)) (λ release.
        bind-Triple (any-Triple (set_status release_id ReleaseStatus.cloning no_update)) (λ a.
          bind-Triple (any-Triple (call (λ now. o.clone now d))) (λ sha.
            bind-Triple (any-Triple (set_status release_id ReleaseStatus.building _)) (λ b.
              bind-Triple (any-Triple (call (λ now. s.prepare now d))) (λ plan.
                bind-Triple (any-Triple (up_pinned o s d plan)) (λ e.
                  bind-Triple (any-Triple (up_eligible o s d release_id plan)) (λ project.
                    bind-Triple (any-Triple (set_status release_id ReleaseStatus.healthchecking _))
                      (λ f. bind-Triple (any-Triple (green_set o s d plan project)) (λ green.
                        bind-Triple (any-Triple (gates o s d plan project green))
                          (λ g. compose_cut_over-IsDeployed prior project)))))))))))
