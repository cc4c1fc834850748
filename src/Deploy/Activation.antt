-- ===== src/Deploy/Activation.antt =====
-- What a release does once it makes itself the active one: it stays so, whatever throws later.
use willy.Prelude.{
  ℕ, suc, ◌≡◌, inl, inr, ap, ◌∙◌, true, Option, some, List, [], ◌∷◌, filter, Elem, Bool-cases, Text,
}
use willy.Prelude.Rows.{update-elem}
use willy.Deploy.{
  Deployment, DeploymentState, ReleaseStatus, Box, World, Outside, pure, get, has_id, set_state,
  set_active_release, find_deployment, ◌>>=◌,
}
use willy.Deploy.Hoare.{Triple, Keeps, bind-Triple, always, call-Keeps}
use willy.Deploy.Frames.{
  Framed, Statusless, deployments-set_status, cleanup_images-Keeps, supersede-Keeps,
  sync_found-Keeps,
}
use willy.Deploy.Releases.{ReleaseUpdate, set_status}
use willy.Deploy.Swap.{
  stop_and_remove, remove_each, list_by_label, remove_stale_containers, others, ids, owned,
}
use willy.Deploy.Images.{cleanup_images}
use willy.Deploy.Runner.{supersede, go_scheduled, cut_over}

-- The rows of the deployment carry the release as their active one.
abbrev pub IsActive : ℕ → ℕ → World → Type 0
IsActive id release_id w =
    (row : Deployment)
    → Elem row w.deployments
    → has_id id row ≡ true
    → row.active_release ≡ some release_id

abbrev pub Anything : World → Type 0
Anything w = Unit

pub set_active_release-IsActive :
    (id release_id : ℕ) {E : World → Type 0}
    → Triple Anything (set_active_release id release_id) (λ a w. IsActive id release_id w) E
unfolding set_active_release
set_active_release-IsActive id release_id = record {
  ends = λ w p row m h.
      let (x, m', e) =
        update-elem (has_id id) (λ d. record d { active_release = some release_id }) row
          w.deployments m in
      elim (Bool-cases (has_id id x)) [
        | inl y ↦ let e' : row ≡ record x { active_release = some release_id } = rw y at e in cc
        | inr n ↦ let e' : row ≡ x = rw n at e in absurd (cc (h, n, e'))
      ];
}

pub set_state-IsActive :
    (id release_id : ℕ) (state : DeploymentState)
    → Keeps (IsActive id release_id) (set_state id state)
unfolding set_state
set_state-IsActive id release_id state = always (λ w p row m h.
    let (x, m', e) =
      update-elem (has_id id) (λ d. record d { state = state }) row w.deployments m in
    elim (Bool-cases (has_id id x)) [
      | inl y ↦
          let e' : row ≡ record x { state = state } = rw y at e in
          ap (λ z. z.active_release) e' ∙ p x m' y
      | inr n ↦ let e' : row ≡ x = rw n at e in absurd (cc (h, n, e'))
    ])

pub IsActive-Framed : (id release_id : ℕ) → Framed (IsActive id release_id)
IsActive-Framed id release_id = record {
  timeless = λ w n p. p;
  imageless = λ w xs p. p;
  scheduleless = λ w xs p. p;
}

pub IsActive-Statusless : (id release_id k : ℕ) → Statusless (IsActive id release_id) k
unfolding set_status
IsActive-Statusless id release_id k status update =
    always {m = set_status k status update} (λ w p. rw (deployments-set_status k status update w) p)

-- The property does not read the containers.
abbrev pub Boxless : (World → Type 0) → Type 0
Boxless P = (w : World) (xs : List Box) → P w → P (record w { containers = xs })

module _ (o : Outside) {P : World → Type 0} (frame : Framed P) (boxless : Boxless P) where
  pub remove_each-Keeps : (xs : List ℕ) → Keeps P (remove_each o xs)
  unfolding remove_each stop_and_remove
  remove_each-Keeps [] = always (λ w p. p)
  remove_each-Keeps (x ∷ xs) =
      bind-Triple
        (always {m = stop_and_remove o x} (λ w p. frame.timeless _ (suc w.clock) (boxless w _ p)))
        (λ a. remove_each-Keeps xs)

  pub remove_stale_containers-Keeps :
      (deployment_id keep_id : ℕ) → Keeps P (remove_stale_containers o deployment_id keep_id)
  unfolding remove_stale_containers list_by_label
  remove_stale_containers-Keeps deployment_id keep_id =
      bind-Triple
        (bind-Triple (call-Keeps o.lists frame.timeless) (λ a.
          always {A = List ℕ}
            {m = get >>= λ w. pure (ids (filter (owned deployment_id) w.containers))} (λ w p. p)))
        (λ all. remove_each-Keeps (others o keep_id all))

module _ (o : Outside) (d : Deployment) (release_id : ℕ) where
  abbrev Act : World → Type 0
  Act = IsActive d.id release_id

  pub set_status-first :
      {E : World → Type 0} (status : ReleaseStatus) (update : ReleaseUpdate)
      → Triple Anything (set_status release_id status update) (λ a w. Anything w) E
  unfolding set_status
  set_status-first status update = record { ends = λ w p. tt }

  Act-kept :
      (prior : Option ℕ) (tag : Text)
      → Keeps Act (supersede o prior release_id >>= λ a. cleanup_images o d tag)
  Act-kept prior tag =
      bind-Triple
        (supersede-Keeps o (IsActive-Framed d.id release_id) prior release_id
          (λ k n. IsActive-Statusless d.id release_id k))
        (λ a. cleanup_images-Keeps o (IsActive-Framed d.id release_id) d tag)

  pub cut_over-IsActive :
      (tag : Text) (container_id : ℕ)
      → Triple Anything (cut_over o d release_id tag container_id) (λ a w. Act w) Act
  unfolding cut_over
  cut_over-IsActive tag container_id = bind-Triple (set_status-first ReleaseStatus.live _) (λ a.
      bind-Triple (set_active_release-IsActive d.id release_id) (λ b.
        bind-Triple (set_state-IsActive d.id release_id DeploymentState.running) (λ c.
          bind-Triple
            (remove_stale_containers-Keeps o (IsActive-Framed d.id release_id) (λ w xs p. p) d.id
              container_id)
            (λ e. Act-kept d.active_release tag))))

  pub go_scheduled-IsActive :
      (tag : Text) → Triple Anything (go_scheduled o d release_id tag) (λ a w. Act w) Act
  unfolding go_scheduled find_deployment
  go_scheduled-IsActive tag = bind-Triple (set_status-first ReleaseStatus.live _) (λ a.
      bind-Triple (set_active_release-IsActive d.id release_id) (λ b.
        bind-Triple (set_state-IsActive d.id release_id DeploymentState.running) (λ c.
          bind-Triple
            (supersede-Keeps o (IsActive-Framed d.id release_id) d.active_release release_id
              (λ k n. IsActive-Statusless d.id release_id k))
            (λ e. bind-Triple (cleanup_images-Keeps o (IsActive-Framed d.id release_id) d tag) (λ f.
              bind-Triple {A = Option Deployment} (always {m = find_deployment d.id} (λ w p. p))
                (λ found. sync_found-Keeps o (IsActive-Framed d.id release_id) found))))))
