-- ===== src/Deploy/Requests.antt =====
-- What the requests on a deployment refuse, and what they leave when they do.
use willy.Prelude.{
  ℕ, ◌≡◌, inl, inr, refl, Bool, true, false, Option, none, some, List, [], ◌∷◌, ◌==◌, Option-cases,
  Bool-cases, find, Text, Result, ok, err, Error, Elem, arith,
}
use willy.Prelude.Rows.{delete-keeps}
use willy.Deploy.{
  Deployment, DeploymentState, Release, World, Outside, throw_if, find_deployment, set_state,
  has_id, ◌>>=◌, ◌>>◌,
}
use willy.Deploy.Hoare.{Triple, Keeps, Ends, bind-Triple, weaken, always, throw_if-Keeps}
use willy.Deploy.Releases.{find_release, delete_release_row, is_release}
use willy.Deploy.Swap.{stop_and_remove}
use willy.Deploy.Images.{remove_image}
use willy.Deploy.Runner.{require, require_deployment, is_cron, is_compose, nonempty_text}
use willy.Deploy.Orchestrator.{
  Work, run_rollback_of, owns, rollback, delete_release, is_active_release, drop_container,
  drop_image,
}

module _ (o : Outside) (id release_id : ℕ) (w : World) where
  -- What `rollback` requires of the tables.
  pub record MayRollBack : Type 0 where
    pub deployment : Deployment
    pub target : Release
    pub tag : Text
    pub deployment_found : find (has_id id) w.deployments ≡ some deployment
    pub single : is_compose deployment.strategy ≡ false
    pub scheduled : is_cron deployment.kind ≡ false
    pub target_found : find (is_release release_id) w.releases ≡ some target
    pub own : target.deployment_id == id ≡ true
    pub built : nonempty_text target.image_tag ≡ some tag

  abbrev pub Checked : Result (List Work) × World → Type 0
  Checked (ok works, u) =
      MayRollBack
      × (works ≡ run_rollback_of id release_id ∷ [])
      × (u ≡ (set_state id DeploymentState.deploying w).1)
  Checked (err e, u) = u ≡ w

  -- A rollback is refused and leaves the state as it was, or the deployment exists, is neither COMPOSE
  -- nor CRON, the release is its own and has an image; then it is marked and the work is queued.
  pub rollback-Checked : Checked (rollback o id release_id w)
  unfolding rollback require_deployment find_deployment find_release set_state
  rollback-Checked = elim (Option-cases (find (has_id id) w.deployments)) [
    | inl e ↦ rw (e, rollback, require_deployment, find_deployment) refl
    | inr (d, e) ↦ elim (Bool-cases (is_compose d.strategy)) [
      | inl y ↦ rw (e, y, rollback, require_deployment, find_deployment) refl
      | inr n ↦ elim (Bool-cases (is_cron d.kind)) [
        | inl y ↦ rw (e, n, y, rollback, require_deployment, find_deployment) refl
        | inr n' ↦ elim (Option-cases (find (is_release release_id) w.releases)) [
          | inl f ↦
              rw (e, n, n', f, rollback, require_deployment, find_deployment, find_release, owns)
                refl
          | inr (r, f) ↦ elim (Bool-cases (r.deployment_id == id)) [
            | inr q ↦
                rw
                  (
                    e, n, n', f, q, rollback, require_deployment, find_deployment, find_release,
                    owns,
                  )
                  refl
            | inl q ↦ elim (Option-cases (nonempty_text r.image_tag)) [
              | inl t ↦
                  rw
                    (
                      e, n, n', f, q, t, rollback, require_deployment, find_deployment,
                      find_release, owns,
                    )
                    refl
              | inr (tag, t) ↦
                  rw
                    (
                      e, n, n', f, q, t, rollback, require_deployment, find_deployment,
                      find_release, owns,
                    )
                    (
                      record {
                        deployment = d;
                        target = r;
                        tag = tag;
                        deployment_found = e;
                        single = n;
                        scheduled = n';
                        target_found = f;
                        own = q;
                        built = t;
                      },
                      refl,
                      refl,
                    )
            ]
          ]
        ]
      ]
    ]
  ]

module _ (o : Outside) (id : ℕ) (d : Deployment) (r : Release)
    (active : d.active_release ≡ some r.id) where
  -- The row of the active release is there, and the deployment is as it was.
  abbrev Kept : World → Type 0
  Kept w = Elem r w.releases × (find (has_id id) w.deployments ≡ some d)

  required :
      {A : Type 0} (e : Error) (found : Option A)
      → Triple Kept (require e found) (λ a w. Kept w × (found ≡ some a)) Kept
  required e none = record { ends = λ w k. k }
  required e (some a) = record { ends = λ w k. (k, refl) }

  deployment-Kept : Triple Kept (require_deployment o id) (λ a w. Kept w × (a ≡ d)) Kept
  unfolding require_deployment find_deployment
  deployment-Kept = record { ends = λ w k. rw (k.1, require_deployment, find_deployment) (k, refl) }

  drop_container-Kept : (container_id : Option ℕ) → Keeps Kept (drop_container o container_id)
  unfolding stop_and_remove
  drop_container-Kept none = always (λ w k. k)
  drop_container-Kept (some c) = always (λ w k. k)

  drop_image-Kept : (tag : Option Text) → Keeps Kept (drop_image o tag)
  unfolding remove_image
  drop_image-Kept none = always (λ w k. k)
  drop_image-Kept (some tag) = always (λ w k. k)

  delete_row-Kept :
      (release_id : ℕ) → release_id == r.id ≡ false → Keeps Kept (delete_release_row release_id)
  unfolding delete_release_row
  delete_row-Kept release_id n =
      always (λ w k. (delete-keeps (is_release release_id) r w.releases k.0 (ground arith), k.1))

  deleted :
      (release_id : ℕ) (release : Release) (b : Bool)
      → is_active_release o d release_id ≡ b
      → Keeps Kept (
          throw_if b Error.bad_request
          >> (drop_container o release.container_id
              >> (drop_image o (nonempty_text release.image_tag) >> delete_release_row release_id)))
  deleted release_id release true e = always (λ w k. k)
  deleted release_id release false e = bind-Triple (throw_if-Keeps false Error.bad_request) (λ a.
      bind-Triple (drop_container-Kept release.container_id) (λ b.
        bind-Triple (drop_image-Kept (nonempty_text release.image_tag)) (λ c.
          delete_row-Kept release_id
            (let e' : (r.id == release_id) ≡ false = rw active at e in ground arith))))

  delete_release-Kept : (release_id : ℕ) → Keeps Kept (delete_release o id release_id)
  unfolding delete_release find_release
  delete_release-Kept release_id = bind-Triple deployment-Kept (λ d'. record {
    ends = λ w k.
        let t : Triple Kept
            (find_release release_id >>= λ found.
              require Error.not_found (owns id found) >>= λ release.
              throw_if (is_active_release o d release_id) Error.bad_request
              >> (drop_container o release.container_id
                  >> (drop_image o (nonempty_text release.image_tag)
                      >> delete_release_row release_id)))
            (λ a u. Kept u) Kept =
          bind-Triple {A = Option Release} {Q = λ found u. Kept u} {m = find_release release_id}
            (always (λ u q. q))
            (λ found.
              bind-Triple
                (weaken (required Error.not_found (owns id found)) (λ a u q. q.0) (λ u q. q))
                (λ release. deleted release_id release (is_active_release o d release_id) refl)) in
        rw k.1 (t.ends w k.0);
  })

  row_left : (p : Result (Unit {0}) × World) → Ends (λ a u. Kept u) Kept p → Elem r p.1.releases
  row_left (ok a, u) k = k.0
  row_left (err e, u) k = k.0

  -- No request to delete a release removes the deployment's active one.
  pub delete_release-keeps_active :
      (release_id : ℕ) (w : World)
      → Elem r w.releases
      → find (has_id id) w.deployments ≡ some d
      → Elem r (delete_release o id release_id w).1.releases
  delete_release-keeps_active release_id w m e =
      row_left (delete_release o id release_id w) ((delete_release-Kept release_id).ends w (m, e))
