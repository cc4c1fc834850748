-- ===== src/Deploy/Frames.antt =====
-- Which steps of a release leave which parts of the state alone.
use willy.Prelude.{
  ℕ, suc, ◌≡◌, inl, inr, refl, false, not, Option, none, some, List, [], ◌∷◌, ◌==◌, filter, drop,
  update_where, Bool-cases, Option-cases, Text, text_eq,
}
use willy.Deploy.{Deployment, ReleaseStatus, World, Outside, pure, get, modify, BuildStrategy}
use willy.Deploy.Hoare.{Keeps, Timeless, bind-Triple, try-Triple, always, call-Keeps, if-Triple}
use willy.Deploy.Releases.{
  ReleaseUpdate, no_update, set_status, update_task, task_of, is_release, with_status,
}
use willy.Deploy.Images.{
  keep_images, pull_image_release, build_image, build_git_release, remove_image, remove_images,
  cleanup_images,
}
use willy.Deploy.Runner.{
  make_image, supersede, sync, sync_found, register, is_image, armed, unregister, nonempty_text,
}

-- The property reads the tables of deployments and releases, or the containers, and nothing else.
pub record Framed (P : World → Type 0) : Type 0 where
  pub timeless : Timeless P
  pub imageless : (w : World) (xs : List Text) → P w → P (record w { images = xs })
  pub scheduleless : (w : World) (xs : List ℕ) → P w → P (record w { schedules = xs })

-- The property also survives a change of status of the release.
abbrev pub Statusless : (World → Type 0) → ℕ → Type 0
Statusless P id =
    (status : ReleaseStatus) (update : ReleaseUpdate) → Keeps P (set_status id status update)

pub containers-set_status :
    (id : ℕ) (status : ReleaseStatus) (update : ReleaseUpdate) (w : World)
    → (set_status id status update w).1.containers ≡ w.containers
unfolding set_status update_task
containers-set_status id status update w = elim (Option-cases (task_of id w.task_by_release)) [
  | inl e ↦ rw (e, set_status, update_task)
  | inr (t, e) ↦ rw (e, set_status, update_task)
]

pub deployments-set_status :
    (id : ℕ) (status : ReleaseStatus) (update : ReleaseUpdate) (w : World)
    → (set_status id status update w).1.deployments ≡ w.deployments
unfolding set_status update_task
deployments-set_status id status update w = elim (Option-cases (task_of id w.task_by_release)) [
  | inl e ↦ rw (e, set_status, update_task)
  | inr (t, e) ↦ rw (e, set_status, update_task)
]

pub releases-set_status :
    (id : ℕ) (status : ReleaseStatus) (update : ReleaseUpdate) (w : World)
    → (set_status id status update w).1.releases
      ≡ update_where (is_release id) (with_status w.clock status update) w.releases
unfolding set_status update_task
releases-set_status id status update w = elim (Option-cases (task_of id w.task_by_release)) [
  | inl e ↦ rw (e, set_status, update_task)
  | inr (t, e) ↦ rw (e, set_status, update_task)
]

module _ (o : Outside) {P : World → Type 0} (frame : Framed P) where
  build_image-Keeps : (s : BuildStrategy) (tag : Text) → Keeps P (build_image o s tag)
  unfolding build_image
  build_image-Keeps BuildStrategy.dockerfile tag =
      bind-Triple (call-Keeps (λ now. o.build now tag) frame.timeless)
        (λ a. always (λ w p. frame.imageless w (tag ∷ w.images) p))
  build_image-Keeps BuildStrategy.image tag = always (λ w p. p)
  build_image-Keeps BuildStrategy.compose tag = always (λ w p. p)

  module _ (d : Deployment) (id : ℕ) (stays : Statusless P id) where
    build_git_release-Keeps : Keeps P (build_git_release o d id)
    unfolding build_git_release
    build_git_release-Keeps = bind-Triple (stays ReleaseStatus.cloning no_update) (λ a.
        bind-Triple (call-Keeps (λ now. o.clone now d) frame.timeless) (λ sha.
          bind-Triple (stays ReleaseStatus.building _) (λ b.
            bind-Triple (call-Keeps (λ now. o.resolve_env now d.id) frame.timeless)
              (λ e. bind-Triple (build_image-Keeps d.strategy _) (λ u. always (λ w p. p))))))

    pull_from : (ref : Option Text) → d.image_ref ≡ ref → Keeps P (pull_image_release o d id)
    unfolding pull_image_release
    pull_from none e = rw (e, pull_image_release) (always (λ w p. p))
    pull_from (some []) e = rw (e, pull_image_release) (always (λ w p. p))
    pull_from (some (c ∷ tag)) e =
        rw (e, pull_image_release)
          (bind-Triple (stays ReleaseStatus.building _) (λ a.
            bind-Triple (call-Keeps (λ now. o.ensure_image now (c ∷ tag)) frame.timeless)
              (λ u. always (λ w p. p))))

    pub make_image-Keeps : Keeps P (make_image o d id)
    make_image-Keeps =
        if-Triple (is_image d.strategy) (pull_from d.image_ref refl) build_git_release-Keeps

  remove_images-Keeps : (tags : List Text) → Keeps P (remove_images o tags)
  unfolding remove_images remove_image
  remove_images-Keeps [] = always (λ w p. p)
  remove_images-Keeps (tag ∷ tags) =
      bind-Triple
        (always {m = remove_image o tag}
          (λ w p. frame.timeless _ (suc w.clock) (frame.imageless w _ p)))
        (λ a. remove_images-Keeps tags)

  pub cleanup_images-Keeps :
      (d : Deployment) (keep_tag : Text) → Keeps P (cleanup_images o d keep_tag)
  unfolding cleanup_images
  cleanup_images-Keeps d keep_tag =
      try-Triple {E = P}
        (bind-Triple {A = World} {Q = λ a w. P w} (always {m = get} (λ w p. p)) (λ w.
          bind-Triple (call-Keeps (λ now. o.image_tags now w.images) frame.timeless) (λ tags.
            remove_images-Keeps
              (filter (λ tag. not (text_eq tag keep_tag)) (drop keep_images tags)))))
        (λ e. always {m = pure tt} (λ w p. p))

  pub supersede-Keeps :
      (prior : Option ℕ) (id : ℕ)
      → ((k : ℕ) → k == id ≡ false → Statusless P k)
      → Keeps P (supersede o prior id)
  unfolding supersede
  supersede-Keeps none id stays = always (λ w p. p)
  supersede-Keeps (some prior) id stays = elim (Bool-cases (prior == id)) [
    | inl y ↦ rw y (always (λ w p. p))
    | inr n ↦ rw n (stays prior n ReleaseStatus.superseded no_update)
  ]

  unregister-Keeps : (id : ℕ) → Keeps P (unregister id)
  unregister-Keeps id = always (λ w p. frame.scheduleless w _ p)

  register_from :
      (d : Deployment) (expr : Option Text)
      → nonempty_text d.cron_expr ≡ expr
      → Keeps P (register o d)
  unfolding register
  register_from d none e = rw (e, register) (always (λ w p. p))
  register_from d (some expr) e =
      rw (e, register)
        (bind-Triple (unregister-Keeps d.id) (λ a.
          if-Triple (o.valid_expr expr)
            (always {m = modify (λ w. record w { schedules = d.id ∷ w.schedules })}
              (λ w p. frame.scheduleless w (d.id ∷ w.schedules) p))
            (always {m = pure tt} (λ w p. p))))

  pub sync_found-Keeps : (found : Option Deployment) → Keeps P (sync_found o found)
  unfolding sync
  sync_found-Keeps none = always (λ w p. p)
  sync_found-Keeps (some d) =
      if-Triple (armed d) (register_from d (nonempty_text d.cron_expr) refl) (unregister-Keeps d.id)
