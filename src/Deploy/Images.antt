-- ===== src/Deploy/Images.antt =====
-- backend/src/build/image-builder.service.ts: the image of a release, pulled or built, and the images
-- kept. The clone's directory and the build's arguments are not part of the state.
use willy.Prelude.{
  ℕ, suc, not, none, some, List, [], ◌∷◌, ◌++◌, drop, take, filter, delete_where, text_eq, Text,
  codes, ok, Error, if◌then◌else◌,
}
use willy.Deploy.{
  Deployment, BuildStrategy, ReleaseStatus, Outside, M, pure, get, modify, throw, call, try_catch,
  ◌>>=◌, ◌>>◌,
}
use willy.Deploy.Releases.{set_status, no_update}

abbrev pub keep_images : ℕ
keep_images = 3

module _ (o : Outside) where
  unfoldable pub pull_image_release : Deployment → ℕ → M Text
  pull_image_release d release_id = elim d.image_ref [
    | none ↦ throw Error.bad_request
    | some [] ↦ throw Error.bad_request
    | some (c ∷ tag) ↦ do
      set_status release_id ReleaseStatus.building (record no_update { image_tag = some (c ∷ tag) })
      call (λ now. o.ensure_image now (c ∷ tag))
      pure (c ∷ tag)
  ]

  unfoldable pub image_name : Deployment → Text → Text
  image_name d sha = codes "willy/" ++ d.name ++ codes ":" ++ take 12 sha

  -- `buildImage`: only a Dockerfile is built.
  unfoldable pub build_image : BuildStrategy → Text → M (Unit {0})
  build_image BuildStrategy.dockerfile image_tag = do
    call (λ now. o.build now image_tag)
    modify (λ w. record w { images = image_tag ∷ w.images })
  build_image _ image_tag = throw Error.bad_request

  unfoldable pub build_git_release : Deployment → ℕ → M Text
  unfolding build_image
  build_git_release d release_id = do
    set_status release_id ReleaseStatus.cloning no_update
    sha ← call (λ now. o.clone now d)
    set_status release_id ReleaseStatus.building
        (record no_update { git_sha = some sha; image_tag = some (image_name d sha) })
    call (λ now. o.resolve_env now d.id)
    build_image d.strategy (image_name d sha)
    pure (image_name d sha)

  -- A refusal is only logged.
  unfoldable pub remove_image : Text → M (Unit {0})
  remove_image tag w = (
    ok tt,
    record w {
      images =
          if o.removes_image w.clock tag then delete_where (text_eq tag) w.images else w.images;
      clock = suc w.clock;
    },
  )

  unfoldable pub remove_images : List Text → M (Unit {0})
  unfolding remove_image
  remove_images [] = pure tt
  remove_images (tag ∷ rest) = do remove_image tag; remove_images rest

  -- A failure is only logged.
  unfoldable pub cleanup_images : Deployment → Text → M (Unit {0})
  unfolding remove_images
  cleanup_images d keep_tag =
      try_catch
        (do
          w ← get
          tags ← call (λ now. o.image_tags now w.images)
          remove_images (filter (λ tag. not (text_eq tag keep_tag)) (drop keep_images tags)))
        (λ e. pure tt)
