-- ===== src/Deploy/Single.antt =====
-- A deploy that succeeds leaves the deployment one container.
use willy.Prelude.{
  ℕ, ◌≡◌, ◌⊎◌, inl, inr, refl, true, false, List, [], ◌∷◌, ◌==◌, filter, contains, Elem, Bool-cases,
  Text, Result, ok, err, Error, arith,
}
use willy.Prelude.Rows.{delete-elem, filter-elem, map-elem, Elem-contains}
use willy.Deploy.{
  Deployment, DeploymentState, ReleaseStatus, Box, World, Outside, call, set_state,
  set_active_release,
}
use willy.Deploy.Hoare.{Triple, Ends, bind-Triple, try-Triple, weaken, always}
use willy.Deploy.Frames.{
  Framed, Statusless, containers-set_status, cleanup_images-Keeps, supersede-Keeps,
}
use willy.Deploy.Activation.{Anything}
use willy.Deploy.Outcome.{IsFailed, any-Triple, fail_release-IsFailed}
use willy.Deploy.Releases.{set_status, find_release}
use willy.Deploy.Swap.{
  is_box, owned, ids, stop_and_remove, remove_each, list_by_label, remove_stale_containers, others,
  launch_and_health_check,
}
use willy.Deploy.Runner.{attempt, run_release, go_live, cut_over, require, is_cron, make_image}

-- Docker carries out every removal it is asked for.
abbrev pub Removing : Outside → Type 0
Removing o = (now id : ℕ) → o.removes now id ≡ true

contains-others :
    (o : Outside) (keep k : ℕ) (xs : List ℕ)
    → contains k xs ≡ true
    → k == keep ≡ false
    → contains k (others o keep xs) ≡ true
contains-others o keep k [] h n = absurd (cc h)
contains-others o keep k (x ∷ xs) h n = elim (Bool-cases (x == k)) [
  | inl y ↦ let e : x == keep ≡ false = ground arith in rw (e, y) refl
  | inr m ↦
      let ih : contains k (others o keep xs) ≡ true =
        contains-others o keep k xs (ground arith) n in
      elim (Bool-cases (x == keep)) [ inl y ↦ rw y ih | inr q ↦ rw (q, m) ih ]
]

module _ (o : Outside) (d : Deployment) (removing : Removing o) where
  -- Every container of the deployment has the id, or one of those that are still to be removed.
  abbrev Left : ℕ → List ℕ → World → Type 0
  Left keep xs w =
      (b : Box)
      → Elem b w.containers
      → owned d.id b ≡ true
      → (b.id ≡ keep) ⊎ (contains b.id xs ≡ true)

  -- Every container of the deployment has the id.
  abbrev pub HasOnly : ℕ → World → Type 0
  HasOnly keep w = (b : Box) → Elem b w.containers → owned d.id b ≡ true → b.id ≡ keep

  remove_one :
      (keep x : ℕ) (xs : List ℕ)
      → Triple (Left keep (x ∷ xs)) (stop_and_remove o x) (λ a w. Left keep xs w) Anything
  unfolding stop_and_remove
  remove_one keep x xs = record {
    ends = λ w p. rw (removing w.clock x) (λ b m h.
        let (m', n) = delete-elem (is_box x) b w.containers m in
        elim (p b m' h) [ inl e ↦ inl e | inr e ↦ inr (ground arith) ]);
  }

  remove_each-HasOnly :
      (keep : ℕ) (xs : List ℕ)
      → Triple (Left keep xs) (remove_each o xs) (λ a w. HasOnly keep w) Anything
  unfolding remove_each
  remove_each-HasOnly keep [] = record {
    ends = λ w p b m h. elim (p b m h) [ inl e ↦ e | inr e ↦ absurd (cc e) ];
  }
  remove_each-HasOnly keep (x ∷ xs) =
      bind-Triple (remove_one keep x xs) (λ a. remove_each-HasOnly keep xs)

  remove_stale-HasOnly :
      (keep : ℕ)
      → Triple Anything (remove_stale_containers o d.id keep) (λ a w. HasOnly keep w) Anything
  unfolding remove_stale_containers list_by_label
  remove_stale-HasOnly keep =
      bind-Triple {Q = λ xs w. Left keep (others o keep xs) w} {m = list_by_label o d.id}
        (bind-Triple (any-Triple (call o.lists)) (λ a. record {
          ends = λ w p b m h.
              let listed : contains b.id (ids (filter (owned d.id) w.containers)) ≡ true =
                Elem-contains b.id (ids (filter (owned d.id) w.containers)) (
                  map-elem (λ z. z.id) b (filter (owned d.id) w.containers)
                    (filter-elem (owned d.id) b w.containers m h)) in
              elim (Bool-cases (b.id == keep)) [
                | inl y ↦ inl (ground arith)
                | inr n ↦ inr (contains-others o keep b.id _ listed n)
              ];
        }))
        (λ xs. remove_each-HasOnly keep (others o keep xs))

  HasOnly-Framed : (keep : ℕ) → Framed (HasOnly keep)
  HasOnly-Framed keep = record {
    timeless = λ w n p. p;
    imageless = λ w xs p. p;
    scheduleless = λ w xs p. p;
  }

  HasOnly-Statusless : (keep k : ℕ) → Statusless (HasOnly keep) k
  unfolding set_status
  HasOnly-Statusless keep k status update =
      always {m = set_status k status update}
        (λ w p b m h. p b (rw (← containers-set_status k status update w) m) h)

  cut_over-HasOnly :
      (release_id : ℕ) (tag : Text) (keep : ℕ)
      → Triple Anything (cut_over o d release_id tag keep) (λ a w. HasOnly keep w) Anything
  unfolding cut_over
  cut_over-HasOnly release_id tag keep =
      bind-Triple (any-Triple (set_status release_id ReleaseStatus.live _)) (λ a.
        bind-Triple (any-Triple (set_active_release d.id release_id)) (λ b.
          bind-Triple (any-Triple (set_state d.id DeploymentState.running)) (λ e.
            bind-Triple (remove_stale-HasOnly keep) (λ f.
              weaken
                (bind-Triple
                  (supersede-Keeps o (HasOnly-Framed keep) d.active_release release_id
                    (λ k n. HasOnly-Statusless keep k))
                  (λ g. cleanup_images-Keeps o (HasOnly-Framed keep) d tag))
                (λ a w p. p) (λ w p. tt)))))

  -- At most one container of the deployment is there.
  abbrev pub HasOne : World → Type 0
  HasOne w = (keep : ℕ) × HasOnly keep w

  module _ (release_id : ℕ) (long_lived : is_cron d.kind ≡ false) where
    go_live-HasOne :
        (tag : Text) → Triple Anything (go_live o d release_id tag) (λ a w. HasOne w) Anything
    unfolding go_live
    go_live-HasOne tag =
        bind-Triple (any-Triple (set_status release_id ReleaseStatus.healthchecking _)) (λ a.
          bind-Triple (any-Triple (launch_and_health_check o d tag release_id))
            (λ keep. weaken (cut_over-HasOnly release_id tag keep) (λ b w p. (keep, p)) (λ w p. p)))

    attempt-HasOne : Triple Anything (attempt o d release_id) (λ a w. HasOne w) Anything
    unfolding attempt
    attempt-HasOne = bind-Triple (any-Triple (find_release release_id)) (λ found.
        bind-Triple (any-Triple (require Error.not_found found)) (λ release.
          bind-Triple (any-Triple (make_image o d release_id))
            (λ tag. rw long_lived (go_live-HasOne tag))))

    either-Ends :
        (p : Result (Unit {0}) × World)
        → Ends (λ a w. HasOne w ⊎ IsFailed o d release_id w) (λ w. ⊥) p
        → HasOne p.1 ⊎ IsFailed o d release_id p.1
    either-Ends (ok a, w) h = h
    either-Ends (err e, w) h = absurd h

    -- Where Docker carries out the removals, a deploy of a WEB or WORKER deployment leaves at most one
    -- container of it, unless its release has failed.
    pub run_release-HasOne :
        (w : World)
        → HasOne (run_release o d release_id w).1
          ⊎ IsFailed o d release_id (run_release o d release_id w).1
    unfolding run_release
    run_release-HasOne w = either-Ends (run_release o d release_id w) (
        (try-Triple (weaken attempt-HasOne (λ a u p. inl p) (λ u p. p)) (λ e.
            weaken (fail_release-IsFailed o d release_id {E = λ u. ⊥} e) (λ a u p. inr p)
              (λ u p. p))).ends
          w tt)
