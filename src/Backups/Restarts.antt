-- ===== src/Backups/Restarts.antt =====
-- After a volume was rewritten, its containers run.
use willy.Prelude.{
  ℕ, suc, ◌≡◌, refl, ◌∙◌, inl, inr, Bool, true, false, Option, List, [], ◌∷◌, ◌==◌, if◌then◌else◌,
  Elem, Text, Result, ok, err, Error, Bool-cases,
}
use willy.Prelude.Effects.{◌>>◌}
use willy.Backups.{Depot, Outside}
use willy.Backups.Jobs.{stop_container, start_container, each, rewrite, start_again, run_volume_op}

module _ (o : Outside) where
  -- Starting containers stops none, and a container that Docker starts is then running.
  stays :
      (c : ℕ) (ids : List ℕ) (w : Depot)
      → Elem c w.running
      → Elem c (each o (start_container o) ids w).1.running
  stays c [] w m = m
  stays c (id ∷ ids) w m = stays c ids (start_container o id w).1 (one (o.starts w.clock id))
    where
      one : (b : Bool) → Elem c (if b then id ∷ w.running else w.running)
      one true = inr m
      one false = m

  started :
      (c : ℕ) (ids : List ℕ) (w : Depot)
      → ((t : ℕ) → o.starts t c ≡ true)
      → Elem c ids
      → Elem c (each o (start_container o) ids w).1.running
  started c [] w ready m = absurd m
  started c (id ∷ ids) w ready (inr m) = started c ids (start_container o id w).1 ready m
  started c (id ∷ ids) w ready (inl e) =
      stays c ids (start_container o id w).1
        (let up : o.starts w.clock id ≡ true = rw e (ready w.clock) in rw up (inl e))

  each_passes : (ids : List ℕ) (r : Result (Unit {0})) (w : Depot) → (start_again o ids r w).0 ≡ r
  each_passes [] r w = refl
  each_passes (id ∷ ids) r w = each_passes ids r (start_container o id w).1

  each_runs :
      (ids : List ℕ) (r : Result (Unit {0})) (w : Depot)
      → (start_again o ids r w).1.running ≡ (each o (start_container o) ids w).1.running
  each_runs [] r w = refl
  each_runs (id ∷ ids) r w = each_runs ids r (start_container o id w).1

  stopping :
      (ids : List ℕ) (volume : Text) (file : Option Text) (w : Depot)
      → (k : ℕ) × ((each o (stop_container o) ids >> rewrite o volume file) w).0
          ≡ (elim (o.rewrite_exit k volume file) [
            | err e ↦ err e
            | ok code ↦ if code == 0 then ok tt else err Error.backup_error
          ])
  stopping [] volume file w = (w.clock, verdict (o.rewrite_exit w.clock volume file) refl)
    where
      verdict :
          (r : Result ℕ)
          → o.rewrite_exit w.clock volume file ≡ r
          → (rewrite o volume file w).0 ≡ (elim r [
            | err e ↦ err e
            | ok code ↦ if code == 0 then ok tt else err Error.backup_error
          ])
      verdict (err e) h = rw h refl
      verdict (ok code) h = elim (Bool-cases (code == 0)) [
        | inl y ↦ rw (h, y) refl
        | inr n ↦ rw (h, n) refl
      ]
  stopping (id ∷ ids) volume file w = stopping ids volume file (stop_container o id w).1

  -- What an operation on a volume comes to, by the answer to which containers use it. Where that is an
  -- error, it is thrown and no container is touched. Otherwise the
  -- operation's result is that of its helper container, a failing exit code included, and every container of the volume
  -- that Docker starts is running.
  abbrev pub Leaves : ℕ → Text → Option Text → Depot → Result (List ℕ) → Type 0
  Leaves deployment volume file w (err e) =
      ((run_volume_op o deployment volume file w).0 ≡ err e)
      × ((run_volume_op o deployment volume file w).1.running ≡ w.running)
  Leaves deployment volume file w (ok ids) =
      ((c : ℕ)
        → Elem c ids
        → ((t : ℕ) → o.starts t c ≡ true)
        → Elem c (run_volume_op o deployment volume file w).1.running)
      × (k : ℕ) × (run_volume_op o deployment volume file w).0
          ≡ (elim (o.rewrite_exit k volume file) [
            | err e ↦ err e
            | ok code ↦ if code == 0 then ok tt else err Error.backup_error
          ])

  leaves :
      (deployment : ℕ) (volume : Text) (file : Option Text) (w : Depot) (r : Result (List ℕ))
      → o.containers_using_volume w.clock deployment volume ≡ r
      → Leaves deployment volume file w r
  unfolding run_volume_op
  leaves deployment volume file w (err e) h = rw h (refl, refl)
  leaves deployment volume file w (ok ids) h =
      let asked = record w { clock = suc w.clock } in
      let done = (each o (stop_container o) ids >> rewrite o volume file) asked in
      let (k, e) = stopping ids volume file asked in
      rw h (
        λ c m ready. rw (each_runs ids done.0 done.1) (started c ids done.1 ready m),
        k,
        each_passes ids done.0 done.1 ∙ e,
      )

  -- A restore or a reset throws what the listing of the volume's containers throws, and touches none;
  -- or, where the listing succeeds, it throws exactly what its helper container does, a failing exit
  -- code included, and, thrown or not, leaves running every container of the volume that Docker starts.
  pub run_volume_op-restarts :
      (deployment : ℕ) (volume : Text) (file : Option Text) (w : Depot)
      → Leaves deployment volume file w (o.containers_using_volume w.clock deployment volume)
  run_volume_op-restarts deployment volume file w =
      leaves deployment volume file w (o.containers_using_volume w.clock deployment volume) refl
