-- ===== src/Backups/Mirroring.antt =====
-- How a queued backup leaves its row and the activity task that mirrors it.
use willy.Prelude.{
  ℕ, suc, ◌≡◌, refl, ap, ◌∙◌, inl, inr, true, false, not, some, List, [], ◌∷◌, ◌==◌, filter,
  update_where, if◌then◌else◌, Elem, Text, Result, ok, err, Bool-cases,
}
use willy.Prelude.Effects.{Result-cases, handle, pass_on}
use willy.Prelude.Rows.{update-elem}
use willy.Tasks
use willy.Tasks.{Task, TaskStatus, is_task}
use willy.Backups.{Depot, Outside, Work, Queued}
use willy.Backups.Jobs.{archive, run_volume_tar, run_work, run_queued, succeed_task, fail_task}
use willy.Backups.Closing.{IsClosed, run_volume_tar-IsClosed}

-- The task after a result: done, or failed with the error.
abbrev pub IsMirror : Result (Unit {0}) → Task → Type 0
IsMirror (ok u) t = (t.status ≡ TaskStatus.success) × (t.progress ≡ some 100)
IsMirror (err e) t = (t.status ≡ TaskStatus.failed) × (t.error ≡ some e)

pub record IsMirrored (task : ℕ) (before : List Task) (r : Result (Unit {0})) (after : List Task)
    : Type 0 where
  pub mirrored : (t : Task) → Elem t after → is_task task t ≡ true → IsMirror r t
  pub others : filter (λ t. not (is_task task t)) after ≡ filter (λ t. not (is_task task t)) before

module _ (task : ℕ) where
  others_kept :
      (f : Task → Task)
      → ((t : Task) → (f t).id ≡ t.id)
      → (rows : List Task)
      → filter (λ t. not (is_task task t)) (update_where (is_task task) f rows)
        ≡ filter (λ t. not (is_task task t)) rows
  others_kept f same [] = refl
  others_kept f same (x ∷ xs) = elim (Bool-cases (is_task task x)) [
    | inl y ↦
        let y' : is_task task (f x) ≡ true = rw (same x) y in rw (y, y') (others_kept f same xs)
    | inr n ↦ rw (n, n) (ap (λ l. x ∷ l) (others_kept f same xs))
  ]

  set_by :
      (f : Task → Task) (P : Task → Type 0)
      → ((t : Task) → P (f t))
      → (t : Task) (rows : List Task) → Elem t (update_where (is_task task) f rows)
      → is_task task t ≡ true
      → P t
  set_by f P h t rows m here = let (x, _, e) = update-elem (is_task task) f t rows m in from x e
    where
      from : (x : Task) → t ≡ (if is_task task x then f x else x) → P t
      from x e = elim (Bool-cases (is_task task x)) [
        | inl y ↦ let e' : t ≡ f x = rw y at e in rw e' (h x)
        | inr n ↦
            let e' : t ≡ x = rw n at e in
            let bad : is_task task t ≡ false = rw e' n in absurd (cc (bad, here))
      ]

  -- A change of the task after its start.
  IsMirrored-by :
      (f g : Task → Task) (r : Result (Unit {0})) (rows : List Task)
      → ((t : Task) → (f t).id ≡ t.id)
      → ((t : Task) → (g t).id ≡ t.id)
      → ((t : Task) → IsMirror r (g t))
      → IsMirrored task rows r (update_where (is_task task) g (update_where (is_task task) f rows))
  IsMirrored-by f g r rows same_f same_g h = record {
    mirrored = λ t m here. set_by g (IsMirror r) h t (update_where (is_task task) f rows) m here;
    others = others_kept g same_g (update_where (is_task task) f rows) ∙ others_kept f same_f rows;
  }

-- The queued work of a backup of a volume.
abbrev pub queued_tar : Text → ℕ → ℕ → Text → Queued
queued_tar key id task target = record {
  key = key;
  task = some task;
  work = Work.tar_volume id target;
}

module _ (o : Outside) where
  -- The work of a backup touches no task.
  run_volume_tar-tasks :
      (id : ℕ) (target : Text) (w : Depot) → (run_volume_tar o id target w).1.tasks ≡ w.tasks
  unfolding run_volume_tar
  run_volume_tar-tasks id target w = elim (Result-cases (o.tar_exit (suc w.clock) target)) [
    | inr (e, h) ↦ rw h refl
    | inl (code, h) ↦ elim (Bool-cases (code == 0)) [
      | inr n ↦ rw (h, n) refl
      | inl y ↦ elim (Result-cases (o.measure (suc (suc w.clock)) (archive id))) [
        | inr (e, m) ↦ rw (h, y, m) refl
        | inl (sized, m) ↦ rw (h, y, m) refl
      ]
    ]
  ]

  -- What comes after the work closes the task by the work's result, which it passes on.
  closes :
      (task started : ℕ) (rows : List Task) (x : Result (Unit {0}) × Depot)
      → x.1.tasks ≡ Tasks.start started task rows
      → ((handle (fail_task o task) (pass_on (λ _. succeed_task o task) x)).0 ≡ x.0)
        × ((handle (fail_task o task) (pass_on (λ _. succeed_task o task) x)).1.backups
            ≡ x.1.backups)
        × IsMirrored task rows x.0
            (handle (fail_task o task) (pass_on (λ _. succeed_task o task) x)).1.tasks
  closes task started rows (ok u, w) e = (
    refl,
    refl,
    rw e (
        IsMirrored-by task
          (λ t. record t { status = TaskStatus.running; started_at = some started })
          (λ t. record t {
            status = TaskStatus.success;
            progress = some 100;
            finished_at = some w.clock;
          })
          (ok tt) rows (λ t. refl) (λ t. refl) (λ t. (refl, refl))),
  )
  closes task started rows (err x, w) e = (
    refl,
    refl,
    rw e (
        IsMirrored-by task
          (λ t. record t { status = TaskStatus.running; started_at = some started })
          (λ t. record t { status = TaskStatus.failed; error = some x; finished_at = some w.clock })
          (err x) rows (λ t. refl) (λ t. refl) (λ t. (refl, refl))),
  )

  -- The work of a queued backup of a volume leaves its row a success with its archive, or failed with the error that
  -- it throws, never running, and its task done, or failed with the same error; no other row and no
  -- other task is changed.
  pub run_queued-IsClosed :
      (key : Text) (id task : ℕ) (target : Text) (w : Depot)
      → IsClosed id w.backups
          (run_queued o (queued_tar key id task target) w).0
          (run_queued o (queued_tar key id task target) w).1.backups
        × IsMirrored task w.tasks
            (run_queued o (queued_tar key id task target) w).0
            (run_queued o (queued_tar key id task target) w).1.tasks
  unfolding run_work
  run_queued-IsClosed key id task target w =
      let begun = record w { clock = suc w.clock; tasks = Tasks.start w.clock task w.tasks } in
      let x = run_volume_tar o id target begun in
      let (same, rows, mirrored) =
        closes task w.clock w.tasks x (run_volume_tar-tasks id target begun) in
      (rw (same, rows) (run_volume_tar-IsClosed o id target begun), rw same mirrored)
