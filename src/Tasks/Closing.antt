-- ===== src/Tasks/Closing.antt =====
-- Which tasks are closed, and which never are.
use willy.Prelude.{
  ℕ, ◌≡◌, inl, inr, refl, true, false, not, Option, none, List, [], ◌∷◌, Elem, find, Option-cases,
  Bool-cases, ap, arith, Result, ok, err, Error,
}
use willy.Prelude.Counting.{find-elem}
use willy.Prelude.Rows.{delete-keeps}
use willy.Tasks.{
  Task, TaskStatus, TaskKind, is_task, is_active, active_task, create, start, succeed, fail, track,
  close_task, mark_interrupted, clear, clear_finished, list_active,
}

closed :
    (now : ℕ) (reason : Error) (rows : List Task)
    → list_active none (mark_interrupted now reason rows) ≡ []
unfolding mark_interrupted list_active
closed now reason [] = refl
closed now reason (t ∷ rows) = let ih = closed now reason rows in ground arith

kept :
    (now : ℕ) (reason : Error) (t : Task) (rows : List Task)
    → Elem t rows
    → active_task t ≡ false
    → Elem t (mark_interrupted now reason rows)
unfolding mark_interrupted
kept now reason t [] m h = absurd m
kept now reason t (s ∷ rows) (inl e) h = inl (ground arith)
kept now reason t (s ∷ rows) (inr m) h = inr (kept now reason t rows m h)

-- After the boot pass no task is listed as active, and every task that was finished is as it was.
pub mark_interrupted-closes :
    (now : ℕ) (reason : Error) (t : Task) (rows : List Task)
    → Elem t rows
    → active_task t ≡ false
    → (list_active none (mark_interrupted now reason rows) ≡ [])
      × Elem t (mark_interrupted now reason rows)
mark_interrupted-closes now reason t rows m h = (closed now reason rows, kept now reason t rows m h)

-- The status with which `track` leaves its task.
abbrev pub closing_status {ℓ} : {A : Type ℓ} → Result A → TaskStatus
closing_status (ok a) = TaskStatus.success
closing_status (err e) = TaskStatus.failed

succeeded :
    (now id : ℕ) (t : Task) (rows : List Task)
    → Elem t (succeed now id rows)
    → is_task id t ≡ true
    → t.status ≡ TaskStatus.success
succeeded now id t [] m h = absurd m
succeeded now id t (s ∷ rows) (inl e) h = ground arith
succeeded now id t (s ∷ rows) (inr m) h = succeeded now id t rows m h

failed_by :
    (now id : ℕ) (reason : Error) (t : Task) (rows : List Task)
    → Elem t (fail now id reason rows)
    → is_task id t ≡ true
    → t.status ≡ TaskStatus.failed
failed_by now id reason t [] m h = absurd m
failed_by now id reason t (s ∷ rows) (inl e) h = ground arith
failed_by now id reason t (s ∷ rows) (inr m) h = failed_by now id reason t rows m h

closes_by {ℓ} :
    {A : Type ℓ} (now id : ℕ) (done : Result A × List Task)
    → ((close_task now id done).0 ≡ done.0)
      × ((t : Task)
          → Elem t (close_task now id done).1
          → is_task id t ≡ true
          → t.status ≡ closing_status done.0)
closes_by now id (ok result, after) = (refl, λ t m h. succeeded now id t after m h)
closes_by now id (err e, after) = (refl, λ t m h. failed_by now id e t after m h)

-- Whatever the tracked work does to the tasks: its result is passed on, an exception included, and
-- its task, if it is still there, is closed as succeeded or failed accordingly.
pub track-closes {ℓ} :
    {A : Type ℓ} (now new_id : ℕ) (kind : TaskKind) (deployment_id : Option ℕ)
    (work : List Task → Result A × List Task) (t : Task) (rows : List Task)
    → Elem t (track now new_id kind deployment_id work rows).1
    → is_task new_id t ≡ true
    → ((track now new_id kind deployment_id work rows).0
        ≡ (work (start now new_id (create new_id kind deployment_id none rows))).0)
      × (t.status
          ≡ closing_status (work (start now new_id (create new_id kind deployment_id none rows))).0)
unfolding track
track-closes now new_id kind deployment_id work t rows m h =
    let (same, closed_as) =
      closes_by now new_id (work (start now new_id (create new_id kind deployment_id none rows))) in
    (same, closed_as t m h)

-- The two ways to dismiss tasks: `clear` and `clearFinished`.
pub data Dismissal : Type 0 where
  one : ℕ → Dismissal
  finished : Dismissal

abbrev pub left_by : List Task → Result (List Task) → List Task
left_by rows (ok rows') = rows'
left_by rows (err e) = rows

unfoldable pub dismiss : Dismissal → List Task → List Task
unfolding clear clear_finished
dismiss (one id) rows = left_by rows (clear id rows)
dismiss finished rows = clear_finished rows

-- The table's primary key.
pub record UniqueIds (rows : List Task) : Type 0 where
  pub same : (s t : Task) → Elem s rows → Elem t rows → s.id ≡ t.id → s ≡ t

-- No dismissal removes a task that is still active.
pub dismiss-keeps_active :
    (d : Dismissal) (t : Task) (rows : List Task)
    → UniqueIds rows
    → Elem t rows
    → active_task t ≡ true
    → Elem t (dismiss d rows)
unfolding dismiss clear clear_finished
dismiss-keeps_active finished t rows u m h =
    delete-keeps (λ s. not (is_active s.status)) t rows m (ground arith)
dismiss-keeps_active (one id) t rows u m h = elim (Option-cases (find (is_task id) rows)) [
  | inl e ↦ rw (e, dismiss, clear, left_by) m
  | inr (row, e) ↦ elim (Bool-cases (is_active row.status)) [
    | inl a ↦ rw (e, a, dismiss, clear, left_by) m
    | inr a ↦
        let (p, q) = find-elem (is_task id) rows row e in
        rw (e, a, dismiss, clear, left_by)
          (delete-keeps (is_task id) t rows m (elim (Bool-cases (is_task id t)) [
            | inl y ↦
                let s : t ≡ row = u.same t row m q (ground arith) in
                absurd (cc (ap (λ z. is_active z.status) s))
            | inr n ↦ n
          ]))
  ]
]
