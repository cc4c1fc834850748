-- ===== src/Deploy/Tracking.antt =====
-- The activity task of a release is closed when the release ends.
use willy.Prelude.{
  ℕ, ◌≡◌, inl, inr, refl, true, false, Option, none, some, List, [], ◌∷◌, ◌==◌, Elem, Bool-cases,
  update_where, Error,
}
use willy.Prelude.Rows.{update-elem}
use willy.Tasks.{Task, is_task, is_active}
use willy.Deploy.{ReleaseStatus, World}
use willy.Deploy.Releases.{
  ReleaseUpdate, is_terminal, task_of, untrack, move_task, update_task, set_status,
}

untracked : (id : ℕ) (m : List (ℕ × ℕ)) → task_of id (untrack id m) ≡ none
untracked id [] = refl
untracked id ((r, t) ∷ m) = elim (Bool-cases (r == id)) [
  | inl y ↦ rw y (untracked id m)
  | inr n ↦ rw (n, n) (untracked id m)
]

closed_by :
    (f : Task → Task) (id : ℕ) (row : Task) (rows : List Task)
    → ((t : Task) → is_active (f t).status ≡ false)
    → Elem row (update_where (is_task id) f rows)
    → is_task id row ≡ true
    → is_active row.status ≡ false
closed_by f id row rows inactive m h =
    let (x, m', e) = update-elem (is_task id) f row rows m in
    elim (Bool-cases (is_task id x)) [
      | inl y ↦ let e' : row ≡ f x = rw y at e in rw e' (inactive x)
      | inr n ↦ let e' : row ≡ x = rw n at e in absurd (cc (h, n, e'))
    ]

moved :
    (now : ℕ) (status : ReleaseStatus) (error : Option Error) (id : ℕ) (row : Task)
    (rows : List Task)
    → is_terminal status ≡ true
    → Elem row (move_task now status error id rows)
    → is_task id row ≡ true
    → is_active row.status ≡ false
moved now ReleaseStatus.live error id row rows t m h = closed_by _ id row rows (λ t. refl) m h
moved now ReleaseStatus.failed error id row rows t m h = closed_by _ id row rows (λ t. refl) m h
moved now ReleaseStatus.rolledback error id row rows t m h = closed_by _ id row rows (λ t. refl) m h
moved now ReleaseStatus.superseded error id row rows t m h = closed_by _ id row rows (λ t. refl) m h
moved now ReleaseStatus.interrupted error id row rows t m h =
    closed_by _ id row rows (λ t. refl) m h
moved now ReleaseStatus.queued error id row rows t m h = absurd (cc t)
moved now ReleaseStatus.cloning error id row rows t m h = absurd (cc t)
moved now ReleaseStatus.building error id row rows t m h = absurd (cc t)
moved now ReleaseStatus.healthchecking error id row rows t m h = absurd (cc t)

-- When a tracked release gets a status in which it ends, its task is active no more, and the release
-- is no longer tracked.
pub set_status-closes :
    (id task_id : ℕ) (status : ReleaseStatus) (update : ReleaseUpdate) (w : World) (row : Task)
    → task_of id w.task_by_release ≡ some task_id
    → is_terminal status ≡ true
    → Elem row (set_status id status update w).1.tasks
    → is_task task_id row ≡ true
    → (is_active row.status ≡ false)
      × (task_of id (set_status id status update w).1.task_by_release ≡ none)
unfolding set_status update_task
set_status-closes id task_id status update w row e t m h =
    let m' : Elem row (move_task w.clock status update.error task_id w.tasks) =
      rw (e, set_status, update_task) at m in
    (
      moved w.clock status update.error task_id row w.tasks t m' h,
      rw (e, set_status, update_task, t) (untracked id w.task_by_release),
    )
