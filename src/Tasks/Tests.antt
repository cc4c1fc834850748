-- ===== src/Tasks/Tests.antt =====
-- A task table and instances of the theorems.
use willy.Prelude.{ℕ, ◌≡◌, inl, inr, none, some, List, [], ◌∷◌, Elem, Result, err, Error, arith}
use willy.Tasks.{Task, TaskKind, TaskStatus, set_progress}
use willy.Tasks.Closing.{UniqueIds}

abbrev running_task : Task
running_task = record {
  id = 4;
  kind = TaskKind.deploy_task;
  deployment_id = some 7;
  status = TaskStatus.running;
  progress = some 20;
  error = none;
  started_at = some 1;
  finished_at = none;
}

abbrev done_task : Task
done_task = record running_task { id = 3; status = TaskStatus.success; finished_at = some 2 }

abbrev table : List Task
table = running_task ∷ done_task ∷ []

-- Work that throws.
abbrev failing : List Task → Result ℕ × List Task
failing rows = (err Error.compose_error, set_progress 5 140 rows)

abbrev failed_task : Task
failed_task = record running_task {
  id = 5;
  kind = TaskKind.backup_task;
  deployment_id = none;
  status = TaskStatus.failed;
  progress = some 100;
  error = some Error.compose_error;
  started_at = some 9;
  finished_at = some 9;
}

table-UniqueIds : UniqueIds table
table-UniqueIds = record { same = unique_in_table }
  where
    unique_in_table : (s t : Task) → Elem s table → Elem t table → s.id ≡ t.id → s ≡ t
    unique_in_table s t (inl a) (inl b) e = cc
    unique_in_table s t (inl a) (inr (inl b)) e = ground arith
    unique_in_table s t (inl a) (inr (inr m)) e = absurd m
    unique_in_table s t (inr (inl a)) (inl b) e = ground arith
    unique_in_table s t (inr (inl a)) (inr (inl b)) e = cc
    unique_in_table s t (inr (inl a)) (inr (inr m)) e = absurd m
    unique_in_table s t (inr (inr m)) _ e = absurd m
