-- ===== src/Backups/Closing.antt =====
-- How a backup's work leaves its row.
use willy.Prelude.{
  ℕ, suc, ◌≡◌, refl, ap, ◌∙◌, inl, inr, true, false, not, some, List, [], ◌∷◌, ◌==◌, filter,
  update_where, Elem, Text, Result, ok, err, Error, Bool-cases,
}
use willy.Prelude.Effects.{Result-cases}
use willy.Backups.{Backup, BackupStatus, Depot, Outside, is_backup}
use willy.Backups.Jobs.{archive, run_volume_tar}

-- The status and the file that a row has after a result.
abbrev pub closing_status : Result (Unit {0}) → BackupStatus
closing_status (ok u) = BackupStatus.success
closing_status (err e) = BackupStatus.failed

abbrev pub HasFile : ℕ → Result (Unit {0}) → Backup → Type 0
HasFile id (ok u) b = b.location ≡ some (archive id)
HasFile id (err e) b = b.error ≡ some e

pub record IsClosed (id : ℕ) (before : List Backup) (r : Result (Unit {0})) (after : List Backup)
    : Type 0 where
  pub closed :
      (b : Backup)
      → Elem b after
      → is_backup id b ≡ true
      → (b.status ≡ closing_status r) × HasFile id r b
  pub others : filter (λ b. not (is_backup id b)) after ≡ filter (λ b. not (is_backup id b)) before

module _ (id : ℕ) where
  others_kept :
      (f : Backup → Backup)
      → ((b : Backup) → (f b).id ≡ b.id)
      → (rows : List Backup)
      → filter (λ b. not (is_backup id b)) (update_where (is_backup id) f rows)
        ≡ filter (λ b. not (is_backup id b)) rows
  others_kept f same [] = refl
  others_kept f same (x ∷ xs) = elim (Bool-cases (is_backup id x)) [
    | inl y ↦
        let y' : is_backup id (f x) ≡ true = rw (same x) y in rw (y, y') (others_kept f same xs)
    | inr n ↦ rw (n, n) (ap (λ l. x ∷ l) (others_kept f same xs))
  ]

  set_by :
      (f : Backup → Backup) (P : Backup → Type 0)
      → ((b : Backup) → P (f b))
      → (b : Backup) (rows : List Backup) → Elem b (update_where (is_backup id) f rows)
      → is_backup id b ≡ true
      → P b
  set_by f P h b [] m here = absurd m
  set_by f P h b (x ∷ xs) (inr m) here = set_by f P h b xs m here
  set_by f P h b (x ∷ xs) (inl e) here = elim (Bool-cases (is_backup id x)) [
    | inl y ↦ let e' : f x ≡ b = rw y at e in rw (← e') (h x)
    | inr n ↦
        let e' : x ≡ b = rw n at e in
        let bad : is_backup id b ≡ false = rw (← e') n in absurd (cc (bad, here))
  ]

  IsClosed-by :
      (f g : Backup → Backup) (r : Result (Unit {0})) (rows : List Backup)
      → ((b : Backup) → (f b).id ≡ b.id)
      → ((b : Backup) → (g b).id ≡ b.id)
      → ((b : Backup) → ((g b).status ≡ closing_status r) × HasFile id r (g b))
      → IsClosed id rows r (update_where (is_backup id) g (update_where (is_backup id) f rows))
  IsClosed-by f g r rows same_f same_g h = record {
    closed = λ b m here.
        set_by g (λ b. (b.status ≡ closing_status r) × HasFile id r b) h b
          (update_where (is_backup id) f rows) m here;
    others = others_kept g same_g (update_where (is_backup id) f rows) ∙ others_kept f same_f rows;
  }

-- The work of a backup leaves its row a success with its archive, or failed with the error that it
-- throws; never running; and no other row is changed.
pub run_volume_tar-IsClosed :
    (o : Outside) (id : ℕ) (target : Text) (w : Depot)
    → IsClosed id w.backups
        (run_volume_tar o id target w).0
        (run_volume_tar o id target w).1.backups
unfolding run_volume_tar
run_volume_tar-IsClosed o id target w =
    let f : Backup → Backup =
      λ b. record b { status = BackupStatus.running; started_at = some w.clock } in
    let failing : ℕ → Error → Backup → Backup =
      λ t e b. record b { status = BackupStatus.failed; error = some e; finished_at = some t } in
    elim (Result-cases (o.tar_exit (suc w.clock) target)) [
      | inr (e, h) ↦ rw h (
          IsClosed-by id f (failing (suc (suc w.clock)) e) (err e) w.backups (λ b. refl) (λ b. refl)
            (λ b. (refl, refl)))
      | inl (code, h) ↦ elim (Bool-cases (code == 0)) [
        | inr n ↦
            rw (h, n)
              (IsClosed-by id f (failing (suc (suc w.clock)) Error.backup_error)
                (err Error.backup_error) w.backups (λ b. refl) (λ b. refl) (λ b. (refl, refl)))
        | inl y ↦ elim (Result-cases (o.measure (suc (suc w.clock)) (archive id))) [
          | inr (e, m) ↦
              rw (h, y, m)
                (IsClosed-by id f (failing (suc (suc (suc w.clock))) e) (err e) w.backups
                  (λ b. refl) (λ b. refl) (λ b. (refl, refl)))
          | inl ((size, sum), m) ↦
              rw (h, y, m)
                (IsClosed-by id f
                  (λ b. record b {
                    status = BackupStatus.success;
                    location = some (archive id);
                    size_bytes = some size;
                    checksum = some sum;
                    finished_at = some (suc (suc (suc w.clock)));
                  })
                  (ok tt) w.backups (λ b. refl) (λ b. refl) (λ b. (refl, refl)))
        ]
      ]
    ]
