-- ===== src/Backups/Pruning.antt =====
-- What the retention keeps.
use willy.Prelude.{
  ℕ, zero, suc, ◌+◌, ◌≤◌, ◌≡◌, refl, sym, ap, ◌∙◌, ◌⊎◌, ◌↔◌, inl, inr, Bool, true, false, not, ◌&&◌,
  Option, none, some, List, [], ◌∷◌, ◌==◌, any, count, filter, find, take, drop, sort_by,
  sort_insert, delete_where, Elem, Text, ok, Bool-cases, Option-cases, arith,
}
use willy.Prelude.Effects.{◌>>◌, handle, then-ok}
use willy.Prelude.Counting.{count-elem, count-split, any-elem, find-none}
use willy.Prelude.Rows.{delete-keeps, delete-elem, filter-elem}
use willy.Backups.{Backup, Depot, Outside, is_backup, remove, present, unlink_file}
use willy.Backups.Jobs.{targets, newer, ignore, remove_each, outdated, prune_target}

-- Sorting moves the elements only.
module _ (before : Backup → Backup → Bool) where
  insert-elem :
      (b x : Backup) (ys : List Backup) → (x ≡ b) ⊎ Elem b ys → Elem b (sort_insert before x ys)
  insert-elem b x [] (inl e) = inl e
  insert-elem b x [] (inr m) = absurd m
  insert-elem b x (y ∷ ys) m = elim (Bool-cases (before y x)) [
    | inr n ↦ rw n m
    | inl h ↦ rw h (later (insert-elem b x ys) m)
  ]
    where
      later :
          ((x ≡ b) ⊎ Elem b ys → Elem b (sort_insert before x ys))
          → (x ≡ b) ⊎ Elem b (y ∷ ys)
          → Elem b (y ∷ sort_insert before x ys)
      later ih (inl e) = inr (ih (inl e))
      later ih (inr (inl e)) = inl e
      later ih (inr (inr m)) = inr (ih (inr m))

  sort-elem : (b : Backup) (xs : List Backup) → Elem b xs → Elem b (sort_by before xs)
  unfolding sort_by
  sort-elem b [] m = m
  sort-elem b (x ∷ xs) (inl e) = insert-elem b x (sort_by before xs) (inl e)
  sort-elem b (x ∷ xs) (inr m) = insert-elem b x (sort_by before xs) (inr (sort-elem b xs m))

  count-insert :
      (p : Backup → Bool) (x : Backup) (ys : List Backup)
      → count p (sort_insert before x ys) ≡ count p (x ∷ ys)
  count-insert p x [] = refl
  count-insert p x (y ∷ ys) = elim (Bool-cases (before y x)) [
    | inr n ↦ rw n refl
    | inl h ↦ rw h (ground (arith, count-insert p x ys))
  ]

  count-sort : (p : Backup → Bool) (xs : List Backup) → count p (sort_by before xs) ≡ count p xs
  unfolding sort_by
  count-sort p [] = refl
  count-sort p (x ∷ xs) = count-insert p x (sort_by before xs) ∙ ground (arith, count-sort p xs)

count-filter :
    (p q : Backup → Bool) (xs : List Backup) → count p (filter q xs) ≡ count (λ b. p b && q b) xs
count-filter p q [] = refl
count-filter p q (x ∷ xs) = ground (arith, count-filter p q xs)

count-take-drop :
    (p : Backup → Bool) (n : ℕ) (xs : List Backup)
    → count p (take n xs) + count p (drop n xs) ≡ count p xs
count-take-drop p zero xs = omega arith
count-take-drop p (suc n) [] = omega arith
count-take-drop p (suc n) (x ∷ xs) = ground (arith, count-take-drop p n xs)

elem-take_drop :
    (b : Backup) (n : ℕ) (xs : List Backup) → Elem b xs → Elem b (take n xs) ⊎ Elem b (drop n xs)
elem-take_drop b zero xs m = inr m
elem-take_drop b (suc n) [] m = absurd m
elem-take_drop b (suc n) (x ∷ xs) (inl e) = inl (inl e)
elem-take_drop b (suc n) (x ∷ xs) (inr m) = elim (elem-take_drop b n xs m) [
  | inl t ↦ inl (inr t)
  | inr d ↦ inr d
]

count-some : (p : Backup → Bool) (ys : List Backup) → any p ys ≡ true → 1 ≤ count p ys
count-some p [] h = absurd (cc h)
count-some p (y ∷ ys) h = ground (arith, count-some p ys)

delete-missing : (p : Backup → Bool) (xs : List Backup) → any p xs ≡ false → delete_where p xs ≡ xs
delete-missing p [] h = refl
delete-missing p (x ∷ xs) h =
    let here : p x ≡ false = ground arith in
    rw here (ap (λ l. x ∷ l) (delete-missing p xs (ground arith)))

module _ (o : Outside) where
  unlink-backups :
      (file : Option Text) (w : Depot)
      → ((unlink_file o file w).0 ≡ ok tt) × ((unlink_file o file w).1.backups ≡ w.backups)
  unlink-backups none w = (refl, refl)
  unlink-backups (some file) w = (refl, refl)

  -- A removal whose failure is only logged takes the row away, if it is there.
  removed :
      (id : ℕ) (w : Depot)
      → ((ignore (remove o id) w).0 ≡ ok tt)
        × ((ignore (remove o id) w).1.backups ≡ delete_where (is_backup id) w.backups)
  unfolding remove
  removed id w = elim (Option-cases (find (is_backup id) w.backups)) [
    | inl e ↦
        rw e (
          refl,
          sym (delete-missing (is_backup id) w.backups (find-none (is_backup id) w.backups e)),
        )
    | inr (b, e) ↦ rw e (unlinked (present b.location))
  ]
    where
      unlinked :
          (file : Option Text)
          → ((handle
                (λ e. λ w. (ok tt, w))
                ((unlink_file o file
                    >> (λ w. (ok tt, record w { backups = delete_where (is_backup id) w.backups })))
                  w)).0
              ≡ ok tt)
            × ((handle
                  (λ e. λ w. (ok tt, w))
                  ((unlink_file o file >> (λ w.
                      (ok tt, record w { backups = delete_where (is_backup id) w.backups })))
                    w)).1.backups
                ≡ delete_where (is_backup id) w.backups)
      unlinked none = (refl, refl)
      unlinked (some file) = (refl, refl)

  abbrev same : Backup → Backup → Bool
  same b r = b.id == r.id

  removed-elem :
      (b : Backup) (outs : List Backup) (w : Depot)
      → Elem b (remove_each o outs w).1.backups
      → Elem b w.backups × (any (same b) outs ≡ false)
  removed-elem b [] w m = (m, refl)
  removed-elem b (r ∷ outs) w m =
      let (done, rows) = removed r.id w in
      let after = (ignore (remove o r.id) w).1 in
      let m' : Elem b (remove_each o outs after).1.backups =
        rw (then-ok (ignore (remove o r.id)) (remove_each o outs) w tt done) at m in
      let (there, kept) = removed-elem b outs after m' in
      let there' : Elem b (delete_where (is_backup r.id) w.backups) = rw (← rows) there in
      let (inside, other) = delete-elem (is_backup r.id) b w.backups there' in
      (inside, rw (other, kept) refl)

  removed-keeps :
      (b : Backup) (outs : List Backup) (w : Depot)
      → Elem b w.backups
      → any (same b) outs ≡ false
      → Elem b (remove_each o outs w).1.backups
  removed-keeps b [] w m h = m
  removed-keeps b (r ∷ outs) w m h =
      let (done, rows) = removed r.id w in
      let other : is_backup r.id b ≡ false = ground arith in
      let there = delete-keeps (is_backup r.id) b w.backups m other in
      rw (then-ok (ignore (remove o r.id)) (remove_each o outs) w tt done)
        (removed-keeps b outs (ignore (remove o r.id) w).1 (rw rows there) (ground arith))

  -- Of the finished backups of the target, the newest `keep`, and every other row.
  abbrev pub IsKept : Text → ℕ → List Backup → Backup → Type 0
  IsKept target keep rows b =
      (targets target b ≡ false) ⊎ Elem b (take keep (sort_by newer (filter (targets target) rows)))

  count-same : (b : Backup) (xs : List Backup) → count (same b) xs ≡ count (is_backup b.id) xs
  count-same b [] = refl
  count-same b (x ∷ xs) = ground (arith, count-same b xs)

  -- An id of an outdated row is that of no row that is kept.
  not_outdated :
      (target : Text) (keep : ℕ) (rows : List Backup) (b : Backup)
      → count (is_backup b.id) rows ≤ 1
      → Elem b rows
      → IsKept target keep rows b
      → any (same b) (outdated o target keep rows) ≡ false
  not_outdated target keep rows b unique m k =
      elim (Bool-cases (any (same b) (outdated o target keep rows))) [
        | inr n ↦ n
        | inl y ↦ absurd (clash y k)
      ]
    where
      clash : any (same b) (outdated o target keep rows) ≡ true → IsKept target keep rows b → ⊥
      clash y kept =
          let mine = is_backup b.id in
          let ok_rows = targets target in
          let all = sort_by newer (filter ok_rows rows) in
          let self : mine b ≡ true = ground arith in
          let out : 1 ≤ count mine (drop keep all) =
            rw (← count-same b (drop keep all)) (count-some (same b) (drop keep all) y) in
          let parts = count-take-drop mine keep all in
          let total =
            count-sort newer mine (filter ok_rows rows) ∙ count-filter mine ok_rows rows in
          let split = count-split mine ok_rows rows in
          elim kept [
            | inl misses ↦
                let here =
                  count-elem (λ x. mine x && not (ok_rows x)) b rows m (rw (self, misses) refl) in
                omega (arith, out, parts, total, split, here, unique)
            | inr taken ↦
                let here = count-elem mine b (take keep all) taken self in
                omega (arith, out, parts, total, split, here, unique)
          ]

  -- A prune keeps exactly the backups of other volumes, those that have not finished with success, and
  -- the newest `keep` of the target; nothing else stays, and nothing is added. Ids are unique.
  pub prune_target-keeps :
      (target : Text) (keep : ℕ) (b : Backup) (w : Depot)
      → count (is_backup b.id) w.backups ≤ 1
      → Elem b (prune_target o target keep w).1.backups
        ↔ (Elem b w.backups × IsKept target keep w.backups b)
  unfolding prune_target
  prune_target-keeps target keep b w unique = (sound, complete)
    where
      sound :
          Elem b (prune_target o target keep w).1.backups
          → Elem b w.backups × IsKept target keep w.backups b
      sound m =
          let (inside, out) = removed-elem b (outdated o target keep w.backups) w m in
          (
            inside,
            elim (Bool-cases (targets target b)) [
              | inr n ↦ inl n
              | inl y ↦
                  let sorted = sort_by newer (filter (targets target) w.backups) in
                  let there =
                    sort-elem newer b (filter (targets target) w.backups)
                      (filter-elem (targets target) b w.backups inside y) in
                  elim (elem-take_drop b keep sorted there) [
                    | inl t ↦ inr t
                    | inr d ↦
                        let self : same b b ≡ true = ground arith in
                        let bad = any-elem (same b) b (outdated o target keep w.backups) d self in
                        absurd (cc (bad, out))
                  ]
            ],
          )

      complete :
          Elem b w.backups × IsKept target keep w.backups b
          → Elem b (prune_target o target keep w).1.backups
      complete (m, k) =
          removed-keeps b (outdated o target keep w.backups) w m
            (not_outdated target keep w.backups b unique m k)
