-- ===== src/Domains/Primary.antt =====
-- The primary domain of a deployment under the operations of the domains service.
use willy.Prelude.{
  ℕ, ◌≤◌, ◌≡◌, inl, inr, refl, Bool, true, false, not, ◌&&◌, List, ◌∷◌, count, any, Elem,
  update_where, delete_where, Text, text_eq, ◌⊎◌, arith, Option-cases, Bool-cases, ==_iff, ap, ◌==◌,
}
use willy.Prelude.Counting.{unique-other, count-elem, count-any, count-update, count-delete}
use willy.Domains.{
  kept_rows, kept_row, Domain, Limit1, DomainTargetInput, TargetPatch, owned_by, primary_of, web_of,
  has_id, at, set_primary, retarget, drops_web, primary_domain, find_domain,
  promote_another_primary, demote_primary, new_domain, add_domain, set_primary_domain,
  update_domain_target, make_primary, remove_domain, Command, add, rename, retarget_to, make,
  remove, is_new, run, fqdn_taken,
}
use willy.Domains.Rows.{
  stray, count-promote, count-demote, count-make, count-make_other, stray-promote, stray-make,
  stray-retarget, stray-retarget_kept, stray-demote, at-le-id,
}

-- No deployment has two primary domains, each primary serves the web route, and ids are unique.
pub record IsValid (rows : List Domain) : Type 0 where
  pub one_primary : (dep : ℕ) → count (primary_of dep) rows ≤ 1
  pub no_stray : count stray rows ≡ 0
  pub unique_ids : (k : ℕ) → count (has_id k) rows ≤ 1

module _ (db : Limit1) where
  -- What the choice of the next primary leaves: no other primary in the deployment is required.
  promote-IsValid :
      (dep : ℕ) (rows : List Domain)
      → IsValid rows
      → count (primary_of dep) rows ≡ 0
      → IsValid (promote_another_primary db dep rows)
  unfolding promote_another_primary
  promote-IsValid dep rows v none_left = elim (Option-cases (db.pick (web_of dep) rows)) [
    | inl e ↦ rw (e, promote_another_primary) v
    | inr (next, e) ↦
        rw (e, promote_another_primary) (chosen next (db.pick_some (web_of dep) rows next e))
  ]
    where
      chosen :
          (next : Domain)
          → (web_of dep next ≡ true) × Elem next rows
          → IsValid (update_where (has_id next.id) (set_primary true) rows)
      chosen next (web, here) =
          let k = next.id in
          record {
            one_primary = λ other. elim (Bool-cases (other == dep)) [
              | inl same ↦
                  let e : other ≡ dep = (==_iff other dep).0 same in
                  omega (
                    arith,
                    count-promote other k rows,
                    v.unique_ids k,
                    none_left,
                    ap (λ (t : ℕ). count (primary_of t) rows) e,
                    at-le-id other k rows,
                  )
              | inr differs ↦ omega (
                arith,
                count-promote other k rows,
                v.one_primary other,
                unique-other (has_id k) (owned_by other) next rows (v.unique_ids k) here
                    (ground arith) (ground arith),
              )
            ];
            no_stray = omega (
              arith,
              stray-promote k rows,
              v.no_stray,
              unique-other (has_id k) (λ d. not d.web_route) next rows (v.unique_ids k) here
                  (ground arith) (ground arith),
            );
            unique_ids = λ j. omega (
              arith,
              v.unique_ids j,
              count-update (has_id k) (has_id j) (set_primary true) rows (λ d. refl),
            );
          }

  -- A row that keeps its flags and its owner keeps the invariant.
  update-IsValid :
      (q : Domain → Bool) (f : Domain → Domain) (rows : List Domain)
      → ((d : Domain) → (f d).id ≡ d.id)
      → ((d : Domain) → (f d).deployment_id ≡ d.deployment_id)
      → ((d : Domain) → (f d).is_primary ≡ d.is_primary)
      → count stray (update_where q f rows) ≡ 0
      → IsValid rows
      → IsValid (update_where q f rows)
  update-IsValid q f rows same_id same_owner same_flag clean v = record {
    one_primary = λ dep. omega (
      arith,
      v.one_primary dep,
      count-update q (primary_of dep) f rows (λ d. rw (same_owner d, same_flag d)),
    );
    no_stray = clean;
    unique_ids =
        λ k. omega (arith, v.unique_ids k, count-update q (has_id k) f rows (λ d. rw (same_id d)));
  }

  delete-IsValid :
      (q : Domain → Bool) (rows : List Domain) → IsValid rows → IsValid (delete_where q rows)
  delete-IsValid q rows v = record {
    one_primary = λ dep. omega (arith, v.one_primary dep, count-delete q (primary_of dep) rows);
    no_stray = omega (arith, v.no_stray, count-delete q stray rows);
    unique_ids = λ k. omega (arith, v.unique_ids k, count-delete q (has_id k) rows);
  }

  demoted-IsValid :
      (dep k : ℕ) (target : TargetPatch) (rows : List Domain)
      → IsValid rows
      → IsValid (
          update_where
            (has_id k)
            (set_primary false)
            (update_where (at dep k) (retarget target) rows))
  demoted-IsValid dep k target rows v =
      let changed = update_where (at dep k) (retarget target) rows in
      record {
        one_primary = λ other. omega (
          arith,
          v.one_primary other,
          count-demote other k changed,
          count-update (at dep k) (primary_of other) (retarget target) rows (λ d. refl),
        );
        no_stray = omega (arith, v.no_stray, stray-demote dep k target rows);
        unique_ids = λ j. omega (
          arith,
          v.unique_ids j,
          count-update (at dep k) (has_id j) (retarget target) rows (λ d. refl),
          count-update (has_id k) (has_id j) (set_primary false) changed (λ d. refl),
        );
      }

  -- Demoting the row that was the primary leaves the deployment none.
  demoted-none :
      (dep k : ℕ) (row : Domain) (target : TargetPatch) (rows : List Domain)
      → IsValid rows
      → (at dep k row ≡ true) × Elem row rows
      → row.is_primary ≡ true
      → count (primary_of dep) (
          update_where
            (has_id k)
            (set_primary false)
            (update_where (at dep k) (retarget target) rows))
        ≡ 0
  demoted-none dep k row target rows v (found, here) flag =
      let changed = update_where (at dep k) (retarget target) rows in
      let both : (has_id k row && primary_of dep row) ≡ true = ground arith in
      omega (
        arith,
        v.one_primary dep,
        count-demote dep k changed,
        count-update (at dep k) (primary_of dep) (retarget target) rows (λ d. refl),
        count-update (at dep k) (λ d. has_id k d && primary_of dep d) (retarget target) rows
            (λ d. refl),
        count-elem (λ d. has_id k d && primary_of dep d) row rows here both,
      )

  retarget-IsValid :
      (dep k : ℕ) (target : TargetPatch) (row : Domain) (rows : List Domain)
      → IsValid rows
      → (at dep k row ≡ true) × Elem row rows
      → drops_web target.web_route && row.is_primary ≡ false
      → IsValid (update_where (at dep k) (retarget target) rows)
  retarget-IsValid dep k target row rows v (found, here) keeps =
      update-IsValid (at dep k) (retarget target) rows (λ d. refl) (λ d. refl) (λ d. refl)
        (elim (Bool-cases (drops_web target.web_route)) [
          | inl drops ↦ omega (
            arith,
            v.no_stray,
            stray-retarget dep k target rows,
            unique-other (has_id k) (λ d. d.is_primary) row rows (v.unique_ids k) here
                (ground arith) (ground arith),
          )
          | inr kept ↦ omega (arith, v.no_stray, stray-retarget_kept dep k target rows kept)
        ])
        v

  update_domain_target-IsValid :
      (dep k : ℕ) (target : TargetPatch) (rows : List Domain)
      → IsValid rows
      → IsValid (kept_row rows (update_domain_target db dep k target rows))
  unfolding update_domain_target find_domain demote_primary
  update_domain_target-IsValid dep k target rows v = elim (Option-cases (db.pick (at dep k) rows)) [
    | inl e ↦ rw (e, kept_row, update_domain_target, find_domain) v
    | inr (row, e) ↦ elim (Bool-cases (drops_web target.web_route && row.is_primary)) [
      | inl drops ↦
          let found = db.pick_some (at dep k) rows row e in
          rw (e, kept_row, update_domain_target, find_domain, drops)
            (promote-IsValid dep _ (demoted-IsValid dep k target rows v)
              (demoted-none dep k row target rows v found (ground arith)))
      | inr keeps ↦
          rw (e, kept_row, update_domain_target, find_domain, keeps)
            (retarget-IsValid dep k target row rows v (db.pick_some (at dep k) rows row e) keeps)
    ]
  ]

  made-IsValid :
      (dep k : ℕ) (row : Domain) (rows : List Domain)
      → IsValid rows
      → (at dep k row ≡ true) × Elem row rows
      → row.web_route ≡ true
      → IsValid (
          update_where
            (at dep k)
            (set_primary true)
            (update_where (owned_by dep) (set_primary false) rows))
  made-IsValid dep k row rows v (found, here) web = record {
    one_primary = λ other. elim (Bool-cases (other == dep)) [
      | inl same ↦
          let e : other ≡ dep = (==_iff other dep).0 same in
          rw e (omega (arith, count-make dep k rows, at-le-id dep k rows, v.unique_ids k))
      | inr differs ↦
          omega (arith, v.one_primary other, count-make_other dep k other rows (ground arith))
    ];
    no_stray = omega (
      arith,
      v.no_stray,
      stray-make dep k rows,
      unique-other (has_id k) (λ d. not d.web_route) row rows (v.unique_ids k) here (ground arith)
          (ground arith),
    );
    unique_ids = λ j. omega (
      arith,
      v.unique_ids j,
      count-update (owned_by dep) (has_id j) (set_primary false) rows (λ d. refl),
      count-update (at dep k) (has_id j) (set_primary true)
          (update_where (owned_by dep) (set_primary false) rows) (λ d. refl),
    );
  }

  make_primary-IsValid :
      (dep k : ℕ) (rows : List Domain)
      → IsValid rows
      → IsValid (kept_rows rows (make_primary db dep k rows))
  unfolding make_primary find_domain
  make_primary-IsValid dep k rows v = elim (Option-cases (db.pick (at dep k) rows)) [
    | inl e ↦ rw (e, kept_rows, make_primary, find_domain) v
    | inr (row, e) ↦ elim (Bool-cases row.web_route) [
      | inl web ↦
          rw (e, kept_rows, make_primary, find_domain, web)
            (made-IsValid dep k row rows v (db.pick_some (at dep k) rows row e) web)
      | inr bound ↦ rw (e, kept_rows, make_primary, find_domain, bound) v
    ]
  ]

  remove_domain-IsValid :
      (dep k : ℕ) (rows : List Domain) → IsValid rows → IsValid (remove_domain db dep k rows)
  unfolding remove_domain find_domain
  remove_domain-IsValid dep k rows v = elim (Option-cases (db.pick (at dep k) rows)) [
    | inl e ↦ rw (e, remove_domain, find_domain) (delete-IsValid (at dep k) rows v)
    | inr (row, e) ↦ elim (Bool-cases row.is_primary) [
      | inl flag ↦
          rw (e, remove_domain, find_domain, flag)
            (promote-IsValid dep _ (delete-IsValid (at dep k) rows v)
              (deleted-none row (db.pick_some (at dep k) rows row e) flag))
      | inr plain ↦ rw (e, remove_domain, find_domain, plain) (delete-IsValid (at dep k) rows v)
    ]
  ]
    where
      deleted-none :
          (row : Domain)
          → (at dep k row ≡ true) × Elem row rows
          → row.is_primary ≡ true
          → count (primary_of dep) (delete_where (at dep k) rows) ≡ 0
      deleted-none row (found, here) flag = omega (
        arith,
        v.one_primary dep,
        count-delete (at dep k) (primary_of dep) rows,
        count-elem (λ d. at dep k d && primary_of dep d) row rows here (ground arith),
      )

  inserted-IsValid :
      (d : Domain) (rows : List Domain)
      → IsValid rows
      → count (has_id d.id) rows ≡ 0
      → stray d ≡ false
      → (d.is_primary ≡ false) ⊎ (any (primary_of d.deployment_id) rows ≡ false)
      → IsValid (d ∷ rows)
  inserted-IsValid d rows v fresh clean alone = record {
    one_primary = λ dep. ground (
      arith,
      v.one_primary dep,
      v.one_primary d.deployment_id,
      alone,
      count-any (primary_of d.deployment_id) rows,
    );
    no_stray = ground (arith, v.no_stray);
    unique_ids = λ k. ground (arith, v.unique_ids k, fresh);
  }

  add_domain-IsValid :
      (new_id dep : ℕ) (input : DomainTargetInput) (rows : List Domain)
      → IsValid rows
      → count (has_id new_id) rows ≡ 0
      → IsValid (kept_row rows (add_domain db new_id dep input rows))
  unfolding add_domain primary_domain
  add_domain-IsValid new_id dep input rows v fresh =
      elim (Bool-cases (fqdn_taken input.fqdn rows)) [
        | inl taken ↦ rw taken v
        | inr free ↦ rw free (
            inserted-IsValid (new_domain db new_id dep input rows) rows v fresh (ground arith)
              (elim (Option-cases (db.pick (primary_of dep) rows)) [
                | inl e ↦ inr (db.pick_none (primary_of dep) rows e)
                | inr (row, e) ↦ inl (ground arith)
              ]))
      ]

  set_primary_domain-IsValid :
      (new_id dep : ℕ) (fqdn : Text) (rows : List Domain)
      → IsValid rows
      → count (has_id new_id) rows ≡ 0
      → IsValid (kept_rows rows (set_primary_domain db new_id dep fqdn rows))
  unfolding set_primary_domain primary_domain
  set_primary_domain-IsValid new_id dep fqdn rows v fresh =
      elim (Option-cases (db.pick (primary_of dep) rows)) [
        | inl e ↦ elim (Bool-cases (fqdn_taken fqdn rows)) [
          | inl taken ↦ rw (e, kept_rows, set_primary_domain, primary_domain, taken) v
          | inr free ↦
              rw (e, kept_rows, set_primary_domain, primary_domain, free)
                (inserted-IsValid _ rows v fresh refl (inr (db.pick_none (primary_of dep) rows e)))
        ]
        | inr (row, e) ↦
            elim (Bool-cases (any (λ d. text_eq d.fqdn fqdn && not (d.id == row.id)) rows)) [
              | inl taken ↦ rw (e, kept_rows, set_primary_domain, primary_domain, taken) v
              | inr free ↦
                  rw (e, kept_rows, set_primary_domain, primary_domain, free)
                    (update-IsValid (has_id row.id) (λ d. record d { fqdn = fqdn }) rows (λ d. refl)
                      (λ d. refl) (λ d. refl)
                      (omega (
                        arith,
                        v.no_stray,
                        count-update (has_id row.id) stray (λ d. record d { fqdn = fqdn }) rows
                            (λ d. refl),
                      ))
                      v)
            ]
      ]

  -- Every operation of the service keeps the invariant: no deployment ever has two primaries, a
  -- primary always serves the web route, and ids stay unique. An inserted row has a fresh id.
  pub run-IsValid :
      (c : Command) (rows : List Domain)
      → IsValid rows
      → count (λ d. is_new c d.id) rows ≡ 0
      → IsValid (run db c rows)
  unfolding run
  run-IsValid (add new_id dep input) rows v fresh = add_domain-IsValid new_id dep input rows v fresh
  run-IsValid (rename new_id dep fqdn) rows v fresh =
      set_primary_domain-IsValid new_id dep fqdn rows v fresh
  run-IsValid (retarget_to dep k target) rows v _ = update_domain_target-IsValid dep k target rows v
  run-IsValid (make dep k) rows v _ = make_primary-IsValid dep k rows v
  run-IsValid (remove dep k) rows v _ = remove_domain-IsValid dep k rows v
