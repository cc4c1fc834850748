-- ===== src/Domains/Handover.antt =====
-- A deployment with a web-serving domain keeps a primary when domains are removed or repointed.
use willy.Prelude.{
  ℕ, ◌≤◌, ◌≡◌, ◌≢◌, ◌⊎◌, inl, inr, refl, true, false, ◌&&◌, some, List, [], ◌∷◌, count, any, Elem,
  update_where, delete_where, arith, Option-cases, Bool-cases, ap, ◌∙◌,
}
use willy.Prelude.Counting.{unique-other, count-any}
use willy.Domains.{
  Domain, Limit1, TargetPatch, primary_of, web_of, has_id, at, set_primary, retarget, drops_web,
  find_domain, promote_another_primary, demote_primary, update_domain_target, remove_domain,
  kept_row,
}
use willy.Domains.Primary.{IsValid}

-- The deployment has a primary, unless none of its domains serves the web.
abbrev pub HasPrimary : ℕ → List Domain → Type 0
HasPrimary dep rows = (any (web_of dep) rows ≡ false) ⊎ (any (primary_of dep) rows ≡ true)

any-promote :
    (dep k : ℕ) (next : Domain) (rows : List Domain)
    → Elem next rows
    → web_of dep next ≡ true
    → any (primary_of dep) (update_where (has_id next.id) (set_primary true) rows) ≡ true
any-promote dep k next [] here web = absurd here
any-promote dep k next (d ∷ rows) (inl e) web = ground (arith, ap (web_of dep) e, ap (λ x. x.id) e)
any-promote dep k next (d ∷ rows) (inr later) web =
    ground (arith, any-promote dep k next rows later web)

web-delete :
    (dep k : ℕ) (rows : List Domain)
    → any (web_of dep) rows ≡ false
    → any (web_of dep) (delete_where (at dep k) rows) ≡ false
web-delete dep k [] h = refl
web-delete dep k (d ∷ rows) h = ground (arith, web-delete dep k rows)

web-retarget :
    (dep k : ℕ) (target : TargetPatch) (rows : List Domain)
    → target.web_route ≢ some true
    → any (web_of dep) rows ≡ false
    → any (web_of dep) (update_where (at dep k) (retarget target) rows) ≡ false
web-retarget dep k target [] h e = refl
web-retarget dep k target (d ∷ rows) h e = ground (arith, web-retarget dep k target rows h)

primary-delete :
    (dep k : ℕ) (rows : List Domain)
    → count (λ d. at dep k d && primary_of dep d) rows ≡ 0
    → any (primary_of dep) rows ≡ true
    → any (primary_of dep) (delete_where (at dep k) rows) ≡ true
primary-delete dep k [] z h = h
primary-delete dep k (d ∷ rows) z h = ground (arith, primary-delete dep k rows)

primary-retarget :
    (dep k : ℕ) (target : TargetPatch) (rows : List Domain)
    → any (primary_of dep) (update_where (at dep k) (retarget target) rows)
      ≡ any (primary_of dep) rows
primary-retarget dep k target [] = refl
primary-retarget dep k target (d ∷ rows) = ground (arith, primary-retarget dep k target rows)

both-le-primary_id :
    (dep k : ℕ) (rows : List Domain)
    → count (λ d. at dep k d && primary_of dep d) rows
      ≤ count (λ d. has_id k d && d.is_primary) rows
both-le-primary_id dep k [] = omega arith
both-le-primary_id dep k (d ∷ rows) = ground (arith, both-le-primary_id dep k rows)

both-le-at :
    (dep k : ℕ) (rows : List Domain)
    → count (λ d. at dep k d && primary_of dep d) rows ≤ count (at dep k) rows
both-le-at dep k [] = omega arith
both-le-at dep k (d ∷ rows) = ground (arith, both-le-at dep k rows)

module _ (db : Limit1) where
  promote-HasPrimary :
      (dep : ℕ) (rows : List Domain) → HasPrimary dep (promote_another_primary db dep rows)
  unfolding promote_another_primary
  promote-HasPrimary dep rows = elim (Option-cases (db.pick (web_of dep) rows)) [
    | inl e ↦ rw (e, promote_another_primary) (inl (db.pick_none (web_of dep) rows e))
    | inr (next, e) ↦
        let (web, here) = db.pick_some (web_of dep) rows next e in
        rw (e, promote_another_primary) (inr (any-promote dep next.id next rows here web))
  ]

  deleted-HasPrimary :
      (dep k : ℕ) (rows : List Domain)
      → count (λ d. at dep k d && primary_of dep d) rows ≡ 0
      → HasPrimary dep rows
      → HasPrimary dep (delete_where (at dep k) rows)
  deleted-HasPrimary dep k rows z (inl h) = inl (web-delete dep k rows h)
  deleted-HasPrimary dep k rows z (inr h) = inr (primary-delete dep k rows z h)

  -- Where a deployment has a primary, or no domain that serves the web, removing a domain leaves it a
  -- primary, or no domain that serves the web; its table is valid.
  pub remove_domain-HasPrimary :
      (dep k : ℕ) (rows : List Domain)
      → IsValid rows
      → HasPrimary dep rows
      → HasPrimary dep (remove_domain db dep k rows)
  unfolding remove_domain find_domain
  remove_domain-HasPrimary dep k rows v h = elim (Option-cases (db.pick (at dep k) rows)) [
    | inl e ↦
        rw (e, remove_domain, find_domain)
          (deleted-HasPrimary dep k rows
            (omega (
              arith,
              both-le-at dep k rows,
              count-any (at dep k) rows (db.pick_none (at dep k) rows e),
            ))
            h)
    | inr (row, e) ↦ elim (Bool-cases row.is_primary) [
      | inl flag ↦ rw (e, remove_domain, find_domain, flag) (promote-HasPrimary dep _)
      | inr plain ↦
          rw (e, remove_domain, find_domain, plain)
            (deleted-HasPrimary dep k rows
              (none_primary row (db.pick_some (at dep k) rows row e) plain) h)
    ]
  ]
    where
      none_primary :
          (row : Domain)
          → (at dep k row ≡ true) × Elem row rows
          → row.is_primary ≡ false
          → count (λ d. at dep k d && primary_of dep d) rows ≡ 0
      none_primary row (found, here) plain = omega (
        arith,
        both-le-primary_id dep k rows,
        unique-other (has_id k) (λ d. d.is_primary) row rows (v.unique_ids k) here (ground arith)
            plain,
      )

  retargeted-HasPrimary :
      (dep k : ℕ) (target : TargetPatch) (rows : List Domain)
      → target.web_route ≢ some true
      → HasPrimary dep rows
      → HasPrimary dep (update_where (at dep k) (retarget target) rows)
  retargeted-HasPrimary dep k target rows keeps (inl h) =
      inl (web-retarget dep k target rows keeps h)
  retargeted-HasPrimary dep k target rows keeps (inr h) =
      inr (primary-retarget dep k target rows ∙ h)

  -- Where a deployment has a primary, or no domain that serves the web, repointing a domain leaves it a
  -- primary, or no domain that serves the web; the patch must not switch a web route on.
  pub update_domain_target-HasPrimary :
      (dep k : ℕ) (target : TargetPatch) (rows : List Domain)
      → target.web_route ≢ some true
      → HasPrimary dep rows
      → HasPrimary dep (kept_row rows (update_domain_target db dep k target rows))
  unfolding update_domain_target find_domain demote_primary
  update_domain_target-HasPrimary dep k target rows keeps h =
      elim (Option-cases (db.pick (at dep k) rows)) [
        | inl e ↦ rw (e, kept_row, update_domain_target, find_domain) h
        | inr (row, e) ↦ elim (Bool-cases (drops_web target.web_route && row.is_primary)) [
          | inl drops ↦
              rw (e, kept_row, update_domain_target, find_domain, drops) (promote-HasPrimary dep _)
          | inr stays ↦
              rw (e, kept_row, update_domain_target, find_domain, stays)
                (retargeted-HasPrimary dep k target rows keeps h)
        ]
      ]
