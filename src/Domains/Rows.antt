-- ===== src/Domains/Rows.antt =====
-- How the statements of the domains service change the number of rows that pass a test.
use willy.Prelude.{
  ℕ, ◌+◌, ◌≤◌, ◌≡◌, ◌≢◌, Bool, true, false, not, ◌&&◌, List, [], ◌∷◌, count, update_where, arith,
}
use willy.Domains.{
  Domain, owned_by, primary_of, has_id, at, set_primary, retarget, TargetPatch, drops_web,
}

-- A primary that serves no web route.
abbrev pub stray : Domain → Bool
stray d = d.is_primary && not d.web_route

pub count-promote :
    (dep k : ℕ) (rows : List Domain)
    → count (primary_of dep) (update_where (has_id k) (set_primary true) rows)
      ≤ count (primary_of dep) rows + count (at dep k) rows
count-promote dep k [] = omega arith
count-promote dep k (d ∷ rows) = ground (arith, count-promote dep k rows)

pub count-demote :
    (dep k : ℕ) (rows : List Domain)
    → count (primary_of dep) (update_where (has_id k) (set_primary false) rows)
        + count (λ d. has_id k d && primary_of dep d) rows
      ≡ count (primary_of dep) rows
count-demote dep k [] = omega arith
count-demote dep k (d ∷ rows) = ground (arith, count-demote dep k rows)

pub count-make :
    (dep k : ℕ) (rows : List Domain)
    → count (primary_of dep) (
        update_where
          (at dep k)
          (set_primary true)
          (update_where (owned_by dep) (set_primary false) rows))
      ≡ count (at dep k) rows
count-make dep k [] = omega arith
count-make dep k (d ∷ rows) = ground (arith, count-make dep k rows)

pub count-make_other :
    (dep k other : ℕ) (rows : List Domain)
    → other ≢ dep
    → count (primary_of other) (
        update_where
          (at dep k)
          (set_primary true)
          (update_where (owned_by dep) (set_primary false) rows))
      ≡ count (primary_of other) rows
count-make_other dep k other [] h = omega arith
count-make_other dep k other (d ∷ rows) h = ground (arith, count-make_other dep k other rows h)

pub stray-promote :
    (k : ℕ) (rows : List Domain)
    → count stray (update_where (has_id k) (set_primary true) rows)
      ≤ count stray rows + count (λ d. has_id k d && not d.web_route) rows
stray-promote k [] = omega arith
stray-promote k (d ∷ rows) = ground (arith, stray-promote k rows)

pub stray-make :
    (dep k : ℕ) (rows : List Domain)
    → count stray (
        update_where
          (at dep k)
          (set_primary true)
          (update_where (owned_by dep) (set_primary false) rows))
      ≤ count stray rows + count (λ d. has_id k d && not d.web_route) rows
stray-make dep k [] = omega arith
stray-make dep k (d ∷ rows) = ground (arith, stray-make dep k rows)

-- Retargeting makes a row stray only where it drops the web route of a primary.
pub stray-retarget :
    (dep k : ℕ) (target : TargetPatch) (rows : List Domain)
    → count stray (update_where (at dep k) (retarget target) rows)
      ≤ count stray rows + count (λ d. has_id k d && d.is_primary) rows
stray-retarget dep k target [] = omega arith
stray-retarget dep k target (d ∷ rows) = ground (arith, stray-retarget dep k target rows)

pub stray-retarget_kept :
    (dep k : ℕ) (target : TargetPatch) (rows : List Domain)
    → drops_web target.web_route ≡ false
    → count stray (update_where (at dep k) (retarget target) rows) ≤ count stray rows
stray-retarget_kept dep k target [] h = omega arith
stray-retarget_kept dep k target (d ∷ rows) h =
    ground (arith, stray-retarget_kept dep k target rows h)

pub stray-demote :
    (dep k : ℕ) (target : TargetPatch) (rows : List Domain)
    → count stray (
        update_where
          (has_id k)
          (set_primary false)
          (update_where (at dep k) (retarget target) rows))
      ≤ count stray rows
stray-demote dep k target [] = omega arith
stray-demote dep k target (d ∷ rows) = ground (arith, stray-demote dep k target rows)

pub at-le-id : (dep k : ℕ) (rows : List Domain) → count (at dep k) rows ≤ count (has_id k) rows
at-le-id dep k [] = omega arith
at-le-id dep k (d ∷ rows) = ground (arith, at-le-id dep k rows)
