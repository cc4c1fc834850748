-- ===== src/Domains.antt =====
-- backend/src/deployments/domains.service.ts: the domains of the deployments and their primary.
-- A table is the list of its rows and a statement its meaning on rows. A `select … limit 1` with no
-- `order by` promises no row in particular, so the choice is a parameter, `Limit1`.
pub mod Rows
pub mod Primary
pub mod Handover
pub mod Routes
mod Tests
use willy.Prelude.{
  ℕ, ◌≡◌, ◌⊎◌, Bool, true, false, not, ◌&&◌, Option, none, some, List, [], ◌∷◌, ◌==◌, if◌then◌else◌,
  or_else, is_some, any, Elem, update_where, delete_where, Text, text_eq, Result, ok, err, Error,
}

pub record Domain : Type 0 where
  pub id : ℕ
  pub fqdn : Text
  pub deployment_id : ℕ
  pub is_primary : Bool
  pub web_route : Bool
  pub target_service : Option Text
  pub target_port : Option ℕ

-- What `select().from(domains).where(p).limit(1)` promises: a row that passes, if there is one.
pub record Limit1 : Type 0 where
  pub pick : (Domain → Bool) → List Domain → Option Domain
  pub pick_some :
      (p : Domain → Bool) (rows : List Domain) (d : Domain)
      → pick p rows ≡ some d
      → (p d ≡ true) × Elem d rows
  pub pick_none : (p : Domain → Bool) (rows : List Domain) → pick p rows ≡ none → any p rows ≡ false

pub record DomainTargetInput : Type 0 where
  pub fqdn : Text
  pub web_route : Option Bool
  pub target_service : Option Text
  pub target_port : Option ℕ

pub record TargetPatch : Type 0 where
  pub web_route : Option Bool
  pub target_service : Option Text
  pub target_port : Option ℕ

-- The conditions of the `where` clauses.
abbrev pub owned_by : ℕ → Domain → Bool
owned_by deployment_id d = d.deployment_id == deployment_id

abbrev pub primary_of : ℕ → Domain → Bool
primary_of deployment_id d = owned_by deployment_id d && d.is_primary

abbrev pub web_of : ℕ → Domain → Bool
web_of deployment_id d = owned_by deployment_id d && d.web_route

abbrev pub has_id : ℕ → Domain → Bool
has_id domain_id d = d.id == domain_id

abbrev pub at : ℕ → ℕ → Domain → Bool
at deployment_id domain_id d = has_id domain_id d && owned_by deployment_id d

abbrev pub set_primary : Bool → Domain → Domain
set_primary b d = record d { is_primary = b }

-- `fqdn` is UNIQUE in the table.
abbrev pub fqdn_taken : Text → List Domain → Bool
fqdn_taken fqdn = any (λ d. text_eq d.fqdn fqdn)

abbrev pub retarget : TargetPatch → Domain → Domain
retarget target d = record d {
  web_route = or_else target.web_route d.web_route;
  target_service = target.target_service;
  target_port = target.target_port;
}

-- `target.webRoute === false`
abbrev pub drops_web : Option Bool → Bool
drops_web none = false
drops_web (some b) = not b

module _ (db : Limit1) where
  pub primary_domain : ℕ → List Domain → Option Domain
  primary_domain deployment_id rows = db.pick (primary_of deployment_id) rows

  pub find_domain : ℕ → ℕ → List Domain → Option Domain
  find_domain deployment_id domain_id rows = db.pick (at deployment_id domain_id) rows

  pub promote_another_primary : ℕ → List Domain → List Domain
  promote_another_primary deployment_id rows = elim (db.pick (web_of deployment_id) rows) [
    | none ↦ rows
    | some next ↦ update_where (has_id next.id) (set_primary true) rows
  ]

  pub demote_primary : ℕ → ℕ → List Domain → List Domain
  demote_primary deployment_id domain_id rows =
      promote_another_primary deployment_id
        (update_where (has_id domain_id) (set_primary false) rows)

  -- The row that `addDomain` inserts; `new_id` is the default of the id column.
  pub new_domain : ℕ → ℕ → DomainTargetInput → List Domain → Domain
  unfolding primary_domain
  new_domain new_id deployment_id input rows =
      let web_route = or_else input.web_route true in
      record {
        id = new_id;
        fqdn = input.fqdn;
        deployment_id = deployment_id;
        is_primary = web_route && not (is_some (primary_domain deployment_id rows));
        web_route = web_route;
        target_service = input.target_service;
        target_port = input.target_port;
      }

  pub add_domain : ℕ → ℕ → DomainTargetInput → List Domain → Result (List Domain × Domain)
  unfolding new_domain
  add_domain new_id deployment_id input rows =
      if fqdn_taken input.fqdn rows
      then err Error.unique_violation
      else ok (
        new_domain new_id deployment_id input rows ∷ rows,
        new_domain new_id deployment_id input rows,
      )

  -- `setPrimaryDomain`: renames the primary, or inserts one with the columns' defaults.
  pub set_primary_domain : ℕ → ℕ → Text → List Domain → Result (List Domain)
  unfolding primary_domain
  set_primary_domain new_id deployment_id fqdn rows = elim (primary_domain deployment_id rows) [
    | some existing ↦
        if any (λ d. text_eq d.fqdn fqdn && not (d.id == existing.id)) rows
        then err Error.unique_violation
        else ok (update_where (has_id existing.id) (λ d. record d { fqdn = fqdn }) rows)
    | none ↦
        if fqdn_taken fqdn rows
        then err Error.unique_violation
        else ok (
            record {
              id = new_id;
              fqdn = fqdn;
              deployment_id = deployment_id;
              is_primary = true;
              web_route = true;
              target_service = none;
              target_port = none;
            }
            ∷ rows)
  ]

  -- `updateDomainTarget`; the row that the statement returns is the changed one.
  pub update_domain_target : ℕ → ℕ → TargetPatch → List Domain → Result (List Domain × Domain)
  unfolding demote_primary promote_another_primary find_domain
  update_domain_target deployment_id domain_id target rows =
      elim (find_domain deployment_id domain_id rows) [
        | none ↦ err Error.not_found
        | some row ↦
            let changed = update_where (at deployment_id domain_id) (retarget target) rows in
            if drops_web target.web_route && row.is_primary
            then ok (demote_primary deployment_id domain_id changed, retarget target row)
            else ok (changed, retarget target row)
      ]

  pub make_primary : ℕ → ℕ → List Domain → Result (List Domain)
  unfolding find_domain
  make_primary deployment_id domain_id rows = elim (find_domain deployment_id domain_id rows) [
    | none ↦ err Error.not_found
    | some domain ↦
        if not domain.web_route
        then err Error.conflict
        else ok (
            update_where (at deployment_id domain_id) (set_primary true)
              (update_where (owned_by deployment_id) (set_primary false) rows))
  ]

  pub remove_domain : ℕ → ℕ → List Domain → List Domain
  unfolding promote_another_primary find_domain
  remove_domain deployment_id domain_id rows =
      let left = delete_where (at deployment_id domain_id) rows in
      elim (find_domain deployment_id domain_id rows) [
        | none ↦ left
        | some removed ↦
            if removed.is_primary then promote_another_primary deployment_id left else left
      ]

-- The rows after a method: unchanged where it throws.
abbrev pub kept_rows : List Domain → Result (List Domain) → List Domain
kept_rows rows (ok after) = after
kept_rows rows (err e) = rows

abbrev pub kept_row : List Domain → Result (List Domain × Domain) → List Domain
kept_row rows (ok (after, d)) = after
kept_row rows (err e) = rows

-- The operations of the service, as a caller issues them.
pub data Command : Type 0 where
  add : ℕ → ℕ → DomainTargetInput → Command
  rename : ℕ → ℕ → Text → Command
  retarget_to : ℕ → ℕ → TargetPatch → Command
  make remove : ℕ → ℕ → Command

abbrev pub is_new : Command → ℕ → Bool
is_new (add new_id dep input) k = k == new_id
is_new (rename new_id dep fqdn) k = k == new_id
is_new _ k = false

pub run : Limit1 → Command → List Domain → List Domain
run db (add new_id dep input) rows = kept_row rows (add_domain db new_id dep input rows)
run db (rename new_id dep fqdn) rows = kept_rows rows (set_primary_domain db new_id dep fqdn rows)
run db (retarget_to dep k target) rows = kept_row rows (update_domain_target db dep k target rows)
run db (make dep k) rows = kept_rows rows (make_primary db dep k rows)
run db (remove dep k) rows = remove_domain db dep k rows
