-- ===== src/Ports.antt =====
-- backend/src/deployments/port-bindings.service.ts: the host ports bound on the machine, and the
-- range they are taken from (backend/src/config/port-range.ts).
pub mod Bindings
pub mod Range
mod Tests
use willy.Prelude.{
  ℕ, zero, suc, ◌+◌, ◌-◌, ◌≡◌, Bool, true, false, not, ◌&&◌, ◌||◌, Option, none, some, List, [],
  ◌∷◌, ◌==◌, leb, ltb, if◌then◌else◌, map, find, any, contains, update_where, delete_where, Text,
  Result, ok, err, Error, filter, sort_by,
}

pub record PortBinding : Type 0 where
  pub id : ℕ
  pub domain_id : ℕ
  pub host_port : ℕ
  pub target_service : Option Text
  pub target_port : Option ℕ

pub record PortBindingInput : Type 0 where
  pub host_port : ℕ
  pub target_service : Option Text
  pub target_port : Option ℕ

pub record PortRange : Type 0 where
  pub start : ℕ
  pub end : ℕ

abbrev pub on_port : ℕ → PortBinding → Bool
on_port p b = b.host_port == p

abbrev pub is_binding : ℕ → PortBinding → Bool
is_binding k b = b.id == k

abbrev pub bound_at : ℕ → ℕ → PortBinding → Bool
bound_at domain_id k b = is_binding k b && b.domain_id == domain_id

pub list_port_bindings : ℕ → List PortBinding → List PortBinding
unfolding sort_by
list_port_bindings domain_id rows =
    sort_by (λ a b. ltb a.host_port b.host_port) (filter (λ b. b.domain_id == domain_id) rows)

pub allocated_host_ports : List PortBinding → List ℕ
allocated_host_ports rows = map (λ b. b.host_port) rows

-- The loop of `suggestFreePort`, by the rounds that are left.
pub first_free : List ℕ → ℕ → ℕ → Result ℕ
first_free taken port zero = err Error.conflict
first_free taken port (suc rounds) =
    let rest = first_free taken (port + 1) rounds in if contains port taken then rest else ok port

pub suggest_free_port : PortRange → List PortBinding → Result ℕ
unfolding first_free allocated_host_ports
suggest_free_port range rows =
    first_free (allocated_host_ports rows) range.start (range.end + 1 - range.start)

abbrev pub excluded : Option ℕ → ℕ → Bool
excluded none k = false
excluded (some j) k = k == j

-- `assertHostPortFree`: whether it passes. The column is UNIQUE, so at most one row clashes.
pub host_port_free : ℕ → Option ℕ → List PortBinding → Bool
host_port_free port exclude rows = elim (find (on_port port) rows) [
  | none ↦ true
  | some clash ↦ excluded exclude clash.id
]

pub add_port_binding :
    ℕ → ℕ → PortBindingInput → List PortBinding → Result (List PortBinding × PortBinding)
unfolding host_port_free
add_port_binding new_id domain_id input rows =
    if not (host_port_free input.host_port none rows)
    then err Error.conflict
    else if any (on_port input.host_port) rows
    then err Error.unique_violation
    else let row : PortBinding = record {
      id = new_id;
      domain_id = domain_id;
      host_port = input.host_port;
      target_service = input.target_service;
      target_port = input.target_port;
    } in
      ok (row ∷ rows, row)

abbrev pub patched : PortBindingInput → PortBinding → PortBinding
patched patch b = record b {
  host_port = patch.host_port;
  target_service = patch.target_service;
  target_port = patch.target_port;
}

-- The UNIQUE column refuses a statement that would leave the port on two rows.
abbrev pub other_on_port : ℕ → ℕ → ℕ → PortBinding → Bool
other_on_port domain_id k port b = on_port port b && not (bound_at domain_id k b)

pub update_port_binding :
    ℕ → ℕ → PortBindingInput → List PortBinding → Result (List PortBinding × PortBinding)
unfolding host_port_free
update_port_binding domain_id k patch rows =
    if not (host_port_free patch.host_port (some k) rows)
    then err Error.conflict
    else elim (find (bound_at domain_id k) rows) [
      | none ↦ err Error.not_found
      | some row ↦
          if any (other_on_port domain_id k patch.host_port) rows
          then err Error.unique_violation
          else ok (update_where (bound_at domain_id k) (patched patch) rows, patched patch row)
    ]

pub remove_port_binding : ℕ → ℕ → List PortBinding → List PortBinding
remove_port_binding domain_id k rows = delete_where (bound_at domain_id k) rows
