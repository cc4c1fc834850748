-- ===== src/Ports/Bindings.antt =====
-- A host port is bound at most once, and the checks make the database's refusal unreachable.
use willy.Prelude.{
  ℕ, zero, suc, ◌+◌, ◌-◌, ◌≤◌, ◌<◌, ◌≡◌, ◌≢◌, inl, inr, refl, Bool, true, false, not, ◌&&◌, none,
  some, List, [], ◌∷◌, ◌==◌, if◌then◌else◌, map, find, any, contains, count, update_where, Result,
  ok, err, Error, arith, Option-cases, Bool-cases,
}
use willy.Prelude.Counting.{find-none, count-any, count-update, count-delete}
use willy.Ports.{
  PortBinding, PortBindingInput, PortRange, on_port, is_binding, bound_at, patched, other_on_port,
  first_free, suggest_free_port, allocated_host_ports, host_port_free, add_port_binding,
  update_port_binding, remove_port_binding,
}

pub record IsValid (rows : List PortBinding) : Type 0 where
  pub one_binding : (p : ℕ) → count (on_port p) rows ≤ 1
  pub unique_ids : (k : ℕ) → count (is_binding k) rows ≤ 1

-- What the loop finds: the first port that is not taken, or none of its rounds' ports is free.
abbrev pub Found : List ℕ → ℕ → ℕ → Result ℕ → Type 0
Found taken port rounds (ok p) =
    (port ≤ p)
    × (p < port + rounds)
    × (contains p taken ≡ false)
    × ((q : ℕ) → port ≤ q → q < p → contains q taken ≡ true)
Found taken port rounds (err e) = (q : ℕ) → port ≤ q → q < port + rounds → contains q taken ≡ true

first_free-Found :
    (taken : List ℕ) (port rounds : ℕ) → Found taken port rounds (first_free taken port rounds)
unfolding first_free
first_free-Found taken port zero = λ q h k. absurd (omega arith)
first_free-Found taken port (suc rounds) = elim (Bool-cases (contains port taken)) [
  | inl busy ↦
      rw busy
        (later (first_free taken (port + 1) rounds) busy (first_free-Found taken (port + 1) rounds))
  | inr free ↦ rw free (omega arith, omega arith, free, λ q h k. absurd (omega arith))
]
  where
    taken_at : (q : ℕ) → contains port taken ≡ true → q ≡ port → contains q taken ≡ true
    taken_at q busy e = rw e busy

    later :
        (r : Result ℕ)
        → contains port taken ≡ true
        → Found taken (port + 1) rounds r
        → Found taken port (suc rounds) r
    later (ok p) busy (low, high, free, before) = (
      omega arith,
      omega arith,
      free,
      λ q h k. elim (Bool-cases (q == port)) [
        | inl same ↦ taken_at q busy (ground arith)
        | inr differs ↦ before q (ground arith) k
      ],
    )
    later (err e) busy all_busy = λ q h k. elim (Bool-cases (q == port)) [
      | inl same ↦ taken_at q busy (ground arith)
      | inr differs ↦ all_busy q (ground arith) (omega arith)
    ]

contains-count :
    (p : ℕ) (rows : List PortBinding)
    → contains p (map (λ b. b.host_port) rows) ≡ any (on_port p) rows
contains-count p [] = refl
contains-count p (b ∷ rows) = ground (arith, contains-count p rows)

-- The suggestion is the lowest port of the range that no binding of any deployment holds; the
-- conflict is raised exactly when every port of the range is bound.
abbrev pub Suggests : PortRange → List PortBinding → Result ℕ → Type 0
Suggests range rows (ok p) =
    (range.start ≤ p)
    × (p ≤ range.end)
    × (any (on_port p) rows ≡ false)
    × ((q : ℕ) → range.start ≤ q → q < p → any (on_port q) rows ≡ true)
Suggests range rows (err e) =
    (e ≡ Error.conflict) × ((q : ℕ) → range.start ≤ q → q ≤ range.end → any (on_port q) rows ≡ true)

conflict-first_free :
    (taken : List ℕ) (port rounds : ℕ) (e : Error)
    → first_free taken port rounds ≡ err e
    → e ≡ Error.conflict
unfolding first_free
conflict-first_free taken port zero e h = ground arith
conflict-first_free taken port (suc rounds) e h =
    ground (arith, conflict-first_free taken (port + 1) rounds e)

-- `suggestFreePort` on a non-inverted range: the lowest port of the range that no binding holds,
-- or the conflict, raised only when every port of the range is bound.
pub suggest_free_port-Suggests :
    (range : PortRange) (rows : List PortBinding)
    → range.start ≤ range.end
    → Suggests range rows (suggest_free_port range rows)
unfolding suggest_free_port allocated_host_ports
suggest_free_port-Suggests range rows h =
    read (suggest_free_port range rows) refl
      (first_free-Found (map (λ b. b.host_port) rows) range.start (range.end + 1 - range.start))
  where
    read :
        (r : Result ℕ)
        → suggest_free_port range rows ≡ r
        → Found (map (λ b. b.host_port) rows) range.start (range.end + 1 - range.start) r
        → Suggests range rows r
    read (ok p) e (low, high, free, before) = (
      low,
      omega arith,
      rw (← contains-count p rows) free,
      λ q a b. rw (← contains-count q rows) (before q a b),
    )
    read (err c) e busy = (
      conflict-first_free (map (λ b. b.host_port) rows) range.start (range.end + 1 - range.start) c
          e,
      λ q a b. rw (← contains-count q rows) (busy q a (omega arith)),
    )

count-patched :
    (dep k q : ℕ) (patch : PortBindingInput) (rows : List PortBinding)
    → count (on_port q) (update_where (bound_at dep k) (patched patch) rows)
      ≤ count (λ b. on_port q b && not (bound_at dep k b)) rows
        + (if q == patch.host_port then count (is_binding k) rows else 0)
count-patched dep k q patch [] = omega arith
count-patched dep k q patch (b ∷ rows) = ground (arith, count-patched dep k q patch rows)

count-and :
    (p r : PortBinding → Bool) (rows : List PortBinding)
    → count (λ b. p b && r b) rows ≤ count p rows
count-and p r [] = omega arith
count-and p r (b ∷ rows) = ground (arith, count-and p r rows)

abbrev pub kept : List PortBinding → Result (List PortBinding × PortBinding) → List PortBinding
kept rows (ok (after, b)) = after
kept rows (err e) = rows

added-IsValid :
    (b : PortBinding) (rows : List PortBinding)
    → IsValid rows
    → count (is_binding b.id) rows ≡ 0
    → any (on_port b.host_port) rows ≡ false
    → IsValid (b ∷ rows)
added-IsValid b rows v fresh free = record {
  one_binding = λ p. ground (arith, v.one_binding p, count-any (on_port b.host_port) rows free);
  unique_ids = λ k. ground (arith, v.unique_ids k, fresh);
}

-- Adding a binding keeps every host port bound at most once.
pub add_port_binding-IsValid :
    (new_id domain_id : ℕ) (input : PortBindingInput) (rows : List PortBinding)
    → IsValid rows
    → count (is_binding new_id) rows ≡ 0
    → IsValid (kept rows (add_port_binding new_id domain_id input rows))
unfolding add_port_binding
add_port_binding-IsValid new_id domain_id input rows v fresh =
    elim (Bool-cases (not (host_port_free input.host_port none rows))) [
      | inl clash ↦ rw clash v
      | inr free ↦ elim (Bool-cases (any (on_port input.host_port) rows)) [
        | inl taken ↦ rw (free, taken) v
        | inr open_port ↦ rw (free, open_port) (added-IsValid _ rows v fresh open_port)
      ]
    ]

-- Moving a binding keeps every host port bound at most once.
pub update_port_binding-IsValid :
    (domain_id k : ℕ) (patch : PortBindingInput) (rows : List PortBinding)
    → IsValid rows
    → IsValid (kept rows (update_port_binding domain_id k patch rows))
unfolding update_port_binding
update_port_binding-IsValid domain_id k patch rows v =
    elim (Bool-cases (not (host_port_free patch.host_port (some k) rows))) [
      | inl clash ↦ rw clash v
      | inr free ↦ elim (Option-cases (find (bound_at domain_id k) rows)) [
        | inl e ↦ rw (free, e, kept, update_port_binding) v
        | inr (row, e) ↦ elim (Bool-cases (any (other_on_port domain_id k patch.host_port) rows)) [
          | inl taken ↦ rw (free, e, kept, update_port_binding, taken) v
          | inr open_port ↦
              rw (free, e, kept, update_port_binding, open_port)
                (record {
                  one_binding = λ q. ground (
                    arith,
                    count-patched domain_id k q patch rows,
                    v.one_binding q,
                    v.unique_ids k,
                    count-any (other_on_port domain_id k patch.host_port) rows open_port,
                    count-and (on_port q) (λ b. not (bound_at domain_id k b)) rows,
                  );
                  unique_ids = λ j. omega (
                    arith,
                    v.unique_ids j,
                    count-update (bound_at domain_id k) (is_binding j) (patched patch) rows
                        (λ b. refl),
                  );
                })
        ]
      ]
    ]

pub remove_port_binding-IsValid :
    (domain_id k : ℕ) (rows : List PortBinding)
    → IsValid rows
    → IsValid (remove_port_binding domain_id k rows)
unfolding remove_port_binding
remove_port_binding-IsValid domain_id k rows v = record {
  one_binding =
      λ p. omega (arith, v.one_binding p, count-delete (bound_at domain_id k) (on_port p) rows);
  unique_ids =
      λ j. omega (arith, v.unique_ids j, count-delete (bound_at domain_id k) (is_binding j) rows);
}

-- With no request in between, the check turns every clash into the conflict: the UNIQUE column never
-- refuses the insert.
pub add_port_binding-ne-unique_violation :
    (new_id domain_id : ℕ) (input : PortBindingInput) (rows : List PortBinding)
    → add_port_binding new_id domain_id input rows ≢ err Error.unique_violation
unfolding add_port_binding host_port_free
add_port_binding-ne-unique_violation new_id domain_id input rows h =
    elim (Option-cases (find (on_port input.host_port) rows)) [
      | inl e ↦ ground (arith, find-none (on_port input.host_port) rows e)
      | inr (clash, e) ↦ ground arith
    ]
