-- ===== src/Ports/Tests.antt =====
-- The host ports on a concrete table, and instances of the theorems.
use willy.Prelude.{
  ℕ, codes, trim, split, is_digits, decimal, is_space, ◌≡◌, refl, none, some, List, [], ◌∷◌, ok,
  arith,
}
use willy.Ports.{PortBinding, PortBindingInput, PortRange, suggest_free_port}
use willy.Ports.Range.{
  InBounds, check_range, match_range, parse_port_range, parse_port_range-InBounds,
}
use willy.Ports.Bindings.{IsValid, Suggests, suggest_free_port-Suggests}

abbrev first_binding : PortBinding
first_binding = record {
  id = 1;
  domain_id = 5;
  host_port = 20000;
  target_service = none;
  target_port = some 80;
}

abbrev table : List PortBinding
table = first_binding ∷ record first_binding { id = 2; host_port = 20002 } ∷ []

abbrev small_range : PortRange
small_range = record { start = 20000; end = 20002 }

abbrev wish : ℕ → PortBindingInput
wish p = record { host_port = p; target_service = none; target_port = none }

suggested : suggest_free_port small_range table ≡ ok 20001
unfolding suggest_free_port
suggested = refl

suggest_free_port-Suggests_example :
    Suggests small_range table (suggest_free_port small_range table)
suggest_free_port-Suggests_example = suggest_free_port-Suggests small_range table (omega arith)

table-IsValid : IsValid table
table-IsValid = record { one_binding = λ p. ground arith; unique_ids = λ k. ground arith }

parse_port_range-InBounds_example : InBounds (parse_port_range (some (codes " 20000-20099 ")))
parse_port_range-InBounds_example = parse_port_range-InBounds (some (codes " 20000-20099 "))

parsed : parse_port_range (some (codes " 20000-20002 ")) ≡ ok (some small_range)
unfolding parse_port_range check_range match_range trim split is_digits decimal is_space
parsed = refl
