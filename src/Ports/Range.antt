-- ===== src/Ports/Range.antt =====
-- backend/src/config/port-range.ts: the range of host ports that the operator writes, "START-END".
use willy.Prelude.{
  ℕ, ◌≤◌, ◌≡◌, ◌↔◌, refl, Bool, true, ◌&&◌, ◌||◌, Option, none, some, [], ◌∷◌, Text, is_digits,
  decimal, trim, split, Result, ok, err, Error, if◌then◌else◌, ltb, leb, arith,
}
use willy.Ports.{PortRange}

abbrev pub min_bindable_port : ℕ
min_bindable_port = 1024

abbrev pub max_port : ℕ
max_port = 65535

-- The match of `/^(\d+)-(\d+)$/`: its two groups.
unfoldable pub match_range : Text → Option (Text × Text)
match_range s = elim (split 45 s) [
  | [] ↦ none
  | a ∷ rest ↦ elim rest [
    | [] ↦ none
    | b ∷ more ↦ elim more [
      | [] ↦ if is_digits a && is_digits b then some (a, b) else none
      | c ∷ cs ↦ none
    ]
  ]
]

unfoldable pub check_range : ℕ → ℕ → Result (Option PortRange)
check_range start end =
    if ltb end start
    then err Error.config_error
    else if ltb start min_bindable_port || ltb max_port end
    then err Error.config_error
    else ok (some (record { start = start; end = end }))

abbrev pub check_match : Option (Text × Text) → Result (Option PortRange)
check_match none = err Error.config_error
check_match (some (a, b)) = check_range (decimal a) (decimal b)

unfoldable pub parse_port_range : Option Text → Result (Option PortRange)
unfolding match_range check_range
parse_port_range none = ok none
parse_port_range (some value) = elim (trim value) [
  | [] ↦ ok none
  | c ∷ s ↦ check_match (match_range (c ∷ s))
]

unfoldable pub range_contains : PortRange → PortRange → Bool
range_contains outer inner = leb outer.start inner.start && leb inner.end outer.end

-- The ports that the feature may hand out.
abbrev pub InBounds : Result (Option PortRange) → Type 0
InBounds (ok (some r)) = (1024 ≤ r.start) × (r.start ≤ r.end) × (r.end ≤ 65535)
InBounds (ok none) = Unit
InBounds (err e) = e ≡ Error.config_error

check_range-InBounds : (a b : ℕ) → InBounds (check_range a b)
unfolding check_range
check_range-InBounds a b = ground arith

check_match-InBounds : (m : Option (Text × Text)) → InBounds (check_match m)
check_match-InBounds none = refl
check_match-InBounds (some (a, b)) = check_range-InBounds (decimal a) (decimal b)

trimmed-InBounds :
    (s : Text) → InBounds (elim s [ [] ↦ ok none | c ∷ t ↦ check_match (match_range (c ∷ t)) ])
trimmed-InBounds [] = tt
trimmed-InBounds (c ∷ t) = check_match-InBounds (match_range (c ∷ t))

-- Whatever the text, a parsed range is not inverted and holds unprivileged ports only, and the one
-- exception is that of the configuration.
pub parse_port_range-InBounds : (value : Option Text) → InBounds (parse_port_range value)
unfolding parse_port_range
parse_port_range-InBounds none = tt
parse_port_range-InBounds (some value) = trimmed-InBounds (trim value)

-- Containment of ranges means containment of their ports, for an inner range that is not inverted.
pub range_contains_iff :
    (outer inner : PortRange)
    → inner.start ≤ inner.end
    → (range_contains outer inner ≡ true)
      ↔ ((p : ℕ) → inner.start ≤ p → p ≤ inner.end → (outer.start ≤ p) × (p ≤ outer.end))
unfolding range_contains
range_contains_iff outer inner h = (
  λ e p a b. ground arith,
  λ f.
      let (x, y) = f inner.start (omega arith) h in
      let (z, u) = f inner.end h (omega arith) in ground arith,
)
