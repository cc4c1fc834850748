-- ===== src/Prelude/Decimal.antt =====
-- Decimal print and reading, white space and the splits of a text, with their round trips.
use Prim.Native.Nat.{ℕ, zero, suc, ◌+◌, ◌-◌, ◌*◌, ◌/◌, ◌%◌, ◌≤◌, ◌<◌}
use mathlib.Core.Path.{◌≡◌, refl}
use mathlib.Core.Logic.{inl, inr, ◌≢◌}
use mathlib.Core.Bool.{Bool, true, false, ◌&&◌, ◌||◌}
use mathlib.Core.List.{List, [], ◌∷◌, ◌++◌}
use native.Mathlib.Omega.{arith}
use willy.Prelude.Tests.{◌==◌, leb, ltb, if◌then◌else◌, Bool-cases}
use willy.Prelude.Lists.{all, All, All-append}
use willy.Prelude.Texts.{Text, split_cons}

abbrev pub is_digit : ℕ → Bool
is_digit c = leb b'0' c && leb c b'9'

-- `/^\d+$/`
unfoldable pub is_digits : Text → Bool
is_digits [] = false
is_digits (c ∷ s) = all is_digit (c ∷ s)

abbrev pub value_from : ℕ → Text → ℕ
value_from n [] = n
value_from n (c ∷ s) = value_from (n * 10 + (c - b'0')) s

-- `Number(s)` and `Number.parseInt(s, 10)` on decimal digits.
unfoldable pub decimal : Text → ℕ
decimal s = value_from 0 s

digits_from : ℕ → ℕ → Text
digits_from zero n = []
digits_from (suc fuel) n =
    let more = digits_from fuel (n / 10) ++ (b'0' + n % 10) ∷ [] in
    if ltb n 10 then (b'0' + n) ∷ [] else more

-- `String(n)`; a number has fewer digits than its value plus one.
unfoldable pub to_decimal : ℕ → Text
unfolding digits_from
to_decimal n = digits_from (suc n) n

value_from-append : (s t : Text) (n : ℕ) → value_from n (s ++ t) ≡ value_from (value_from n s) t
value_from-append [] t n = refl
value_from-append (c ∷ s) t n = value_from-append s t (n * 10 + (c - b'0'))

digits_from-value : (fuel n : ℕ) → n < fuel → value_from 0 (digits_from fuel n) ≡ n
unfolding digits_from
digits_from-value zero n h = absurd (omega arith)
digits_from-value (suc fuel) n h = elim (Bool-cases (ltb n 10)) [
  | inl one ↦ rw one (omega arith)
  | inr more ↦
      rw (more, value_from-append (digits_from fuel (n / 10)) ((b'0' + n % 10) ∷ []) 0)
        (omega (arith, digits_from-value fuel (n / 10) (ground arith)))
]

pub decimal-to_decimal : (n : ℕ) → decimal (to_decimal n) ≡ n
unfolding decimal to_decimal
decimal-to_decimal n = digits_from-value (suc n) n (omega arith)

abbrev pub IsDigit : ℕ → Type 0
IsDigit c = (b'0' ≤ c) × (c ≤ b'9')

digits_from-IsDigit : (fuel n : ℕ) → All IsDigit (digits_from fuel n)
unfolding digits_from
digits_from-IsDigit zero n = tt
digits_from-IsDigit (suc fuel) n = elim (Bool-cases (ltb n 10)) [
  | inl one ↦ rw one (ground arith)
  | inr more ↦ rw more (
      All-append IsDigit (digits_from fuel (n / 10)) ((b'0' + n % 10) ∷ [])
        (digits_from-IsDigit fuel (n / 10)) (omega arith))
]

pub to_decimal-IsDigit : (n : ℕ) → All IsDigit (to_decimal n)
unfolding to_decimal
to_decimal-IsDigit n = digits_from-IsDigit (suc n) n

append-ne-nil {ℓ} : {A : Type ℓ} (s : List A) (c : A) → s ++ c ∷ [] ≢ []
append-ne-nil [] c h = cc
append-ne-nil (d ∷ s) c h = cc

pub to_decimal-ne-nil : (n : ℕ) → to_decimal n ≢ []
unfolding to_decimal digits_from
to_decimal-ne-nil n = elim (Bool-cases (ltb n 10)) [
  | inl one ↦ rw one (λ h. cc)
  | inr more ↦ rw more (append-ne-nil (digits_from n (n / 10)) (b'0' + n % 10))
]

all-IsDigit : (s : Text) → All IsDigit s → all is_digit s ≡ true
all-IsDigit [] h = refl
all-IsDigit (c ∷ s) (h, hs) = ground (arith, all-IsDigit s hs)

is_digits-All : (s : Text) → s ≢ [] → All IsDigit s → is_digits s ≡ true
unfolding is_digits
is_digits-All [] n h = absurd (n refl)
is_digits-All (c ∷ s) n h = all-IsDigit (c ∷ s) h

pub is_digits-to_decimal : (n : ℕ) → is_digits (to_decimal n) ≡ true
is_digits-to_decimal n = is_digits-All (to_decimal n) (to_decimal-ne-nil n) (to_decimal-IsDigit n)

-- The white space of `trim` and of `\s`.
unfoldable pub is_space : ℕ → Bool
is_space c =
    (leb 9 c && leb c 13)
    || c == 32
    || c == 160
    || c == 5760
    || (leb 8192 c && leb c 8202)
    || c == 8232
    || c == 8233
    || c == 8239
    || c == 8287
    || c == 12288
    || c == 65279

unfoldable pub trim_start : Text → Text
trim_start [] = []
trim_start (c ∷ s) = let rest = trim_start s in if is_space c then rest else c ∷ s

abbrev pub cons_unless_blank : ℕ → Text → Text
cons_unless_blank c [] = if is_space c then [] else c ∷ []
cons_unless_blank c (d ∷ s) = c ∷ d ∷ s

unfoldable pub trim_end : Text → Text
trim_end [] = []
trim_end (c ∷ s) = cons_unless_blank c (trim_end s)

unfoldable pub trim : Text → Text
unfolding trim_start trim_end
trim s = trim_end (trim_start s)

-- `split(/\s+/)`; the flag says that the last unit was white space.
unfoldable pub split_spaces_from : Bool → Text → List Text
unfolding split_cons
split_spaces_from gap [] = [] ∷ []
split_spaces_from gap (c ∷ s) =
    let rest = split_spaces_from (is_space c) s in
    if is_space c then (if gap then rest else [] ∷ rest) else split_cons c rest

unfoldable pub split_spaces : Text → List Text
unfolding split_spaces_from is_space
split_spaces s = split_spaces_from false s
