-- ===== src/Cron/Fields.antt =====
-- The fields of a built expression are read back.
use willy.Prelude.{
  ℕ, ◌≤◌, ◌<◌, ◌≡◌, ◌≢◌, refl, false, some, List, [], ◌∷◌, ◌++◌, ltb, map, contains, Text, text_eq,
  split, join, sort_by, sort_insert, to_decimal, is_space, arith, All, All-append,
  decimal-to_decimal, is_digits-to_decimal, to_decimal-IsDigit, to_decimal-ne-nil, IsDigit,
  append_assoc, append-nil, ◌∙◌,
}
use willy.Prelude.Splits.{Lacks, HasNoSpace, IsWord, split-join}
use willy.Cron.{
  star, int_field, weekday_num, set_add, add_part, add_parts, nonempty_sorted, parse_weekdays,
  weekday_list, is_star, is_blank,
}

pub int_field-to_decimal :
    (n min max : ℕ) → min ≤ n → n ≤ max → int_field (to_decimal n) min max ≡ some n
unfolding int_field
int_field-to_decimal n min max h k =
    rw (is_digits-to_decimal n, decimal-to_decimal n) (ground arith)

digit-space : (c : ℕ) → IsDigit c → is_space c ≡ false
unfolding is_space
digit-space c h = ground arith

digits-HasNoSpace : (s : Text) → All IsDigit s → HasNoSpace s
digits-HasNoSpace [] h = tt
digits-HasNoSpace (c ∷ s) (h, hs) = (digit-space c h, digits-HasNoSpace s hs)

digits-Lacks : (sep : ℕ) (s : Text) → ¬ IsDigit sep → All IsDigit s → Lacks sep s
digits-Lacks sep [] n h = tt
digits-Lacks sep (c ∷ s) n (h, hs) = ((λ e. n (rw (← e) h)), digits-Lacks sep s n hs)

pub to_decimal-IsWord : (n : ℕ) → IsWord (to_decimal n)
to_decimal-IsWord n = (to_decimal-ne-nil n, digits-HasNoSpace (to_decimal n) (to_decimal-IsDigit n))

pub star-IsWord : IsWord star
unfolding is_space
star-IsWord = ((λ e. cc), (refl, tt))

first_digit-star : (s : Text) → s ≢ [] → All IsDigit s → is_star s ≡ false
unfolding text_eq
first_digit-star [] n h = absurd (n refl)
first_digit-star (c ∷ s) n (h, hs) = ground arith

pub is_star-to_decimal : (n : ℕ) → is_star (to_decimal n) ≡ false
is_star-to_decimal n = first_digit-star (to_decimal n) (to_decimal-ne-nil n) (to_decimal-IsDigit n)

pub is_blank-ne-nil : (s : Text) → s ≢ [] → is_blank s ≡ false
is_blank-ne-nil [] h = absurd (h refl)
is_blank-ne-nil (c ∷ s) h = refl

-- Weekday numbers in ascending order, without repetition, as the builder keeps them.
abbrev pub IsAscending : List ℕ → Type 0
IsAscending [] = Unit {0}
IsAscending (d ∷ []) = d < 7
IsAscending (d ∷ e ∷ ds) = (d < e) × IsAscending (e ∷ ds)

pub head-lt-seven : (d : ℕ) (ds : List ℕ) → IsAscending (d ∷ ds) → d < 7
head-lt-seven d [] h = h
head-lt-seven d (e ∷ ds) (h, hs) = omega (arith, head-lt-seven e ds hs)

sort_insert-ascending : (d : ℕ) (ds : List ℕ) → IsAscending (d ∷ ds) → sort_insert ltb d ds ≡ d ∷ ds
sort_insert-ascending d [] h = refl
sort_insert-ascending d (e ∷ ds) (h, hs) = ground arith

tail-IsAscending : (d : ℕ) (ds : List ℕ) → IsAscending (d ∷ ds) → IsAscending ds
tail-IsAscending d [] h = tt
tail-IsAscending d (e ∷ ds) (h, hs) = hs

sort_by-ascending : (ds : List ℕ) → IsAscending ds → sort_by ltb ds ≡ ds
unfolding sort_by
sort_by-ascending [] h = refl
sort_by-ascending (d ∷ ds) h =
    rw (sort_by-ascending ds (tail-IsAscending d ds h)) (sort_insert-ascending d ds h)

weekday_num-to_decimal : (d : ℕ) → d < 7 → weekday_num (to_decimal d) ≡ some d
unfolding weekday_num
weekday_num-to_decimal d h = rw (is_digits-to_decimal d, decimal-to_decimal d) (ground arith)

contains-below : (d : ℕ) (out : List ℕ) → All (λ x. x < d) out → contains d out ≡ false
contains-below d [] h = refl
contains-below d (x ∷ out) (h, hs) = ground (arith, contains-below d out hs)

below-append :
    (d e : ℕ) (out : List ℕ) → d < e → All (λ x. x < d) out → All (λ x. x < e) (out ++ d ∷ [])
below-append d e [] h hs = (h, tt)
below-append d e (x ∷ out) h (p, ps) = (omega arith, below-append d e out h ps)

split-number : (sep n : ℕ) → ¬ IsDigit sep → split sep (to_decimal n) ≡ to_decimal n ∷ []
unfolding join
split-number sep n h =
    split-join sep (to_decimal n) [] (digits-Lacks sep (to_decimal n) h (to_decimal-IsDigit n), tt)

add_part-number :
    (d : ℕ) (out : List ℕ)
    → d < 7
    → All (λ x. x < d) out
    → add_part (split b'-' (to_decimal d)) out ≡ some (out ++ d ∷ [])
unfolding add_part
add_part-number d out h below =
    rw (split-number b'-' d (λ e. omega arith), add_part, weekday_num-to_decimal d h, set_add)
      (rw (contains-below d out below))

abbrev BelowHead : List ℕ → List ℕ → Type 0
BelowHead [] out = Unit {0}
BelowHead (d ∷ ds) out = All (λ x. x < d) out

-- The set collects ascending numbers in their order.
add_parts-numbers :
    (ds out : List ℕ)
    → IsAscending ds
    → BelowHead ds out
    → add_parts (map to_decimal ds) out ≡ some (out ++ ds)
unfolding add_parts
add_parts-numbers [] out h b = rw append-nil
add_parts-numbers (d ∷ []) out h b = rw (add_part-number d out h b, add_parts) refl
add_parts-numbers (d ∷ e ∷ ds) out (h, hs) b =
    rw (add_part-number d out (head-lt-seven d (e ∷ ds) (h, hs)) b, add_parts)
      (add_parts-numbers (e ∷ ds) (out ++ d ∷ []) hs (below-append d e out h b) ∙ rw append_assoc)

numbers-Lacks : (ds : List ℕ) → All (Lacks b',') (map to_decimal ds)
numbers-Lacks [] = tt
numbers-Lacks (d ∷ ds) =
    (digits-Lacks b',' (to_decimal d) (λ h. omega arith) (to_decimal-IsDigit d), numbers-Lacks ds)

pub parse_weekdays-weekday_list :
    (d : ℕ) (ds : List ℕ)
    → IsAscending (d ∷ ds)
    → parse_weekdays (weekday_list (d ∷ ds)) ≡ some (d ∷ ds)
unfolding parse_weekdays weekday_list
parse_weekdays-weekday_list d ds h = rw (
  sort_by-ascending (d ∷ ds) h,
  split-join b',' (to_decimal d) (map to_decimal ds) (numbers-Lacks (d ∷ ds)),
  add_parts-numbers (d ∷ ds) [] h tt,
  nonempty_sorted,
  sort_by-ascending (d ∷ ds) h,
)

join-HasNoSpace :
    (p : Text) (ps : List Text) → All HasNoSpace (p ∷ ps) → HasNoSpace (join (b',' ∷ []) (p ∷ ps))
unfolding join is_space
join-HasNoSpace p [] (h, _) = h
join-HasNoSpace p (q ∷ ps) (h, hs) =
    All-append (λ c. is_space c ≡ false) p (b',' ∷ join (b',' ∷ []) (q ∷ ps)) h
      (refl, join-HasNoSpace q ps hs)

numbers-HasNoSpace : (ds : List ℕ) → All HasNoSpace (map to_decimal ds)
numbers-HasNoSpace [] = tt
numbers-HasNoSpace (d ∷ ds) =
    (digits-HasNoSpace (to_decimal d) (to_decimal-IsDigit d), numbers-HasNoSpace ds)

abbrev StartsDigit : Text → Type 0
StartsDigit [] = ⊥
StartsDigit (c ∷ s) = IsDigit c

starts-append : (p rest : Text) → StartsDigit p → StartsDigit (p ++ rest)
starts-append [] rest h = absurd h
starts-append (c ∷ p) rest h = h

starts-number : (n : ℕ) → StartsDigit (to_decimal n)
starts-number n = first (to_decimal n) (to_decimal-ne-nil n) (to_decimal-IsDigit n)
  where
    first : (s : Text) → s ≢ [] → All IsDigit s → StartsDigit s
    first [] k h = k refl
    first (c ∷ s) k (h, hs) = h

starts-join : (p : Text) (ps : List Text) → StartsDigit p → StartsDigit (join (b',' ∷ []) (p ∷ ps))
unfolding join
starts-join p [] h = h
starts-join p (q ∷ ps) h = starts-append p (b',' ∷ join (b',' ∷ []) (q ∷ ps)) h

starts-ne-nil : (s : Text) → StartsDigit s → s ≢ []
starts-ne-nil [] h = absurd h
starts-ne-nil (c ∷ s) h = λ e. cc

starts-star : (s : Text) → StartsDigit s → is_star s ≡ false
unfolding text_eq
starts-star [] h = absurd h
starts-star (c ∷ s) h = ground arith

weekday_list_starts :
    (d : ℕ) (ds : List ℕ) → IsAscending (d ∷ ds) → StartsDigit (weekday_list (d ∷ ds))
unfolding weekday_list
weekday_list_starts d ds h =
    rw (sort_by-ascending (d ∷ ds) h)
      (starts-join (to_decimal d) (map to_decimal ds) (starts-number d))

pub is_star-weekday_list :
    (d : ℕ) (ds : List ℕ) → IsAscending (d ∷ ds) → is_star (weekday_list (d ∷ ds)) ≡ false
is_star-weekday_list d ds h = starts-star _ (weekday_list_starts d ds h)

pub weekday_list-IsWord :
    (d : ℕ) (ds : List ℕ) → IsAscending (d ∷ ds) → IsWord (weekday_list (d ∷ ds))
unfolding weekday_list
weekday_list-IsWord d ds h = (
  starts-ne-nil _ (weekday_list_starts d ds h),
  rw (sort_by-ascending (d ∷ ds) h)
      (join-HasNoSpace (to_decimal d) (map to_decimal ds) (numbers-HasNoSpace (d ∷ ds))),
)
