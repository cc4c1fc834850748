-- ===== src/Traefik/Wildcard.antt =====
-- The hosts that the wildcard of the base domain covers.
use willy.Prelude.{
  ℕ, zero, suc, ◌-◌, ◌≡◌, refl, sym, ap, ◌∙◌, ◌⊎◌, ◌↔◌, inl, inr, true, false, [], ◌∷◌, ◌++◌, leb,
  ltb, length, take, drop, Text, text_eq, text_eq_sound, text_eq_refl, Bool-cases, arith,
  length-append, and-true,
}
use willy.Traefik.{ends_with, covered_by_wildcard, is_label}

take-append : (xs ys : Text) → take (length xs) (xs ++ ys) ≡ xs
take-append [] ys = refl
take-append (x ∷ xs) ys = ap (λ l. x ∷ l) (take-append xs ys)

drop-append : (xs ys : Text) → drop (length xs) (xs ++ ys) ≡ ys
drop-append [] ys = refl
drop-append (x ∷ xs) ys = drop-append xs ys

take-drop : (n : ℕ) (xs : Text) → take n xs ++ drop n xs ≡ xs
take-drop zero xs = refl
take-drop (suc n) [] = refl
take-drop (suc n) (x ∷ xs) = ap (λ l. x ∷ l) (take-drop n xs)

ends_with-append : (xs end : Text) → ends_with (xs ++ end) end ≡ true
unfolding ends_with
ends_with-append xs end =
    let n : length (xs ++ end) - length end ≡ length xs = omega (arith, length-append xs end) in
    let fits : leb (length end) (length (xs ++ end)) ≡ true =
      ground (arith, length-append xs end) in
    rw (fits, n, drop-append xs end) (text_eq_refl end)

ends_with_sound :
    (s end : Text) → ends_with s end ≡ true → s ≡ take (length s - length end) s ++ end
unfolding ends_with
ends_with_sound s end h =
    let (_, same) =
      and-true (leb (length end) (length s)) (text_eq (drop (length s - length end) s) end) h in
    sym (take-drop (length s - length end) s)
    ∙ ap (λ l. take (length s - length end) s ++ l)
        (text_eq_sound (drop (length s - length end) s) end same)

-- The base domain itself, or one label, without a dot, before it.
abbrev pub IsCovered : Text → Text → Type 0
IsCovered host base =
    (host ≡ base) ⊎ ((label : Text) × (is_label label ≡ true) × (host ≡ label ++ 46 ∷ base))

-- With a base domain, the wildcard covers exactly that domain and its names of one more label.
pub covered_by_wildcard_iff :
    (host base : Text)
    → ltb 0 (length base) ≡ true
    → (covered_by_wildcard host base ≡ true) ↔ IsCovered host base
unfolding covered_by_wildcard
covered_by_wildcard_iff host base some_base =
    let based : leb (length base) 0 ≡ false = ground arith in (sound based, complete based)
  where
    sound : leb (length base) 0 ≡ false → covered_by_wildcard host base ≡ true → IsCovered host base
    sound based h = elim (Bool-cases (text_eq host base)) [
      | inl y ↦ inl (text_eq_sound host base y)
      | inr n ↦ elim (Bool-cases (ends_with host (46 ∷ base))) [
        | inr m ↦ let h' : false ≡ true = rw (based, n, m) at h in absurd (cc h')
        | inl m ↦
            let h' : is_label (take (length host - length base - 1) host) ≡ true =
              rw (based, n, m) at h in
            let e : length host - length (46 ∷ base) ≡ length host - length base - 1 =
              omega arith in
            inr (
              take (length host - length base - 1) host,
              h',
              rw (← e) (ends_with_sound host (46 ∷ base) m),
            )
      ]
    ]

    complete :
        leb (length base) 0 ≡ false → IsCovered host base → covered_by_wildcard host base ≡ true
    complete based (inl e) = rw (e, based, text_eq_refl base) refl
    complete based (inr (label, is_l, e)) = elim (Bool-cases (text_eq host base)) [
      | inl y ↦ rw (based, y) refl
      | inr n ↦
          let m : ends_with host (46 ∷ base) ≡ true = rw e (ends_with-append label (46 ∷ base)) in
          let k : length host - length base - 1 ≡ length label =
            rw e (omega (arith, length-append label (46 ∷ base))) in
          let t : take (length host - length base - 1) host ≡ label =
            rw k (rw e (take-append label (46 ∷ base))) in
          rw (based, n, m, t) is_l
    ]
