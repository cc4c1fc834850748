-- ===== src/Prelude/Counting.antt =====
-- How often a test holds on the rows of a table, under the statements that change them.
use Prim.Native.Nat.{◌+◌, ◌≤◌}
use mathlib.Core.Path.{◌≡◌, ap, refl}
use mathlib.Core.Option.{none, some}
use willy.Prelude.Tests.{Bool-cases}
use mathlib.Core.Bool.{Bool, true, false, ◌&&◌, not}
use mathlib.Core.Logic.{inl, inr}
use mathlib.Core.List.{List, [], ◌∷◌}
use native.Mathlib.Omega.{arith}
use willy.Prelude.Lists.{find, count, any, Elem, update_where, delete_where}

module _ {A : Type 0} where
  pub count-elem :
      (p : A → Bool) (d : A) (rows : List A) → Elem d rows → p d ≡ true → 1 ≤ count p rows
  count-elem p d [] here h = absurd here
  count-elem p d (x ∷ rows) (inl e) h = ground (arith, ap p e)
  count-elem p d (x ∷ rows) (inr later) h = ground (arith, count-elem p d rows later h)

  pub count-split :
      (p q : A → Bool) (rows : List A)
      → count (λ d. p d && q d) rows + count (λ d. p d && not (q d)) rows ≡ count p rows
  count-split p q [] = omega arith
  count-split p q (d ∷ rows) = ground (arith, count-split p q rows)

  -- Where one row at most passes a test, and it fails another, no row passes both.
  pub unique-other :
      (p q : A → Bool) (d : A) (rows : List A)
      → count p rows ≤ 1
      → Elem d rows
      → p d ≡ true
      → q d ≡ false
      → count (λ x. p x && q x) rows ≡ 0
  unique-other p q d rows unique here same fails =
      let passes : (p d && not (q d)) ≡ true = rw (same, fails) in
      omega (arith, count-split p q rows, count-elem (λ x. p x && not (q x)) d rows here passes)

  pub any-elem :
      (p : A → Bool) (d : A) (rows : List A) → Elem d rows → p d ≡ true → any p rows ≡ true
  any-elem p d [] here h = absurd here
  any-elem p d (x ∷ rows) (inl e) h = ground (arith, ap p e)
  any-elem p d (x ∷ rows) (inr later) h = ground (arith, any-elem p d rows later h)

  pub count-any : (p : A → Bool) (rows : List A) → any p rows ≡ false → count p rows ≡ 0
  count-any p [] h = omega arith
  count-any p (d ∷ rows) h = ground (arith, count-any p rows)

  pub any-count : (p : A → Bool) (rows : List A) → 1 ≤ count p rows → any p rows ≡ true
  any-count p [] h = absurd (omega arith)
  any-count p (d ∷ rows) h = ground (arith, any-count p rows)

  -- A statement that keeps what a test reads keeps the number of rows that pass it.
  pub count-update :
      (q p : A → Bool) (f : A → A) (rows : List A)
      → ((d : A) → p (f d) ≡ p d)
      → count p (update_where q f rows) ≡ count p rows
  count-update q p f [] h = omega arith
  count-update q p f (d ∷ rows) h = ground (arith, count-update q p f rows h, h d)

  pub count-delete :
      (q p : A → Bool) (rows : List A)
      → count p (delete_where q rows) + count (λ d. q d && p d) rows ≡ count p rows
  count-delete q p [] = omega arith
  count-delete q p (d ∷ rows) = ground (arith, count-delete q p rows)

  pub find-elem :
      (p : A → Bool) (rows : List A) (b : A) → find p rows ≡ some b → (p b ≡ true) × Elem b rows
  find-elem p [] b h = absurd (ground arith)
  find-elem p (x ∷ rows) b h = elim (Bool-cases (p x)) [
    | inl yes_here ↦ let e : x ≡ b = ground arith in (rw (← e) yes_here, inl e)
    | inr not_here ↦
        let (passes, later) = find-elem p rows b (rw not_here at h) in (passes, inr later)
  ]

  pub find-none : (p : A → Bool) (rows : List A) → find p rows ≡ none → any p rows ≡ false
  find-none p [] h = refl
  find-none p (x ∷ rows) h = ground (arith, find-none p rows)
