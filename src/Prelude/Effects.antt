-- ===== src/Prelude/Effects.antt =====
-- A computation that reads a state, may write it, and may throw: what was written before a throw stays
-- written.
use mathlib.Core.Bool.{Bool, true, false}
use mathlib.Core.Logic.{◌⊎◌, inl, inr}
use mathlib.Core.Path.{◌≡◌, refl}
use willy.Prelude.Tests.{Result, ok, err, Error}

abbrev pub Run : Type 0 → Type 0 → Type 0
Run S A = S → Result A × S

module _ {S : Type 0} where
  abbrev pub pass_on : {A B : Type 0} → (A → Run S B) → Result A × S → Result B × S
  pass_on f (ok a, w) = f a w
  pass_on f (err e, w) = (err e, w)

  infixl 5 ◌>>=◌ ◌>>◌
  abbrev pub ◌>>=◌ : {A B : Type 0} → Run S A → (A → Run S B) → Run S B
  (m >>= f) w = pass_on f (m w)

  abbrev pub ◌>>◌ : {A B : Type 0} → Run S A → Run S B → Run S B
  m >> k = m >>= λ _. k

  abbrev pub pure : {A : Type 0} → A → Run S A
  pure a w = (ok a, w)

  abbrev pub throw : {A : Type 0} → Error → Run S A
  throw e w = (err e, w)

  abbrev pub get : Run S S
  get w = (ok w, w)

  abbrev pub modify : (S → S) → Run S (Unit {0})
  modify f w = (ok tt, f w)

  -- `try … catch`
  abbrev pub handle : {A : Type 0} → (Error → Run S A) → Result A × S → Result A × S
  handle h (ok a, w) = (ok a, w)
  handle h (err e, w) = h e w

  abbrev pub try_catch : {A : Type 0} → Run S A → (Error → Run S A) → Run S A
  try_catch m h w = handle h (m w)

  abbrev pub throw_if : Bool → Error → Run S (Unit {0})
  throw_if true e = throw e
  throw_if false e = pure tt

  abbrev pub from_result : {A : Type 0} → Result A → Run S A
  from_result r w = (r, w)

  -- A sequence that returns has a first step that returns.
  pub bind-ok :
      {A B : Type 0} (m : Run S A) (f : A → Run S B) (w : S) (b : B)
      → ((m >>= f) w).0 ≡ ok b
      → (a : A) × (after : S) × (m w ≡ (ok a, after)) × ((f a after).0 ≡ ok b)
  bind-ok {A} {B} m f w b h = go (m w) refl h
    where
      go :
          (r : Result A × S)
          → m w ≡ r
          → (pass_on f r).0 ≡ ok b
          → (a : A) × (after : S) × (m w ≡ (ok a, after)) × ((f a after).0 ≡ ok b)
      go (ok a, after) e h = (a, after, e, h)
      go (err x, after) e h = absurd (cc h)

  -- After a step that returns comes the next one.
  pub then-ok :
      {A B : Type 0} (m : Run S A) (k : Run S B) (w : S) (a : A)
      → (m w).0 ≡ ok a
      → (m >> k) w ≡ k (m w).1
  then-ok {A} {B} m k w a e = go (m w) e
    where
      go : (r : Result A × S) → r.0 ≡ ok a → pass_on (λ _. k) r ≡ k r.1
      go (ok b, after) h = refl
      go (err x, after) h = absurd (cc h)

pub Result-cases :
    {A : Type 0} (r : Result A) → ((a : A) × (r ≡ ok a)) ⊎ ((e : Error) × (r ≡ err e))
Result-cases (ok a) = inl (a, refl)
Result-cases (err e) = inr (e, refl)
