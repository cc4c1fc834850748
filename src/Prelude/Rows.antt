-- ===== src/Prelude/Rows.antt =====
-- Membership in the tables that a statement leaves.
use mathlib.Core.Path.{◌≡◌, ap, refl, sym}
use mathlib.Core.Bool.{Bool, true, false}
use mathlib.Core.Logic.{inl, inr}
use mathlib.Core.List.{List, [], ◌∷◌, map}
use willy.Prelude.Tests.{Bool-cases, ◌==◌, if◌then◌else◌}
use Prim.Native.Nat.{ℕ}
use native.Mathlib.Omega.{arith}
use willy.Prelude.Lists.{filter, contains, Elem, update_where, delete_where}

-- The rows that a `delete … where` leaves.
module _ {A : Type 0} (p : A → Bool) where
  pub delete-keeps : (a : A) (xs : List A) → Elem a xs → p a ≡ false → Elem a (delete_where p xs)
  delete-keeps a [] m h = absurd m
  delete-keeps a (x ∷ xs) (inl e) h = elim (Bool-cases (p x)) [ inl y ↦ cc | inr n ↦ rw n (inl e) ]
  delete-keeps a (x ∷ xs) (inr m) h = elim (Bool-cases (p x)) [
    | inl y ↦ rw y (delete-keeps a xs m h)
    | inr n ↦ rw n (inr (delete-keeps a xs m h))
  ]

  pub delete-elem : (a : A) (xs : List A) → Elem a (delete_where p xs) → Elem a xs × (p a ≡ false)
  delete-elem a [] m = absurd m
  delete-elem a (x ∷ xs) m = go (λ h. delete-elem a xs h) (p x) refl m
    where
      go :
          (Elem a (delete_where p xs) → Elem a xs × (p a ≡ false))
          → (b : Bool) → p x ≡ b
          → Elem a (if b then delete_where p xs else x ∷ delete_where p xs)
          → Elem a (x ∷ xs) × (p a ≡ false)
      go ih true e h = let (m', n) = ih h in (inr m', n)
      go ih false e (inl y) = (inl y, cc)
      go ih false e (inr h) = let (m', n) = ih h in (inr m', n)

  pub filter-elem : (a : A) (xs : List A) → Elem a xs → p a ≡ true → Elem a (filter p xs)
  filter-elem a [] m h = absurd m
  filter-elem a (x ∷ xs) (inl e) h = elim (Bool-cases (p x)) [ inl y ↦ rw y (inl e) | inr n ↦ cc ]
  filter-elem a (x ∷ xs) (inr m) h = elim (Bool-cases (p x)) [
    | inl y ↦ rw y (inr (filter-elem a xs m h))
    | inr n ↦ rw n (filter-elem a xs m h)
  ]

  pub elem-filter : (a : A) (xs : List A) → Elem a (filter p xs) → Elem a xs × (p a ≡ true)
  elem-filter a [] m = absurd m
  elem-filter a (x ∷ xs) m = go (λ h. elem-filter a xs h) (p x) refl m
    where
      go :
          (Elem a (filter p xs) → Elem a xs × (p a ≡ true))
          → (b : Bool) → p x ≡ b
          → Elem a (if b then x ∷ filter p xs else filter p xs)
          → Elem a (x ∷ xs) × (p a ≡ true)
      go ih true e (inl y) = (inl y, cc)
      go ih true e (inr h) = let (m', n) = ih h in (inr m', n)
      go ih false e h = let (m', n) = ih h in (inr m', n)

-- The rows of an updated table, and the rows that `p` does not touch.
module _ {A : Type 0} (p : A → Bool) (f : A → A) where
  pub update-elem :
      (a : A) (xs : List A)
      → Elem a (update_where p f xs)
      → (x : A) × Elem x xs × (a ≡ (if p x then f x else x))
  update-elem a [] m = absurd m
  update-elem a (x ∷ xs) (inl e) = (x, inl refl, sym e)
  update-elem a (x ∷ xs) (inr m) = let (y, m', e) = update-elem a xs m in (y, inr m', e)

module _ {A B : Type 0} (f : A → B) where
  pub elem-map : (b : B) (xs : List A) → Elem b (map f xs) → (a : A) × Elem a xs × (f a ≡ b)
  elem-map b [] m = absurd m
  elem-map b (x ∷ xs) (inl e) = (x, inl refl, e)
  elem-map b (x ∷ xs) (inr m) = let (a, m', e) = elem-map b xs m in (a, inr m', e)

  pub map-elem : (a : A) (xs : List A) → Elem a xs → Elem (f a) (map f xs)
  map-elem a [] m = absurd m
  map-elem a (x ∷ xs) (inl e) = inl (ap f e)
  map-elem a (x ∷ xs) (inr m) = inr (map-elem a xs m)

-- `contains` decides membership.
pub contains-Elem : (a : ℕ) (xs : List ℕ) → contains a xs ≡ true → Elem a xs
contains-Elem a [] h = absurd (cc h)
contains-Elem a (x ∷ xs) h = elim (Bool-cases (x == a)) [
  | inl y ↦ inl (ground arith)
  | inr n ↦ inr (contains-Elem a xs (ground arith))
]

pub Elem-contains : (a : ℕ) (xs : List ℕ) → Elem a xs → contains a xs ≡ true
Elem-contains a [] m = absurd m
Elem-contains a (x ∷ xs) (inl e) = ground arith
Elem-contains a (x ∷ xs) (inr m) = let h = Elem-contains a xs m in ground arith

pub not_contains : (a : ℕ) (xs : List ℕ) → (Elem a xs → ⊥) → contains a xs ≡ false
not_contains a xs f = elim (Bool-cases (contains a xs)) [
  | inl y ↦ absurd (f (contains-Elem a xs y))
  | inr n ↦ n
]
