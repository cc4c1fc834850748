-- ===== src/Files/Copies.antt =====
-- frontend/src/components/files/paths.ts: the paths of the tree, and the name that is proposed for a copy.
use willy.Prelude.{
  ℕ, zero, suc, ◌+◌, ◌≤◌, ◌<◌, ◌≡◌, refl, sym, ap, ◌∙◌, ◌⊎◌, inl, inr, Bool, true, false, not, ◌||◌,
  Option, none, some, List, [], ◌∷◌, ◌++◌, ◌==◌, if◌then◌else◌, length, take, drop, Text, codes,
  text_eq, text_eq_sound, text_mem, starts_with, to_decimal, decimal, decimal-to_decimal,
  Bool-cases, arith, delete_where, length-append,
}

unfoldable pub join_path : Text → Text → Text
join_path parent name = if text_eq parent (codes "/") then 47 ∷ name else parent ++ 47 ∷ name

-- `lastIndexOf` of a code unit.
unfoldable pub last_index : ℕ → Text → Option ℕ
last_index c [] = none
last_index c (x ∷ s) = elim (last_index c s) [
  | some n ↦ some (suc n)
  | none ↦ if x == c then some 0 else none
]

abbrev pub cut_at : Text → Option ℕ → Text
cut_at path none = codes "/"
cut_at path (some zero) = codes "/"
cut_at path (some (suc n)) = take (suc n) path

unfoldable pub dir_of : Text → Text
unfolding last_index
dir_of path = if text_eq path (codes "/") then codes "/" else cut_at path (last_index 47 path)

abbrev pub after_index : Text → Option ℕ → Text
after_index path none = path
after_index path (some n) = drop (suc n) path

unfoldable pub base_of : Text → Text
unfolding last_index
base_of path = after_index path (last_index 47 path)

unfoldable pub is_move_invalid : Text → Text → Bool
is_move_invalid source dest_dir =
    text_eq dest_dir source || starts_with dest_dir (source ++ 47 ∷ [])

-- The name and the extension, which a leading dot does not start.
abbrev pub halves : Text → Option ℕ → Text × Text
halves name none = (name, [])
halves name (some zero) = (name, [])
halves name (some (suc n)) = (take (suc n) name, drop (suc n) name)

-- `${base} (${index})${ext}`
abbrev pub copy_of : Text × Text → ℕ → Text
copy_of (base, ext) index = base ++ (codes " (" ++ (to_decimal index ++ (41 ∷ ext)))

-- The loop, by the rounds that are left; none is that they were not enough.
unfoldable pub first_copy : Text × Text → List Text → ℕ → ℕ → Option Text
first_copy name taken zero index = none
first_copy name taken (suc rounds) index =
    let later = first_copy name taken rounds (suc index) in
    if text_mem (copy_of name index) taken then later else some (copy_of name index)

-- One round more than there are names is enough.
unfoldable pub suggest_copy_name : Text → List Text → Option Text
unfolding first_copy last_index
suggest_copy_name name taken =
    if not (text_mem name taken)
    then some name
    else first_copy (halves name (last_index 46 name)) taken (suc (length taken)) 2

append_left : (a s t : Text) → a ++ s ≡ a ++ t → s ≡ t
append_left [] s t e = e
append_left (x ∷ a) s t e = append_left a s t (cc e)

append_right : (a b s : Text) → length a ≡ length b → a ++ s ≡ b ++ s → a ≡ b
append_right [] [] s l e = refl
append_right [] (y ∷ b) s l e = absurd (omega arith)
append_right (x ∷ a) [] s l e = absurd (omega arith)
append_right (x ∷ a) (y ∷ b) s l e =
    let head : x ≡ y = cc e in
    let tail : a ++ s ≡ b ++ s = cc e in
    let rest = append_right a b s (omega (arith, l)) tail in rw (head, rest) refl

copy_of-inj : (name : Text × Text) (i j : ℕ) → copy_of name i ≡ copy_of name j → i ≡ j
copy_of-inj (base, ext) i j e =
    let e' = append_left (codes " (") (to_decimal i ++ (41 ∷ ext)) (to_decimal j ++ (41 ∷ ext)) (
      append_left base (codes " (" ++ (to_decimal i ++ (41 ∷ ext)))
        (codes " (" ++ (to_decimal j ++ (41 ∷ ext))) e) in
    let l = length-append (to_decimal i) (41 ∷ ext) in
    let m = length-append (to_decimal j) (41 ∷ ext) in
    let same =
      append_right (to_decimal i) (to_decimal j) (41 ∷ ext) (omega (arith, l, m, ap length e'))
        e' in
    sym (decimal-to_decimal i) ∙ (ap decimal same ∙ decimal-to_decimal j)

delete-shorter :
    (t : Text) (xs : List Text)
    → text_mem t xs ≡ true
    → length (delete_where (λ x. text_eq x t) xs) < length xs
delete-shorter t [] h = absurd (cc h)
delete-shorter t (x ∷ xs) h = elim (Bool-cases (text_eq x t)) [
  | inl y ↦ rw y (omega (arith, at_most xs))
  | inr n ↦
      let h' : text_mem t xs ≡ true = rw n at h in rw n (omega (arith, delete-shorter t xs h'))
]
  where
    at_most : (ys : List Text) → length (delete_where (λ x. text_eq x t) ys) ≤ length ys
    at_most [] = omega arith
    at_most (y ∷ ys) = ground (arith, at_most ys)

delete-others :
    (t u : Text) (xs : List Text)
    → text_eq t u ≡ false
    → text_mem u xs ≡ true
    → text_mem u (delete_where (λ x. text_eq x t) xs) ≡ true
delete-others t u [] n h = absurd (cc h)
delete-others t u (x ∷ xs) n h = elim (Bool-cases (text_eq x t)) [
  | inl y ↦
      let same : x ≡ t = text_eq_sound x t y in
      let miss : text_eq x u ≡ false = rw same n in
      let h' : text_mem u xs ≡ true = rw miss at h in rw y (delete-others t u xs n h')
  | inr m ↦ elim (Bool-cases (text_eq x u)) [
    | inl y ↦ rw (m, y) refl
    | inr k ↦ let h' : text_mem u xs ≡ true = rw k at h in rw (m, k) (delete-others t u xs n h')
  ]
]

-- Distinct names that are all taken are no more than the names taken.
bounded :
    (name : Text × Text) (n k : ℕ) (taken : List Text)
    → ((i : ℕ) → k ≤ i → i < k + n → text_mem (copy_of name i) taken ≡ true)
    → n ≤ length taken
bounded name zero k taken h = omega arith
bounded name (suc n) k taken h =
    let here = h k (omega arith) (omega arith) in
    let fewer = delete-shorter (copy_of name k) taken here in
    let rest =
      bounded name n (suc k) (delete_where (λ x. text_eq x (copy_of name k)) taken) (λ i a b.
        delete-others (copy_of name k) (copy_of name i) taken (apart i a)
          (h i (omega (arith, a)) (omega (arith, b)))) in
    omega (arith, fewer, rest)
  where
    apart : (i : ℕ) → suc k ≤ i → text_eq (copy_of name k) (copy_of name i) ≡ false
    apart i a = elim (Bool-cases (text_eq (copy_of name k) (copy_of name i))) [
      | inr m ↦ m
      | inl y ↦
          let e : k ≡ i =
            copy_of-inj name k i (text_eq_sound (copy_of name k) (copy_of name i) y) in
          absurd (omega (arith, a, e))
    ]

-- The first free number from an index on.
pub record IsFirst (name : Text × Text) (taken : List Text) (index : ℕ) (t : Text) : Type 0 where
  pub number : ℕ
  pub from : index ≤ number
  pub form : t ≡ copy_of name number
  pub free : text_mem t taken ≡ false
  pub lower_taken : (j : ℕ) → index ≤ j → j < number → text_mem (copy_of name j) taken ≡ true

searched :
    (name : Text × Text) (taken : List Text) (rounds index : ℕ)
    → ((t : Text) × (first_copy name taken rounds index ≡ some t) × IsFirst name taken index t)
      ⊎ ((i : ℕ) → index ≤ i → i < index + rounds → text_mem (copy_of name i) taken ≡ true)
unfolding first_copy
searched name taken zero index = inr (λ i a b. absurd (omega (arith, a, b)))
searched name taken (suc rounds) index = elim (Bool-cases (text_mem (copy_of name index) taken)) [
  | inr n ↦ inl (
    copy_of name index,
    rw n refl,
    record {
      number = index;
      from = omega arith;
      form = refl;
      free = n;
      lower_taken = λ j a b. absurd (omega (arith, a, b));
    },
  )
  | inl y ↦ elim (searched name taken rounds (suc index)) [
    | inl (t, e, f) ↦ inl (
      t,
      rw y e,
      record {
        number = f.number;
        from = omega (arith, f.from);
        form = f.form;
        free = f.free;
        lower_taken = λ j a b. at_or_above j a b y f.lower_taken;
      },
    )
    | inr all ↦ inr (λ i a b. at_or_above i a b y (λ j c d. all j c (omega (arith, b, d))))
  ]
]
  where
    at_or_above :
        {k : ℕ} (j : ℕ)
        → index ≤ j
        → j < k
        → text_mem (copy_of name index) taken ≡ true
        → ((i : ℕ) → suc index ≤ i → i < k → text_mem (copy_of name i) taken ≡ true)
        → text_mem (copy_of name j) taken ≡ true
    at_or_above j a b here h = elim (Bool-cases (j == index)) [
      | inl same ↦ let e : j ≡ index = ground arith in rw e here
      | inr other ↦ h j (ground arith) b
    ]

-- What is proposed: the name itself if it is free, else the copy of the lowest number from 2 on that is.
abbrev pub IsProposed : Text → List Text → Text → Type 0
IsProposed name taken t =
    if text_mem name taken then IsFirst (halves name (last_index 46 name)) taken 2 t else t ≡ name

-- The search for a copy's name ends, within one round more than there are names, and proposes the name
-- itself if it is free, else the copy of the lowest free number from 2 on.
pub suggest_copy_name-terminates :
    (name : Text) (taken : List Text)
    → (t : Text) × (suggest_copy_name name taken ≡ some t) × IsProposed name taken t
unfolding suggest_copy_name
suggest_copy_name-terminates name taken = elim (Bool-cases (text_mem name taken)) [
  | inr n ↦ rw n (name, refl, refl)
  | inl y ↦
      let parts = halves name (last_index 46 name) in
      elim (searched parts taken (suc (length taken)) 2) [
        | inl (t, e, f) ↦ rw y (t, e, f)
        | inr all ↦
            let most = bounded parts (suc (length taken)) 2 taken all in
            absurd (omega (arith, most))
      ]
]
