-- ===== src/EnvVars/Injection.antt =====
-- What a phase of a service is given: its own variables, over the shared ones.
use willy.Prelude.{
  ℕ, ◌≡◌, refl, ap, ◌∙◌, inl, inr, Bool, true, false, not, ◌&&◌, ◌||◌, Option, none, some, List, [],
  ◌∷◌, ◌++◌, ◌==◌, if◌then◌else◌, filter, sort_by, sort_insert, Text, text_eq, text_eq_sound,
  text_eq_refl, Bool-cases, arith,
}
use willy.EnvVars.{
  InjectionPhase, Crypto, EnvVar, at, is_shared, in_phase, applies, assign, value_of, inject,
  goes_before, resolve_for_injection,
}

abbrev pub keep_last : Option EnvVar → Bool → EnvVar → Option EnvVar
keep_last (some later) passes x = some later
keep_last none passes x = if passes then some x else none

-- The last row that passes: the only one, by the UNIQUE columns.
abbrev pub last_match : (EnvVar → Bool) → List EnvVar → Option EnvVar
last_match p [] = none
last_match p (x ∷ xs) = keep_last (last_match p xs) (p x) x

module _ (c : Crypto) where
  -- The stable sort puts the shared rows first.
  insert_own :
      (x : EnvVar) (ys : List EnvVar)
      → is_shared c x ≡ false
      → sort_insert (goes_before c) x (filter (λ r. not (is_shared c r)) ys)
        ≡ x ∷ filter (λ r. not (is_shared c r)) ys
  insert_own x [] h = refl
  insert_own x (y ∷ ys) h = elim (Bool-cases (is_shared c y)) [
    | inl s ↦ rw s (insert_own x ys h)
    | inr n ↦ rw (n, n) refl
  ]

  insert_after :
      (x : EnvVar) (xs ys : List EnvVar)
      → is_shared c x ≡ false
      → sort_insert
          (goes_before c)
          x
          (filter (is_shared c) xs ++ filter (λ r. not (is_shared c r)) ys)
        ≡ filter (is_shared c) xs ++ x ∷ filter (λ r. not (is_shared c r)) ys
  insert_after x [] ys h = insert_own x ys h
  insert_after x (y ∷ xs) ys h = elim (Bool-cases (is_shared c y)) [
    | inl s ↦ rw (s, s, h) (ap (λ l. y ∷ l) (insert_after x xs ys h))
    | inr n ↦ rw n (insert_after x xs ys h)
  ]

  insert_shared :
      (x : EnvVar) (xs : List EnvVar)
      → is_shared c x ≡ true
      → sort_insert (goes_before c) x xs ≡ x ∷ xs
  insert_shared x [] h = refl
  insert_shared x (y ∷ xs) h = rw h (ground arith)

  sorted :
      (xs : List EnvVar)
      → sort_by (goes_before c) xs ≡ filter (is_shared c) xs ++ filter (λ r. not (is_shared c r)) xs
  unfolding sort_by
  sorted [] = refl
  sorted (x ∷ xs) = elim (Bool-cases (is_shared c x)) [
    | inl s ↦
        rw (sorted xs, s)
          (insert_shared x (filter (is_shared c) xs ++ filter (λ r. not (is_shared c r)) xs) s)
    | inr n ↦ rw (sorted xs, n) (insert_after x xs xs n)
  ]

  value-assign_same : (k v : Text) (m : List (Text × Text)) → value_of c k (assign c k v m) ≡ some v
  value-assign_same k v [] = rw (text_eq_refl k)
  value-assign_same k v ((j, w) ∷ m) = elim (Bool-cases (text_eq j k)) [
    | inl y ↦ rw (y, y)
    | inr n ↦ rw (n, n) (value-assign_same k v m)
  ]

  value-assign_other :
      (k j v : Text) (m : List (Text × Text))
      → text_eq j k ≡ false
      → value_of c k (assign c j v m) ≡ value_of c k m
  value-assign_other k j v [] h = rw h
  value-assign_other k j v ((i, w) ∷ m) h = elim (Bool-cases (text_eq i j)) [
    | inl y ↦ let e : i ≡ j = text_eq_sound i j y in rw (y, e, h) refl
    | inr n ↦ elim (Bool-cases (text_eq i k)) [
      | inl y ↦ rw (n, y)
      | inr m' ↦ rw (n, m') (value-assign_other k j v m h)
    ]
  ]

  inject-append :
      (phase : InjectionPhase) (s : Text) (xs ys : List EnvVar) (m : List (Text × Text))
      → inject c phase s (xs ++ ys) m ≡ inject c phase s ys (inject c phase s xs m)
  inject-append phase s [] ys m = refl
  inject-append phase s (x ∷ xs) ys m =
      inject-append phase s xs ys
        (if applies c phase s x then assign c x.key (c.decrypt x.sealed) m else m)

  abbrev sets : InjectionPhase → Text → Text → EnvVar → Bool
  sets phase s k row = applies c phase s row && text_eq row.key k

  abbrev pub decrypted : Option EnvVar → Option Text → Option Text
  decrypted none old = old
  decrypted (some row) old = some (c.decrypt row.sealed)

  value-inject :
      (phase : InjectionPhase) (s k : Text) (xs : List EnvVar) (m : List (Text × Text))
      → value_of c k (inject c phase s xs m)
        ≡ decrypted (last_match (sets phase s k) xs) (value_of c k m)
  value-inject phase s k [] m = refl
  value-inject phase s k (x ∷ xs) m = elim (Bool-cases (applies c phase s x)) [
    | inr n ↦ rw (n, value-inject phase s k xs m) (same (last_match (sets phase s k) xs))
    | inl y ↦
        rw (y, value-inject phase s k xs (assign c x.key (c.decrypt x.sealed) m))
          (later (last_match (sets phase s k) xs))
  ]
    where
      same :
          (o : Option EnvVar)
          → decrypted o (value_of c k m) ≡ decrypted (keep_last o false x) (value_of c k m)
      same none = refl
      same (some r) = refl

      later :
          (o : Option EnvVar)
          → decrypted o (value_of c k (assign c x.key (c.decrypt x.sealed) m))
            ≡ decrypted (keep_last o (text_eq x.key k) x) (value_of c k m)
      later (some r) = refl
      later none = elim (Bool-cases (text_eq x.key k)) [
        | inl a ↦
            let at_k : x.key ≡ k = text_eq_sound x.key k a in
            rw (a, at_k) (value-assign_same k (c.decrypt x.sealed) m)
        | inr b ↦ rw b (value-assign_other k x.key (c.decrypt x.sealed) m b)
      ]

  last-filter :
      (p q : EnvVar → Bool) (xs : List EnvVar)
      → last_match p (filter q xs) ≡ last_match (λ r. q r && p r) xs
  last-filter p q [] = refl
  last-filter p q (x ∷ xs) = elim (Bool-cases (q x)) [
    | inl y ↦ rw y (ap (λ o. keep_last o (p x) x) (last-filter p q xs))
    | inr n ↦ rw n (last-filter p q xs ∙ kept (last_match (λ r. q r && p r) xs))
  ]
    where
      kept : (o : Option EnvVar) → o ≡ keep_last o false x
      kept none = refl
      kept (some y) = refl

  last-ext :
      (p q : EnvVar → Bool)
      → ((r : EnvVar) → p r ≡ q r)
      → (xs : List EnvVar) → last_match p xs ≡ last_match q xs
  last-ext p q e [] = refl
  last-ext p q e (x ∷ xs) =
      ap (λ o. keep_last o (p x) x) (last-ext p q e xs)
      ∙ ap (λ b. keep_last (last_match q xs) b x) (e x)

  -- The service's own variable of a name, and the shared one, that a phase sees.
  abbrev pub own : ℕ → InjectionPhase → Text → Text → EnvVar → Bool
  own d phase s k row = at d s k row && (not (is_shared c row) && in_phase c phase row.scope)

  abbrev pub shared : ℕ → InjectionPhase → Text → EnvVar → Bool
  shared d phase k row = at d [] k row && in_phase c phase row.scope

  own_form :
      (d : ℕ) (phase : InjectionPhase) (s k : Text) (r : EnvVar)
      → (r.deployment_id == d && (not (is_shared c r) && sets phase s k r)) ≡ own d phase s k r
  own_form d phase s k r =
      bools (r.deployment_id == d) (is_shared c r) (text_eq r.target_service s)
        (in_phase c phase r.scope) (text_eq r.key k)
    where
      bools :
          (a sh t ph key : Bool)
          → (a && (not sh && (((sh || t) && ph) && key))) ≡ ((a && (t && key)) && (not sh && ph))
      bools a sh t ph key = ground arith

  shared_form :
      (d : ℕ) (phase : InjectionPhase) (s k : Text) (r : EnvVar)
      → (r.deployment_id == d && (is_shared c r && sets phase s k r)) ≡ shared d phase k r
  shared_form d phase s k r =
      bools (r.deployment_id == d) (is_shared c r) (text_eq r.target_service s)
        (in_phase c phase r.scope) (text_eq r.key k)
    where
      bools :
          (a sh t ph key : Bool)
          → (a && (sh && (((sh || t) && ph) && key))) ≡ ((a && (sh && key)) && ph)
      bools a sh t ph key = ground arith

  -- The value of a variable that is injected for a service in a phase is the one that the service has
  -- of its own in that phase, else the shared one of that phase, whatever order the rows are read in.
  pub resolve_for_injection-value :
      (d : ℕ) (phase : InjectionPhase) (s k : Text) (rows : List EnvVar)
      → value_of c k (resolve_for_injection c d phase s rows)
        ≡ decrypted
            (last_match (own d phase s k) rows)
            (decrypted (last_match (shared d phase k) rows) none)
  unfolding resolve_for_injection
  resolve_for_injection-value d phase s k rows =
      let mine : EnvVar → Bool = λ r. r.deployment_id == d in
      let here = filter mine rows in
      let first = filter (is_shared c) here in
      let then_own = filter (λ r. not (is_shared c r)) here in
      let split =
        ap (λ l. value_of c k (inject c phase s l [])) (sorted here)
        ∙ (ap (value_of c k) (inject-append phase s first then_own [])
            ∙ value-inject phase s k then_own (inject c phase s first [])) in
      let own_here : last_match (sets phase s k) then_own ≡ last_match (own d phase s k) rows =
        last-filter (sets phase s k) (λ r. not (is_shared c r)) here
        ∙ (last-filter (λ r. not (is_shared c r) && sets phase s k r) mine rows
            ∙ last-ext (λ r. mine r && (not (is_shared c r) && sets phase s k r)) (own d phase s k)
                (own_form d phase s k) rows) in
      let shared_here : last_match (sets phase s k) first ≡ last_match (shared d phase k) rows =
        last-filter (sets phase s k) (is_shared c) here
        ∙ (last-filter (λ r. is_shared c r && sets phase s k r) mine rows
            ∙ last-ext (λ r. mine r && (is_shared c r && sets phase s k r)) (shared d phase k)
                (shared_form d phase s k) rows) in
      split ∙ rw (own_here, value-inject phase s k first [], shared_here) refl
