-- ===== src/EnvVars/Storage.antt =====
-- A variable that was set is injected with its value.
use willy.Prelude.{
  ℕ, ◌≡◌, refl, ap, ◌∙◌, inl, inr, Bool, true, false, not, ◌&&◌, Option, none, some, List, [], ◌∷◌,
  ◌==◌, any, or_else, update_where, Text, text_eq, text_eq_sound, text_eq_refl, ok, err, Error,
  Bool-cases, Option-cases, arith, and-true,
}
use willy.EnvVars.{
  EnvScope, InjectionPhase, SealedSecret, Crypto, EnvVar, SetEnvVarInput, at, with_fields, new_row,
  upsert, set_var, is_key, is_value, is_shared, in_phase, value_of, resolve_for_injection,
}
use willy.EnvVars.Injection.{keep_last, last_match, own, shared, resolve_for_injection-value}

-- The last row that passes, when the rows in place were given the sealed value and no other row passes.
module _ (here p : EnvVar → Bool) (f : EnvVar → EnvVar) (sealed : SealedSecret)
    (given : (x : EnvVar) → (f x).sealed ≡ sealed)
    (imp : (x : EnvVar) → here x ≡ true → p (f x) ≡ true)
    (only : (x : EnvVar) → here x ≡ false → p x ≡ false) where
  abbrev pub IsSealed : Option EnvVar → Type 0
  IsSealed o = (r : EnvVar) × (o ≡ some r) × (r.sealed ≡ sealed)

  untouched : (rows : List EnvVar) → any here rows ≡ false → last_match p rows ≡ none
  untouched [] h = refl
  untouched (x ∷ xs) h = elim (Bool-cases (here x)) [
    | inl y ↦ ground arith
    | inr n ↦ rw (untouched xs (ground arith), only x n) refl
  ]

  kept : (o : Option EnvVar) (x : EnvVar) → IsSealed o → IsSealed (keep_last o false x)
  kept none x h = h
  kept (some r) x h = h

  on_top :
      (o : Option EnvVar) (x : EnvVar)
      → ((r : EnvVar) → o ≡ some r → r.sealed ≡ sealed)
      → x.sealed ≡ sealed
      → IsSealed (keep_last o true x)
  on_top none x all_sealed h = (x, refl, h)
  on_top (some r) x all_sealed h = (r, refl, all_sealed r refl)

  all_sealed :
      (rows : List EnvVar) (r : EnvVar)
      → last_match p (update_where here f rows) ≡ some r
      → r.sealed ≡ sealed
  all_sealed [] r h = absurd (cc h)
  all_sealed (x ∷ xs) r h = elim (Option-cases (last_match p (update_where here f xs))) [
    | inr (y, e) ↦
        let h' : some y ≡ some r = rw e at h in
        let same : y ≡ r = cc h' in all_sealed xs r (e ∙ ap some same)
    | inl e ↦ elim (Bool-cases (here x)) [
      | inl y ↦
          let h' : some (f x) ≡ some r = rw (e, y, imp x y) at h in
          let same : f x ≡ r = cc h' in rw (← same) (given x)
      | inr n ↦ let h' : none ≡ some r = rw (e, n, only x n) at h in absurd (cc h')
    ]
  ]

  updated :
      (rows : List EnvVar)
      → any here rows ≡ true
      → IsSealed (last_match p (update_where here f rows))
  updated [] h = absurd (cc h)
  updated (x ∷ xs) h = elim (Bool-cases (here x)) [
    | inl y ↦
        rw (y, imp x y)
          (on_top (last_match p (update_where here f xs)) (f x) (all_sealed xs) (given x))
    | inr n ↦
        let h' : any here xs ≡ true = rw n at h in
        rw (n, only x n) (kept (last_match p (update_where here f xs)) x (updated xs h'))
  ]

  pub upserted :
      (row : EnvVar) (rows : List EnvVar)
      → p row ≡ true
      → row.sealed ≡ sealed
      → IsSealed (last_match p (upsert here row f rows))
  upserted row rows passes s = elim (Bool-cases (any here rows)) [
    | inl y ↦ rw y (updated rows y)
    | inr n ↦ rw (n, untouched rows n, passes) (row, refl, s)
  ]

module _ (c : Crypto) where
  no_own :
      (d : ℕ) (phase : InjectionPhase) (k : Text) (rows : List EnvVar)
      → last_match (own c d phase [] k) rows ≡ none
  no_own d phase k [] = refl
  no_own d phase k (x ∷ xs) =
      rw
        (
          no_own d phase k xs,
          never (x.deployment_id == d) (text_eq x.target_service []) (text_eq x.key k)
              (in_phase c phase x.scope),
        )
        refl
    where
      never : (a sh key ph : Bool) → (a && (sh && key)) && (not sh && ph) ≡ false
      never a sh key ph = ground arith

  -- The value is found by the service that the variable was set for.
  found :
      (d : ℕ) (phase : InjectionPhase) (t k : Text) (sealed : SealedSecret) (row : EnvVar)
      (f : EnvVar → EnvVar) (rows : List EnvVar)
      → ((x : EnvVar) → (f x).sealed ≡ sealed)
      → ((x : EnvVar) → at d t k (f x) ≡ at d t k x)
      → ((x : EnvVar) → (f x).target_service ≡ x.target_service)
      → ((x : EnvVar) → in_phase c phase (f x).scope ≡ true)
      → at d t k row ≡ true
      → row.target_service ≡ t
      → in_phase c phase row.scope ≡ true
      → row.sealed ≡ sealed
      → value_of c k (resolve_for_injection c d phase t (upsert (at d t k) row f rows))
        ≡ some (c.decrypt sealed)
  unfolding text_eq
  found d phase [] k sealed row f rows given same_place same_service in_scope at_row target
        row_scope row_sealed =
      let (r, e, s) =
        upserted (at d [] k) (shared c d phase k) f sealed given
          (λ x h. rw (same_place x, h, in_scope x) refl) (λ x h. rw h refl) row rows
          (rw (at_row, row_scope) refl) row_sealed in
      resolve_for_injection-value c d phase [] k (upsert (at d [] k) row f rows)
      ∙ rw (no_own d phase k (upsert (at d [] k) row f rows), e, s) refl
  found d phase (a ∷ t) k sealed row f rows given same_place same_service in_scope at_row target
        row_scope row_sealed =
      let rows' = upsert (at d (a ∷ t) k) row f rows in
      let named : (x : EnvVar) → at d (a ∷ t) k x ≡ true → is_shared c x ≡ false =
        λ x h. unshared x h in
      let (r, e, s) =
        upserted (at d (a ∷ t) k) (own c d phase (a ∷ t) k) f sealed given
          (λ x h. let h' = same_place x ∙ h in rw (h', named (f x) h', in_scope x) refl)
          (λ x h. rw h refl) row rows (rw (at_row, named row at_row, row_scope) refl) row_sealed in
      resolve_for_injection-value c d phase (a ∷ t) k rows' ∙ rw (e, s) refl
    where
      unshared : (x : EnvVar) → at d (a ∷ t) k x ≡ true → is_shared c x ≡ false
      unshared x h =
          let (_, h') =
            and-true (x.deployment_id == d) (text_eq x.target_service (a ∷ t) && text_eq x.key k)
              h in
          let (h'', _) = and-true (text_eq x.target_service (a ∷ t)) (text_eq x.key k) h' in
          rw (text_eq_sound x.target_service (a ∷ t) h'') refl

  -- Once a variable was set, the service that it was set for is given its value in every phase of its
  -- scope, whatever was stored before.
  pub set_var-resolve :
      (nonce d : ℕ) (k value : Text) (input : SetEnvVarInput) (phase : InjectionPhase)
      (rows after : List EnvVar)
      → in_phase c phase (or_else input.scope EnvScope.runtime_scope) ≡ true
      → set_var c nonce d k value input rows ≡ ok after
      → value_of c k (resolve_for_injection c d phase (or_else input.target_service []) after)
        ≡ some value
  unfolding set_var
  set_var-resolve nonce d k value input phase rows after in_scope h = elim (Bool-cases (is_key k)) [
    | inr n ↦ let h' : err Error.bad_request ≡ ok after = rw n at h in absurd (cc h')
    | inl is_k ↦ elim (Bool-cases (is_value value)) [
      | inr n ↦ let h' : err Error.bad_request ≡ ok after = rw (is_k, n) at h in absurd (cc h')
      | inl is_v ↦
          let sealed = c.encrypt nonce value in
          let t = or_else input.target_service [] in
          let row = new_row d k sealed input in
          let h' : ok (upsert (at d t k) row (with_fields sealed input) rows) ≡ ok after =
            rw (is_k, is_v) at h in
          let same : upsert (at d t k) row (with_fields sealed input) rows ≡ after = cc h' in
          let d_here : d == d ≡ true = ground arith in
          rw (← same) (
            found d phase t k sealed row (with_fields sealed input) rows (λ x. refl) (λ x. refl)
              (λ x. refl) (λ x. in_scope) (rw (d_here, text_eq_refl t, text_eq_refl k) refl) refl
              in_scope refl
            ∙ ap some (c.decrypt_encrypt nonce value))
    ]
  ]
