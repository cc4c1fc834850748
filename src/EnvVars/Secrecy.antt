-- ===== src/EnvVars/Secrecy.antt =====
-- A hidden value stays hidden, unless a new value is set.
use willy.Prelude.{
  ℕ, ◌≡◌, refl, sym, ap, ◌∙◌, inl, inr, Bool, true, false, ◌&&◌, Option, none, some, List, [], ◌∷◌,
  ◌==◌, if◌then◌else◌, find, or_else, update_where, delete_where, Text, text_eq, text_eq_sound,
  Result, ok, err, Bool-cases, Option-cases, arith, and-true,
}
use willy.Prelude.Counting.{find-elem}
use willy.Prelude.Rows.{delete-elem}
use willy.EnvVars.{
  Crypto, EnvVar, UpdateEnvVarMetaInput, masked, masked_env_value, at, patched, asks_regular,
  update_meta, delete_var,
}

module _ (c : Crypto) where
  -- The value that the list shows of a variable.
  abbrev pub shown_of : Option EnvVar → Option Text
  shown_of none = none
  shown_of (some row) = (masked c row).value

  abbrev pub shown : ℕ → Text → Text → List EnvVar → Option Text
  shown d t k rows = shown_of (find (at d t k) rows)

  same_place :
      (d d' : ℕ) (t t' k k' : Text) (x : EnvVar)
      → at d t k x ≡ true
      → at d' t' k' x ≡ true
      → at d t k ≡ at d' t' k'
  same_place d d' t t' k k' x h h' =
      let (a, bc) =
        and-true (x.deployment_id == d) (text_eq x.target_service t && text_eq x.key k) h in
      let (b, e) = and-true (text_eq x.target_service t) (text_eq x.key k) bc in
      let (a', bc') =
        and-true (x.deployment_id == d') (text_eq x.target_service t' && text_eq x.key k') h' in
      let (b', e') = and-true (text_eq x.target_service t') (text_eq x.key k') bc' in
      let dd : d ≡ d' = ground arith in
      let tt' : t ≡ t' =
        sym (text_eq_sound x.target_service t b) ∙ text_eq_sound x.target_service t' b' in
      let kk : k ≡ k' = sym (text_eq_sound x.key k e) ∙ text_eq_sound x.key k' e' in
      rw (dd, tt', kk) refl

  after_update : Option EnvVar → (EnvVar → Bool) → (EnvVar → EnvVar) → Option EnvVar
  after_update none q f = none
  after_update (some x) q f = some (if q x then f x else x)

  find-update :
      (p q : EnvVar → Bool) (f : EnvVar → EnvVar)
      → ((x : EnvVar) → p (f x) ≡ p x)
      → (rows : List EnvVar) → find p (update_where q f rows) ≡ after_update (find p rows) q f
  unfolding after_update
  find-update p q f e [] = refl
  find-update p q f e (x ∷ xs) = elim (Bool-cases (q x)) [
    | inl y ↦ elim (Bool-cases (p x)) [
      | inl a ↦ rw (y, e x, a, y) refl
      | inr b ↦ rw (y, e x, b) (find-update p q f e xs)
    ]
    | inr n ↦ elim (Bool-cases (p x)) [
      | inl a ↦ rw (n, a, n) refl
      | inr b ↦ rw (n, b) (find-update p q f e xs)
    ]
  ]

  find-delete :
      (p q : EnvVar → Bool) (rows : List EnvVar) (y : EnvVar)
      → find p (delete_where q rows) ≡ some y
      → ((x : EnvVar) → p x ≡ true → q x ≡ true → q y ≡ true)
      → q y ≡ false
      → find p rows ≡ some y
  find-delete p q [] y h both other = h
  find-delete p q (x ∷ xs) y h both other = elim (Bool-cases (q x)) [
    | inl d ↦
        let h' : find p (delete_where q xs) ≡ some y = rw d at h in
        elim (Bool-cases (p x)) [
          | inl a ↦ let bad = both x a d in absurd (cc (bad, other))
          | inr b ↦ rw b (find-delete p q xs y h' both other)
        ]
    | inr n ↦ elim (Bool-cases (p x)) [
      | inl a ↦ let h' : some x ≡ some y = rw (n, a) at h in rw a h'
      | inr b ↦
          let h' : find p (delete_where q xs) ≡ some y = rw (n, b) at h in
          rw b (find-delete p q xs y h' both other)
    ]
  ]

  -- A change of a variable's scope or type, and a removal: what is not done is refused.
  pub data Edit : Type 0 where
    change_meta : ℕ → Text → Text → UpdateEnvVarMetaInput → Edit
    remove : ℕ → Text → Text → Edit

  abbrev pub kept_rows : List EnvVar → Result (List EnvVar) → List EnvVar
  kept_rows rows (ok after) = after
  kept_rows rows (err e) = rows

  abbrev pub edit : Edit → List EnvVar → List EnvVar
  edit (change_meta d k t input) rows = kept_rows rows (update_meta c d k t input rows)
  edit (remove d k t) rows = delete_var c d k t rows

  still_hidden :
      (row : EnvVar) (input : UpdateEnvVarMetaInput) (v : Text)
      → row.is_secret && asks_regular c input.is_secret ≡ false
      → (masked c (patched c input row)).value ≡ some v
      → (masked c row).value ≡ some v
  still_hidden row input v allowed h = elim (Bool-cases row.is_secret) [
    | inr n ↦ plain n (or_else input.is_secret row.is_secret) h
    | inl y ↦
        let kept : asks_regular c input.is_secret ≡ false = rw y at allowed in
        let secret = stays input.is_secret kept ∙ refl in
        let h' : none ≡ some v = rw (y, secret) at h in absurd (cc h')
  ]
    where
      stays : (o : Option Bool) → asks_regular c o ≡ false → or_else o true ≡ true
      stays none e = refl
      stays (some true) e = refl
      stays (some false) e = absurd (cc e)

      plain :
          row.is_secret ≡ false
          → (b : Bool) → masked_env_value b (if b then [] else c.decrypt row.sealed) ≡ some v
          → (masked c row).value ≡ some v
      plain n true g = absurd (cc g)
      plain n false g = rw n g

  updated_shown :
      (o : Option EnvVar) (q : EnvVar → Bool) (input : UpdateEnvVarMetaInput) (v : Text)
      → ((x : EnvVar)
          → o ≡ some x
          → q x ≡ true
          → x.is_secret && asks_regular c input.is_secret ≡ false)
      → shown_of (after_update o q (patched c input)) ≡ some v
      → shown_of o ≡ some v
  unfolding after_update
  updated_shown none q input v guard h = absurd (cc h)
  updated_shown (some x) q input v guard h = elim (Bool-cases (q x)) [
    | inr n ↦ let h' : (masked c x).value ≡ some v = rw n at h in h'
    | inl y ↦
        let h' : (masked c (patched c input x)).value ≡ some v = rw y at h in
        still_hidden x input v (guard x refl y) h'
  ]

  -- No change of a variable's scope or type, and no removal, lets the list of the variables show a value
  -- that it did not show before.
  pub edit-shown :
      (e : Edit) (d : ℕ) (t k v : Text) (rows : List EnvVar)
      → shown d t k (edit e rows) ≡ some v
      → shown d t k rows ≡ some v
  unfolding update_meta delete_var
  edit-shown (change_meta d' k' t' input) d t k v rows h =
      elim (Option-cases (find (at d' t' k') rows)) [
        | inl none_there ↦
            let h' : shown d t k rows ≡ some v = rw (none_there, update_meta) at h in h'
        | inr (row, e) ↦ elim (Bool-cases (row.is_secret && asks_regular c input.is_secret)) [
          | inl y ↦ let h' : shown d t k rows ≡ some v = rw (e, update_meta, y) at h in h'
          | inr n ↦
              let h' : shown d t k (update_where (at d' t' k') (patched c input) rows) ≡ some v =
                rw (e, update_meta, n) at h in
              let h'' : shown_of
                    (after_update (find (at d t k) rows) (at d' t' k') (patched c input))
                  ≡ some v =
                rw (← find-update (at d t k) (at d' t' k') (patched c input) (λ x. refl) rows) h' in
              updated_shown (find (at d t k) rows) (at d' t' k') input v
                (λ x found there.
                  let (here, _) = find-elem (at d t k) rows x found in
                  let same = same_place d d' t t' k k' x here there in
                  let both : find (at d' t' k') rows ≡ some x = rw (← same) found in
                  let row_is : row ≡ x = cc (both, e) in rw (← row_is) n)
                h''
        ]
      ]
  edit-shown (remove d' k' t') d t k v rows h =
      elim (Option-cases (find (at d t k) (delete_where (at d' t' k') rows))) [
        | inl e ↦ let h' : none ≡ some v = rw e at h in absurd (cc h')
        | inr (y, e) ↦
            let (here, m) = find-elem (at d t k) (delete_where (at d' t' k') rows) y e in
            let (_, other) = delete-elem (at d' t' k') y rows m in
            let before : find (at d t k) rows ≡ some y =
              find-delete (at d t k) (at d' t' k') rows y e
                (λ x a b. sym (ap (λ p. p y) (same_place d d' t t' k k' x a b)) ∙ here) other in
            let h' : (masked c y).value ≡ some v = rw e at h in rw before h'
      ]
