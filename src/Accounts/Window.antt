-- ===== src/Accounts/Window.antt =====
-- The lockout counts the failures of a window and forgets them at its end.
use willy.Prelude.{
  ℕ, suc, ◌+◌, ◌≤◌, ◌<◌, ◌≡◌, refl, ◌∙◌, ◌⊎◌, inl, inr, Bool, true, false, ◌&&◌, none, some, List,
  [], ◌∷◌, ◌==◌, ltb, leb, if◌then◌else◌, find, any, update_where, length, All, is_some, ok, err,
  Error, Bool-cases, Option-cases, arith, ap,
}
use willy.Accounts.Lockout.{
  Counter, Site, max_attempts, window_sec, at_key, read_count, incr, expire, current_failures,
  assert_not_locked_out, record_failure,
}

-- A row of another key, a row that has expired, or the count `n` until `d`.
abbrev Fits : ℕ → ℕ → ℕ → ℕ → Counter → Type 0
Fits now key n d c =
    (at_key now key c ≡ false)
    ⊎ ((at_key now key c ≡ true) × (c.value ≡ n) × (c.expires_at ≡ some d))

record Counts (now key n d : ℕ) (counters : List Counter) : Type 0 where
  fits : All (Fits now key n d) counters
  found : any (at_key now key) counters ≡ true

module _ (key n d : ℕ) where
  dead_later :
      (now t : ℕ) (c : Counter) → now ≤ t → at_key now key c ≡ false → at_key t key c ≡ false
  dead_later now t c h dead = elim (Option-cases c.expires_at) [
    | inl e ↦ let dead' : (c.key == key && true) ≡ false = rw e at dead in rw e dead'
    | inr (x, e) ↦
        let dead' : (c.key == key && ltb now x) ≡ false = rw e at dead in rw e (ground arith)
  ]

  alive_until :
      (now t : ℕ) (c : Counter)
      → at_key now key c ≡ true
      → c.expires_at ≡ some d
      → at_key t key c ≡ ltb t d
  alive_until now t c here e =
      let here' : (c.key == key && ltb now d) ≡ true = rw e at here in rw e (ground arith)

  read :
      (now t : ℕ) (counters : List Counter)
      → now ≤ t
      → t < d
      → All (Fits now key n d) counters
      → any (at_key now key) counters ≡ true
      → read_count t key counters ≡ n
  read now t [] h before fits found = absurd (cc found)
  read now t (c ∷ cs) h before (inl dead, more) found =
      let found' : any (at_key now key) cs ≡ true = rw dead at found in
      rw (dead_later now t c h dead) (read now t cs h before more found')
  read now t (c ∷ cs) h before (inr (here, value, e), more) found =
      let still : at_key t key c ≡ true = alive_until now t c here e ∙ ground arith in
      rw still value

  gone :
      (now t : ℕ) (counters : List Counter)
      → now ≤ t
      → d ≤ t
      → All (Fits now key n d) counters
      → read_count t key counters ≡ 0
  gone now t [] h after fits = refl
  gone now t (c ∷ cs) h after (inl dead, more) =
      rw (dead_later now t c h dead) (gone now t cs h after more)
  gone now t (c ∷ cs) h after (inr (here, value, e), more) =
      let over : at_key t key c ≡ false = alive_until now t c here e ∙ ground arith in
      rw over (gone now t cs h after more)

  -- One more failure, before the end.
  bumped :
      (now t : ℕ) (counters : List Counter)
      → now ≤ t
      → t < d
      → All (Fits now key n d) counters
      → All
          (Fits t key (suc n) d)
          (update_where (at_key t key) (λ c. record c { value = suc c.value }) counters)
  bumped now t [] h before fits = tt
  bumped now t (c ∷ cs) h before (inl dead, more) =
      let still = dead_later now t c h dead in rw still (inl still, bumped now t cs h before more)
  bumped now t (c ∷ cs) h before (inr (here, value, e), more) =
      let still : at_key t key c ≡ true = alive_until now t c here e ∙ ground arith in
      rw still (inr (still, ap suc value, e), bumped now t cs h before more)

  still_found :
      (now t : ℕ) (counters : List Counter)
      → now ≤ t
      → t < d
      → All (Fits now key n d) counters
      → any (at_key now key) counters ≡ true
      → is_some (find (at_key t key) counters) ≡ true
  still_found now t [] h before fits found = absurd (cc found)
  still_found now t (c ∷ cs) h before (inl dead, more) found =
      let found' : any (at_key now key) cs ≡ true = rw dead at found in
      rw (dead_later now t c h dead) (still_found now t cs h before more found')
  still_found now t (c ∷ cs) h before (inr (here, value, e), more) found =
      let still : at_key t key c ≡ true = alive_until now t c here e ∙ ground arith in rw still

found_after :
    (t key : ℕ) (counters : List Counter)
    → is_some (find (at_key t key) counters) ≡ true
    → any
        (at_key t key)
        (update_where (at_key t key) (λ c. record c { value = suc c.value }) counters)
      ≡ true
found_after t key [] h = absurd (cc h)
found_after t key (c ∷ cs) h = elim (Bool-cases (at_key t key c)) [
  | inl y ↦ rw (y, y)
  | inr m ↦
      let h' : is_some (find (at_key t key) cs) ≡ true = rw m at h in
      rw (m, m) (found_after t key cs h')
]

incr-Counts :
    (now t key n d : ℕ) (counters : List Counter)
    → now ≤ t
    → t < d
    → Counts now key n d counters
    → Counts t key (suc n) d (incr t key counters)
incr-Counts now t key n d counters h before v =
    let present = still_found key n d now t counters h before v.fits v.found in
    elim (Option-cases (find (at_key t key) counters)) [
      | inl e ↦ let present' : false ≡ true = rw e at present in absurd (cc present')
      | inr (c, e) ↦
          rw (e, incr)
            (record {
              fits = bumped key n d now t counters h before v.fits;
              found = found_after t key counters present;
            })
    ]

untouched :
    (t key d : ℕ) (counters : List Counter)
    → any (at_key t key) counters ≡ false
    → All (Fits t key 1 d) (expire t key window_sec counters)
untouched t key d [] h = tt
untouched t key d (c ∷ cs) h =
    let dead : at_key t key c ≡ false = ground arith in
    rw dead (inl dead, untouched t key d cs (ground arith))

-- The first failure opens the window.
first-Counts :
    (t key : ℕ) (counters : List Counter)
    → find (at_key t key) counters ≡ none
    → any (at_key t key) counters ≡ false
    → Counts t key 1 (t + window_sec) (expire t key window_sec (incr t key counters))
first-Counts t key counters e none_alive =
    let self : key == key ≡ true = ground arith in
    let later : ltb t (t + window_sec) ≡ true = ground arith in
    rw (e, incr, self)
      (record {
        fits =
            (inr (ground arith, refl, refl), untouched t key (t + window_sec) counters none_alive);
        found = ground arith;
      })

not_found : {A : Type 0} (p : A → Bool) (xs : List A) → any p xs ≡ false → find p xs ≡ none
not_found p [] h = refl
not_found p (x ∷ xs) h = elim (Bool-cases (p x)) [
  | inl y ↦ ground arith
  | inr n ↦ rw n (not_found p xs (ground arith))
]

module _ (down : ℕ → Bool) where
  -- Failures of one account, at the given times.
  abbrev pub failures_at : ℕ → List ℕ → Site → Site
  failures_at user [] w = w
  failures_at user (t ∷ ts) w =
      failures_at user ts (record_failure down user (record w { now = t }))

  -- The times do not go back, are before `d`, and none is after `last`.
  abbrev pub IsWithin : ℕ → ℕ → List ℕ → ℕ → Type 0
  IsWithin from d [] last = from ≤ last
  IsWithin from d (t ∷ ts) last = (from ≤ t) × (t < d) × IsWithin t d ts last

  module _ (up : (n : ℕ) → down n ≡ false) where
    recorded :
        (user now n d : ℕ) (w : Site)
        → now ≤ w.now
        → w.now < d
        → 1 ≤ n
        → Counts now user n d w.counters
        → Counts w.now user (suc n) d (record_failure down user w).counters
    unfolding record_failure
    recorded user now n d w h before some_before v =
        let next = incr-Counts now w.now user n d w.counters h before v in
        let counted : read_count w.now user (incr w.now user w.counters) ≡ suc n =
          read user (suc n) d w.now w.now (incr w.now user w.counters) (omega arith) before
            next.fits next.found in
        let other : (suc n == 1) ≡ false = ground arith in rw (up w.draws, counted, other) next

    opened :
        (user : ℕ) (w : Site)
        → find (at_key w.now user) w.counters ≡ none
        → any (at_key w.now user) w.counters ≡ false
        → Counts w.now user 1 (w.now + window_sec) (record_failure down user w).counters
    unfolding record_failure
    opened user w e none_alive =
        let self : user == user ≡ true = ground arith in
        let counted : read_count w.now user (incr w.now user w.counters) ≡ 1 =
          rw (e, incr, self) refl in
        rw (up w.draws, counted, up (suc w.draws)) (first-Counts w.now user w.counters e none_alive)

    run-Counts :
        (user now n d last m : ℕ) (ts : List ℕ) (w : Site)
        → 1 ≤ n
        → m ≡ n + length ts
        → IsWithin now d ts last
        → Counts now user n d w.counters
        → (k : ℕ) × (k ≤ last) × Counts k user m d (failures_at user ts w).counters
    run-Counts user now n d last m [] w some_before e times v =
        let same : m ≡ n = omega (arith, e) in (now, times, rw same v)
    run-Counts user now n d last m (t ∷ ts) w some_before e (h, before, times) v =
        run-Counts user t (suc n) d last m ts (record_failure down user (record w { now = t }))
          (omega arith) (omega (arith, e)) times
          (recorded user now n d (record w { now = t }) h before some_before v)

    -- The failures of an account are counted from the first on, for fifteen minutes: within them, the
    -- fifth refuses every later code, and at their end the account is open again. Redis answers, the
    -- account had no count, and no failure comes after the fifteen minutes.
    pub lockout_window :
        (user now : ℕ) (ts : List ℕ) (last : ℕ) (w : Site)
        → any (at_key now user) w.counters ≡ false
        → IsWithin now (now + window_sec) ts last
        → (assert_not_locked_out down user
            (record (failures_at user (now ∷ ts) w) { now = last })).0
          ≡ (if ltb last (now + window_sec) && leb max_attempts (suc (length ts))
              then err Error.unauthorized
              else ok tt)
    unfolding assert_not_locked_out current_failures
    lockout_window user now ts last w none_alive times =
        let after = failures_at user (now ∷ ts) w in
        let first =
          opened user (record w { now = now }) (not_found (at_key now user) w.counters none_alive)
            none_alive in
        let (k, h, v) =
          run-Counts user now 1 (now + window_sec) last (suc (length ts)) ts
            (record_failure down user (record w { now = now })) (omega arith) (omega arith) times
            first in
        elim (Bool-cases (ltb last (now + window_sec))) [
          | inl y ↦
              let counted : read_count last user after.counters ≡ suc (length ts) =
                read user (suc (length ts)) (now + window_sec) k last after.counters h
                  (ground arith) v.fits v.found in
              rw (up after.draws, counted, y)
          | inr n ↦
              let counted : read_count last user after.counters ≡ 0 =
                gone user (suc (length ts)) (now + window_sec) k last after.counters h
                  (ground arith) v.fits in
              rw (up after.draws, counted, n)
        ]
