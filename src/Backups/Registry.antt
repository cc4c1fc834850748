-- ===== src/Backups/Registry.antt =====
-- The registry has a job for exactly the enabled schedules.
use willy.Prelude.{
  ℕ, ◌≡◌, refl, ◌∙◌, inl, inr, Bool, true, false, not, ◌&&◌, ◌||◌, some, List, [], ◌∷◌, ◌==◌,
  if◌then◌else◌, any, find, contains, update_where, delete_where, All, Text, ok, Bool-cases,
  Option-cases, arith,
}
use willy.Prelude.Effects.{Run}
use willy.Prelude.Counting.{find-elem, any-elem}
use willy.Backups.Schedules.{
  Schedule, CreateScheduleInput, Scheduler, is_schedule, unregister, register_enabled, boot,
  create_schedule, switch, set_enabled, remove_schedule,
}

abbrev pub wants_job : ℕ → Schedule → Bool
wants_job id s = is_schedule id s && s.enabled

contains-unregister :
    (k id : ℕ) (registry : List ℕ)
    → contains k (unregister id registry) ≡ (not (k == id) && contains k registry)
contains-unregister k id [] = ground arith
contains-unregister k id (x ∷ xs) = ground (arith, contains-unregister k id xs)

any-switch :
    (k id : ℕ) (enabled : Bool) (rows : List Schedule)
    → any (wants_job k) (update_where (is_schedule id) (λ s. record s { enabled = enabled }) rows)
      ≡ (if k == id then enabled && any (is_schedule id) rows else any (wants_job k) rows)
any-switch k id enabled [] = ground arith
any-switch k id enabled (s ∷ rows) = ground (arith, any-switch k id enabled rows)

any-delete :
    (k id : ℕ) (rows : List Schedule)
    → any (wants_job k) (delete_where (is_schedule id) rows)
      ≡ (not (k == id) && any (wants_job k) rows)
any-delete k id [] = ground arith
any-delete k id (s ∷ rows) = ground (arith, any-delete k id rows)

module _ (valid : Text → Bool) where
  -- Every expression is valid, and an id has a job exactly if its schedule is enabled.
  pub record IsSynced (w : Scheduler) : Type 0 where
    pub crons : All (λ s. valid s.cron ≡ true) w.schedules
    pub jobs : (k : ℕ) → contains k w.registry ≡ any (wants_job k) w.schedules

  cron-switch :
      (id : ℕ) (enabled : Bool) (rows : List Schedule)
      → All (λ s. valid s.cron ≡ true) rows
      → All
          (λ s. valid s.cron ≡ true)
          (update_where (is_schedule id) (λ s. record s { enabled = enabled }) rows)
  cron-switch id enabled [] h = tt
  cron-switch id enabled (s ∷ rows) (here, more) = elim (Bool-cases (is_schedule id s)) [
    | inl y ↦ rw y (here, cron-switch id enabled rows more)
    | inr n ↦ rw n (here, cron-switch id enabled rows more)
  ]

  cron-delete :
      (id : ℕ) (rows : List Schedule)
      → All (λ s. valid s.cron ≡ true) rows
      → All (λ s. valid s.cron ≡ true) (delete_where (is_schedule id) rows)
  cron-delete id [] h = tt
  cron-delete id (s ∷ rows) (here, more) = elim (Bool-cases (is_schedule id s)) [
    | inl y ↦ rw y (cron-delete id rows more)
    | inr n ↦ rw n (here, cron-delete id rows more)
  ]

  cron-find :
      (id : ℕ) (rows : List Schedule) (s : Schedule)
      → All (λ s. valid s.cron ≡ true) rows
      → find (is_schedule id) rows ≡ some s
      → valid s.cron ≡ true
  cron-find id [] s h e = absurd (cc e)
  cron-find id (x ∷ rows) s (here, more) e = elim (Bool-cases (is_schedule id x)) [
    | inl y ↦ let e' : some x ≡ some s = rw y at e in let same : x ≡ s = cc e' in rw (← same) here
    | inr n ↦
        let e' : find (is_schedule id) rows ≡ some s = rw n at e in cron-find id rows s more e'
  ]

  -- The requests that write, with the id that the database draws.
  pub data Request : Type 0 where
    create_one : ℕ → CreateScheduleInput → Request
    switch_one : ℕ → Bool → Request
    remove_one : ℕ → Request

  abbrev pub serve : Request → Run Scheduler (Unit {0})
  serve (create_one new_id input) = create_schedule valid new_id input
  serve (switch_one id enabled) = set_enabled valid id enabled
  serve (remove_one id) = remove_schedule valid id

  -- Whatever is asked, refused requests included, the registry has a job for exactly the enabled
  -- schedules.
  pub serve-IsSynced : (r : Request) (w : Scheduler) → IsSynced w → IsSynced (serve r w).1
  unfolding create_schedule set_enabled remove_schedule
  serve-IsSynced (create_one new_id input) w v = elim (Bool-cases (valid input.cron)) [
    | inr n ↦ rw n v
    | inl y ↦ rw y (record {
      crons = (y, v.crons);
      jobs = λ k. ground (arith, contains-unregister k new_id w.registry, v.jobs k);
    })
  ]
  serve-IsSynced (switch_one id enabled) w v =
      elim (Option-cases (find (is_schedule id) w.schedules)) [
        | inl e ↦ rw e v
        | inr (s, e) ↦ rw e (switched enabled s e)
      ]
    where
      switched :
          (enabled : Bool) (s : Schedule)
          → find (is_schedule id) w.schedules ≡ some s
          → IsSynced (switch valid id enabled (some s) w).1
      switched true s e =
          let (here, m) = find-elem (is_schedule id) w.schedules s e in
          let there = any-elem (is_schedule id) s w.schedules m here in
          rw (cron-find id w.schedules s v.crons e) (record {
            crons = cron-switch id true w.schedules v.crons;
            jobs = λ k. ground (
              arith,
              contains-unregister k s.id w.registry,
              any-switch k id true w.schedules,
              v.jobs k,
              here,
              there,
            );
          })
      switched false s e =
          let (here, m) = find-elem (is_schedule id) w.schedules s e in
          record {
            crons = cron-switch id false w.schedules v.crons;
            jobs = λ k. ground (
              arith,
              contains-unregister k s.id w.registry,
              any-switch k id false w.schedules,
              v.jobs k,
              here,
            );
          }
  serve-IsSynced (remove_one id) w v = record {
    crons = cron-delete id w.schedules v.crons;
    jobs = λ k.
        ground (arith, contains-unregister k id w.registry, any-delete k id w.schedules, v.jobs k);
  }

  registered :
      (rows : List Schedule) (w : Scheduler)
      → All (λ s. valid s.cron ≡ true) rows
      → ((register_enabled valid rows w).0 ≡ ok tt)
        × ((register_enabled valid rows w).1.schedules ≡ w.schedules)
        × ((k : ℕ)
            → contains k (register_enabled valid rows w).1.registry
              ≡ (contains k w.registry || any (wants_job k) rows))
  registered [] w h = (refl, refl, λ k. ground arith)
  registered (s ∷ rows) w (here, more) = elim (Bool-cases s.enabled) [
    | inr n ↦ let (a, b, c) = registered rows w more in rw n (a, b, λ k. ground (arith, c k))
    | inl y ↦
        let w' = record w { registry = s.id ∷ unregister s.id w.registry } in
        let (a, b, c) = registered rows w' more in
        rw (y, here) (a, b, λ k. ground (arith, c k, contains-unregister k s.id w.registry))
  ]

  -- At boot no job is registered, and none of the stored expressions is refused: the registry then has
  -- a job for exactly the enabled schedules.
  pub boot-IsSynced :
      (w : Scheduler)
      → All (λ s. valid s.cron ≡ true) w.schedules
      → w.registry ≡ []
      → ((boot valid w).0 ≡ ok tt) × IsSynced (boot valid w).1
  unfolding boot
  boot-IsSynced w crons fresh =
      let (a, b, c) = registered w.schedules w crons in
      (a, record { crons = rw b crons; jobs = λ k. rw b (c k ∙ rw fresh refl) })
