-- ===== src/Accounts/Revocation.antt =====
-- When a session can be renewed, and when it cannot any more.
use willy.Prelude.{
  ℕ, ◌≡◌, refl, ap, inl, inr, true, false, Option, none, some, List, [], ◌∷◌, ◌==◌, update_where,
  Text, ok, err, Error, Bool-cases, Option-cases,
}
use willy.Accounts.{
  User, is_user, find_by_id, set_password, set_disabled, set_two_factor, set_refresh_token_hash,
}
use willy.Accounts.Lockout.{Site}
use willy.Accounts.Sessions.{
  Services, Secret, SessionResult, payload_of, issue_session, refresh, refresh_as, hash_matches,
  logout, require_two_factor,
}

-- The row of an account after a statement on it.
module _ (id : ℕ) (f : User → User) (same_id : (u : User) → (f u).id ≡ u.id) where
  pub find-update :
      (rows : List User)
      → find_by_id id (update_where (is_user id) f rows)
        ≡ elim (find_by_id id rows) [ none ↦ none | some u ↦ some (f u) ]
  find-update [] = refl
  find-update (x ∷ xs) = elim (Bool-cases (x.id == id)) [
    | inl y ↦ let y' : (f x).id == id ≡ true = rw (same_id x) y in rw (y, y')
    | inr n ↦ rw (n, n) (find-update xs)
  ]

IsRevoked : Option User → Type 0
IsRevoked o = (u : User) → o ≡ some u → u.refresh_token_hash ≡ none

module _ (s : Services) (id : ℕ) (token : Text) where
  refused :
      (o : Option User) (w : Site)
      → IsRevoked o
      → (refresh_as s token o w).0 ≡ err Error.unauthorized
  unfolding IsRevoked
  refused none w h = refl
  refused (some u) w h = elim (Bool-cases u.disabled) [ inl y ↦ rw y | inr n ↦ rw (n, h u refl) ]

  cleared :
      (f : User → User) (rows : List User) (w : Site)
      → ((u : User) → (f u).id ≡ u.id)
      → ((u : User) → (f u).refresh_token_hash ≡ none)
      → (refresh_as s token (find_by_id id (update_where (is_user id) f rows)) w).0
        ≡ err Error.unauthorized
  unfolding IsRevoked
  cleared f rows w same_id gone =
      rw (find-update id f same_id rows) (elim (Option-cases (find_by_id id rows)) [
        | inl e ↦ rw e
        | inr (u, e) ↦
            rw e (refused (some (f u)) w (λ v h. let same : f u ≡ v = cc h in rw (← same) (gone u)))
      ])

-- What ends the session of an account.
pub data Ending : Type 0 where
  password_changed : Text → Ending
  suspended logged_out two_factor_required : Ending

abbrev pub end_session : Services → Ending → ℕ → Site → Site
end_session s (Ending.password_changed hash) id w = record w {
  users = set_password id hash w.users;
}
end_session s Ending.suspended id w = record w { users = set_disabled id true w.users }
end_session s Ending.logged_out id w = (logout s id w).1
end_session s Ending.two_factor_required id w = (require_two_factor s id w).1

-- After a password change, a suspension, a logout or an admin's demand for a second factor, no token
-- renews the account's session.
pub end_session-refresh :
    (s : Services) (ending : Ending) (id : ℕ) (token : Text) (w : Site)
    → (refresh s id token (end_session s ending id w)).0 ≡ err Error.unauthorized
unfolding refresh set_password set_disabled set_two_factor set_refresh_token_hash require_two_factor
end_session-refresh s (Ending.password_changed hash) id token w =
    cleared s id token (λ u. record u { password_hash = hash; refresh_token_hash = none }) w.users
      (end_session s (Ending.password_changed hash) id w) (λ u. refl) (λ u. refl)
end_session-refresh s Ending.suspended id token w =
    cleared s id token (λ u. record u { disabled = true; refresh_token_hash = none }) w.users
      (end_session s Ending.suspended id w) (λ u. refl) (λ u. refl)
end_session-refresh s Ending.logged_out id token w =
    cleared s id token (λ u. record u { refresh_token_hash = none }) w.users
      (end_session s Ending.logged_out id w) (λ u. refl) (λ u. refl)
end_session-refresh s Ending.two_factor_required id token w =
    cleared s id token (λ u. record u { refresh_token_hash = none })
      (set_two_factor id (some true) none w.users) (end_session s Ending.two_factor_required id w)
      (λ u. refl) (λ u. refl)

renewed :
    (s : Services) (token : Text) (u : User) (w : Site)
    → u.disabled ≡ false
    → hash_matches s u.refresh_token_hash token ≡ true
    → refresh_as s token (some u) w ≡ issue_session s u w
renewed s token u w enabled matches = rw (enabled, matches)

-- The refresh token of a session that an account in use was given renews it, if nothing was done to the
-- account in between.
pub issue_session-refresh :
    (s : Services) (u : User) (w : Site) (later : ℕ)
    → find_by_id u.id w.users ≡ some u
    → u.disabled ≡ false
    → (r : SessionResult) × ((issue_session s u w).0 ≡ ok r)
      × (r' : SessionResult) × ((refresh s u.id r.refresh_token
            (record (issue_session s u w).1 { now = later })).0
          ≡ ok r')
unfolding issue_session refresh set_refresh_token_hash
issue_session-refresh s u w later found enabled =
    let token = s.sign Secret.jwt_refresh_secret w.now s.refresh_expires_in (payload_of u) in
    let f : User → User = λ v. record v { refresh_token_hash = some (s.hash w.draws token) } in
    let after = record (issue_session s u w).1 { now = later } in
    let row : find_by_id u.id after.users ≡ some (f u) =
      rw (find-update u.id f (λ v. refl) w.users, found) refl in
    let again : refresh s u.id token after ≡ issue_session s (f u) after =
      rw row (renewed s token (f u) after enabled (s.hash_verifies w.draws token)) in
    (_, refl, _, ap (λ x. x.0) again)
