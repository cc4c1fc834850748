-- ===== src/Accounts/Logins.antt =====
-- Who is given a session, and whom a token lets in.
use willy.Prelude.{
  ℕ, ◌+◌, ◌<◌, ◌≡◌, refl, ap, sym, inl, inr, Bool, true, false, some, Text, Result, ok, err, Error,
  Bool-cases, Option-cases, is_some,
}
use willy.Accounts.{User, find_by_email, find_by_id}
use willy.Accounts.Lockout.{Site, assert_not_locked_out}
use willy.Accounts.Sessions.{
  Services, Secret, Mode, Claims, SessionResult, LoginOutcome, AuthUser, login, log_in_as,
  after_password, issue_session, code_accepted, authenticate, admit, subject,
}

-- What a login without a second step stands on.
pub record IsLogin (s : Services) (email password : Text) (w : Site) (r : SessionResult)
    : Type 0 where
  pub user : User
  pub found : find_by_email email w.users ≡ some user
  pub knows_password : s.verify_hash user.password_hash password ≡ true
  pub enabled : user.disabled ≡ false
  pub one_step : user.two_factor_enabled ≡ false
  pub theirs : r.user_id ≡ user.id

abbrev user_of_outcome : Result LoginOutcome → ℕ
user_of_outcome (ok (LoginOutcome.authenticated r)) = r.user_id
user_of_outcome _ = 0

abbrev session_user : Result SessionResult → ℕ
session_user (ok r) = r.user_id
session_user (err e) = 0

abbrev is_session : Result LoginOutcome → Bool
is_session (ok (LoginOutcome.authenticated r)) = true
is_session _ = false

logged_in :
    (s : Services) (email password : Text) (u : User) (w : Site) (r : SessionResult)
    → find_by_email email w.users ≡ some u
    → (log_in_as s password (some u) w).0 ≡ ok (LoginOutcome.authenticated r)
    → IsLogin s email password w r
unfolding issue_session
logged_in s email password u w r e h = elim (Bool-cases (s.verify_hash u.password_hash password)) [
  | inr n ↦
      let h' : err Error.unauthorized ≡ ok (LoginOutcome.authenticated r) = rw n at h in
      absurd (cc h')
  | inl knows ↦ elim (Bool-cases u.disabled) [
    | inl y ↦
        let h' : err Error.unauthorized ≡ ok (LoginOutcome.authenticated r) = rw (knows, y) at h in
        absurd (cc h')
    | inr enabled ↦
        let h' : (after_password s u w).0 ≡ ok (LoginOutcome.authenticated r) =
          rw (knows, enabled) at h in
        elim (Bool-cases u.two_factor_enabled) [
          | inr one_step ↦
              let given = rw one_step at h' in
              record {
                user = u;
                found = e;
                knows_password = knows;
                enabled = enabled;
                one_step = one_step;
                theirs = sym (ap user_of_outcome given);
              }
          | inl two ↦ elim (Bool-cases (is_some u.two_factor_secret)) [
            | inl y ↦ let no = rw (two, y) at h' in absurd (cc (ap is_session no))
            | inr n ↦ let no = rw (two, n) at h' in absurd (cc (ap is_session no))
          ]
        ]
  ]
]

-- A login gives a session at once only for the password of an account in use without a second factor.
pub login-IsLogin :
    (s : Services) (email password : Text) (w : Site) (r : SessionResult)
    → (login s email password w).0 ≡ ok (LoginOutcome.authenticated r)
    → IsLogin s email password w r
unfolding login issue_session
login-IsLogin s email password w r h = elim (Option-cases (find_by_email email w.users)) [
  | inl e ↦
      let h' : err Error.unauthorized ≡ ok (LoginOutcome.authenticated r) = rw e at h in
      absurd (cc h')
  | inr (u, e) ↦
      let h' : (log_in_as s password (some u) w).0 ≡ ok (LoginOutcome.authenticated r) =
        rw e at h in
      logged_in s email password u w r e h'
]

-- What the second step of a login stands on.
pub record IsVerified (s : Services) (token code : Text) (w : Site) (r : SessionResult)
    : Type 0 where
  pub user : User
  pub id : ℕ
  pub challenged : s.read Secret.jwt_secret w.now token ≡ some (Claims.challenge id Mode.verify)
  pub found : find_by_id id w.users ≡ some user
  pub not_locked : (assert_not_locked_out s.down id w).0 ≡ ok tt
  pub accepted : code_accepted s (some user) code w.now ≡ true
  pub theirs : r.user_id ≡ user.id

-- Whom a token lets in.
pub record IsAdmitted (s : Services) (token : Text) (w : Site) (a : AuthUser) : Type 0 where
  pub claims : Claims
  pub user : User
  pub signed : s.read Secret.jwt_secret w.now token ≡ some claims
  pub found : find_by_id (subject s claims) w.users ≡ some user
  pub enabled : user.disabled ≡ false
  pub current_role : a.role ≡ user.role
  pub theirs : a.user_id ≡ user.id

admitted :
    (s : Services) (token : Text) (w : Site) (a : AuthUser) (c : Claims) (u : User)
    → s.read Secret.jwt_secret w.now token ≡ some c
    → find_by_id (subject s c) w.users ≡ some u
    → admit s (some u) ≡ ok a
    → IsAdmitted s token w a
admitted s token w a c u signed found h = elim (Bool-cases u.disabled) [
  | inl y ↦ let h' : err Error.unauthorized ≡ ok a = rw y at h in absurd (cc h')
  | inr n ↦
      let h' : ok (record { user_id = u.id; email = u.email; role = u.role }) ≡ ok a = rw n at h in
      let e : record { user_id = u.id; email = u.email; role = u.role } ≡ a = cc h' in
      record {
        claims = c;
        user = u;
        signed = signed;
        found = found;
        enabled = n;
        current_role = sym (ap (λ x. x.role) e);
        theirs = sym (ap (λ x. x.user_id) e);
      }
]

-- A request is let in only by a token that the server signed, for an account that exists and is not
-- disabled at that moment, and with the role that the account has then.
pub authenticate-IsAdmitted :
    (s : Services) (token : Text) (w : Site) (a : AuthUser)
    → authenticate s token w ≡ ok a
    → IsAdmitted s token w a
unfolding authenticate
authenticate-IsAdmitted s token w a h = elim (Option-cases (s.read Secret.jwt_secret w.now token)) [
  | inl e ↦ let h' : err Error.unauthorized ≡ ok a = rw (e, authenticate) at h in absurd (cc h')
  | inr (c, e) ↦
      let h' : admit s (find_by_id (subject s c) w.users) ≡ ok a = rw (e, authenticate) at h in
      elim (Option-cases (find_by_id (subject s c) w.users)) [
        | inl none_there ↦
            let h'' : err Error.unauthorized ≡ ok a = rw none_there at h' in absurd (cc h'')
        | inr (u, found) ↦
            let h'' : admit s (some u) ≡ ok a = rw found at h' in
            admitted s token w a c u e found h''
      ]
]

-- The challenge that a login with a second factor is answered with, before any code was given, lets its
-- bearer in as the account for five minutes.
pub login-challenge_admitted :
    (s : Services) (email password : Text) (u : User) (w : Site) (later : ℕ)
    → find_by_email email w.users ≡ some u
    → find_by_id u.id w.users ≡ some u
    → s.verify_hash u.password_hash password ≡ true
    → u.disabled ≡ false
    → u.two_factor_enabled ≡ true
    → is_some u.two_factor_secret ≡ true
    → later < w.now + 300
    → (token : Text) × ((login s email password w).0 ≡ ok (LoginOutcome.totp_required token))
      × (authenticate s token (record w { now = later })
          ≡ ok (record { user_id = u.id; email = u.email; role = u.role }))
unfolding login authenticate
login-challenge_admitted s email password u w later by_email by_id knows enabled two secret soon =
    let token = s.sign Secret.jwt_secret w.now 300 (Claims.challenge u.id Mode.verify) in
    let reads =
      s.read_sign Secret.jwt_secret w.now later 300 (Claims.challenge u.id Mode.verify) soon in
    (
      token,
      rw (by_email, knows, enabled, two, secret) refl,
      rw (reads, authenticate, by_id, enabled) refl,
    )
