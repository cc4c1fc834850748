-- ===== src/Accounts/Tests.antt =====
-- Services that keep a hash and a token readable, three accounts, and instances of the theorems.
use willy.Prelude.{
  ℕ, zero, suc, ◌≤◌, Bool-cases, inl, inr, text_eq_sound, ◌+◌, ◌<◌, ◌≡◌, refl, Bool, true, false,
  ◌&&◌, Option, none, some, [], ◌∷◌, ◌==◌, ltb, if◌then◌else◌, Text, codes, text_eq, text_eq_refl,
  ok, err, Error, arith, count,
}
use willy.Accounts.{User, Role, has_email, capabilities_for_role}
use willy.Accounts.Lockout.{Site, assert_not_locked_out}
use willy.Accounts.Sessions.{
  Services, Secret, Mode, Claims, SessionResult, LoginOutcome, AuthUser, login, authenticate,
  refresh, issue_session, payload_of,
}
use willy.Accounts.Emails.{IsValid, UserCommand, run_users}
use willy.Accounts.Guards.{Answers, run_users-Answers}
use willy.Accounts.Window.{failures_at, lockout_window}
use willy.Accounts.Revocation.{Ending, end_session, end_session-refresh}
use willy.Accounts.Logins.{login-challenge_admitted}

abbrev role_code : Role → ℕ
role_code Role.viewer = 0
role_code Role.operator = 1
role_code Role.admin = 2

abbrev encode : Claims → Text
encode (Claims.session id email role) = 0 ∷ id ∷ role_code role ∷ email
encode (Claims.challenge id Mode.verify) = 1 ∷ id ∷ []
encode (Claims.challenge id Mode.setup) = 2 ∷ id ∷ []
encode (Claims.enrolment id secret) = 3 ∷ id ∷ secret

abbrev role_of : ℕ → Role
role_of zero = Role.viewer
role_of (suc zero) = Role.operator
role_of _ = Role.admin

abbrev decode : Text → Option Claims
decode (zero ∷ id ∷ role ∷ email) = some (Claims.session id email (role_of role))
decode (suc zero ∷ id ∷ []) = some (Claims.challenge id Mode.verify)
decode (suc (suc zero) ∷ id ∷ []) = some (Claims.challenge id Mode.setup)
decode (suc (suc (suc zero)) ∷ id ∷ secret) = some (Claims.enrolment id secret)
decode _ = none

decode-encode : (c : Claims) → decode (encode c) ≡ some c
decode-encode (Claims.session id email Role.viewer) = refl
decode-encode (Claims.session id email Role.operator) = refl
decode-encode (Claims.session id email Role.admin) = refl
decode-encode (Claims.challenge id Mode.verify) = refl
decode-encode (Claims.challenge id Mode.setup) = refl
decode-encode (Claims.enrolment id secret) = refl

abbrev secret_code : Secret → ℕ
secret_code Secret.jwt_secret = 0
secret_code Secret.jwt_refresh_secret = 1

abbrev plain_sign : Secret → ℕ → ℕ → Claims → Text
plain_sign k t ttl c = secret_code k ∷ (t + ttl) ∷ encode c

abbrev plain_read : Secret → ℕ → Text → Option Claims
plain_read k now (j ∷ expiry ∷ rest) =
    if j == secret_code k && ltb now expiry then decode rest else none
plain_read k now _ = none

plain_read_sign :
    (k : Secret) (t now ttl : ℕ) (c : Claims)
    → now < t + ttl
    → plain_read k now (plain_sign k t ttl c) ≡ some c
plain_read_sign k t now ttl c h =
    let self : (secret_code k == secret_code k) ≡ true = ground arith in
    let valid : ltb now (t + ttl) ≡ true = ground arith in rw (self, valid) (decode-encode c)

abbrev plain_verify : Text → Text → Bool
plain_verify [] p = false
plain_verify (salt ∷ hash) p = text_eq hash p

-- The code that a secret accepts at a time is that of the time.
abbrev plain : Services
plain = record {
  hash = λ n p. n ∷ p;
  verify_hash = plain_verify;
  hash_verifies = λ n p. text_eq_refl p;
  sign = plain_sign;
  read = plain_read;
  read_sign = plain_read_sign;
  totp_valid = λ secret now code. text_eq code (now ∷ []);
  encrypt = λ n secret. n ∷ secret;
  decrypt = λ sealed. sealed;
  fresh_secret = λ n. n ∷ [];
  expires_in = 900;
  refresh_expires_in = 604800;
  down = λ n. false;
}

abbrev ann : User
ann = record {
  id = 1;
  email = codes "ann@x";
  name = none;
  password_hash = 0 ∷ codes "pw";
  role = Role.admin;
  disabled = false;
  two_factor_enabled = false;
  two_factor_secret = none;
  refresh_token_hash = none;
}

-- With a second factor.
abbrev bob : User
bob = record ann {
  id = 2;
  email = codes "bob@x";
  two_factor_enabled = true;
  two_factor_secret = some (codes "s");
}

abbrev site : Site
site = record { users = ann ∷ bob ∷ []; counters = []; now = 1000; draws = 0 }

users-IsValid : IsValid (ann ∷ bob ∷ [])
unfolding text_eq
users-IsValid = record { one_email = λ e. one e; one_id = λ k. ground arith }
  where
    one : (e : Text) → count (has_email e) (ann ∷ bob ∷ []) ≤ 1
    one e = elim (Bool-cases (text_eq (codes "ann@x") e)) [
      | inl y ↦
          let other : text_eq (codes "bob@x") e ≡ false =
            rw (← text_eq_sound (codes "ann@x") e y) refl in
          rw (y, other) (omega arith)
      | inr n ↦ rw n (ground arith)
    ]

run_users-Answers_example :
    IsValid (
      run_users (UserCommand.create_account 3 (codes "eve@x") [] Role.viewer none) (ann ∷ bob ∷ []))
    × Answers (UserCommand.create_account 3 (codes "eve@x") [] Role.viewer none) (ann ∷ bob ∷ [])
run_users-Answers_example =
    run_users-Answers (UserCommand.create_account 3 (codes "eve@x") [] Role.viewer none)
      (ann ∷ bob ∷ []) refl users-IsValid

lockout_window_example :
    (assert_not_locked_out plain.down 2
      (record (failures_at plain.down 2 (1000 ∷ 1001 ∷ 1002 ∷ 1003 ∷ 1004 ∷ []) site) {
        now = 1899;
      })).0
    ≡ err Error.unauthorized
lockout_window_example =
    lockout_window plain.down (λ n. refl) 2 1000 (1001 ∷ 1002 ∷ 1003 ∷ 1004 ∷ []) 1899 site refl
      (
        omega arith,
        omega arith,
        (
          omega arith,
          omega arith,
          (omega arith, omega arith, (omega arith, omega arith, omega arith)),
        ),
      )

end_session-refresh_example :
    (refresh plain 1 (codes "t") (end_session plain Ending.suspended 1 site)).0
    ≡ err Error.unauthorized
end_session-refresh_example = end_session-refresh plain Ending.suspended 1 (codes "t") site

abbrev ann_session : SessionResult
ann_session = record {
  access_token = plain_sign Secret.jwt_secret 1000 900 (payload_of ann);
  refresh_token = plain_sign Secret.jwt_refresh_secret 1000 604800 (payload_of ann);
  user_id = 1;
  email = codes "ann@x";
  name = none;
  role = Role.admin;
  permissions = capabilities_for_role Role.admin;
}

ann_logs_in :
    (login plain (codes "ann@x") (codes "pw") site).0 ≡ ok (LoginOutcome.authenticated ann_session)
unfolding login issue_session text_eq
ann_logs_in = refl

abbrev bob_challenge : Text
bob_challenge = plain_sign Secret.jwt_secret 1000 300 (Claims.challenge 2 Mode.verify)

abbrev bob_session : SessionResult
bob_session = record ann_session {
  access_token = plain_sign Secret.jwt_secret 1000 900 (payload_of bob);
  refresh_token = plain_sign Secret.jwt_refresh_secret 1000 604800 (payload_of bob);
  user_id = 2;
  email = codes "bob@x";
}

abbrev ann_user : AuthUser
ann_user = record { user_id = 1; email = codes "ann@x"; role = Role.admin }

ann_authenticates : authenticate plain ann_session.access_token site ≡ ok ann_user
unfolding authenticate
ann_authenticates = refl

login-challenge_admitted_example :
    (token : Text) × ((login plain (codes "bob@x") (codes "pw") site).0
      ≡ ok (LoginOutcome.totp_required token))
    × (authenticate plain token (record site { now = 1299 })
        ≡ ok (record { user_id = 2; email = codes "bob@x"; role = Role.admin }))
unfolding text_eq
login-challenge_admitted_example =
    login-challenge_admitted plain (codes "bob@x") (codes "pw") bob site 1299 refl refl refl refl
      refl refl (omega arith)
