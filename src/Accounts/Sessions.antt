-- ===== src/Accounts/Sessions.antt =====
-- backend/src/auth/auth.service.ts, two-factor.service.ts and strategies/jwt.strategy.ts: the login in one
-- or two steps, and the tokens. The libraries that hash, sign and encrypt are the record `Services`.
use willy.Prelude.{
  ℕ, ◌+◌, ◌<◌, ◌≡◌, Bool, true, false, not, ◌||◌, Option, none, some, List, ◌∷◌, if◌then◌else◌,
  Text, Result, ok, err, Error, is_some,
}
use willy.Prelude.Effects.{Run, ◌>>=◌, ◌>>◌, pure, throw, get, modify, throw_if}
use willy.Accounts.{
  User, Role, Capability, capabilities_for_role, find_by_email, find_by_id, set_two_factor,
  set_refresh_token_hash,
}
use willy.Accounts.Lockout.{Site, drawn, assert_not_locked_out, record_failure, clear}

pub data Mode : Type 0 where
  verify setup : Mode

-- What a token says: a session's payload, a challenge's, or that of a setup with its secret.
pub data Claims : Type 0 where
  session : ℕ → Text → Role → Claims
  challenge : ℕ → Mode → Claims
  enrolment : ℕ → Text → Claims

-- The two signing secrets.
pub data Secret : Type 0 where
  jwt_secret jwt_refresh_secret : Secret

-- What argon2, the library of tokens, otpauth and CryptoService answer. A hash and a cipher text draw a
-- number. A password that was hashed verifies, and a token reads as what was signed until it expires.
pub record Services : Type 0 where
  pub hash : ℕ → Text → Text
  pub verify_hash : Text → Text → Bool
  pub hash_verifies : (n : ℕ) (p : Text) → verify_hash (hash n p) p ≡ true
  pub sign : Secret → ℕ → ℕ → Claims → Text
  pub read : Secret → ℕ → Text → Option Claims
  pub read_sign :
      (k : Secret) (t now ttl : ℕ) (c : Claims)
      → now < t + ttl
      → read k now (sign k t ttl c) ≡ some c
  pub totp_valid : Text → ℕ → Text → Bool
  pub encrypt : ℕ → Text → Text
  pub decrypt : Text → Text
  pub fresh_secret : ℕ → Text
  pub expires_in : ℕ
  pub refresh_expires_in : ℕ
  -- Which commands to Redis fail.
  pub down : ℕ → Bool

abbrev pub Auth : Type 0 → Type 0
Auth A = Run Site A

pub record SessionResult : Type 0 where
  pub access_token : Text
  pub refresh_token : Text
  pub user_id : ℕ
  pub email : Text
  pub name : Option Text
  pub role : Role
  pub permissions : List Capability

pub data LoginOutcome : Type 0 where
  authenticated : SessionResult → LoginOutcome
  totp_required : Text → LoginOutcome
  totp_setup_required : Text → LoginOutcome

pub record TotpSetup : Type 0 where
  pub secret : Text
  pub setup_token : Text

pub record AuthUser : Type 0 where
  pub user_id : ℕ
  pub email : Text
  pub role : Role

abbrev pub payload_of : User → Claims
payload_of user = Claims.session user.id user.email user.role

abbrev pub store_refresh : ℕ → Option Text → Site → Site
store_refresh id hash w = record w { users = set_refresh_token_hash id hash w.users }

module _ (s : Services) where
  unfoldable pub issue_session : User → Auth SessionResult
  issue_session user w =
      let refresh_token =
        s.sign Secret.jwt_refresh_secret w.now s.refresh_expires_in (payload_of user) in
      (
        ok (record {
          access_token = s.sign Secret.jwt_secret w.now s.expires_in (payload_of user);
          refresh_token = refresh_token;
          user_id = user.id;
          email = user.email;
          name = user.name;
          role = user.role;
          permissions = capabilities_for_role user.role;
        }),
        drawn (store_refresh user.id (some (s.hash w.draws refresh_token)) w),
      )

  -- Tokens of five minutes.
  abbrev pub mint_challenge_token : ℕ → Mode → Auth Text
  mint_challenge_token id mode w =
      (ok (s.sign Secret.jwt_secret w.now 300 (Claims.challenge id mode)), w)

  abbrev pub same_mode : Mode → Mode → Bool
  same_mode Mode.verify Mode.verify = true
  same_mode Mode.setup Mode.setup = true
  same_mode _ _ = false

  abbrev pub challenge_of : Mode → Option Claims → Result ℕ
  challenge_of mode (some (Claims.challenge id m)) =
      if same_mode m mode then ok id else err Error.unauthorized
  challenge_of mode _ = err Error.unauthorized

  unfoldable pub verify_challenge_token : Text → Mode → Auth ℕ
  verify_challenge_token token mode w =
      (challenge_of mode (s.read Secret.jwt_secret w.now token), w)

  -- Tokens of ten minutes.
  abbrev pub mint_setup_token : ℕ → Text → Auth Text
  mint_setup_token id secret w =
      (ok (s.sign Secret.jwt_secret w.now 600 (Claims.enrolment id secret)), w)

  abbrev pub enrolment_of : Option Claims → Result (ℕ × Text)
  enrolment_of (some (Claims.enrolment id secret)) = ok (id, secret)
  enrolment_of _ = err Error.unauthorized

  unfoldable pub verify_setup_token : Text → Auth (ℕ × Text)
  verify_setup_token token w = (enrolment_of (s.read Secret.jwt_secret w.now token), w)

  abbrev pub enable : ℕ → Text → Auth (Unit {0})
  enable id secret w = (
    ok tt,
    drawn (record w {
      users = set_two_factor id (some true) (some (some (s.encrypt w.draws secret))) w.users;
    }),
  )

  abbrev pub disable : ℕ → Auth (Unit {0})
  disable id = modify (λ w. record w { users = set_two_factor id (some false) (some none) w.users })

  -- `require`
  unfoldable pub require_two_factor : ℕ → Auth (Unit {0})
  require_two_factor id =
      modify (λ w.
        store_refresh id none (record w { users = set_two_factor id (some true) none w.users }))

  abbrev pub decrypt_secret : User → Option Text
  decrypt_secret user = elim user.two_factor_secret [
    | none ↦ none
    | some sealed ↦ some (s.decrypt sealed)
  ]

  abbrev pub password_matches : Option User → Text → Bool
  password_matches none password = false
  password_matches (some user) password = s.verify_hash user.password_hash password

  abbrev pub after_password : User → Auth LoginOutcome
  after_password user =
      if not user.two_factor_enabled
      then (issue_session user >>= λ r. pure (LoginOutcome.authenticated r))
      else if is_some user.two_factor_secret
      then (mint_challenge_token user.id Mode.verify >>= λ t. pure (LoginOutcome.totp_required t))
      else (mint_challenge_token user.id Mode.setup >>= λ t.
          pure (LoginOutcome.totp_setup_required t))

  abbrev pub log_in_as : Text → Option User → Auth LoginOutcome
  log_in_as password none = throw Error.unauthorized
  log_in_as password (some user) =
      if not (s.verify_hash user.password_hash password)
      then throw Error.unauthorized
      else if user.disabled
      then throw Error.unauthorized
      else after_password user

  unfoldable pub login : Text → Text → Auth LoginOutcome
  unfolding issue_session
  login email password w = log_in_as password (find_by_email email w.users) w

  abbrev pub refuse_code : {A : Type 0} → ℕ → Auth A
  refuse_code id w = (err Error.unauthorized, record_failure s.down id w)

  abbrev pub clear_failures : ℕ → Auth (Unit {0})
  clear_failures id w = (ok tt, clear s.down id w)

  -- `!secret || …`: an empty secret is none.
  abbrev pub secret_accepts : Option Text → Text → ℕ → Bool
  secret_accepts (some (c ∷ rest)) code now = s.totp_valid (c ∷ rest) now code
  secret_accepts _ code now = false

  abbrev pub code_accepted : Option User → Text → ℕ → Bool
  code_accepted none code now = false
  code_accepted (some user) code now = secret_accepts (decrypt_secret user) code now

  abbrev pub session_for : Option User → Auth SessionResult
  session_for none = throw Error.unauthorized
  session_for (some user) = issue_session user

  abbrev pub verify_code_of : ℕ → Text → Auth SessionResult
  verify_code_of id code w =
      let user = find_by_id id w.users in
      if code_accepted user code w.now
      then (clear_failures id >> session_for user) w
      else refuse_code id w

  unfoldable pub verify_totp_login : Text → Text → Auth SessionResult
  unfolding verify_challenge_token issue_session
  verify_totp_login token code = do
    id ← verify_challenge_token token Mode.verify
    assert_not_locked_out s.down id
    verify_code_of id code

  unfoldable pub start_totp_setup : Text → Auth TotpSetup
  unfolding verify_challenge_token
  start_totp_setup token = do
    id ← verify_challenge_token token Mode.setup
    w ← get
    throw_if (not (is_some (find_by_id id w.users))) Error.unauthorized
    setup_token ← mint_setup_token id (s.fresh_secret w.draws)
    modify drawn
    pure (record { secret = s.fresh_secret w.draws; setup_token = setup_token })

  abbrev pub enrol : ℕ → Text → Text → Auth SessionResult
  enrol id secret code w =
      if s.totp_valid secret w.now code
      then (clear_failures id >>= λ _.
            enable id secret >>= λ _. get >>= λ after. session_for (find_by_id id after.users))
          w
      else refuse_code id w

  unfoldable pub confirm_totp_setup : Text → Text → Auth SessionResult
  unfolding verify_setup_token issue_session
  confirm_totp_setup token code = do
    (id, secret) ← verify_setup_token token
    assert_not_locked_out s.down id
    enrol id secret code

  abbrev pub hash_matches : Option Text → Text → Bool
  hash_matches none token = false
  hash_matches (some hash) token = s.verify_hash hash token

  abbrev pub refresh_as : Text → Option User → Auth SessionResult
  refresh_as token none = throw Error.unauthorized
  refresh_as token (some user) =
      if user.disabled || not (hash_matches user.refresh_token_hash token)
      then throw Error.unauthorized
      else issue_session user

  unfoldable pub refresh : ℕ → Text → Auth SessionResult
  unfolding issue_session
  refresh id token w = refresh_as token (find_by_id id w.users) w

  abbrev pub logout : ℕ → Auth (Unit {0})
  logout id = modify (store_refresh id none)

  -- The `sub` of a payload: every payload has it.
  abbrev pub subject : Claims → ℕ
  subject (Claims.session id email role) = id
  subject (Claims.challenge id mode) = id
  subject (Claims.enrolment id secret) = id

  abbrev pub admit : Option User → Result AuthUser
  admit none = err Error.unauthorized
  admit (some user) =
      if user.disabled
      then err Error.unauthorized
      else ok (record { user_id = user.id; email = user.email; role = user.role })

  -- JwtStrategy, on a token in the header: its signature and its expiry, then `validate`.
  unfoldable pub authenticate : Text → Site → Result AuthUser
  authenticate token w = elim (s.read Secret.jwt_secret w.now token) [
    | none ↦ err Error.unauthorized
    | some payload ↦ admit (find_by_id (subject payload) w.users)
  ]
