-- ===== src/Accounts.antt =====
-- backend/src/users/users.service.ts and backend/src/auth: the accounts and the ways to a session. This
-- file has the table of users with UsersService; a statement is its meaning on the list of its rows,
-- and a hash that argon2 made is an argument.
pub mod Lockout
pub mod Sessions
pub mod Emails
pub mod Guards
pub mod Window
pub mod Revocation
pub mod Logins
mod Tests
use willy.Prelude.{
  ℕ, ◌≡◌, Bool, true, false, not, ◌&&◌, Option, none, some, List, [], ◌∷◌, ◌==◌, if◌then◌else◌,
  find, any, or_else, is_some, update_where, delete_where, Text, text_eq, Result, ok, err, Error,
}

pub data Role : Type 0 where
  viewer operator admin : Role

pub data Capability : Type 0 where
  operate administer : Capability

abbrev pub capabilities_for_role : Role → List Capability
capabilities_for_role Role.admin = Capability.operate ∷ Capability.administer ∷ []
capabilities_for_role Role.operator = Capability.operate ∷ []
capabilities_for_role Role.viewer = []

pub record User : Type 0 where
  pub id : ℕ
  pub email : Text
  pub name : Option Text
  pub password_hash : Text
  pub role : Role
  pub disabled : Bool
  pub two_factor_enabled : Bool
  pub two_factor_secret : Option Text
  pub refresh_token_hash : Option Text

pub record CreateUserInput : Type 0 where
  pub email : Text
  pub password_hash : Text
  pub role : Option Role
  pub name : Option Text

-- A field that is none is `undefined`.
pub record UpdateUserInput : Type 0 where
  pub email : Option Text
  pub name : Option (Option Text)
  pub role : Option Role

abbrev pub has_email : Text → User → Bool
has_email email u = text_eq u.email email

abbrev pub is_user : ℕ → User → Bool
is_user id u = u.id == id

abbrev pub find_by_email : Text → List User → Option User
find_by_email email rows = find (has_email email) rows

abbrev pub find_by_id : ℕ → List User → Option User
find_by_id id rows = find (is_user id) rows

abbrev pub new_user : ℕ → CreateUserInput → User
new_user new_id input = record {
  id = new_id;
  email = input.email;
  name = input.name;
  password_hash = input.password_hash;
  role = or_else input.role Role.viewer;
  disabled = false;
  two_factor_enabled = false;
  two_factor_secret = none;
  refresh_token_hash = none;
}

-- The column `email` is UNIQUE.
unfoldable pub create : ℕ → CreateUserInput → List User → Result (List User × User)
create new_id input rows =
    if any (has_email input.email) rows
    then err Error.unique_violation
    else ok (new_user new_id input ∷ rows, new_user new_id input)

unfoldable pub create_with_password :
    ℕ → Text → Text → Role → Option Text → List User → Result (List User × User)
unfolding create
create_with_password new_id email password_hash role name rows =
    if is_some (find_by_email email rows)
    then err Error.conflict
    else create new_id
        (record { email = email; password_hash = password_hash; role = some role; name = name })
        rows

abbrev pub changed : UpdateUserInput → User → User
changed input u = record u {
  email = or_else input.email u.email;
  name = or_else input.name u.name;
  role = or_else input.role u.role;
}

-- Whether another row has the email that an update asks for.
abbrev pub taken_by_other : ℕ → Option Text → List User → Bool
taken_by_other id none rows = false
taken_by_other id (some email) rows = elim (find_by_email email rows) [
  | none ↦ false
  | some existing ↦ not (existing.id == id)
]

abbrev pub clashes : ℕ → Option Text → List User → Bool
clashes id none rows = false
clashes id (some email) rows = any (λ u. has_email email u && not (is_user id u)) rows

-- The guard, the UNIQUE column, and the row that `returning` gives.
unfoldable pub update : ℕ → UpdateUserInput → List User → Result (List User × User)
update id input rows =
    if taken_by_other id input.email rows then err Error.conflict else elim (find_by_id id rows) [
      | none ↦ err Error.database_error
      | some row ↦
          if clashes id input.email rows
          then err Error.unique_violation
          else ok (update_where (is_user id) (changed input) rows, changed input row)
    ]

unfoldable pub set_password : ℕ → Text → List User → List User
set_password id password_hash rows =
    update_where (is_user id)
      (λ u. record u { password_hash = password_hash; refresh_token_hash = none }) rows

unfoldable pub remove : ℕ → List User → List User
remove id rows = delete_where (is_user id) rows

unfoldable pub set_disabled : ℕ → Bool → List User → List User
set_disabled id disabled rows =
    update_where (is_user id)
      (λ u. record u {
        disabled = disabled;
        refresh_token_hash = if disabled then none else u.refresh_token_hash;
      })
      rows

unfoldable pub set_two_factor : ℕ → Option Bool → Option (Option Text) → List User → List User
set_two_factor id enabled secret rows =
    update_where (is_user id)
      (λ u. record u {
        two_factor_enabled = or_else enabled u.two_factor_enabled;
        two_factor_secret = or_else secret u.two_factor_secret;
      })
      rows

unfoldable pub set_refresh_token_hash : ℕ → Option Text → List User → List User
set_refresh_token_hash id hash rows =
    update_where (is_user id) (λ u. record u { refresh_token_hash = hash }) rows
