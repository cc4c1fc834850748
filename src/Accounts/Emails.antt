-- ===== src/Accounts/Emails.antt =====
-- No two accounts share an email, whatever UsersService does to the table.
use willy.Prelude.{
  ℕ, suc, ◌≤◌, ◌≡◌, refl, inl, inr, Bool, true, false, not, ◌&&◌, Option, none, some, List, [], ◌∷◌,
  ◌==◌, if◌then◌else◌, any, count, or_else, is_some, update_where, Text, text_eq, text_eq_sound,
  Result, ok, err, Bool-cases, Option-cases, arith, ap,
}
use willy.Prelude.Counting.{count-any, count-update, count-delete}
use willy.Accounts.{
  User, Role, CreateUserInput, UpdateUserInput, has_email, is_user, find_by_email, find_by_id,
  create, create_with_password, changed, taken_by_other, clashes, update, set_password, remove,
  set_disabled, set_two_factor, set_refresh_token_hash,
}

-- An id and an email are those of one account at most.
pub record IsValid (rows : List User) : Type 0 where
  pub one_email : (e : Text) → count (has_email e) rows ≤ 1
  pub one_id : (k : ℕ) → count (is_user k) rows ≤ 1

-- A change that leaves ids and emails alone.
kept :
    (q : User → Bool) (f : User → User) (rows : List User)
    → ((u : User) → (f u).id ≡ u.id)
    → ((u : User) → (f u).email ≡ u.email)
    → IsValid rows
    → IsValid (update_where q f rows)
kept q f rows same_id same_email v = record {
  one_email = λ e.
      rw (count-update q (has_email e) f rows (λ u. ap (λ x. text_eq x e) (same_email u)))
        (v.one_email e);
  one_id =
      λ k. rw (count-update q (is_user k) f rows (λ u. ap (λ x. x == k) (same_id u))) (v.one_id k);
}

-- The rows of one account are given an email that no other account has.
module _ (id : ℕ) (email : Text) (f : User → User) (sets : (u : User) → (f u).email ≡ email) where
  to_new :
      (e : Text) (rows : List User)
      → any (λ u. has_email email u && not (is_user id u)) rows ≡ false
      → text_eq email e ≡ true
      → count (has_email e) (update_where (is_user id) f rows) ≡ count (is_user id) rows
  to_new e [] h same = refl
  to_new e (x ∷ xs) h same =
      let here : text_eq (f x).email e ≡ true = rw (sets x) same in
      let is_e : email ≡ e = text_eq_sound email e same in
      elim (Bool-cases (is_user id x)) [
        | inl y ↦ rw (y, here) (ap suc (to_new e xs (ground arith) same))
        | inr n ↦
            let other : text_eq x.email e ≡ false = rw (← is_e) (ground arith) in
            rw (n, other) (to_new e xs (ground arith) same)
      ]

  to_other :
      (e : Text) (rows : List User)
      → text_eq email e ≡ false
      → count (has_email e) (update_where (is_user id) f rows) ≤ count (has_email e) rows
  to_other e [] other = omega arith
  to_other e (x ∷ xs) other =
      let gone : text_eq (f x).email e ≡ false = rw (sets x) other in
      ground (arith, to_other e xs other, gone)

  repointed :
      (rows : List User)
      → ((u : User) → (f u).id ≡ u.id)
      → any (λ u. has_email email u && not (is_user id u)) rows ≡ false
      → IsValid rows
      → IsValid (update_where (is_user id) f rows)
  repointed rows same_id free v = record {
    one_email = λ e. elim (Bool-cases (text_eq email e)) [
      | inl y ↦ rw (to_new e rows free y) (v.one_id id)
      | inr n ↦ omega (arith, to_other e rows n, v.one_email e)
    ];
    one_id = λ k.
        rw (count-update (is_user id) (is_user k) f rows (λ u. ap (λ x. x == k) (same_id u)))
          (v.one_id k);
  }

-- The table after an operation: a call that throws leaves it as it was.
abbrev pub kept_rows : List User → Result (List User × User) → List User
kept_rows rows (ok (after, user)) = after
kept_rows rows (err e) = rows

create-IsValid :
    (new_id : ℕ) (input : CreateUserInput) (rows : List User)
    → any (is_user new_id) rows ≡ false
    → IsValid rows
    → IsValid (kept_rows rows (create new_id input rows))
unfolding create
create-IsValid new_id input rows fresh v = elim (Bool-cases (any (has_email input.email) rows)) [
  | inl y ↦ rw y v
  | inr n ↦ rw n (record {
    one_email = λ e. elim (Bool-cases (text_eq input.email e)) [
      | inl y ↦
          let free : count (has_email e) rows ≡ 0 =
            rw (← text_eq_sound input.email e y) (count-any (has_email input.email) rows n) in
          rw y (omega (arith, free))
      | inr m ↦ rw m (v.one_email e)
    ];
    one_id = λ k. elim (Bool-cases (new_id == k)) [
      | inl y ↦
          let same : new_id ≡ k = ground arith in
          let free : count (is_user k) rows ≡ 0 =
            rw (← same) (count-any (is_user new_id) rows fresh) in
          rw y (omega (arith, free))
      | inr m ↦ rw m (v.one_id k)
    ];
  })
]

update-IsValid :
    (id : ℕ) (input : UpdateUserInput) (rows : List User)
    → IsValid rows
    → (email : Option Text) → input.email ≡ email
    → clashes id email rows ≡ false
    → IsValid (update_where (is_user id) (changed input) rows)
update-IsValid id input rows v none e free =
    kept (is_user id) (changed input) rows (λ u. refl) (λ u. ap (λ x. or_else x u.email) e) v
update-IsValid id input rows v (some email) e free =
    repointed id email (changed input) (λ u. ap (λ x. or_else x u.email) e) rows (λ u. refl) free v

-- The operations of UsersService that write.
pub data UserCommand : Type 0 where
  create_account : ℕ → Text → Text → Role → Option Text → UserCommand
  edit : ℕ → UpdateUserInput → UserCommand
  change_password : ℕ → Text → UserCommand
  delete_account : ℕ → UserCommand
  suspend : ℕ → Bool → UserCommand
  change_two_factor : ℕ → Option Bool → Option (Option Text) → UserCommand
  change_refresh_token : ℕ → Option Text → UserCommand

unfoldable pub run_users : UserCommand → List User → List User
run_users (UserCommand.create_account new_id email hash role name) rows =
    kept_rows rows (create_with_password new_id email hash role name rows)
run_users (UserCommand.edit id input) rows = kept_rows rows (update id input rows)
run_users (UserCommand.change_password id hash) rows = set_password id hash rows
run_users (UserCommand.delete_account id) rows = remove id rows
run_users (UserCommand.suspend id b) rows = set_disabled id b rows
run_users (UserCommand.change_two_factor id enabled secret) rows =
    set_two_factor id enabled secret rows
run_users (UserCommand.change_refresh_token id hash) rows = set_refresh_token_hash id hash rows

-- The database draws an id that no row has.
abbrev pub IsFresh : UserCommand → List User → Type 0
IsFresh (UserCommand.create_account new_id email hash role name) rows =
    any (is_user new_id) rows ≡ false
IsFresh _ rows = Unit

-- No operation of UsersService leaves two accounts with one email or one id.
pub run_users-IsValid :
    (c : UserCommand) (rows : List User)
    → IsFresh c rows
    → IsValid rows
    → IsValid (run_users c rows)
unfolding run_users create_with_password update set_password remove set_disabled set_two_factor
    set_refresh_token_hash
run_users-IsValid (UserCommand.create_account new_id email hash role name) rows fresh v =
    elim (Bool-cases (is_some (find_by_email email rows))) [
      | inl y ↦ rw y v
      | inr n ↦ rw n (
          create-IsValid new_id
            (record { email = email; password_hash = hash; role = some role; name = name }) rows
            fresh v)
    ]
run_users-IsValid (UserCommand.edit id input) rows fresh v =
    elim (Bool-cases (taken_by_other id input.email rows)) [
      | inl y ↦ rw y v
      | inr n ↦ elim (Option-cases (find_by_id id rows)) [
        | inl e ↦ rw (n, e) v
        | inr (row, e) ↦ elim (Bool-cases (clashes id input.email rows)) [
          | inl y ↦ rw (n, e, y) v
          | inr m ↦ rw (n, e, m) (update-IsValid id input rows v input.email refl m)
        ]
      ]
    ]
run_users-IsValid (UserCommand.change_password id hash) rows fresh v =
    kept (is_user id) (λ u. record u { password_hash = hash; refresh_token_hash = none }) rows
      (λ u. refl) (λ u. refl) v
run_users-IsValid (UserCommand.delete_account id) rows fresh v = record {
  one_email = λ e. omega (arith, count-delete (is_user id) (has_email e) rows, v.one_email e);
  one_id = λ k. omega (arith, count-delete (is_user id) (is_user k) rows, v.one_id k);
}
run_users-IsValid (UserCommand.suspend id b) rows fresh v =
    kept (is_user id)
      (λ u. record u {
        disabled = b;
        refresh_token_hash = if b then none else u.refresh_token_hash;
      })
      rows (λ u. refl) (λ u. refl) v
run_users-IsValid (UserCommand.change_two_factor id enabled secret) rows fresh v =
    kept (is_user id)
      (λ u. record u {
        two_factor_enabled = or_else enabled u.two_factor_enabled;
        two_factor_secret = or_else secret u.two_factor_secret;
      })
      rows (λ u. refl) (λ u. refl) v
run_users-IsValid (UserCommand.change_refresh_token id hash) rows fresh v =
    kept (is_user id) (λ u. record u { refresh_token_hash = hash }) rows (λ u. refl) (λ u. refl) v
