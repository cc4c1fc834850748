-- ===== src/Accounts/Guards.antt =====
-- Which requests UsersService refuses, and that it is its own guards that refuse them.
use willy.Prelude.{
  ℕ, ◌≤◌, ◌≡◌, ◌≢◌, ◌⊎◌, refl, ap, inl, inr, Bool, true, false, not, ◌&&◌, Option, none, some, List,
  [], ◌∷◌, ◌==◌, any, count, Elem, Text, text_eq_refl, text_eq_sound, Result, ok, err, Error,
  Bool-cases, Option-cases, arith,
}
use willy.Prelude.Counting.{any-elem, count-any, find-elem, find-none}
use willy.Accounts.{
  User, Role, UpdateUserInput, has_email, is_user, find_by_email, find_by_id, create,
  create_with_password, taken_by_other, clashes, update,
}
use willy.Accounts.Emails.{IsValid, UserCommand, IsFresh, run_users, run_users-IsValid}

-- No account has the email, or only that one.
abbrev pub IsFree : Text → List User → Type 0
IsFree e rows = (u : User) → Elem u rows → u.email ≢ e

abbrev pub IsFreeFor : ℕ → Text → List User → Type 0
IsFreeFor id e rows = (u : User) → Elem u rows → u.email ≡ e → u.id ≡ id

-- What the answer to a creation says of the accounts that are there.
abbrev pub CreateSays : Text → List User → Result (List User × User) → Type 0
CreateSays email rows (ok (after, user)) =
    IsFree email rows × (user.email ≡ email) × Elem user after
CreateSays email rows (err e) = (e ≡ Error.conflict) × (u : User) × Elem u rows × (u.email ≡ email)

-- What the answer to an edit says: a conflict is an email of another account, and the database refuses
-- only an account that is not there.
abbrev pub EditSays : ℕ → Option Text → List User → Result (List User × User) → Type 0
EditSays id email rows (ok (after, user)) = (e : Text) → email ≡ some e → IsFreeFor id e rows
EditSays id email rows (err x) =
    ((x ≡ Error.conflict)
      × (e : Text) × (email ≡ some e)
      × (u : User) × Elem u rows
      × (u.email ≡ e)
      × (u.id ≢ id))
    ⊎ ((x ≡ Error.database_error)
        × ((u : User) → Elem u rows → u.id ≢ id)
        × ((e : Text) → email ≡ some e → IsFreeFor id e rows))

email-holds : (e : Text) (u : User) → u.email ≡ e → has_email e u ≡ true
email-holds e u h = rw h (text_eq_refl e)

find-IsFree : (e : Text) (rows : List User) → find_by_email e rows ≡ none → IsFree e rows
find-IsFree e rows h = λ u m same.
    let known = any-elem (has_email e) u rows m (email-holds e u same) in
    cc (known, find-none (has_email e) rows h)

missing_of :
    (id : ℕ) (rows : List User) → find_by_id id rows ≡ none → (u : User) → Elem u rows → u.id ≢ id
missing_of id rows h = λ u m same.
    let known = any-elem (is_user id) u rows m (ground arith) in
    cc (known, find-none (is_user id) rows h)

no_more :
    (e : Text) (q : User → Bool) (rows : List User)
    → count (has_email e) rows ≡ 0
    → any (λ u. has_email e u && q u) rows ≡ false
no_more e q [] h = refl
no_more e q (u ∷ us) h = ground (arith, no_more e q us)

-- Where the account that an email finds is the one edited, no other has the email.
own_only :
    (id : ℕ) (e : Text) (x : User) (rows : List User)
    → find_by_email e rows ≡ some x
    → (x.id == id) ≡ true
    → count (has_email e) rows ≤ 1
    → any (λ u. has_email e u && not (is_user id u)) rows ≡ false
own_only id e x [] h own one = refl
own_only id e x (u ∷ us) h own one = elim (Bool-cases (has_email e u)) [
  | inl y ↦
      let h' : some u ≡ some x = rw y at h in
      let found : u ≡ x = cc h' in
      let same : u.id ≡ x.id = ap (λ (z : User). z.id) found in
      let mine : (u.id == id) ≡ true = rw same own in
      rw (y, mine) (no_more e (λ z. not (is_user id z)) us (ground arith))
  | inr n ↦
      let h' : find_by_email e us ≡ some x = rw n at h in
      rw n (own_only id e x us h' own (ground arith))
]

none_other :
    (id : ℕ) (e : Text) (rows : List User)
    → any (λ u. has_email e u && not (is_user id u)) rows ≡ false
    → IsFreeFor id e rows
none_other id e rows h = λ u m same. elim (Bool-cases (is_user id u)) [
  | inl y ↦ ground arith
  | inr n ↦
      let holds = email-holds e u same in
      let both : (has_email e u && not (is_user id u)) ≡ true = rw (holds, n) refl in
      let known = any-elem (λ z. has_email e z && not (is_user id z)) u rows m both in
      absurd (cc (known, h))
]

create-says :
    (new_id : ℕ) (email hash : Text) (role : Role) (name : Option Text) (rows : List User)
    → CreateSays email rows (create_with_password new_id email hash role name rows)
unfolding create_with_password create
create-says new_id email hash role name rows = elim (Option-cases (find_by_email email rows)) [
  | inr (u, e) ↦
      let (holds, m) = find-elem (has_email email) rows u e in
      rw e (refl, u, m, text_eq_sound u.email email holds)
  | inl e ↦ rw (e, find-none (has_email email) rows e) (find-IsFree email rows e, refl, inl refl)
]

-- An edit that the service's guard lets pass.
passed-says :
    (id : ℕ) (input : UpdateUserInput) (rows : List User)
    → taken_by_other id input.email rows ≡ false
    → clashes id input.email rows ≡ false
    → ((e : Text) → input.email ≡ some e → IsFreeFor id e rows)
    → EditSays id input.email rows (update id input rows)
unfolding update
passed-says id input rows taken clash free = elim (Option-cases (find_by_id id rows)) [
  | inl e ↦ rw (taken, e) (inr (refl, missing_of id rows e, free))
  | inr (row, e) ↦ rw (taken, e, clash) free
]

conflict-says :
    (id : ℕ) (input : UpdateUserInput) (rows : List User) (email : Text) (u : User)
    → input.email ≡ some email
    → find_by_email email rows ≡ some u
    → (u.id == id) ≡ false
    → EditSays id input.email rows (update id input rows)
unfolding update
conflict-says id input rows email u asked found other =
    let (holds, m) = find-elem (has_email email) rows u found in
    let taken : taken_by_other id input.email rows ≡ true =
      rw (asked, taken_by_other, found, other) refl in
    rw taken (inl (refl, email, asked, u, m, text_eq_sound u.email email holds, λ h. ground arith))

edit-says :
    (id : ℕ) (input : UpdateUserInput) (rows : List User)
    → IsValid rows
    → EditSays id input.email rows (update id input rows)
edit-says id input rows v = elim (Option-cases input.email) [
  | inl kept ↦
      passed-says id input rows (rw kept refl) (rw kept refl) (λ e h. absurd (cc (kept, h)))
  | inr (email, asked) ↦
      let ends : any (λ u. has_email email u && not (is_user id u)) rows ≡ false
          → taken_by_other id input.email rows ≡ false
          → EditSays id input.email rows (update id input rows) =
        λ none_left taken. passed-says id input rows taken (rw asked none_left) (λ e h.
          let same : email ≡ e = cc (asked, h) in none_other id e rows (rw (← same) none_left)) in
      elim (Option-cases (find_by_email email rows)) [
        | inl e ↦
            ends
              (no_more email (λ z. not (is_user id z)) rows
                (count-any (has_email email) rows (find-none (has_email email) rows e)))
              (rw (asked, taken_by_other, e) refl)
        | inr (u, e) ↦ elim (Bool-cases (u.id == id)) [
          | inr other ↦ conflict-says id input rows email u asked e other
          | inl own ↦
              ends (own_only id email u rows e own (v.one_email email))
                (rw (asked, taken_by_other, e, own) refl)
        ]
      ]
]

-- The service's answer to a command.
abbrev pub Answers : UserCommand → List User → Type 0
Answers (UserCommand.create_account new_id email hash role name) rows =
    CreateSays email rows (create_with_password new_id email hash role name rows)
Answers (UserCommand.edit id input) rows = EditSays id input.email rows (update id input rows)
Answers _ rows = Unit

answers : (c : UserCommand) (rows : List User) → IsValid rows → Answers c rows
answers (UserCommand.create_account new_id email hash role name) rows v =
    create-says new_id email hash role name rows
answers (UserCommand.edit id input) rows v = edit-says id input rows v
answers (UserCommand.change_password id hash) rows v = tt
answers (UserCommand.delete_account id) rows v = tt
answers (UserCommand.suspend id b) rows v = tt
answers (UserCommand.change_two_factor id enabled secret) rows v = tt
answers (UserCommand.change_refresh_token id hash) rows v = tt

-- Where each email and each id has one account at most, and a new id is one that no account has, every
-- operation of UsersService keeps it so. A creation is refused with a conflict exactly when an account
-- has the email, and an edit when another account has it; no request gets as far as the database's
-- own refusal of a second email, and an edit fails in the database only if its account is not there.
pub run_users-Answers :
    (c : UserCommand) (rows : List User)
    → IsFresh c rows
    → IsValid rows
    → IsValid (run_users c rows) × Answers c rows
run_users-Answers c rows fresh v = (run_users-IsValid c rows fresh v, answers c rows v)
