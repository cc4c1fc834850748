-- ===== src/Accounts/Lockout.antt =====
-- backend/src/auth/two-factor-lockout.service.ts: the counter of an account's failed codes. A Redis
-- command is its meaning on the list of the keys, and `down` says which commands fail, by the number
-- of the draw. The key of the counter is the account's id, and time is in seconds.
use willy.Prelude.{
  ℕ, suc, ◌+◌, Bool, true, ◌&&◌, Option, none, some, List, ◌∷◌, ◌==◌, ltb, leb, if◌then◌else◌, find,
  update_where, delete_where, Result, ok, err, Error,
}
use willy.Accounts.{User}

pub record Counter : Type 0 where
  pub key : ℕ
  pub value : ℕ
  pub expires_at : Option ℕ

-- The table of users, Redis, the clock, and how many times the outside was asked.
pub record Site : Type 0 where
  pub users : List User
  pub counters : List Counter
  pub now : ℕ
  pub draws : ℕ

abbrev pub max_attempts : ℕ
max_attempts = 5

-- `15 * 60`
abbrev pub window_sec : ℕ
window_sec = 900

abbrev pub is_alive : ℕ → Counter → Bool
is_alive now c = elim c.expires_at [ none ↦ true | some t ↦ ltb now t ]

abbrev pub at_key : ℕ → ℕ → Counter → Bool
at_key now key c = c.key == key && is_alive now c

abbrev pub value_at : Option Counter → ℕ
value_at none = 0
value_at (some c) = c.value

-- What `get` reads, 0 where there is no key.
abbrev pub read_count : ℕ → ℕ → List Counter → ℕ
read_count now key counters = value_at (find (at_key now key) counters)

abbrev pub incr : ℕ → ℕ → List Counter → List Counter
incr now key counters = elim (find (at_key now key) counters) [
  | none ↦ record { key = key; value = 1; expires_at = none } ∷ counters
  | some c ↦ update_where (at_key now key) (λ d. record d { value = suc d.value }) counters
]

abbrev pub expire : ℕ → ℕ → ℕ → List Counter → List Counter
expire now key ttl counters =
    update_where (at_key now key) (λ d. record d { expires_at = some (now + ttl) }) counters

abbrev pub del : ℕ → List Counter → List Counter
del key counters = delete_where (λ c. c.key == key) counters

abbrev pub drawn : Site → Site
drawn w = record w { draws = suc w.draws }

module _ (down : ℕ → Bool) where
  unfoldable pub current_failures : ℕ → Site → ℕ × Site
  current_failures user w = (if down w.draws then 0 else read_count w.now user w.counters, drawn w)

  unfoldable pub assert_not_locked_out : ℕ → Site → Result (Unit {0}) × Site
  unfolding current_failures
  assert_not_locked_out user w =
      let (failures, after) = current_failures user w in
      (if leb max_attempts failures then err Error.unauthorized else ok tt, after)

  unfoldable pub record_failure : ℕ → Site → Site
  record_failure user w =
      let asked = drawn w in
      let counted = record asked { counters = incr w.now user w.counters } in
      if down w.draws
      then asked
      else if read_count w.now user counted.counters == 1
      then (if down asked.draws
          then drawn counted
          else drawn (record counted { counters = expire w.now user window_sec counted.counters }))
      else counted

  unfoldable pub clear : ℕ → Site → Site
  clear user w =
      if down w.draws then drawn w else drawn (record w { counters = del user w.counters })
