-- ===== src/EnvVars.antt =====
-- backend/src/env-vars: the environment variables of a deployment, and the checks on a variable's name
-- and value. A statement is its meaning on the list of the rows, and the encryption is a parameter.
pub mod Injection
pub mod Secrecy
pub mod Storage
mod Tests
use willy.Prelude.{
  ℕ, zero, suc, ◌+◌, ◌≡◌, Bool, true, false, not, ◌&&◌, ◌||◌, Option, none, some, List, [], ◌∷◌,
  ◌==◌, ltb, leb, if◌then◌else◌, find, any, all, filter, map, or_else, is_some, update_where,
  delete_where, sort_by, Text, text_eq, text_mem, contains, Result, ok, err, Error,
}

-- `/^[A-Za-z_][A-Za-z0-9_]*$/`
abbrev pub is_letter : ℕ → Bool
is_letter c = (leb 65 c && leb c 90) || (leb 97 c && leb c 122) || c == 95

abbrev pub is_word : ℕ → Bool
is_word c = is_letter c || (leb 48 c && leb c 57)

abbrev pub is_key : Text → Bool
is_key [] = false
is_key (c ∷ rest) = is_letter c && all is_word rest

abbrev pub is_high : ℕ → Bool
is_high c = leb 55296 c && leb c 56319

abbrev pub is_low : ℕ → Bool
is_low c = leb 56320 c && leb c 57343

-- The bytes of a code unit in UTF-8: the second half of a pair adds one to the first half's three.
abbrev pub unit_bytes : Bool → ℕ → ℕ
unit_bytes after_high c =
    if after_high && is_low c then 1 else if ltb c 128 then 1 else if ltb c 2048 then 2 else 3

unfoldable pub bytes_after : Bool → Text → ℕ
bytes_after after_high [] = 0
bytes_after after_high (c ∷ s) = unit_bytes after_high c + bytes_after (is_high c) s

abbrev pub byte_length : Text → ℕ
byte_length s = bytes_after false s

-- `128 * 1024`
abbrev pub max_value_bytes : ℕ
max_value_bytes = 131072

abbrev pub is_value : Text → Bool
is_value value = not (contains 0 value) && leb (byte_length value) max_value_bytes

pub data EnvScope : Type 0 where
  build_scope runtime_scope both_scope : EnvScope

pub data InjectionPhase : Type 0 where
  build_phase runtime_phase : InjectionPhase

pub record SealedSecret : Type 0 where
  pub cipher_text : Text
  pub nonce : Text
  pub auth_tag : Text
  pub key_version : ℕ

-- CryptoService, with the nonce that it draws: what it encrypts, it decrypts.
pub record Crypto : Type 0 where
  pub encrypt : ℕ → Text → SealedSecret
  pub decrypt : SealedSecret → Text
  pub decrypt_encrypt : (nonce : ℕ) (v : Text) → decrypt (encrypt nonce v) ≡ v

pub record EnvVar : Type 0 where
  pub deployment_id : ℕ
  pub target_service : Text
  pub key : Text
  pub sealed : SealedSecret
  pub scope : EnvScope
  pub is_secret : Bool

pub record SetEnvVarInput : Type 0 where
  pub scope : Option EnvScope
  pub is_secret : Option Bool
  pub target_service : Option Text

pub record UpdateEnvVarMetaInput : Type 0 where
  pub scope : Option EnvScope
  pub is_secret : Option Bool

pub record MaskedEnvVar : Type 0 where
  pub key : Text
  pub scope : EnvScope
  pub is_secret : Bool
  pub value : Option Text

abbrev pub masked_env_value : Bool → Text → Option Text
masked_env_value is_secret value = if is_secret then none else some value

-- The row of a variable: the three columns are UNIQUE together.
abbrev pub at : ℕ → Text → Text → EnvVar → Bool
at deployment_id target_service key row =
    row.deployment_id == deployment_id
    && (text_eq row.target_service target_service && text_eq row.key key)

abbrev pub with_fields : SealedSecret → SetEnvVarInput → EnvVar → EnvVar
with_fields sealed input row = record row {
  sealed = sealed;
  scope = or_else input.scope EnvScope.runtime_scope;
  is_secret = or_else input.is_secret true;
}

abbrev pub new_row : ℕ → Text → SealedSecret → SetEnvVarInput → EnvVar
new_row deployment_id key sealed input = record {
  deployment_id = deployment_id;
  target_service = or_else input.target_service [];
  key = key;
  sealed = sealed;
  scope = or_else input.scope EnvScope.runtime_scope;
  is_secret = or_else input.is_secret true;
}

-- `insert … on conflict do update`
abbrev pub upsert : (EnvVar → Bool) → EnvVar → (EnvVar → EnvVar) → List EnvVar → List EnvVar
upsert here row f rows = if any here rows then update_where here f rows else row ∷ rows

module _ (crypto : Crypto) where
  -- `set`
  unfoldable pub set_var : ℕ → ℕ → Text → Text → SetEnvVarInput → List EnvVar → Result (List EnvVar)
  set_var nonce deployment_id key value input rows =
      let sealed = crypto.encrypt nonce value in
      if not (is_key key)
      then err Error.bad_request
      else if not (is_value value)
      then err Error.bad_request
      else ok (
          upsert (at deployment_id (or_else input.target_service []) key)
            (new_row deployment_id key sealed input) (with_fields sealed input) rows)

  unfoldable pub delete_var : ℕ → Text → Text → List EnvVar → List EnvVar
  delete_var deployment_id key target_service rows =
      delete_where (at deployment_id target_service key) rows

  abbrev pub masked : EnvVar → MaskedEnvVar
  masked row = record {
    key = row.key;
    scope = row.scope;
    is_secret = row.is_secret;
    value =
        masked_env_value row.is_secret (if row.is_secret then [] else crypto.decrypt row.sealed);
  }

  abbrev pub of_service : ℕ → Text → EnvVar → Bool
  of_service deployment_id target_service row =
      row.deployment_id == deployment_id && text_eq row.target_service target_service

  unfoldable pub list_masked : ℕ → Text → List EnvVar → List MaskedEnvVar
  list_masked deployment_id target_service rows =
      map masked (filter (of_service deployment_id target_service) rows)

  abbrev pub asks_regular : Option Bool → Bool
  asks_regular (some b) = not b
  asks_regular none = false

  abbrev pub patched : UpdateEnvVarMetaInput → EnvVar → EnvVar
  patched input row = record row {
    scope = or_else input.scope row.scope;
    is_secret = or_else input.is_secret row.is_secret;
  }

  unfoldable pub update_meta :
      ℕ → Text → Text → UpdateEnvVarMetaInput → List EnvVar → Result (List EnvVar)
  update_meta deployment_id key target_service input rows =
      elim (find (at deployment_id target_service key) rows) [
        | none ↦ err Error.bad_request
        | some row ↦
            if row.is_secret && asks_regular input.is_secret
            then err Error.bad_request
            else ok (update_where (at deployment_id target_service key) (patched input) rows)
      ]

  abbrev pub distinct : List Text → List Text
  distinct [] = []
  distinct (t ∷ ts) = let rest = distinct ts in if text_mem t rest then rest else t ∷ rest

  unfoldable pub services_with_env : ℕ → List EnvVar → List Text
  services_with_env deployment_id rows =
      filter (λ t. not (text_eq t []))
        (distinct
          (map (λ r. r.target_service) (filter (λ r. r.deployment_id == deployment_id) rows)))

  abbrev pub is_shared : EnvVar → Bool
  is_shared row = text_eq row.target_service []

  abbrev pub in_phase : InjectionPhase → EnvScope → Bool
  in_phase phase EnvScope.both_scope = true
  in_phase InjectionPhase.build_phase EnvScope.build_scope = true
  in_phase InjectionPhase.runtime_phase EnvScope.runtime_scope = true
  in_phase _ _ = false

  abbrev pub applies : InjectionPhase → Text → EnvVar → Bool
  applies phase service row =
      (is_shared row || text_eq row.target_service service) && in_phase phase row.scope

  -- `resolved[key] = value`, and its reading.
  abbrev pub assign : Text → Text → List (Text × Text) → List (Text × Text)
  assign key value [] = (key, value) ∷ []
  assign key value ((k, v) ∷ rest) =
      let after = assign key value rest in
      if text_eq k key then (k, value) ∷ rest else (k, v) ∷ after

  abbrev pub value_of : Text → List (Text × Text) → Option Text
  value_of key [] = none
  value_of key ((k, v) ∷ rest) = if text_eq k key then some v else value_of key rest

  abbrev pub inject : InjectionPhase → Text → List EnvVar → List (Text × Text) → List (Text × Text)
  inject phase service [] resolved = resolved
  inject phase service (row ∷ rows) resolved = inject phase service rows (
      if applies phase service row
      then assign row.key (crypto.decrypt row.sealed) resolved
      else resolved)

  -- The shared ones go first.
  abbrev pub goes_before : EnvVar → EnvVar → Bool
  goes_before a b = is_shared a && not (is_shared b)

  unfoldable pub resolve_for_injection :
      ℕ → InjectionPhase → Text → List EnvVar → List (Text × Text)
  unfolding sort_by
  resolve_for_injection deployment_id phase service rows =
      inject phase service
        (sort_by goes_before (filter (λ r. r.deployment_id == deployment_id) rows)) []
