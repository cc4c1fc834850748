-- ===== src/EnvVars/Tests.antt =====
-- A store whose cipher texts can be read, the variables of two services, and instances of the theorems.
use willy.Prelude.{
  ◌≡◌, refl, true, false, none, some, List, [], ◌∷◌, Text, codes, text_eq, ok, sort_by,
}
use willy.EnvVars.{
  EnvScope, InjectionPhase, Crypto, EnvVar, SetEnvVarInput, set_var, resolve_for_injection,
  value_of, byte_length, bytes_after, update_meta,
}
use willy.EnvVars.Injection.{last_match, own, shared, decrypted, resolve_for_injection-value}
use willy.EnvVars.Storage.{set_var-resolve}
use willy.EnvVars.Secrecy.{Edit, edit, shown, edit-shown}

abbrev plain : Crypto
plain = record {
  encrypt = λ n v. record { cipher_text = v; nonce = n ∷ []; auth_tag = []; key_version = 1 };
  decrypt = λ s. s.cipher_text;
  decrypt_encrypt = λ n v. refl;
}

abbrev port : Text
port = codes "PORT"

-- A regular variable of a service, at run time.
abbrev var : Text → Text → Text → EnvVar
var service key value = record {
  deployment_id = 1;
  target_service = service;
  key = key;
  sealed = plain.encrypt 0 value;
  scope = EnvScope.runtime_scope;
  is_secret = false;
}

-- The service's own port stands before the shared one.
abbrev store : List EnvVar
store = var (codes "web") port (codes "80") ∷ var [] port (codes "90") ∷ []

own_wins :
    value_of plain port
      (resolve_for_injection plain 1 InjectionPhase.runtime_phase (codes "web") store)
    ≡ some (codes "80")
unfolding resolve_for_injection sort_by text_eq
own_wins = refl

euro_bytes : byte_length (97 ∷ 8364 ∷ 55357 ∷ 56832 ∷ []) ≡ 8
unfolding bytes_after
euro_bytes = refl

resolve_for_injection-value_example :
    value_of plain port
      (resolve_for_injection plain 1 InjectionPhase.runtime_phase (codes "db") store)
    ≡ decrypted plain
        (last_match (own plain 1 InjectionPhase.runtime_phase (codes "db") port) store)
        (decrypted plain (last_match (shared plain 1 InjectionPhase.runtime_phase port) store) none)
resolve_for_injection-value_example =
    resolve_for_injection-value plain 1 InjectionPhase.runtime_phase (codes "db") port store

abbrev for_web : SetEnvVarInput
for_web = record {
  scope = some EnvScope.both_scope;
  is_secret = none;
  target_service = some (codes "web");
}

abbrev stored : List EnvVar
stored =
    record (var (codes "web") port (codes "81")) {
      sealed = plain.encrypt 7 (codes "81");
      scope = EnvScope.both_scope;
      is_secret = true;
    }
    ∷ var [] port (codes "90")
    ∷ []

port_is_set : set_var plain 7 1 port (codes "81") for_web store ≡ ok stored
unfolding set_var text_eq bytes_after
port_is_set = refl

set_var-resolve_example :
    value_of plain port
      (resolve_for_injection plain 1 InjectionPhase.build_phase (codes "web") stored)
    ≡ some (codes "81")
set_var-resolve_example =
    set_var-resolve plain 7 1 port (codes "81") for_web InjectionPhase.build_phase store stored refl
      port_is_set

abbrev hide : Edit plain
hide =
    Edit.change_meta 1 port (codes "web")
      (record { scope = some EnvScope.build_scope; is_secret = some true })

-- The shared port is still shown when the service's own one is hidden.
shared_shown : shown plain 1 [] port (edit plain hide store) ≡ some (codes "90")
unfolding update_meta text_eq
shared_shown = refl

edit-shown_example : shown plain 1 [] port store ≡ some (codes "90")
edit-shown_example = edit-shown plain hide 1 [] port (codes "90") store shared_shown
