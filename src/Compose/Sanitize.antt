-- ===== src/Compose/Sanitize.antt =====
-- `sanitizeComposeYaml` of backend/src/build/strategies/compose.service.ts, on the parsed document.
use willy.Prelude.{
  Bool, not, Option, none, some, List, [], ◌∷◌, ◌++◌, filter, any, Text, codes, starts_with,
  is_space, is_some, if◌then◌else◌,
}
use willy.Compose.Values.{
  Value, Fields, null, bool, num, str, arr, obj, end, field, as_record, lookup, put, remove_key,
  keys, strings, str_items, map_fields,
}

abbrev pub hardened_opt : Text
hardened_opt = codes "no-new-privileges:true"

-- `Array.isArray(existing) ? existing.filter(string) : []`
abbrev pub options_of : Option Value → List Text
options_of (some (arr xs)) = strings xs
options_of _ = []

-- `o.replace(/\s+/g, "").startsWith("no-new-privileges")`
abbrev pub is_hardening : Text → Bool
is_hardening o = starts_with (filter (λ c. not (is_space c)) o) (codes "no-new-privileges")

unfoldable pub with_no_new_privileges : Option Value → List Text
with_no_new_privileges existing =
    if any is_hardening (options_of existing)
    then options_of existing
    else options_of existing ++ hardened_opt ∷ []

unfoldable pub sanitize_fields : Fields → Fields
unfolding with_no_new_privileges
sanitize_fields service =
    let unnamed = remove_key (codes "container_name") service in
    remove_key (codes "ports") (
      put (codes "security_opt")
        (arr (str_items (with_no_new_privileges (lookup (codes "security_opt") unnamed)))) unnamed)

unfoldable pub sanitize_service : Value → Value
unfolding sanitize_fields
sanitize_service (obj service) = obj (sanitize_fields service)
sanitize_service (arr xs) = arr xs
sanitize_service (str s) = str s
sanitize_service (num n) = num n
sanitize_service (bool b) = bool b
sanitize_service null = null

-- The services whose published ports were stripped.
unfoldable pub stripped_ports : Fields → List Text
stripped_ports end = []
stripped_ports (field name (obj service) rest) =
    let others = stripped_ports rest in
    if is_some (lookup (codes "ports") service) then name ∷ others else others
stripped_ports (field name _ rest) = stripped_ports rest

unfoldable pub healthchecks : Fields → Fields
healthchecks end = end
healthchecks (field name (obj service) rest) = elim (lookup (codes "healthcheck") service) [
  | none ↦ healthchecks rest
  | some h ↦ field name h (healthchecks rest)
]
healthchecks (field name _ rest) = healthchecks rest

abbrev pub image_of : Option Value → Option Text
image_of (some (str s)) = some s
image_of _ = none

unfoldable pub images : Fields → List (Text × Option Text)
images end = []
images (field name (obj service) rest) =
    (name, image_of (lookup (codes "image") service)) ∷ images rest
images (field name _ rest) = (name, none) ∷ images rest

pub record SanitizedCompose : Type 0 where
  pub doc : Fields
  pub services : List Text
  pub healthchecks_of : Fields
  pub images_of : List (Text × Option Text)
  pub stripped : List Text

abbrev pub services_of : Fields → Fields
services_of doc = as_record (lookup (codes "services") doc)

unfoldable pub sanitize_doc : Fields → Fields
unfolding sanitize_service
sanitize_doc parsed =
    let doc = remove_key (codes "version") parsed in
    put (codes "services") (obj (map_fields sanitize_service (services_of doc))) doc

unfoldable pub sanitize_compose : Value → SanitizedCompose
unfolding sanitize_doc
sanitize_compose parsed =
    let services = services_of (remove_key (codes "version") (as_record (some parsed))) in
    record {
      doc = sanitize_doc (as_record (some parsed));
      services = keys services;
      healthchecks_of = healthchecks services;
      images_of = images services;
      stripped = stripped_ports services;
    }
