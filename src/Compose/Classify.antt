-- ===== src/Compose/Classify.antt =====
-- `classifyComposeServices` of backend/src/build/strategies/compose.service.ts: which services are safe
-- to run in two copies at once, and which hold state that only one copy may have.
use willy.Prelude.{
  Bool, true, false, not, ◌||◌, Option, none, some, List, [], ◌∷◌, any, Text, codes, text_eq,
  text_mem, starts_with, split, is_some, if◌then◌else◌,
}
use willy.Compose.Values.{
  Value, Fields, bool, str, arr, obj, cons, end, field, as_record, lookup, keys, strings, any_item,
}

abbrev pub is_true : Option Value → Bool
is_true (some (bool b)) = b
is_true _ = false

-- `value === "…"`
abbrev pub is_text : Text → Option Value → Bool
is_text t (some (str s)) = text_eq s t
is_text t _ = false

-- `/(^|,)ro(,|$)/`: one of the options is "ro".
unfoldable pub says_ro : Text → Bool
says_ro mode = text_mem (codes "ro") (split 44 mode)

-- `parts[2] ?? ""` of the parts after the first two.
abbrev pub mode_of : List Text → Text
mode_of [] = []
mode_of (m ∷ more) = m

abbrev pub nonempty : Text → Bool
nonempty [] = false
nonempty (c ∷ s) = true

-- A short mount, by its parts.
abbrev pub short_pins : List Text → Bool
short_pins [] = false
short_pins (source ∷ []) = false
short_pins (source ∷ target ∷ rest) = if says_ro (mode_of rest) then false else nonempty source

abbrev pub has_source : Option Value → Bool
has_source (some (str s)) = nonempty s
has_source _ = false

unfoldable pub mount_pins : Value → Bool
unfolding says_ro
mount_pins (str entry) = short_pins (split 58 entry)
mount_pins (obj mount) =
    if is_true (lookup (codes "read_only") mount)
    then false
    else if is_text (codes "tmpfs") (lookup (codes "type") mount)
        || is_text (codes "npipe") (lookup (codes "type") mount)
    then false
    else if is_text (codes "bind") (lookup (codes "type") mount)
    then true
    else has_source (lookup (codes "source") mount)
mount_pins _ = true

abbrev pub network_names : Option Value → List Text
network_names (some (arr xs)) = strings xs
network_names (some (obj fs)) = keys fs
network_names _ = []

unfoldable pub uses_custom_network : Option Value → Bool
uses_custom_network networks = any (λ n. not (text_eq n (codes "default"))) (network_names networks)

abbrev pub shares_network : Option Value → Bool
shares_network (some (str mode)) =
    text_eq mode (codes "host")
    || starts_with mode (codes "container:")
    || starts_with mode (codes "service:")
shares_network _ = false

abbrev pub has_devices : Option Value → Bool
has_devices (some (arr (cons v xs))) = true
has_devices _ = false

abbrev pub volumes_pin : Option Value → Bool
volumes_pin none = false
volumes_pin (some (arr mounts)) = any_item mount_pins mounts
volumes_pin (some _) = true

abbrev pub is_privileged : Fields → Bool
is_privileged svc =
    is_true (lookup (codes "privileged") svc)
    || is_text (codes "host") (lookup (codes "pid") svc)
    || is_text (codes "host") (lookup (codes "ipc") svc)

unfoldable pub service_pins : Value → Bool
unfolding mount_pins uses_custom_network
service_pins (obj svc) =
    if shares_network (lookup (codes "network_mode") svc)
    then true
    else if is_privileged svc
    then true
    else if has_devices (lookup (codes "devices") svc)
    then true
    else if uses_custom_network (lookup (codes "networks") svc)
    then true
    else volumes_pin (lookup (codes "volumes") svc)
service_pins _ = true

pub record ServiceSplit : Type 0 where
  pub eligible : List Text
  pub pinned : List Text
  pub declares_restart : List Text
  pub one_shot : List Text

-- `asRecord(service).restart`
abbrev pub restart_of : Value → Option Value
restart_of service = lookup (codes "restart") (as_record (some service))

-- `restart === "no" || restart === false`
abbrev pub is_no : Option Value → Bool
is_no (some (str s)) = text_eq s (codes "no")
is_no (some (bool b)) = not b
is_no _ = false

abbrev pub cons_if : Bool → Text → List Text → List Text
cons_if b name names = if b then name ∷ names else names

unfoldable pub classify : Fields → ServiceSplit
unfolding service_pins
classify end = record { eligible = []; pinned = []; declares_restart = []; one_shot = [] }
classify (field name service rest) =
    let others = classify rest in
    record {
      eligible = cons_if (not (service_pins service)) name others.eligible;
      pinned = cons_if (service_pins service) name others.pinned;
      declares_restart = cons_if (is_some (restart_of service)) name others.declares_restart;
      one_shot = cons_if (is_no (restart_of service)) name others.one_shot;
    }
