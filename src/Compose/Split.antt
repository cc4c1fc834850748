-- ===== src/Compose/Split.antt =====
-- `splitComposeConfig` of backend/src/build/strategies/compose.service.ts: the base file of the pinned
-- services and the release file of the eligible ones. Parsing and printing YAML is a parameter.
use willy.Prelude.{
  ◌≡◌, ◌&&◌, ◌||◌, Bool, true, false, not, Option, none, some, List, [], ◌∷◌, ◌++◌, filter, Text,
  codes, text_mem, split, starts_with, Result, ok, err, if◌then◌else◌,
}
use willy.Compose.Values.{
  Value, Items, Fields, null, bool, num, str, arr, obj, nil, cons, end, field, as_record, lookup,
  put, remove_key, strings, str_items, map_fields,
}
use willy.Compose.Sanitize.{SanitizedCompose, sanitize_compose, services_of}
use willy.Compose.Classify.{ServiceSplit, classify, says_ro, mode_of, nonempty, is_true, is_text}

-- The library `yaml`: what it prints, it parses back.
pub record Yaml : Type 0 where
  pub parse : Text → Result Value
  pub print : Value → Text
  pub parse_print : (v : Value) → parse (print v) ≡ ok v

abbrev pub mem_of : List Text → Text → Bool
mem_of keep name = text_mem name keep

unfoldable pub filter_fields : (Text → Bool) → Fields → Fields
filter_fields p end = end
filter_fields p (field k v fs) =
    let rest = filter_fields p fs in if p k then field k v rest else rest

abbrev pub put_list : List Text → Fields → Fields
put_list [] service = remove_key (codes "depends_on") service
put_list (x ∷ xs) service = put (codes "depends_on") (arr (str_items (x ∷ xs))) service

abbrev pub put_object : Fields → Fields → Fields
put_object end service = remove_key (codes "depends_on") service
put_object (field k v fs) service = put (codes "depends_on") (obj (field k v fs)) service

abbrev pub prune_value : List Text → Option Value → Fields → Fields
prune_value keep (some (arr deps)) service = put_list (filter (mem_of keep) (strings deps)) service
prune_value keep (some (obj deps)) service = put_object (filter_fields (mem_of keep) deps) service
prune_value keep _ service = service

unfoldable pub prune_depends_on : List Text → Fields → Fields
unfolding filter_fields
prune_depends_on keep service = prune_value keep (lookup (codes "depends_on") service) service

-- `pickServices`: the names are those of services of the file.
unfoldable pub pick_services : Fields → List Text → Fields
pick_services all [] = end
pick_services all (name ∷ names) = elim (lookup name all) [
  | none ↦ pick_services all names
  | some v ↦ field name v (pick_services all names)
]

unfoldable pub base_service : List Text → Value → Value
unfolding prune_depends_on
base_service keep (obj service) = obj (prune_depends_on keep service)
base_service keep (arr xs) = arr xs
base_service keep (str s) = str s
base_service keep (num n) = num n
base_service keep (bool b) = bool b
base_service keep null = null

unfoldable pub build_base : Fields → List Text → Fields
unfolding base_service pick_services
build_base doc pinned =
    put (codes "services")
      (obj (map_fields (base_service pinned) (pick_services (services_of doc) pinned))) doc

-- `/^[./~]/`
abbrev pub is_path : Text → Bool
is_path s = starts_with s (codes ".") || starts_with s (codes "/") || starts_with s (codes "~")

abbrev pub named_source : Text → Option Text
named_source source = if nonempty source && not (is_path source) then some source else none

abbrev pub short_read_only : List Text → Option Text
short_read_only [] = none
short_read_only (source ∷ []) = none
short_read_only (source ∷ target ∷ rest) =
    if says_ro (mode_of rest) then named_source source else none

abbrev pub text_of : Option Value → Option Text
text_of (some (str s)) = some s
text_of _ = none

unfoldable pub read_only_named_volume : Value → Option Text
read_only_named_volume (str entry) = short_read_only (split 58 entry)
read_only_named_volume (obj mount) =
    if is_true (lookup (codes "read_only") mount)
      && is_text (codes "volume") (lookup (codes "type") mount)
    then text_of (lookup (codes "source") mount)
    else none
read_only_named_volume _ = none

abbrev pub external_volume : Text → Text → Value
external_volume name volume = obj (
    field (codes "external") (bool true)
      (field (codes "name") (str (codes "willy_" ++ name ++ codes "_" ++ volume)) end))

-- `if (named)`: an empty name is none.
abbrev pub add_volume : Text → Option Text → Fields → Fields
add_volume name (some (c ∷ s)) volumes = put (c ∷ s) (external_volume name (c ∷ s)) volumes
add_volume name _ volumes = volumes

unfoldable pub mount_volumes : Text → Items → Fields → Fields
unfolding read_only_named_volume
mount_volumes name nil volumes = volumes
mount_volumes name (cons mount mounts) volumes =
    mount_volumes name mounts (add_volume name (read_only_named_volume mount) volumes)

abbrev pub mounts_of : Option Value → Items
mounts_of (some (arr mounts)) = mounts
mounts_of _ = nil

unfoldable pub external_volumes : Text → Fields → Fields → Fields
unfolding mount_volumes
external_volumes name end volumes = volumes
external_volumes name (field k (obj service) rest) volumes =
    external_volumes name rest
      (mount_volumes name (mounts_of (lookup (codes "volumes") service)) volumes)
external_volumes name (field k _ rest) volumes = external_volumes name rest volumes

abbrev pub edge_network : Text
edge_network = codes "willy_edge"

abbrev pub release_base_net : Text
release_base_net = codes "willy_base"

abbrev pub memberships : Bool → List Text
memberships has_base =
    if has_base
    then codes "default" ∷ release_base_net ∷ edge_network ∷ []
    else codes "default" ∷ edge_network ∷ []

unfoldable pub release_service : List Text → Bool → Value → Value
unfolding prune_depends_on
release_service keep has_base (obj service) = obj (
    put (codes "networks") (arr (str_items (memberships has_base))) (prune_depends_on keep service))
release_service keep has_base (arr xs) = arr xs
release_service keep has_base (str s) = str s
release_service keep has_base (num n) = num n
release_service keep has_base (bool b) = bool b
release_service keep has_base null = null

abbrev pub copy_key : Text → Fields → Fields → Fields
copy_key key doc out = elim (lookup key doc) [ none ↦ out | some v ↦ put key v out ]

abbrev pub put_volumes : Fields → Fields → Fields
put_volumes end out = out
put_volumes (field k v fs) out = put (codes "volumes") (obj (field k v fs)) out

abbrev pub external : Fields → Fields
external more = field (codes "external") (bool true) more

abbrev pub release_networks : Text → Bool → Fields
release_networks name has_base = field edge_network (obj (external end)) (
    if has_base
    then field release_base_net
        (obj
          (external (field (codes "name") (str (codes "willy_" ++ name ++ codes "_default")) end)))
        end
    else end)

unfoldable pub build_release : Fields → List Text → Bool → Text → Fields
unfolding release_service pick_services external_volumes
build_release doc eligible has_base name =
    let picked = pick_services (services_of doc) eligible in
    put_volumes (external_volumes name picked end) (
      copy_key (codes "configs") doc (
        copy_key (codes "secrets") doc (
          field (codes "services") (obj (map_fields (release_service eligible has_base) picked))
            (field (codes "networks") (obj (release_networks name has_base)) end))))

pub record SplitCompose : Type 0 where
  pub sanitized : SanitizedCompose
  pub split_services : ServiceSplit
  pub base_yaml : Text
  pub release_yaml : Text

-- The split of the sanitized file, which is printed and parsed again.
unfoldable pub split_compose_config : Yaml → Text → Text → Result SplitCompose
unfolding build_base build_release
split_compose_config yaml raw name = elim (yaml.parse raw) [
  | err e ↦ err e
  | ok parsed ↦
      let sanitized = sanitize_compose parsed in
      elim (yaml.parse (yaml.print (obj sanitized.doc))) [
        | err e ↦ err e
        | ok again ↦
            let doc = as_record (some again) in
            let split_services = classify (services_of doc) in
            ok (record {
              sanitized = sanitized;
              split_services = split_services;
              base_yaml = yaml.print (obj (build_base doc split_services.pinned));
              release_yaml = yaml.print (
                  obj (
                    build_release doc split_services.eligible
                      (elim split_services.pinned [ [] ↦ false | p ∷ ps ↦ true ]) name));
            })
      ]
]
