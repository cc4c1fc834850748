-- ===== src/Compose/Tests.antt =====
-- A stack of a web service, a database and a migration, and instances of the theorems.
use willy.Prelude.{
  ◌≡◌, ◌↔◌, refl, true, false, not, filter, none, some, [], ◌∷◌, Text, codes, text_eq, text_mem,
  split, starts_with,
}
use willy.Compose.Values.{
  Value, Fields, str, arr, obj, end, field, lookup, put, remove_key, keys, strings, str_items,
  map_fields, any_item,
}
use willy.Compose.Sanitize.{
  sanitize_fields, sanitize_service, stripped_ports, sanitize_doc, sanitize_compose, services_of,
}
use willy.Compose.Classify.{classify, service_pins, mount_pins, uses_custom_network, says_ro}
use willy.Compose.Split.{
  build_base, build_release, read_only_named_volume, memberships, base_service, release_service,
  prune_depends_on, filter_fields, pick_services, external_volumes, mount_volumes,
}
use willy.Compose.Hardening.{Secures, sanitize_compose-IsHardened}
use willy.Compose.Pinning.{IsPinned}
use willy.Compose.Partition.{HasUniqueKeys, says, classify-says}
use willy.Compose.Files.{IsClosed}
use willy.Compose.Tiers.{HasNetworks, build_release-IsClosed, tiers_hold_split}

abbrev web_name : Text
web_name = codes "web"

abbrev db_name : Text
db_name = codes "db"

abbrev seed_name : Text
seed_name = codes "seed"

abbrev assets : Text
assets = codes "assets:/srv:ro"

-- It publishes a port, depends on the other two and mounts a volume read-only.
abbrev web : Fields
web = field (codes "container_name") (str (codes "shop")) (
    field (codes "ports") (arr (str_items (codes "80:80" ∷ []))) (
      field (codes "depends_on") (arr (str_items (db_name ∷ seed_name ∷ [])))
        (field (codes "volumes") (arr (str_items (assets ∷ []))) end)))

abbrev db : Fields
db = field (codes "volumes") (arr (str_items (codes "data:/var" ∷ []))) end

abbrev seed : Fields
seed = field (codes "restart") (str (codes "no")) end

abbrev three : Fields
three = field web_name (obj web) (field db_name (obj db) (field seed_name (obj seed) end))

abbrev shop : Fields
shop = field (codes "version") (str (codes "3")) (field (codes "services") (obj three) end)

shop_eligible : (classify three).eligible ≡ web_name ∷ seed_name ∷ []
unfolding classify service_pins mount_pins uses_custom_network says_ro text_eq lookup any_item
    str_items strings keys split
shop_eligible = refl

shop_pinned : (classify three).pinned ≡ db_name ∷ []
unfolding classify service_pins mount_pins uses_custom_network says_ro text_eq lookup any_item
    str_items strings keys split
shop_pinned = refl

shop_stripped : stripped_ports three ≡ web_name ∷ []
unfolding stripped_ports text_eq lookup
shop_stripped = refl

three-HasUniqueKeys : HasUniqueKeys three
unfolding keys text_eq
three-HasUniqueKeys = (refl, (refl, (refl, tt)))

shop-HasUniqueKeys : HasUniqueKeys (services_of shop)
unfolding keys text_eq lookup
shop-HasUniqueKeys = (refl, (refl, (refl, tt)))

seed_sanitized :
    lookup seed_name (services_of (sanitize_compose (obj shop)).doc)
    ≡ some (obj (sanitize_fields seed))
unfolding sanitize_compose sanitize_doc map_fields sanitize_service lookup text_eq put remove_key
seed_sanitized = refl

sanitize_compose-IsHardened_example :
    (lookup (codes "container_name") (sanitize_fields seed) ≡ none)
    × (lookup (codes "ports") (sanitize_fields seed) ≡ none)
    × (before : Fields) × (lookup seed_name (services_of shop) ≡ some (obj before))
    × Secures before (sanitize_fields seed)
sanitize_compose-IsHardened_example =
    sanitize_compose-IsHardened (obj shop) seed_name (sanitize_fields seed) seed_sanitized

classify-says_example :
    ((text_mem db_name (classify three).eligible ≡ true)
      ↔ ((v : Value) × (lookup db_name three ≡ some v) × (¬ IsPinned v)))
    × ((text_mem db_name (classify three).pinned ≡ true)
        ↔ ((v : Value) × (lookup db_name three ≡ some v) × IsPinned v))
classify-says_example = classify-says three db_name three-HasUniqueKeys

seed_is_one_shot : text_mem seed_name (classify three).one_shot ≡ true
unfolding classify lookup text_eq
seed_is_one_shot = refl

assets_kept : mount_pins (str assets) ≡ false
unfolding mount_pins says_ro text_eq split
assets_kept = refl

db_in_base : lookup db_name (services_of (build_base shop (db_name ∷ []))) ≡ some (obj db)
unfolding build_base map_fields base_service pick_services prune_depends_on lookup text_eq put
db_in_base = refl

-- The migration in the release file, on the three networks.
abbrev released_seed : Fields
released_seed =
    field (codes "restart") (str (codes "no"))
      (field (codes "networks") (arr (str_items (memberships true))) end)

seed_in_release :
    lookup seed_name
      (services_of (build_release shop (web_name ∷ seed_name ∷ []) true (codes "shop")))
    ≡ some (obj released_seed)
unfolding build_release map_fields release_service pick_services prune_depends_on filter_fields
    external_volumes mount_volumes read_only_named_volume lookup text_eq put says_ro strings
    str_items split starts_with
seed_in_release = refl

build_release-IsClosed_example :
    IsClosed (web_name ∷ seed_name ∷ []) released_seed
    × (nets : Fields) × (lookup
          (codes "networks")
          (build_release shop (web_name ∷ seed_name ∷ []) true (codes "shop"))
        ≡ some (obj nets))
    × HasNetworks true (codes "shop") released_seed nets
build_release-IsClosed_example =
    build_release-IsClosed shop (web_name ∷ seed_name ∷ []) true (codes "shop") seed_name
      released_seed seed_in_release

tiers_hold_split_example :
    (keys (services_of (build_base shop (classify (services_of shop)).pinned))
      ≡ filter (λ n. says service_pins (lookup n (services_of shop))) (keys (services_of shop)))
    × (keys (
          services_of
            (build_release shop (classify (services_of shop)).eligible true (codes "shop")))
        ≡ filter
            (λ n. says (λ v. not (service_pins v)) (lookup n (services_of shop)))
            (keys (services_of shop)))
tiers_hold_split_example = tiers_hold_split shop true (codes "shop") shop-HasUniqueKeys
