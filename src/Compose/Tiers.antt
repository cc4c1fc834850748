-- ===== src/Compose/Tiers.antt =====
-- The base file and the release file of a split document.
use willy.Prelude.{
  ◌≡◌, refl, ap, sym, ◌∙◌, Bool, true, false, not, filter, none, some, List, [], ◌∷◌, ◌++◌, Text,
  codes, text_eq, text_eq_refl, Bool-cases, Option-cases, inl, inr, is_some,
}
use willy.Compose.Values.{
  Value, Fields, bool, str, arr, obj, end, field, as_record, lookup, keys, str_items, map_fields,
  lookup-put_same, lookup-put_other, lookup-map_fields, keys-map_fields,
}
use willy.Compose.Sanitize.{services_of}
use willy.Compose.Classify.{classify, service_pins}
use willy.Compose.Split.{
  pick_services, base_service, build_base, external_volumes, memberships, release_service, copy_key,
  put_volumes, release_networks, build_release,
}
use willy.Compose.Partition.{HasUniqueKeys, says, classify-in_order}
use willy.Compose.Files.{IsClosed, base_from, release_from}

services-build_base :
    (doc : Fields) (pinned : List Text)
    → services_of (build_base doc pinned)
      ≡ map_fields (base_service pinned) (pick_services (services_of doc) pinned)
unfolding build_base
services-build_base doc pinned = ap as_record (
    lookup-put_same (codes "services")
      (obj (map_fields (base_service pinned) (pick_services (services_of doc) pinned))) doc)

lookup-put_volumes :
    (other : Text) (vs out : Fields)
    → text_eq (codes "volumes") other ≡ false
    → lookup other (put_volumes vs out) ≡ lookup other out
lookup-put_volumes other end out n = refl
lookup-put_volumes other (field k v fs) out n =
    lookup-put_other (codes "volumes") other (obj (field k v fs)) out n

lookup-copy_key :
    (other key : Text) (doc out : Fields)
    → text_eq key other ≡ false
    → lookup other (copy_key key doc out) ≡ lookup other out
lookup-copy_key other key doc out n = elim (Option-cases (lookup key doc)) [
  | inl e ↦ rw (e, copy_key)
  | inr (v, e) ↦ rw (e, copy_key) (lookup-put_other key other v out n)
]

-- The keys that a release file is built with are not those that are added to it.
IsFirst : Text → Type 0
IsFirst other =
    (text_eq (codes "volumes") other ≡ false)
    × (text_eq (codes "configs") other ≡ false)
    × (text_eq (codes "secrets") other ≡ false)

first_fields : Fields → List Text → Bool → Text → Fields
first_fields doc eligible has_base name =
    field (codes "services")
      (obj
        (map_fields (release_service eligible has_base) (pick_services (services_of doc) eligible)))
      (field (codes "networks") (obj (release_networks name has_base)) end)

lookup-build_release :
    (other : Text) (doc : Fields) (eligible : List Text) (has_base : Bool) (name : Text)
    → IsFirst other
    → lookup other (build_release doc eligible has_base name)
      ≡ lookup other (first_fields doc eligible has_base name)
unfolding build_release first_fields IsFirst
lookup-build_release other doc eligible has_base name (v, c, s) =
    let picked = pick_services (services_of doc) eligible in
    let first = first_fields doc eligible has_base name in
    let with_secrets = copy_key (codes "secrets") doc first in
    lookup-put_volumes other (external_volumes name picked end)
      (copy_key (codes "configs") doc with_secrets) v
    ∙ (lookup-copy_key other (codes "configs") doc with_secrets c
        ∙ lookup-copy_key other (codes "secrets") doc first s)

services-build_release :
    (doc : Fields) (eligible : List Text) (has_base : Bool) (name : Text)
    → services_of (build_release doc eligible has_base name)
      ≡ map_fields (release_service eligible has_base) (pick_services (services_of doc) eligible)
unfolding text_eq lookup first_fields IsFirst
services-build_release doc eligible has_base name =
    ap as_record
      (lookup-build_release (codes "services") doc eligible has_base name (refl, refl, refl))

networks-build_release :
    (doc : Fields) (eligible : List Text) (has_base : Bool) (name : Text)
    → lookup (codes "networks") (build_release doc eligible has_base name)
      ≡ some (obj (release_networks name has_base))
unfolding text_eq lookup first_fields IsFirst
networks-build_release doc eligible has_base name =
    lookup-build_release (codes "networks") doc eligible has_base name (refl, refl, refl)

-- A service of the base file depends on pinned services only, so that compose finds what it names.
pub build_base-IsClosed :
    (doc : Fields) (pinned : List Text) (name : Text) (svc : Fields)
    → lookup name (services_of (build_base doc pinned)) ≡ some (obj svc)
    → IsClosed pinned svc
build_base-IsClosed doc pinned name svc h =
    let picked = pick_services (services_of doc) pinned in
    let h' : lookup name (map_fields (base_service pinned) picked) ≡ some (obj svc) =
      rw (← services-build_base doc pinned) h in
    base_from pinned (lookup name picked) svc
      (sym (lookup-map_fields (base_service pinned) name picked) ∙ h')

-- The networks that a service of the release file is on, and what the file says of them: the edge network
-- is the one of that name, and "willy_base" the default network of the base project.
abbrev pub HasNetworks : Bool → Text → Fields → Fields → Type 0
HasNetworks false deployment svc nets =
    (lookup (codes "networks") svc
      ≡ some (arr (str_items (codes "default" ∷ codes "willy_edge" ∷ []))))
    × (lookup (codes "willy_edge") nets ≡ some (obj (field (codes "external") (bool true) end)))
    × (lookup (codes "willy_base") nets ≡ none)
HasNetworks true deployment svc nets =
    (lookup (codes "networks") svc
      ≡ some (arr (str_items (codes "default" ∷ codes "willy_base" ∷ codes "willy_edge" ∷ []))))
    × (lookup (codes "willy_edge") nets ≡ some (obj (field (codes "external") (bool true) end)))
    × (lookup (codes "willy_base") nets
        ≡ some (
            obj (
              field (codes "external") (bool true) (
                field (codes "name") (str (codes "willy_" ++ deployment ++ codes "_default"))
                  end))))

networks_of :
    (has_base : Bool) (deployment : Text) (svc : Fields)
    → lookup (codes "networks") svc ≡ some (arr (str_items (memberships has_base)))
    → HasNetworks has_base deployment svc (release_networks deployment has_base)
unfolding text_eq lookup
networks_of false deployment svc h = (h, refl, refl)
networks_of true deployment svc h = (h, refl, refl)

-- A service of the release file depends on eligible services only. It is on its own default network, on
-- the edge network and, where there is a base project, on that project's default network, and the file
-- declares the latter two as networks that exist outside it.
pub build_release-IsClosed :
    (doc : Fields) (eligible : List Text) (has_base : Bool) (deployment name : Text) (svc : Fields)
    → lookup name (services_of (build_release doc eligible has_base deployment)) ≡ some (obj svc)
    → IsClosed eligible svc
      × (nets : Fields) × (lookup
            (codes "networks")
            (build_release doc eligible has_base deployment)
          ≡ some (obj nets))
      × HasNetworks has_base deployment svc nets
build_release-IsClosed doc eligible has_base deployment name svc h =
    let picked = pick_services (services_of doc) eligible in
    let h' : lookup name (map_fields (release_service eligible has_base) picked) ≡ some (obj svc) =
      rw (← services-build_release doc eligible has_base deployment) h in
    let (closed, networks) =
      release_from eligible has_base (lookup name picked) svc
        (sym (lookup-map_fields (release_service eligible has_base) name picked) ∙ h') in
    (
      closed,
      release_networks deployment has_base,
      networks-build_release doc eligible has_base deployment,
      networks_of has_base deployment svc networks,
    )

-- Every name is that of a field.
abbrev IsPresent : Fields → List Text → Type 0
IsPresent all [] = Unit
IsPresent all (n ∷ ns) = (is_some (lookup n all) ≡ true) × IsPresent all ns

keys-pick :
    (all : Fields) (names : List Text)
    → IsPresent all names
    → keys (pick_services all names) ≡ names
unfolding pick_services keys
keys-pick all [] h = refl
keys-pick all (n ∷ ns) (here, more) = elim (Option-cases (lookup n all)) [
  | inl e ↦ let h' : false ≡ true = rw e at here in absurd (cc h')
  | inr (v, e) ↦ rw (e, pick_services, keys) (ap (λ xs. n ∷ xs) (keys-pick all ns more))
]

present_in :
    (k n : Text) (v : Value) (fs : Fields)
    → is_some (lookup n fs) ≡ true
    → is_some (lookup n (field k v fs)) ≡ true
unfolding lookup
present_in k n v fs h = elim (Bool-cases (text_eq k n)) [ inl y ↦ rw y | inr m ↦ rw m h ]

IsPresent-field :
    (k : Text) (v : Value) (fs : Fields) (names : List Text)
    → IsPresent fs names
    → IsPresent (field k v fs) names
IsPresent-field k v fs [] h = tt
IsPresent-field k v fs (n ∷ ns) (here, more) =
    (present_in k n v fs here, IsPresent-field k v fs ns more)

first_present : (k : Text) (v : Value) (fs : Fields) → is_some (lookup k (field k v fs)) ≡ true
unfolding lookup
first_present k v fs = rw (text_eq_refl k)

classify-IsPresent :
    (fs : Fields) → IsPresent fs (classify fs).eligible × IsPresent fs (classify fs).pinned
unfolding classify
classify-IsPresent end = (tt, tt)
classify-IsPresent (field k v fs) =
    let (e, p) = classify-IsPresent fs in
    let e' = IsPresent-field k v fs (classify fs).eligible e in
    let p' = IsPresent-field k v fs (classify fs).pinned p in
    let here = first_present k v fs in
    elim (Bool-cases (service_pins v)) [
      | inl y ↦ rw y (e', (here, p'))
      | inr n ↦ rw n ((here, e'), p')
    ]

-- In a file without a key twice, the base file has exactly the services that are pinned and the release
-- file exactly those that are not, each in the order of the compose file.
pub tiers_hold_split :
    (doc : Fields) (has_base : Bool) (deployment : Text)
    → HasUniqueKeys (services_of doc)
    → (keys (services_of (build_base doc (classify (services_of doc)).pinned))
        ≡ filter (λ n. says service_pins (lookup n (services_of doc))) (keys (services_of doc)))
      × (keys (
            services_of
              (build_release doc (classify (services_of doc)).eligible has_base deployment))
          ≡ filter
              (λ n. says (λ v. not (service_pins v)) (lookup n (services_of doc)))
              (keys (services_of doc)))
tiers_hold_split doc has_base deployment unique =
    let fs = services_of doc in
    let s = classify fs in
    let (e, p) = classify-IsPresent fs in
    let (in_order_e, in_order_p) = classify-in_order fs unique in
    (
      rw (services-build_base doc s.pinned, keys-map_fields (base_service s.pinned))
            (keys-pick fs s.pinned p)
          ∙ in_order_p,
      rw
            (
              services-build_release doc s.eligible has_base deployment,
              keys-map_fields (release_service s.eligible has_base),
            )
            (keys-pick fs s.eligible e)
          ∙ in_order_e,
    )
