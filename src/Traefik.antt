-- ===== src/Traefik.antt =====
-- backend/src/traefik/label-generator.service.ts: the labels by which Traefik routes the domains of a
-- deployment to its containers. A label's name is given by its parts, and `label_text` prints it.
pub mod Keys
pub mod Grouping
pub mod Wildcard
mod Tests
use willy.Prelude.{
  ℕ, ◌+◌, ◌-◌, Bool, true, false, not, ◌&&◌, ◌||◌, Option, none, some, List, [], ◌∷◌, ◌++◌, ◌==◌,
  ltb, leb, if◌then◌else◌, map, all, or_else, length, take, drop, contains, Text, codes, text_eq,
  join, to_decimal,
}

pub record DomainTarget : Type 0 where
  pub fqdn : Text
  pub target_service : Option Text
  pub target_port : Option ℕ
  pub host_port : Option ℕ

pub record RouteGroup : Type 0 where
  pub service : Option Text
  pub port : ℕ
  pub hosts : List Text
  pub host_port : Option ℕ

pub record Defaults : Type 0 where
  pub default_service : Option Text
  pub default_port : ℕ

pub record WebRoutesInput : Type 0 where
  pub deployment_id : Text
  pub router_prefix : Text
  pub network : Text
  pub priority : ℕ
  pub groups : List RouteGroup

-- `/[^a-zA-Z0-9-]/g`
abbrev pub is_name_unit : ℕ → Bool
is_name_unit c =
    (leb 97 c && leb c 122) || (leb 65 c && leb c 90) || (leb 48 c && leb c 57) || c == 45

abbrev pub sanitize : Text → Text
sanitize value = map (λ c. if is_name_unit c then c else 45) value

-- `endsWith`
unfoldable pub ends_with : Text → Text → Bool
ends_with s end = leb (length end) (length s) && text_eq (drop (length s - length end) s) end

unfoldable pub has_acme_resolver : Text → Bool
unfolding ends_with
has_acme_resolver base =
    not (text_eq base (codes "localhost")) && not (ends_with base (codes ".localhost"))

abbrev pub is_label : Text → Bool
is_label label = ltb 0 (length label) && not (contains 46 label)

unfoldable pub covered_by_wildcard : Text → Text → Bool
unfolding ends_with
covered_by_wildcard host base =
    if leb (length base) 0 || text_eq host base
    then text_eq host base
    else if not (ends_with host (46 ∷ base))
    then false
    else is_label (take (length host - length base - 1) host)

abbrev pub service_of : Defaults → DomainTarget → Option Text
service_of d t = elim d.default_service [
  | none ↦ none
  | some service ↦ some (or_else t.target_service service)
]

abbrev pub port_of : Defaults → DomainTarget → ℕ
port_of d t = or_else t.target_port d.default_port

abbrev pub number_text : Option ℕ → Text
number_text none = []
number_text (some n) = to_decimal n

abbrev pub key : Option Text → ℕ → Option ℕ → Text
key service port host_port =
    or_else service [] ++ 58 ∷ to_decimal port ++ 58 ∷ number_text host_port

abbrev pub key_of : Defaults → DomainTarget → Text
key_of d t = key (service_of d t) (port_of d t) t.host_port

-- The `Map` of the groups, in the order in which their keys were first set.
abbrev pub Groups : Type 0
Groups = List (Text × RouteGroup)

abbrev pub new_group : Defaults → DomainTarget → RouteGroup
new_group d t = record {
  service = service_of d t;
  port = port_of d t;
  hosts = t.fqdn ∷ [];
  host_port = t.host_port;
}

abbrev pub add_target : Defaults → DomainTarget → Groups → Groups
add_target d t [] = (key_of d t, new_group d t) ∷ []
add_target d t ((k, g) ∷ rest) =
    let after = add_target d t rest in
    if text_eq k (key_of d t)
    then (k, record g { hosts = g.hosts ++ t.fqdn ∷ [] }) ∷ rest
    else (k, g) ∷ after

unfoldable pub group_all : Defaults → List DomainTarget → Groups → Groups
group_all d [] groups = groups
group_all d (t ∷ ts) groups = group_all d ts (add_target d t groups)

unfoldable pub group_routes : List DomainTarget → Defaults → List RouteGroup
unfolding group_all
group_routes targets d = map (λ e. e.1) (group_all d targets [])

-- The name of a label: a fixed one, one of a router, or the port of a service.
pub data Label : Type 0 where
  enable docker_network owner : Label
  router : Text → Text → Label
  server_port : Text → Label

abbrev pub label_text : Label → Text
label_text Label.enable = codes "traefik.enable"
label_text Label.docker_network = codes "traefik.docker.network"
label_text Label.owner = codes "willy.deploymentId"
label_text (Label.router name part) = codes "traefik.http.routers." ++ name ++ 46 ∷ part
label_text (Label.server_port name) =
    codes "traefik.http.services." ++ name ++ codes ".loadbalancer.server.port"

abbrev pub router_name : Text → RouteGroup → Text
router_name prefix g = sanitize (
    prefix
    ++ 45 ∷ or_else g.service (codes "app")
    ++ 45 ∷ (elim g.host_port [ none ↦ to_decimal g.port | some p ↦ 112 ∷ to_decimal p ]))

abbrev pub rule_of : List Text → Text
rule_of hosts = join (codes " || ") (map (λ h. codes "Host(`" ++ h ++ codes "`)") hosts)

abbrev pub needs_resolver : Text → RouteGroup → Bool
needs_resolver base g =
    has_acme_resolver base && not (all (λ h. covered_by_wildcard h base) g.hosts)

abbrev pub router_labels : Text → WebRoutesInput → RouteGroup → List (Label × Text)
router_labels base input g =
    let name = router_name input.router_prefix g in
    (Label.router name (codes "rule"), rule_of g.hosts)
      ∷ (
        Label.router name (codes "entrypoints"),
        elim g.host_port [ none ↦ codes "websecure" | some p ↦ codes "port-" ++ to_decimal p ],
      )
      ∷ (Label.router name (codes "tls"), codes "true")
      ∷ (if needs_resolver base g
          then (Label.router name (codes "tls.certresolver"), codes "ovh") ∷ []
          else [])
    ++ (Label.router name (codes "middlewares"), codes "sec-headers@file")
      ∷ (Label.router name (codes "priority"), to_decimal input.priority)
      ∷ (Label.router name (codes "service"), name)
      ∷ (Label.server_port name, to_decimal g.port)
      ∷ []

-- The assignments in the order in which they are made: the later of two with one name stays.
unfoldable pub for_web_routes : Text → WebRoutesInput → List (Label × Text)
for_web_routes base input =
    (Label.enable, codes "true")
    ∷ (Label.docker_network, input.network)
    ∷ (Label.owner, input.deployment_id)
    ∷ all_labels input.groups
  where
    all_labels : List RouteGroup → List (Label × Text)
    all_labels [] = []
    all_labels (g ∷ gs) = router_labels base input g ++ all_labels gs

abbrev pub for_non_web : Text → List (Label × Text)
for_non_web deployment_id = (Label.owner, deployment_id) ∷ []
