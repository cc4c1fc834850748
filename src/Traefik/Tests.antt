-- ===== src/Traefik/Tests.antt =====
-- Three domains of a stack and a base domain, and instances of the theorems.
use willy.Prelude.{
  ℕ, ◌≡◌, ◌↔◌, refl, true, false, Option, none, some, List, [], ◌∷◌, map, filter, count, Text,
  codes, text_eq, to_decimal,
}
use willy.Traefik.{
  DomainTarget, RouteGroup, Defaults, group_routes, group_all, covered_by_wildcard, ends_with,
  router_name,
}
use willy.Traefik.Grouping.{hosts_for, all_hosts, asks_for, group_routes-groups}
use willy.Traefik.Wildcard.{IsCovered, covered_by_wildcard_iff}

abbrev target : Text → Option Text → Option ℕ → DomainTarget
target fqdn service port = record {
  fqdn = fqdn;
  target_service = service;
  target_port = port;
  host_port = none;
}

abbrev targets : List DomainTarget
targets =
    target (codes "a.x") none none
    ∷ target (codes "b.x") (some (codes "api")) (some 80)
    ∷ target (codes "c.x") none (some 80)
    ∷ []

abbrev defaults : Defaults
defaults = record { default_service = some (codes "web"); default_port = 80 }

grouped :
    map (λ g. g.hosts) (group_routes targets defaults)
    ≡ (codes "a.x" ∷ codes "c.x" ∷ []) ∷ (codes "b.x" ∷ []) ∷ []
unfolding group_routes group_all to_decimal text_eq
grouped = refl

group_routes-groups_example :
    (hosts_for defaults (codes "web") 80 none (group_routes targets defaults)
      ≡ map (λ t. t.fqdn) (filter (asks_for defaults (codes "web") 80 none) targets))
    × (count (text_eq (codes "c.x")) (all_hosts defaults (group_routes targets defaults))
        ≡ count (λ t. text_eq (codes "c.x") t.fqdn) targets)
group_routes-groups_example =
    group_routes-groups defaults targets (codes "web") 80 none (text_eq (codes "c.x"))

two_labels : covered_by_wildcard (codes "a.b.x") (codes "x") ≡ false
unfolding covered_by_wildcard ends_with text_eq
two_labels = refl

covered_by_wildcard_iff_example :
    (covered_by_wildcard (codes "a.x") (codes "x") ≡ true) ↔ IsCovered (codes "a.x") (codes "x")
covered_by_wildcard_iff_example = covered_by_wildcard_iff (codes "a.x") (codes "x") refl

-- Two services whose names differ in a character that a router's name does not keep.
abbrev group_of : Text → RouteGroup
group_of service = record { service = some service; port = 80; hosts = []; host_port = none }

one_router :
    router_name (codes "shop") (group_of (codes "my_api"))
    ≡ router_name (codes "shop") (group_of (codes "my-api"))
unfolding to_decimal
one_router = refl
