-- ===== src/Domains/Routes.antt =====
-- `expandDomainRoutes` of domains.service.ts: the flat Traefik routes, primary first.
use willy.Prelude.{
  ℕ, ◌≡◌, refl, Bool, true, false, not, ◌&&◌, Option, none, some, List, [], ◌∷◌, ◌++◌, ◌==◌,
  if◌then◌else◌, or_else, filter, sort_by, sort_insert, Text, arith, append_assoc, append-nil, map,
  sym,
}
use willy.Domains.{Domain}

pub record Binding : Type 0 where
  pub domain_id : ℕ
  pub host_port : ℕ
  pub target_service : Option Text
  pub target_port : Option ℕ

pub record DomainRoute : Type 0 where
  pub fqdn : Text
  pub target_service : Option Text
  pub target_port : Option ℕ
  pub host_port : Option ℕ
  pub is_primary : Bool

-- `Map<string, Binding[]>`, with `get` and `set`.
abbrev pub BindingMap : Type 0
BindingMap = List (ℕ × List Binding)

map_get : ℕ → BindingMap → Option (List Binding)
map_get k [] = none
map_get k ((j, v) ∷ m) = if j == k then some v else map_get k m

map_set : ℕ → List Binding → BindingMap → BindingMap
map_set k v [] = (k, v) ∷ []
map_set k v ((j, w) ∷ m) = if j == k then (k, v) ∷ m else (j, w) ∷ map_set k v m

-- The first loop.
group_bindings : List Binding → BindingMap → BindingMap
unfolding map_get map_set
group_bindings [] m = m
group_bindings (b ∷ bs) m =
    group_bindings bs (map_set b.domain_id (or_else (map_get b.domain_id m) [] ++ b ∷ []) m)

abbrev web_entry : Domain → DomainRoute
web_entry d = record {
  fqdn = d.fqdn;
  target_service = d.target_service;
  target_port = d.target_port;
  host_port = none;
  is_primary = d.is_primary;
}

abbrev port_entry : Domain → Binding → DomainRoute
port_entry d b = record {
  fqdn = d.fqdn;
  target_service = b.target_service;
  target_port = b.target_port;
  host_port = some b.host_port;
  is_primary = d.is_primary;
}

push_bindings : Domain → List Binding → List DomainRoute → List DomainRoute
push_bindings d [] routes = routes
push_bindings d (b ∷ bs) routes = push_bindings d bs (routes ++ port_entry d b ∷ [])

-- The second loop.
push_domains : BindingMap → List Domain → List DomainRoute → List DomainRoute
unfolding map_get push_bindings
push_domains m [] routes = routes
push_domains m (d ∷ ds) routes = push_domains m ds (
    push_bindings d (or_else (map_get d.id m) [])
      (if d.web_route then routes ++ web_entry d ∷ [] else routes))

abbrev goes_before : DomainRoute → DomainRoute → Bool
goes_before a b = a.is_primary && not b.is_primary

pub expand_domain_routes : List Domain → List Binding → List DomainRoute
unfolding group_bindings push_domains sort_by
expand_domain_routes domain_rows binding_rows =
    sort_by goes_before (push_domains (group_bindings binding_rows []) domain_rows [])

-- What each domain contributes: its web route, if it has one, and a route for each binding.
abbrev pub routes_of : List Binding → Domain → List DomainRoute
routes_of bindings d =
    (if d.web_route then web_entry d ∷ [] else [])
    ++ map (port_entry d) (filter (λ b. b.domain_id == d.id) bindings)

abbrev pub all_routes : List Binding → List Domain → List DomainRoute
all_routes bindings [] = []
all_routes bindings (d ∷ ds) = routes_of bindings d ++ all_routes bindings ds

get-set :
    (k j : ℕ) (v : List Binding) (m : BindingMap)
    → map_get j (map_set k v m) ≡ (if k == j then some v else map_get j m)
unfolding map_get map_set
get-set k j v [] = refl
get-set k j v ((i, w) ∷ m) = ground (arith, get-set k j v m)

get-group :
    (k : ℕ) (bs : List Binding) (m : BindingMap)
    → or_else (map_get k (group_bindings bs m)) []
      ≡ or_else (map_get k m) [] ++ filter (λ b. b.domain_id == k) bs
unfolding group_bindings
get-group k [] m = sym (append-nil _)
get-group k (b ∷ bs) m =
    let j = b.domain_id in
    let m' = map_set j (or_else (map_get j m) [] ++ b ∷ []) m in
    grind
      (arith, get-group k bs m', get-set j k (or_else (map_get j m) [] ++ b ∷ []) m, append_assoc)

push_bindings-map :
    (d : Domain) (bs : List Binding) (routes : List DomainRoute)
    → push_bindings d bs routes ≡ routes ++ map (port_entry d) bs
unfolding push_bindings
push_bindings-map d [] routes = sym (append-nil _)
push_bindings-map d (b ∷ bs) routes = simp (push_bindings-map d bs, append_assoc)

web-append :
    (b : Bool) (routes : List DomainRoute) (r : DomainRoute)
    → (if b then routes ++ r ∷ [] else routes) ≡ routes ++ (if b then r ∷ [] else [])
web-append true routes r = refl
web-append false routes r = sym (append-nil routes)

push_domains-all :
    (bindings : List Binding) (ds : List Domain) (routes : List DomainRoute)
    → push_domains (group_bindings bindings []) ds routes ≡ routes ++ all_routes bindings ds
unfolding push_domains
push_domains-all bindings [] routes = sym (append-nil _)
push_domains-all bindings (d ∷ ds) routes = simp (
  push_domains-all bindings ds,
  push_bindings-map,
  get-group d.id bindings [],
  append_assoc,
  web-append,
)

-- Stable sorting by a flag puts the flagged elements first and keeps the order within both groups.
insert-primary :
    (r : DomainRoute) (rs : List DomainRoute)
    → r.is_primary ≡ true
    → sort_insert goes_before r rs ≡ r ∷ rs
insert-primary r [] h = refl
insert-primary r (x ∷ rs) h = ground arith

abbrev others : List DomainRoute → List DomainRoute
others = filter (λ x. not x.is_primary)

insert-others :
    (r : DomainRoute) (rs : List DomainRoute)
    → sort_insert goes_before r (others rs) ≡ r ∷ others rs
insert-others r [] = refl
insert-others r (x ∷ rs) = ground (arith, insert-others r rs)

insert-behind :
    (r : DomainRoute) (rs all : List DomainRoute)
    → r.is_primary ≡ false
    → sort_insert goes_before r (filter (λ x. x.is_primary) rs ++ others all)
      ≡ filter (λ x. x.is_primary) rs ++ r ∷ others all
insert-behind r [] all h = insert-others r all
insert-behind r (x ∷ rs) all h = ground (arith, insert-behind r rs all h)

sort_by-groups :
    (rs : List DomainRoute) → sort_by goes_before rs ≡ filter (λ x. x.is_primary) rs ++ others rs
unfolding sort_by
sort_by-groups [] = refl
sort_by-groups (r ∷ rs) = ground (
  arith,
  sort_by-groups rs,
  insert-primary r (filter (λ x. x.is_primary) rs ++ others rs),
  insert-behind r rs rs,
)

-- The routes of a deployment are those of its domains, in order, each domain's web route before its
-- port bindings and no binding lost, with the primary domain's routes moved to the front.
pub expand_domain_routes_groups :
    (ds : List Domain) (bindings : List Binding)
    → expand_domain_routes ds bindings
      ≡ filter (λ r. r.is_primary) (all_routes bindings ds)
        ++ filter (λ r. not r.is_primary) (all_routes bindings ds)
unfolding expand_domain_routes
expand_domain_routes_groups ds bindings =
    rw (push_domains-all bindings ds []) (sort_by-groups (all_routes bindings ds))
