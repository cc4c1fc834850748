-- ===== src/Traefik/Grouping.antt =====
-- The groups of the routes, described without the loop.
use willy.Prelude.{
  ℕ, ◌+◌, All, count, arith, ◌≡◌, refl, sym, ap, ◌∙◌, inl, inr, Bool, true, false, List, [], ◌∷◌,
  ◌++◌, ◌==◌, ◌&&◌, or_else, Option, none, some, Option-cases, if◌then◌else◌, map, filter, Text,
  text_eq, text_eq_sound, text_eq_refl, Bool-cases, append_assoc, append-nil,
}
use willy.Traefik.{
  DomainTarget, RouteGroup, Defaults, service_of, port_of, key, key_of, Groups, add_target,
  group_all, group_routes,
}
use willy.Traefik.Keys.{same_port, key-parts}

-- The hosts of a key.
abbrev pub hosts_at : Text → Groups → List Text
hosts_at k [] = []
hosts_at k ((j, g) ∷ rest) = if text_eq j k then g.hosts else hosts_at k rest

count-append :
    {A : Type 0} (p : A → Bool) (xs ys : List A) → count p (xs ++ ys) ≡ count p xs + count p ys
count-append p [] ys = omega arith
count-append p (x ∷ xs) ys = ground (arith, count-append p xs ys)

module _ (d : Defaults) where
  abbrev pub at_key : Text → DomainTarget → Bool
  at_key k t = text_eq (key_of d t) k

  add-same :
      (t : DomainTarget) (groups : Groups)
      → hosts_at (key_of d t) (add_target d t groups) ≡ hosts_at (key_of d t) groups ++ t.fqdn ∷ []
  add-same t [] = rw (text_eq_refl (key_of d t)) refl
  add-same t ((k, g) ∷ rest) = elim (Bool-cases (text_eq k (key_of d t))) [
    | inl y ↦ rw (y, y) refl
    | inr n ↦ rw (n, n) (add-same t rest)
  ]

  add-other :
      (k : Text) (t : DomainTarget) (groups : Groups)
      → at_key k t ≡ false
      → hosts_at k (add_target d t groups) ≡ hosts_at k groups
  add-other k t [] h = rw h refl
  add-other k t ((j, g) ∷ rest) h = elim (Bool-cases (text_eq j (key_of d t))) [
    | inl y ↦ let e : j ≡ key_of d t = text_eq_sound j (key_of d t) y in rw (y, e, h) refl
    | inr n ↦ elim (Bool-cases (text_eq j k)) [
      | inl y ↦ rw (n, y) refl
      | inr m ↦ rw (n, m) (add-other k t rest h)
    ]
  ]

  hosts-group_all :
      (k : Text) (ts : List DomainTarget) (groups : Groups)
      → hosts_at k (group_all d ts groups)
        ≡ hosts_at k groups ++ map (λ t. t.fqdn) (filter (at_key k) ts)
  unfolding group_all
  hosts-group_all k [] groups = sym (append-nil (hosts_at k groups))
  hosts-group_all k (t ∷ ts) groups = elim (Bool-cases (at_key k t)) [
    | inr n ↦ rw (hosts-group_all k ts (add_target d t groups), n, add-other k t groups n) refl
    | inl y ↦
        let e : key_of d t ≡ k = text_eq_sound (key_of d t) k y in
        let same : hosts_at k (add_target d t groups) ≡ hosts_at k groups ++ t.fqdn ∷ [] =
          rw (← e) (add-same t groups) in
        rw (hosts-group_all k ts (add_target d t groups), y, same)
          (append_assoc (hosts_at k groups) (t.fqdn ∷ [])
            (map (λ t. t.fqdn) (filter (at_key k) ts)))
  ]

  -- The groups are put under their own keys.
  abbrev IsKeyed : Text × RouteGroup → Type 0
  IsKeyed (k, g) = k ≡ key g.service g.port g.host_port

  add-IsKeyed :
      (t : DomainTarget) (groups : Groups)
      → All IsKeyed groups
      → All IsKeyed (add_target d t groups)
  add-IsKeyed t [] h = (refl, tt)
  add-IsKeyed t ((k, g) ∷ rest) (here, more) = elim (Bool-cases (text_eq k (key_of d t))) [
    | inl y ↦ rw y (here, more)
    | inr n ↦ rw n (here, add-IsKeyed t rest more)
  ]

  All-IsKeyed :
      (ts : List DomainTarget) (groups : Groups)
      → All IsKeyed groups
      → All IsKeyed (group_all d ts groups)
  unfolding group_all
  All-IsKeyed [] groups h = h
  All-IsKeyed (t ∷ ts) groups h = All-IsKeyed ts (add_target d t groups) (add-IsKeyed t groups h)

  -- The hosts of the group with a key, and the hosts of all groups.
  abbrev pub hosts_in : Text → List RouteGroup → List Text
  hosts_in k [] = []
  hosts_in k (g ∷ gs) =
      if text_eq (key g.service g.port g.host_port) k then g.hosts else hosts_in k gs

  abbrev pub all_hosts : List RouteGroup → List Text
  all_hosts [] = []
  all_hosts (g ∷ gs) = g.hosts ++ all_hosts gs

  keyed_hosts :
      (k : Text) (groups : Groups)
      → All IsKeyed groups
      → hosts_in k (map (λ e. e.1) groups) ≡ hosts_at k groups
  keyed_hosts k [] h = refl
  keyed_hosts k ((j, g) ∷ rest) (here, more) = elim (Bool-cases (text_eq j k)) [
    | inl y ↦
        let y' : text_eq (key g.service g.port g.host_port) k ≡ true = rw (← here) y in
        rw (y, y') refl
    | inr n ↦
        let n' : text_eq (key g.service g.port g.host_port) k ≡ false = rw (← here) n in
        rw (n, n') (keyed_hosts k rest more)
  ]

  module _ (p : Text → Bool) where
    abbrev tally : Groups → ℕ
    tally groups = count p (all_hosts (map (λ e. e.1) groups))

    abbrev one : Bool → ℕ
    one b = if b then 1 else 0

    add-tally :
        (t : DomainTarget) (groups : Groups)
        → tally (add_target d t groups) ≡ one (p t.fqdn) + tally groups
    add-tally t [] = ground arith
    add-tally t ((k, g) ∷ rest) = elim (Bool-cases (text_eq k (key_of d t))) [
      | inl y ↦
          rw
            (
              y,
              count-append p (g.hosts ++ t.fqdn ∷ []) (all_hosts (map (λ e. e.1) rest)),
              count-append p g.hosts (t.fqdn ∷ []),
              count-append p g.hosts (all_hosts (map (λ e. e.1) rest)),
            )
            (ground arith)
      | inr n ↦
          rw
            (
              n,
              count-append p g.hosts (all_hosts (map (λ e. e.1) (add_target d t rest))),
              count-append p g.hosts (all_hosts (map (λ e. e.1) rest)),
              add-tally t rest,
            )
            (omega arith)
    ]

    all-tally :
        (ts : List DomainTarget) (groups : Groups)
        → tally (group_all d ts groups) ≡ count (λ t. p t.fqdn) ts + tally groups
    unfolding group_all
    all-tally [] groups = omega arith
    all-tally (t ∷ ts) groups =
        rw (all-tally ts (add_target d t groups), add-tally t groups) (ground arith)

  -- What a target asks for: its service and port, or the defaults, and its host port. A deployment without
  -- a default service has none, which is the empty text here.
  abbrev pub wanted_service : DomainTarget → Text
  wanted_service t = elim d.default_service [
    | none ↦ []
    | some service ↦ or_else t.target_service service
  ]

  abbrev pub asks_for : Text → ℕ → Option ℕ → DomainTarget → Bool
  asks_for service port host_port t =
      text_eq (wanted_service t) service
      && (or_else t.target_port d.default_port == port && same_port t.host_port host_port)

  -- The hosts of the group of a service, port and host port.
  abbrev pub hosts_for : Text → ℕ → Option ℕ → List RouteGroup → List Text
  hosts_for service port host_port [] = []
  hosts_for service port host_port (g ∷ gs) =
      if text_eq (or_else g.service []) service
        && (g.port == port && same_port g.host_port host_port)
      then g.hosts
      else hosts_for service port host_port gs

  hosts_by_key :
      (service : Text) (port : ℕ) (host_port : Option ℕ) (gs : List RouteGroup)
      → hosts_for service port host_port gs ≡ hosts_in (key (some service) port host_port) gs
  hosts_by_key service port host_port [] = refl
  hosts_by_key service port host_port (g ∷ gs) =
      rw
        (
          key-parts g.service g.port g.host_port service port host_port,
          hosts_by_key service port host_port gs,
        )
        refl

  wanted_of : (t : DomainTarget) → or_else (service_of d t) [] ≡ wanted_service t
  wanted_of t = elim (Option-cases d.default_service) [
    | inl e ↦ rw (e, service_of, wanted_service) refl
    | inr (service, e) ↦ rw (e, service_of, wanted_service) refl
  ]

  asked_by_key :
      (service : Text) (port : ℕ) (host_port : Option ℕ) (ts : List DomainTarget)
      → filter (at_key (key (some service) port host_port)) ts
        ≡ filter (asks_for service port host_port) ts
  asked_by_key service port host_port [] = refl
  asked_by_key service port host_port (t ∷ ts) =
      rw
        (
          key-parts (service_of d t) (port_of d t) t.host_port service port host_port,
          wanted_of t,
          asked_by_key service port host_port ts,
        )
        refl

  -- The group of a service, port and host port holds exactly the domains that ask for them, in the order
  -- of the targets, and no group holds another domain, or one twice.
  pub group_routes-groups :
      (ts : List DomainTarget) (service : Text) (port : ℕ) (host_port : Option ℕ) (p : Text → Bool)
      → (hosts_for service port host_port (group_routes ts d)
          ≡ map (λ t. t.fqdn) (filter (asks_for service port host_port) ts))
        × (count p (all_hosts (group_routes ts d)) ≡ count (λ t. p t.fqdn) ts)
  unfolding group_routes
  group_routes-groups ts service port host_port p =
      let k = key (some service) port host_port in
      (
        hosts_by_key service port host_port (map (λ e. e.1) (group_all d ts []))
            ∙ (keyed_hosts k (group_all d ts []) (All-IsKeyed ts [] tt)
                ∙ (hosts-group_all k ts []
                    ∙ ap (map (λ t. t.fqdn)) (asked_by_key service port host_port ts))),
        all-tally p ts [] ∙ omega arith,
      )
