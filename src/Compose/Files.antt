-- ===== src/Compose/Files.antt =====
-- The two compose files that a split writes: each holds its services, and a service depends only on
-- services of its own file.
use willy.Prelude.{
  ◌≡◌, refl, ap, ◌∙◌, Bool, true, false, Option, none, some, List, [], ◌∷◌, filter, Text, codes,
  text_eq, text_mem, text_eq_sound, Bool-cases, inl, inr,
}
use willy.Compose.Values.{
  Value, Fields, null, bool, num, str, arr, obj, end, field, lookup, put, keys, strings, str_items,
  lookup-put_same, lookup-put_other, lookup-remove_same, strings-str_items,
}
use willy.Compose.Split.{
  mem_of, filter_fields, put_list, put_object, prune_value, prune_depends_on, base_service,
  memberships, release_service,
}

-- The services that `depends_on` names, in either form.
abbrev pub dependencies : Option Value → List Text
dependencies (some (arr deps)) = strings deps
dependencies (some (obj deps)) = keys deps
dependencies _ = []

mem-filter :
    (keep names : List Text) (n : Text)
    → text_mem n (filter (mem_of keep) names) ≡ true
    → text_mem n keep ≡ true
mem-filter keep [] n h = absurd (cc h)
mem-filter keep (x ∷ xs) n h = elim (Bool-cases (text_mem x keep)) [
  | inl y ↦ elim (Bool-cases (text_eq x n)) [
    | inl a ↦ rw (← text_eq_sound x n a) y
    | inr a ↦
        let h' : text_mem n (filter (mem_of keep) xs) ≡ true = rw (y, a) at h in
        mem-filter keep xs n h'
  ]
  | inr b ↦
      let h' : text_mem n (filter (mem_of keep) xs) ≡ true = rw b at h in mem-filter keep xs n h'
]

mem-filter_fields :
    (keep : List Text) (fs : Fields) (n : Text)
    → text_mem n (keys (filter_fields (mem_of keep) fs)) ≡ true
    → text_mem n keep ≡ true
unfolding filter_fields keys
mem-filter_fields keep end n h = absurd (cc h)
mem-filter_fields keep (field x v fs) n h = elim (Bool-cases (text_mem x keep)) [
  | inl y ↦ elim (Bool-cases (text_eq x n)) [
    | inl a ↦ rw (← text_eq_sound x n a) y
    | inr a ↦
        let h' : text_mem n (keys (filter_fields (mem_of keep) fs)) ≡ true = rw (y, a) at h in
        mem-filter_fields keep fs n h'
  ]
  | inr b ↦
      let h' : text_mem n (keys (filter_fields (mem_of keep) fs)) ≡ true = rw b at h in
      mem-filter_fields keep fs n h'
]

abbrev depends : Fields → List Text
depends svc = dependencies (lookup (codes "depends_on") svc)

put_list-depends : (xs : List Text) (svc : Fields) → depends (put_list xs svc) ≡ xs
put_list-depends [] svc = ap dependencies (lookup-remove_same (codes "depends_on") svc)
put_list-depends (x ∷ xs) svc =
    ap dependencies (lookup-put_same (codes "depends_on") (arr (str_items (x ∷ xs))) svc)
    ∙ strings-str_items (x ∷ xs)

put_object-depends : (fs svc : Fields) → depends (put_object fs svc) ≡ keys fs
unfolding keys
put_object-depends end svc = ap dependencies (lookup-remove_same (codes "depends_on") svc)
put_object-depends (field k v fs) svc =
    ap dependencies (lookup-put_same (codes "depends_on") (obj (field k v fs)) svc)

-- Every dependency is among the names.
abbrev pub IsClosed : List Text → Fields → Type 0
IsClosed keep svc =
    (n : Text)
    → text_mem n (dependencies (lookup (codes "depends_on") svc)) ≡ true
    → text_mem n keep ≡ true

pruned :
    (keep : List Text) (svc : Fields) (v : Option Value)
    → lookup (codes "depends_on") svc ≡ v
    → IsClosed keep (prune_value keep v svc)
pruned keep svc (some (arr deps)) e n h =
    mem-filter keep (strings deps) n
      (rw (← put_list-depends (filter (mem_of keep) (strings deps)) svc) h)
pruned keep svc (some (obj deps)) e n h =
    mem-filter_fields keep deps n
      (rw (← put_object-depends (filter_fields (mem_of keep) deps) svc) h)
pruned keep svc none e n h = let h' : false ≡ true = rw e at h in absurd (cc h')
pruned keep svc (some (str s)) e n h = let h' : false ≡ true = rw e at h in absurd (cc h')
pruned keep svc (some (num s)) e n h = let h' : false ≡ true = rw e at h in absurd (cc h')
pruned keep svc (some (bool s)) e n h = let h' : false ≡ true = rw e at h in absurd (cc h')
pruned keep svc (some null) e n h = let h' : false ≡ true = rw e at h in absurd (cc h')

prune_depends_on-IsClosed :
    (keep : List Text) (svc : Fields) → IsClosed keep (prune_depends_on keep svc)
unfolding prune_depends_on
prune_depends_on-IsClosed keep svc = pruned keep svc (lookup (codes "depends_on") svc) refl

pub base_from :
    (keep : List Text) (v : Option Value) (svc : Fields)
    → (elim v [ none ↦ none | some x ↦ some (base_service keep x) ]) ≡ some (obj svc)
    → IsClosed keep svc
unfolding base_service
base_from keep none svc h = absurd (cc h)
base_from keep (some (obj f)) svc h =
    let e : prune_depends_on keep f ≡ svc = cc h in rw (← e) (prune_depends_on-IsClosed keep f)
base_from keep (some (arr xs)) svc h = absurd (cc h)
base_from keep (some (str s)) svc h = absurd (cc h)
base_from keep (some (num n)) svc h = absurd (cc h)
base_from keep (some (bool b)) svc h = absurd (cc h)
base_from keep (some null) svc h = absurd (cc h)

pub release_from :
    (keep : List Text) (has_base : Bool) (v : Option Value) (svc : Fields)
    → (elim v [ none ↦ none | some x ↦ some (release_service keep has_base x) ]) ≡ some (obj svc)
    → IsClosed keep svc
      × (lookup (codes "networks") svc ≡ some (arr (str_items (memberships has_base))))
unfolding release_service text_eq
release_from keep has_base none svc h = absurd (cc h)
release_from keep has_base (some (obj f)) svc h =
    let nets = arr (str_items (memberships has_base)) in
    let g = prune_depends_on keep f in
    let e : put (codes "networks") nets g ≡ svc = cc h in
    let same : lookup (codes "depends_on") (put (codes "networks") nets g)
        ≡ lookup (codes "depends_on") g =
      lookup-put_other (codes "networks") (codes "depends_on") nets g refl in
    rw (← e) (
      λ n m. prune_depends_on-IsClosed keep f n (rw (← same) m),
      lookup-put_same (codes "networks") nets g,
    )
release_from keep has_base (some (arr xs)) svc h = absurd (cc h)
release_from keep has_base (some (str s)) svc h = absurd (cc h)
release_from keep has_base (some (num n)) svc h = absurd (cc h)
release_from keep has_base (some (bool b)) svc h = absurd (cc h)
release_from keep has_base (some null) svc h = absurd (cc h)
