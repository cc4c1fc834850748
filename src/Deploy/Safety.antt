-- ===== src/Deploy/Safety.antt =====
-- The swap never removes a container that serves: until the new release is the active one, only the
-- containers that carry the new release's name, and the new one itself, are removed.
use willy.Prelude.{
  none, ℕ, suc, ◌≡◌, inl, inr, refl, ap, ◌∙◌, Bool, true, false, not, ◌&&◌, List, [], ◌∷◌, ◌==◌,
  filter, delete_where, contains, Elem, Bool-cases, Text, Result, ok, err, Error, arith,
}
use willy.Prelude.Rows.{
  delete-keeps, delete-elem, elem-filter, elem-map, map-elem, Elem-contains, not_contains,
}
use willy.Deploy.{Deployment, Box, World, Outside, ask, throw, pass_on, ◌>>=◌}
use willy.Deploy.Hoare.{
  Triple, Keeps, Ends, bind-Triple, weaken, always, call-Keeps, throw_if-Keeps,
}
use willy.Deploy.Swap.{
  is_box, is_web, has_routes, ids, stop_and_remove, remove_each, remove_by_name, run_container,
  container_name, gate, check_routes, settle, start_container, add_container,
  launch_and_health_check,
}

-- What Docker documents of `create`: the id of a new container is no other container's.
pub record Lawful (o : Outside) : Type 0 where
  pub create_fresh :
      (now : ℕ) (taken : List ℕ) (id : ℕ) → o.create now taken ≡ ok id → contains id taken ≡ false

-- The container is there, and no other has its id.
abbrev pub Stands : Box → List Box → Type 0
Stands c boxes = Elem c boxes × ((b : Box) → Elem b boxes → b.id ≡ c.id → b ≡ c)

module _ (o : Outside) (c : Box) where
  abbrev pub Safe : World → Type 0
  Safe w = Stands c w.containers

  Stands-delete :
      (id : ℕ) (boxes : List Box)
      → is_box id c ≡ false
      → Stands c boxes
      → Stands c (delete_where (is_box id) boxes)
  Stands-delete id boxes n (m, u) =
      (delete-keeps (is_box id) c boxes m n, λ b h e. u b (delete-elem (is_box id) b boxes h).0 e)

  stop_and_remove-Safe : (id : ℕ) → is_box id c ≡ false → Keeps Safe (stop_and_remove o id)
  unfolding stop_and_remove
  stop_and_remove-Safe id n = always (λ w s. elim (Bool-cases (o.removes w.clock id)) [
    | inl e ↦ rw e (Stands-delete id w.containers n s)
    | inr e ↦ rw e s
  ])

  pub remove_each-Safe : (xs : List ℕ) → contains c.id xs ≡ false → Keeps Safe (remove_each o xs)
  unfolding remove_each
  remove_each-Safe [] n = always (λ w s. s)
  remove_each-Safe (x ∷ xs) n =
      bind-Triple (stop_and_remove-Safe x (ground arith)) (λ a. remove_each-Safe xs (ground arith))

  -- The containers that a test finds, when it does not find this one.
  pub unlisted :
      (p : Box → Bool) (boxes : List Box)
      → Stands c boxes
      → p c ≡ false
      → contains c.id (ids (filter p boxes)) ≡ false
  unlisted p boxes (m, u) n = not_contains c.id (ids (filter p boxes)) (λ h.
      let (b, h', e) = elem-map (λ b. b.id) c.id (filter p boxes) h in
      let (h'', y) = elem-filter p b boxes h' in
      let same : b ≡ c = u b h'' e in absurd (cc (y, n, ap p same)))

  remove_by_name-Safe :
      (name : Text) → o.name_matches name c.name ≡ false → Keeps Safe (remove_by_name o name)
  unfolding remove_by_name
  remove_by_name-Safe name n = bind-Triple (call-Keeps o.lists (λ w k p. p)) (λ a. always (λ w s.
      (remove_each-Safe (ids (filter (λ b. o.name_matches name b.name) w.containers))
          (unlisted (λ b. o.name_matches name b.name) w.containers s n)).ends
        w s))

  module _ (law : Lawful o) where
    created :
        (name : Text) (owner id now : ℕ) (boxes : List Box)
        → o.create now (ids boxes) ≡ ok id
        → Stands c boxes
        → Stands c (record { id = id; name = name; owner = owner; project = none } ∷ boxes)
          × (id == c.id ≡ false)
    created name owner id now boxes e (m, u) =
        let fresh : contains id (ids boxes) ≡ false = law.create_fresh now (ids boxes) id e in
        let taken : contains c.id (ids boxes) ≡ true =
          Elem-contains c.id (ids boxes) (map-elem (λ b. b.id) c boxes m) in
        let differs : id == c.id ≡ false = elim (Bool-cases (id == c.id)) [
          | inl y ↦
              let same : id ≡ c.id = ground arith in
              absurd (cc (fresh, taken, ap (λ k. contains k (ids boxes)) same))
          | inr n ↦ n
        ] in
        (
          (
            inr m,
            λ b h q. elim h [
              | inl x ↦ let q' : id ≡ c.id = ap (λ z. z.id) x ∙ q in absurd (ground arith)
              | inr h' ↦ u b h' q
            ],
          ),
          differs,
        )

    abbrev Apart : ℕ → World → Type 0
    Apart id w = Safe w × (id == c.id ≡ false)

    start_container-Safe : (id : ℕ) → Triple (Apart id) (start_container o id) Apart Safe
    unfolding start_container
    start_container-Safe id =
        bind-Triple
          (weaken (call-Keeps {P = Apart id} (λ now. o.starts now id) (λ w k p. p)) (λ a w p. p)
            (λ w p. p.0))
          (λ a. record { ends = λ w p. p })

    added :
        (name : Text) (owner : ℕ) (w : World)
        → Safe w
        → (r : Result ℕ) → o.create w.clock (ids w.containers) ≡ r
        → Ends Apart Safe (
            pass_on
              (λ id. add_container o name owner id >>= λ a. start_container o id)
              (r, record w { clock = suc w.clock }))
    added name owner w s (err e) h = s
    added name owner w s (ok id) h =
        (start_container-Safe id).ends _ (created name owner id w.clock w.containers h s)

    run_container-Safe :
        (name : Text) (owner : ℕ) → Triple Safe (run_container o name owner) Apart Safe
    unfolding run_container
    run_container-Safe name owner = record {
      ends = λ w s. added name owner w s (o.create w.clock (ids w.containers)) refl;
    }

    gate-Keeps : (d : Deployment) (id : ℕ) → Keeps (Apart id) (gate o d id)
    unfolding gate
    gate-Keeps d id = always (λ w p. p)

    settle-Safe :
        (id : ℕ) (healthy : Bool) → Triple (Apart id) (settle o id healthy) (λ a w. Safe w) Safe
    unfolding settle
    settle-Safe id true = record { ends = λ w p. p.0 }
    settle-Safe id false = record {
      ends = λ w p.
          let apart : id == c.id ≡ false = p.1 in
          let n : is_box id c ≡ false = ground arith in
          (bind-Triple {B = ℕ} (stop_and_remove-Safe id n)
              (λ a. always {m = throw Error.health_check} (λ u s. s))).ends
            w p.0;
    }

    check_routes-Safe : (d : Deployment) → Keeps Safe (check_routes o d)
    unfolding check_routes
    check_routes-Safe d = always (λ w s.
        (throw_if-Keeps {P = Safe} (is_web d.kind && not (has_routes d.id w))
            Error.bad_request).ends
          w s)

    -- A launch, healthy or not, removes no container but those its name finds.
    pub launch_and_health_check-Safe :
        (d : Deployment) (image_tag : Text) (release_id : ℕ)
        → o.name_matches (container_name o d release_id) c.name ≡ false
        → Keeps Safe (launch_and_health_check o d image_tag release_id)
    unfolding launch_and_health_check
    launch_and_health_check-Safe d image_tag release_id n =
        bind-Triple (call-Keeps (λ now. o.resolve_env now d.id) (λ w k p. p)) (λ a.
          bind-Triple (remove_by_name-Safe (container_name o d release_id) n) (λ b.
            bind-Triple {A = List ℕ} {m = ask (λ now. o.exposed_ports now image_tag)}
              (always (λ w s. s))
              (λ x. bind-Triple (check_routes-Safe d) (λ y.
                bind-Triple (run_container-Safe (container_name o d release_id) d.id) (λ id.
                  bind-Triple (weaken (gate-Keeps d id) (λ h w p. p) (λ w p. p.0))
                    (λ healthy. settle-Safe id healthy))))))
