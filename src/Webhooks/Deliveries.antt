-- ===== src/Webhooks/Deliveries.antt =====
-- How often a delivery deploys.
use willy.Prelude.{
  ℕ, suc, ◌+◌, ◌≤◌, ◌<◌, ◌≡◌, refl, ap, ◌∙◌, inl, inr, Bool, true, false, ◌&&◌, Option, none, some,
  List, [], ◌∷◌, ◌==◌, ltb, if◌then◌else◌, any, All, Elem, Text, text_eq, text_eq_refl,
  text_eq_sound, and-true, Result, ok, Bool-cases, Option-cases, arith,
}
use willy.Prelude.Effects.{Result-cases}
use willy.Prelude.Counting.{any-elem}
use willy.Webhooks.{
  Push, WebhookOutcome, Outside, Delivery, Hooks, delivery_ttl_sec, same_delivery, is_known,
  claim_delivery, queue_deploy, deploy_once, handle_push,
}
use willy.Webhooks.Allowed.{shape}

abbrev is_accepted : Result WebhookOutcome → Bool
is_accepted (ok WebhookOutcome.accepted) = true
is_accepted _ = false

module _ (o : Outside) where
  claim_of : ℕ → ℕ → Text → Delivery
  claim_of now d id = record {
    deployment_id = d;
    delivery_id = id;
    expires_at = now + delivery_ttl_sec;
  }

  queued-deliveries : (p : Push) (w : Hooks) → (queue_deploy o p w).1.deliveries ≡ w.deliveries
  queued-deliveries p w = elim (Result-cases (o.takes p.deployment_id)) [
    | inl (u, e) ↦ rw (e, queue_deploy) refl
    | inr (x, e) ↦ rw (e, queue_deploy) refl
  ]

  -- What a push with a delivery's id does, when Redis answers: a known delivery is not accepted, an
  -- accepted one is known from then on, and no known delivery is forgotten.
  record Remembers (now d : ℕ) (id : Text) (w : Hooks) (r : Result WebhookOutcome) (after : Hooks)
      : Type 0 where
    refuses : any (is_known now d id) w.deliveries ≡ true → is_accepted r ≡ false
    learns : is_accepted r ≡ true → Elem (claim_of now d id) after.deliveries

  once-keeps :
      (now : ℕ) (p : Push) (id : Option Text) (w : Hooks) (r : Delivery)
      → Elem r w.deliveries
      → Elem r (deploy_once o now p id w).1.deliveries
  unfolding claim_delivery
  once-keeps now p none w r m = rw (queued-deliveries p w) m
  once-keeps now p (some []) w r m = rw (queued-deliveries p w) m
  once-keeps now p (some (c ∷ id)) w r m = elim (Bool-cases (o.down w.draws)) [
    | inl y ↦ rw (y, queued-deliveries p (record w { draws = suc w.draws })) m
    | inr n ↦ elim (Bool-cases (any (is_known now p.deployment_id (c ∷ id)) w.deliveries)) [
      | inl y ↦ rw (n, y) m
      | inr k ↦
          let after : Hooks = record w {
            draws = suc w.draws;
            deliveries =
                record {
                  deployment_id = p.deployment_id;
                  delivery_id = c ∷ id;
                  expires_at = now + delivery_ttl_sec;
                }
                ∷ w.deliveries;
          } in
          rw (n, k, queued-deliveries p after) (inr m)
    ]
  ]

  handle_push-keeps :
      (now : ℕ) (p : Push) (w : Hooks) (r : Delivery)
      → Elem r w.deliveries
      → Elem r (handle_push o now p w).1.deliveries
  handle_push-keeps now p w r m = elim (shape o now p w) [
    | inl (x, e) ↦ rw e m
    | inr (e, _) ↦ rw e (once-keeps now p p.delivery_id w r m)
  ]

  once-Remembers :
      (up : (n : ℕ) → o.down n ≡ false) (now : ℕ) (p : Push) (c : ℕ) (id : Text) (w : Hooks)
      → Remembers now p.deployment_id
          (c ∷ id)
          w
          (deploy_once o now p (some (c ∷ id)) w).0
          (deploy_once o now p (some (c ∷ id)) w).1
  unfolding claim_delivery claim_of
  once-Remembers up now p c id w =
      elim (Bool-cases (any (is_known now p.deployment_id (c ∷ id)) w.deliveries)) [
        | inl y ↦ rw (up w.draws, y) (record { refuses = λ _. refl; learns = λ h. absurd (cc h) })
        | inr n ↦
            let after : Hooks = record w {
              draws = suc w.draws;
              deliveries =
                  record {
                    deployment_id = p.deployment_id;
                    delivery_id = c ∷ id;
                    expires_at = now + delivery_ttl_sec;
                  }
                  ∷ w.deliveries;
            } in
            record {
              refuses = λ h. absurd (cc (h, n));
              learns = λ _. rw (up w.draws, n, queued-deliveries p after) (inl refl);
            }
      ]

  handle_push-Remembers :
      (up : (n : ℕ) → o.down n ≡ false) (now : ℕ) (p : Push) (c : ℕ) (id : Text) (w : Hooks)
      → p.delivery_id ≡ some (c ∷ id)
      → Remembers now p.deployment_id (c ∷ id) w (handle_push o now p w).0 (handle_push o now p w).1
  handle_push-Remembers up now p c id w has = elim (shape o now p w) [
    | inl (x, e) ↦ rw e (record { refuses = λ _. refl; learns = λ h. absurd (cc h) })
    | inr (e, _) ↦ rw (e, has) (once-Remembers up now p c id w)
  ]

  -- Whether a push is that delivery, and how many pushes of it are accepted.
  abbrev pub is_delivery : ℕ → Text → Push → Bool
  is_delivery d id p =
      p.deployment_id == d && (elim p.delivery_id [ none ↦ false | some i ↦ text_eq i id ])

  abbrev pub accepted_of : ℕ → Text → List (ℕ × Push) → Hooks → ℕ
  accepted_of d id [] w = 0
  accepted_of d id ((now, p) ∷ rest) w =
      let (r, after) = handle_push o now p w in
      (if is_delivery d id p && is_accepted r then 1 else 0) + accepted_of d id rest after

  is_delivery_sound :
      (d : ℕ) (id : Text) (p : Push)
      → is_delivery d id p ≡ true
      → (p.deployment_id ≡ d) × (p.delivery_id ≡ some id)
  is_delivery_sound d id p h = elim (Option-cases p.delivery_id) [
    | inl e ↦ let h' : (p.deployment_id == d && false) ≡ true = rw e at h in absurd (ground arith)
    | inr (i, e) ↦
        let h' : (p.deployment_id == d && text_eq i id) ≡ true = rw e at h in
        let (a, b) = and-true (p.deployment_id == d) (text_eq i id) h' in
        (ground arith, e ∙ ap some (text_eq_sound i id b))
  ]

  -- A known delivery is not accepted again before it is forgotten.
  none_again :
      (up : (n : ℕ) → o.down n ≡ false) (d c : ℕ) (id : Text) (ps : List (ℕ × Push)) (w : Hooks)
      (r : Delivery)
      → Elem r w.deliveries
      → same_delivery d (c ∷ id) r ≡ true
      → All (λ e. e.0 < r.expires_at) ps
      → accepted_of d (c ∷ id) ps w ≡ 0
  none_again up d c id [] w r m same times = refl
  none_again up d c id ((now, p) ∷ ps) w r m same (soon, times) =
      let after = (handle_push o now p w).1 in
      let ih = none_again up d c id ps after r (handle_push-keeps now p w r m) same times in
      elim (Bool-cases (is_delivery d (c ∷ id) p)) [
        | inr n ↦ rw (n, ih) (omega arith)
        | inl y ↦
            let (here, has) = is_delivery_sound d (c ∷ id) p y in
            let alive : ltb now r.expires_at ≡ true = ground arith in
            let known : is_known now d (c ∷ id) r ≡ true = rw (same, alive) refl in
            let known' : any (is_known now p.deployment_id (c ∷ id)) w.deliveries ≡ true =
              rw here (any-elem (is_known now d (c ∷ id)) r w.deliveries m known) in
            let refused : is_accepted (handle_push o now p w).0 ≡ false =
              (handle_push-Remembers up now p c id w has).refuses known' in
            rw (y, refused, ih) (omega arith)
      ]

  -- Of the pushes of one delivery that come within a day, one at most is accepted, whatever comes in
  -- between, if Redis answers.
  pub handle_push-accepts_once :
      (up : (n : ℕ) → o.down n ≡ false) (start d c : ℕ) (id : Text) (ps : List (ℕ × Push))
      (w : Hooks)
      → All (λ e. (start ≤ e.0) × (e.0 < start + delivery_ttl_sec)) ps
      → accepted_of d (c ∷ id) ps w ≤ 1
  unfolding claim_of
  handle_push-accepts_once up start d c id [] w times = omega arith
  handle_push-accepts_once up start d c id ((now, p) ∷ ps) w ((since, before), times) =
      let after = (handle_push o now p w).1 in
      let ih = handle_push-accepts_once up start d c id ps after times in
      elim (Bool-cases (is_delivery d (c ∷ id) p && is_accepted (handle_push o now p w).0)) [
        | inr n ↦ rw n (omega (arith, ih))
        | inl y ↦
            let (mine, taken) =
              and-true (is_delivery d (c ∷ id) p) (is_accepted (handle_push o now p w).0) y in
            let (here, has) = is_delivery_sound d (c ∷ id) p mine in
            let known = (handle_push-Remembers up now p c id w has).learns taken in
            let self : (p.deployment_id == d) ≡ true = ground arith in
            let none_left =
              none_again up d c id ps after (claim_of now p.deployment_id (c ∷ id)) known
                (rw (self, text_eq_refl (c ∷ id)) refl) (later ps times) in
            rw (y, none_left) (omega arith)
      ]
    where
      later :
          (ps : List (ℕ × Push))
          → All (λ e. (start ≤ e.0) × (e.0 < start + delivery_ttl_sec)) ps
          → All (λ e. e.0 < now + delivery_ttl_sec) ps
      later [] h = tt
      later ((t, q) ∷ qs) ((a, b), h) = (omega (arith, b, since), later qs h)
