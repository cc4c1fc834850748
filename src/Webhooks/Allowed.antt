-- ===== src/Webhooks/Allowed.antt =====
-- Which pushes deploy.
use willy.Prelude.{
  ℕ, suc, ◌+◌, ◌≡◌, ◌≢◌, refl, ap, ◌∙◌, ◌⊎◌, inl, inr, true, false, ◌&&◌, Option, none, some, [],
  ◌∷◌, ltb, any, Text, codes, length, text_eq, text_eq_sound, and-true, ok, Bool-cases,
  Option-cases, arith,
}
use willy.Prelude.Effects.{Result-cases}
use willy.Webhooks.{
  Target, Push, Reason, WebhookOutcome, Outside, Hooks, delivery_ttl_sec, is_known, is_signed,
  parse_branch, is_ref, claim_delivery, without, queue_deploy, deploy_once, handle_push,
}

-- What an accepted push stands on, in the words of GitHub's event and of the deployment's row.
pub record IsAllowed (o : Outside) (p : Push) : Type 0 where
  pub secret : Text
  pub stored : o.secret_of p.deployment_id ≡ some secret
  pub not_empty : secret ≢ []
  pub signed : o.signature_matches secret p.raw_body p.signature ≡ true
  pub pushed : p.event ≡ codes "push"
  pub target : Target
  pub deployed : o.deployment p.deployment_id ≡ some target
  pub enabled : target.auto_deploy ≡ true
  pub ref : Text
  pub of_ref : o.ref_of p.raw_body ≡ some ref
  pub on_branch : without (codes "refs/heads/") ref ≡ target.git_ref

module _ (o : Outside) where
  -- A signed push, by the deployment's stored secret.
  signed_by :
      (p : Push)
      → is_signed o p ≡ true
      → (secret : Text) × (o.secret_of p.deployment_id ≡ some secret)
        × (secret ≢ [])
        × (o.signature_matches secret p.raw_body p.signature ≡ true)
  signed_by p h = elim (Option-cases (o.secret_of p.deployment_id)) [
    | inl e ↦ let h' : false ≡ true = rw (e, is_signed) at h in absurd (cc h')
    | inr (secret, e) ↦
        let h' : (ltb 0 (length secret) && o.signature_matches secret p.raw_body p.signature)
            ≡ true =
          rw (e, is_signed) at h in
        let (some_unit, matches) =
          and-true (ltb 0 (length secret)) (o.signature_matches secret p.raw_body p.signature) h' in
        (secret, e, filled secret some_unit, matches)
  ]
    where
      filled : (secret : Text) → ltb 0 (length secret) ≡ true → secret ≢ []
      filled [] e = absurd (ground arith)
      filled (c ∷ s) e = λ h. cc

  on_branch_of :
      (p : Push) (target : Target)
      → is_ref o (parse_branch o p.raw_body) target.git_ref ≡ true
      → (ref : Text) × (o.ref_of p.raw_body ≡ some ref)
        × (without (codes "refs/heads/") ref ≡ target.git_ref)
  on_branch_of p target h = elim (Option-cases (o.ref_of p.raw_body)) [
    | inl e ↦ let h' : false ≡ true = rw (e, parse_branch, is_ref) at h in absurd (cc h')
    | inr (ref, e) ↦
        let h' : text_eq (without (codes "refs/heads/") ref) target.git_ref ≡ true =
          rw (e, parse_branch, is_ref) at h in
        (ref, e, text_eq_sound (without (codes "refs/heads/") ref) target.git_ref h')
  ]

  allowed :
      (p : Push) (target : Target)
      → is_signed o p ≡ true
      → text_eq p.event (codes "push") ≡ true
      → o.deployment p.deployment_id ≡ some target
      → target.auto_deploy ≡ true
      → is_ref o (parse_branch o p.raw_body) target.git_ref ≡ true
      → IsAllowed o p
  allowed p target signed pushed deployed enabled on_ref =
      let (secret, stored, not_empty, matches) = signed_by p signed in
      let (ref, of_ref, on_branch) = on_branch_of p target on_ref in
      record {
        secret = secret;
        stored = stored;
        not_empty = not_empty;
        signed = matches;
        pushed = text_eq_sound p.event (codes "push") pushed;
        target = target;
        deployed = deployed;
        enabled = enabled;
        ref = ref;
        of_ref = of_ref;
        on_branch = on_branch;
      }

  queued-deploys :
      (p : Push) (w : Hooks)
      → ((queue_deploy o p w).1.deploys ≡ w.deploys)
        ⊎ ((queue_deploy o p w).1.deploys ≡ p.deployment_id ∷ w.deploys)
  queued-deploys p w = elim (Result-cases (o.takes p.deployment_id)) [
    | inl (u, e) ↦ rw (e, queue_deploy) (inr refl)
    | inr (x, e) ↦ rw (e, queue_deploy) (inl refl)
  ]

  -- A push is ignored, or comes to the test whether its delivery is new.
  pub shape :
      (now : ℕ) (p : Push) (w : Hooks)
      → ((r : Reason) × (handle_push o now p w ≡ (ok (WebhookOutcome.ignored r), w)))
        ⊎ ((handle_push o now p w ≡ deploy_once o now p p.delivery_id w) × IsAllowed o p)
  unfolding handle_push
  shape now p w = elim (Bool-cases (is_signed o p)) [
    | inr n ↦ rw n (inl (Reason.invalid_signature, refl))
    | inl signed ↦ elim (Bool-cases (text_eq p.event (codes "push"))) [
      | inr n ↦ rw (signed, n) (inl (Reason.ignored_event, refl))
      | inl pushed ↦ elim (Option-cases (o.deployment p.deployment_id)) [
        | inl e ↦ rw (signed, pushed, e) (inl (Reason.unknown_deployment, refl))
        | inr (t, e) ↦ elim (Bool-cases t.auto_deploy) [
          | inr n ↦ rw (signed, pushed, e, n) (inl (Reason.auto_deploy_disabled, refl))
          | inl enabled ↦ elim (Bool-cases (is_ref o (parse_branch o p.raw_body) t.git_ref)) [
            | inr n ↦ rw (signed, pushed, e, enabled, n) (inl (Reason.other_ref, refl))
            | inl on_ref ↦ inr (
              rw (signed, pushed, e, enabled, on_ref) refl,
              allowed p t signed pushed e enabled on_ref,
            )
          ]
        ]
      ]
    ]
  ]

  once-deploys :
      (now : ℕ) (p : Push) (id : Option Text) (w : Hooks)
      → ((deploy_once o now p id w).1.deploys ≡ w.deploys)
        ⊎ ((deploy_once o now p id w).1.deploys ≡ p.deployment_id ∷ w.deploys)
  unfolding claim_delivery
  once-deploys now p none w = queued-deploys p w
  once-deploys now p (some []) w = queued-deploys p w
  once-deploys now p (some (c ∷ id)) w = elim (Bool-cases (o.down w.draws)) [
    | inl y ↦ rw y (queued-deploys p (record w { draws = suc w.draws }))
    | inr n ↦ elim (Bool-cases (any (is_known now p.deployment_id (c ∷ id)) w.deliveries)) [
      | inl y ↦ rw (n, y) (inl refl)
      | inr m ↦
          rw (n, m)
            (queued-deploys p (record w {
              draws = suc w.draws;
              deliveries =
                  record {
                    deployment_id = p.deployment_id;
                    delivery_id = c ∷ id;
                    expires_at = now + delivery_ttl_sec;
                  }
                  ∷ w.deliveries;
            }))
    ]
  ]

  -- A push queues nothing, or one deploy of its deployment, and the latter only if the deployment has a
  -- secret that is not empty, the signature matches the body under it, the event is "push", automatic
  -- deploys are on, and the branch that the body names is the deployment's.
  pub handle_push-IsAllowed :
      (now : ℕ) (p : Push) (w : Hooks)
      → ((handle_push o now p w).1.deploys ≡ w.deploys)
        ⊎ (((handle_push o now p w).1.deploys ≡ p.deployment_id ∷ w.deploys) × IsAllowed o p)
  handle_push-IsAllowed now p w = elim (shape now p w) [
    | inl (r, e) ↦ inl (ap (λ x. x.1.deploys) e)
    | inr (e, allowed) ↦ elim (once-deploys now p p.delivery_id w) [
      | inl same ↦ inl (ap (λ x. x.1.deploys) e ∙ same)
      | inr more ↦ inr (ap (λ x. x.1.deploys) e ∙ more, allowed)
    ]
  ]
