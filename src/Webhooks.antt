-- ===== src/Webhooks.antt =====
-- backend/src/webhooks/webhooks.service.ts: a pushed event, from its signature to the deploy. A Redis key
-- is a row with its expiry, and time is in seconds.
pub mod Allowed
pub mod Deliveries
mod Tests
use willy.Prelude.{
  ℕ, suc, ◌+◌, ◌≡◌, Bool, true, false, not, ◌&&◌, ◌||◌, Option, none, some, List, [], ◌∷◌, ◌==◌,
  ltb, if◌then◌else◌, any, drop, length, Text, codes, text_eq, starts_with, is_some, Result, ok,
  err, Error,
}

-- What `handlePush` reads of a deployment.
pub record Target : Type 0 where
  pub auto_deploy : Bool
  pub git_ref : Text

pub record Push : Type 0 where
  pub deployment_id : ℕ
  pub signature : Text
  pub event : Text
  pub raw_body : Text
  pub delivery_id : Option Text

pub data Reason : Type 0 where
  invalid_signature ignored_event unknown_deployment auto_deploy_disabled other_ref
        duplicate_delivery :
      Reason

pub data WebhookOutcome : Type 0 where
  accepted : WebhookOutcome
  ignored : Reason → WebhookOutcome

-- The stored secret decrypted, the HMAC comparison, the table of deployments, the payload's `ref`, which
-- Redis commands fail, and whether the orchestrator takes the deploy.
pub record Outside : Type 0 where
  pub secret_of : ℕ → Option Text
  pub signature_matches : Text → Text → Text → Bool
  pub deployment : ℕ → Option Target
  pub ref_of : Text → Option Text
  pub down : ℕ → Bool
  pub takes : ℕ → Result (Unit {0})

-- A remembered delivery of a deployment.
pub record Delivery : Type 0 where
  pub deployment_id : ℕ
  pub delivery_id : Text
  pub expires_at : ℕ

-- The remembered deliveries, the deploys that were queued, and how often Redis was asked.
pub record Hooks : Type 0 where
  pub deliveries : List Delivery
  pub deploys : List ℕ
  pub draws : ℕ

-- `24 * 60 * 60`
abbrev pub delivery_ttl_sec : ℕ
delivery_ttl_sec = 86400

abbrev pub same_delivery : ℕ → Text → Delivery → Bool
same_delivery d id r = r.deployment_id == d && text_eq r.delivery_id id

abbrev pub is_known : ℕ → ℕ → Text → Delivery → Bool
is_known now d id r = same_delivery d id r && ltb now r.expires_at

-- `replace("refs/heads/", "")`: the first occurrence.
unfoldable pub without : Text → Text → Text
without part [] = []
without part (c ∷ s) =
    let rest = without part s in
    if starts_with (c ∷ s) part then drop (length part) (c ∷ s) else c ∷ rest

module _ (o : Outside) where
  -- `!(!secret || !githubSignatureMatches(…))`: an empty secret signs nothing.
  abbrev pub is_signed : Push → Bool
  is_signed p = elim (o.secret_of p.deployment_id) [
    | none ↦ false
    | some secret ↦ ltb 0 (length secret) && o.signature_matches secret p.raw_body p.signature
  ]

  abbrev pub parse_branch : Text → Option Text
  parse_branch raw_body = elim (o.ref_of raw_body) [
    | none ↦ none
    | some ref ↦ some (without (codes "refs/heads/") ref)
  ]

  abbrev pub is_ref : Option Text → Text → Bool
  is_ref none git_ref = false
  is_ref (some branch) git_ref = text_eq branch git_ref

  -- `SET … EX … NX`: whether the delivery is new. A command that fails lets it pass.
  unfoldable pub claim_delivery : ℕ → ℕ → Text → Hooks → Bool × Hooks
  claim_delivery now d id w =
      let asked = record w { draws = suc w.draws } in
      let claim : Delivery = record {
        deployment_id = d;
        delivery_id = id;
        expires_at = now + delivery_ttl_sec;
      } in
      if o.down w.draws
      then (true, asked)
      else if any (is_known now d id) w.deliveries
      then (false, asked)
      else (true, record asked { deliveries = claim ∷ w.deliveries })

  abbrev pub queue_deploy : Push → Hooks → Result WebhookOutcome × Hooks
  queue_deploy p w = elim (o.takes p.deployment_id) [
    | err e ↦ (err e, w)
    | ok u ↦ (ok WebhookOutcome.accepted, record w { deploys = p.deployment_id ∷ w.deploys })
  ]

  abbrev pub deploy_if_new : Push → Bool × Hooks → Result WebhookOutcome × Hooks
  deploy_if_new p (true, w) = queue_deploy p w
  deploy_if_new p (false, w) = (ok (WebhookOutcome.ignored Reason.duplicate_delivery), w)

  -- `if (deliveryId && …)`: an empty id is none.
  abbrev pub deploy_once : ℕ → Push → Option Text → Hooks → Result WebhookOutcome × Hooks
  deploy_once now p (some (c ∷ id)) w =
      deploy_if_new p (claim_delivery now p.deployment_id (c ∷ id) w)
  deploy_once now p _ w = queue_deploy p w

  abbrev pub push_to : ℕ → Push → Option Target → Hooks → Result WebhookOutcome × Hooks
  push_to now p none w = (ok (WebhookOutcome.ignored Reason.unknown_deployment), w)
  push_to now p (some target) w =
      if not target.auto_deploy
      then (ok (WebhookOutcome.ignored Reason.auto_deploy_disabled), w)
      else if not (is_ref (parse_branch p.raw_body) target.git_ref)
      then (ok (WebhookOutcome.ignored Reason.other_ref), w)
      else deploy_once now p p.delivery_id w

  unfoldable pub handle_push : ℕ → Push → Hooks → Result WebhookOutcome × Hooks
  unfolding claim_delivery
  handle_push now p w =
      if not (is_signed p)
      then (ok (WebhookOutcome.ignored Reason.invalid_signature), w)
      else if not (text_eq p.event (codes "push"))
      then (ok (WebhookOutcome.ignored Reason.ignored_event), w)
      else push_to now p (o.deployment p.deployment_id) w
