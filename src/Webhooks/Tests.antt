-- ===== src/Webhooks/Tests.antt =====
-- One push, delivered twice, and instances of the theorems.
use willy.Prelude.{
  ◌≤◌, ◌≡◌, ◌⊎◌, refl, true, false, some, [], ◌∷◌, ◌++◌, ◌==◌, if◌then◌else◌, codes, text_eq,
  starts_with, ok, arith,
}
use willy.Webhooks.{
  Push, Reason, WebhookOutcome, Outside, Hooks, handle_push, claim_delivery, without,
}
use willy.Webhooks.Allowed.{IsAllowed, handle_push-IsAllowed}
use willy.Webhooks.Deliveries.{accepted_of, handle_push-accepts_once}

-- The signature of a body is the secret before the body.
abbrev github : Outside
github = record {
  secret_of = λ d. if d == 1 then some (codes "key") else some [];
  signature_matches = λ secret body signature. text_eq (secret ++ body) signature;
  deployment = λ d. some (record { auto_deploy = true; git_ref = codes "main" });
  ref_of = λ body. some body;
  down = λ n. false;
  takes = λ d. ok tt;
}

abbrev main_push : Push
main_push = record {
  deployment_id = 1;
  signature = codes "keyrefs/heads/main";
  event = codes "push";
  raw_body = codes "refs/heads/main";
  delivery_id = some (codes "u");
}

abbrev fresh : Hooks
fresh = record { deliveries = []; deploys = []; draws = 0 }

twice : accepted_of github 1 (codes "u") ((5, main_push) ∷ (6, main_push) ∷ []) fresh ≡ 1
unfolding handle_push claim_delivery without text_eq starts_with
twice = refl

-- A deployment whose secret is empty takes no push.
no_secret :
    handle_push github 5 (record main_push { deployment_id = 2 }) fresh
    ≡ (ok (WebhookOutcome.ignored Reason.invalid_signature), fresh)
unfolding handle_push text_eq
no_secret = refl

handle_push-IsAllowed_example :
    ((handle_push github 5 main_push fresh).1.deploys ≡ [])
    ⊎ (((handle_push github 5 main_push fresh).1.deploys ≡ 1 ∷ []) × IsAllowed github main_push)
handle_push-IsAllowed_example = handle_push-IsAllowed github 5 main_push fresh

handle_push-accepts_once_example :
    accepted_of github 1 (codes "u") ((5, main_push) ∷ (6, main_push) ∷ []) fresh ≤ 1
handle_push-accepts_once_example =
    handle_push-accepts_once github (λ n. refl) 5 1 117 [] ((5, main_push) ∷ (6, main_push) ∷ [])
      fresh ((omega arith, omega arith), ((omega arith, omega arith), tt))
