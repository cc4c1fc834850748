-- ===== src/Deploy/ComposeTests.antt =====
-- A compose stack with a serving release, and instances of the blue-green theorems.
use willy.Prelude.{
  suc, ◌≤◌, ◌≡◌, ◌⊎◌, inl, inr, refl, sym, ap, ◌∙◌, some, [], ◌∷◌, codes, text_eq, ok, arith,
}
use willy.Prelude.Rows.{map-elem, Elem-contains}
use willy.Deploy.{Deployment, BuildStrategy, Box, World}
use willy.Deploy.Safety.{Stands}
use willy.Deploy.Activation.{IsActive}
use willy.Deploy.Outcome.{IsDeployed, IsFailed}
use willy.Deploy.Swap.{ids}
use willy.Deploy.ComposeRelease.{Stack, run_compose_release}
use willy.Deploy.BlueGreen.{Confined}
use willy.Deploy.NonDestructive.{run_compose_release-keeps, run_compose_release-outcome}
use willy.Deploy.Tests.{machine, site, here, total, contains-le-total}

-- One service, which `up` starts in the project under a new id.
abbrev tool : Stack
tool = record {
  prepare = λ now d. ok (record { pinned = []; eligible = codes "web" ∷ []; one_shot = [] });
  up = λ now project boxes. (
    ok tt,
    record { id = suc (total (ids boxes)); name = project; owner = 7; project = some project }
        ∷ boxes,
  );
  hydrate = λ now found. [];
  removes_network = λ now project. ok tt;
}

tool-Confined : Confined tool
tool-Confined = record {
  up_keeps = λ now project boxes c n h.
      let old : c.id ≤ total (ids boxes) =
        contains-le-total c.id (ids boxes)
          (Elem-contains c.id (ids boxes) (map-elem (λ b. b.id) c boxes h.0)) in
      (
        inr h.0,
        λ b m q. elim m [
          | inl x ↦
              let e : suc (total (ids boxes)) ≡ c.id = ap (λ z. z.id) x ∙ q in
              absurd (omega (arith, e, old))
          | inr m' ↦ h.1 b m' q
        ],
      );
}

abbrev stack_site : Deployment
stack_site = record site { strategy = BuildStrategy.compose }

abbrev blue : Box
blue = record { id = 5; name = codes "blue"; owner = 7; project = some (codes "willy_shop_rblue") }

abbrev stack_here : World
stack_here = record here { deployments = stack_site ∷ []; containers = blue ∷ [] }

blue-Stands : Stands blue stack_here.containers
blue-Stands = (inl refl, λ b m e. elim m [ inl x ↦ sym x | inr x ↦ absurd x ])

run_compose_release-keeps_example :
    Stands blue (run_compose_release machine tool stack_site 2 stack_here).1.containers
    ⊎ IsActive 7 2 (run_compose_release machine tool stack_site 2 stack_here).1
unfolding text_eq
run_compose_release-keeps_example =
    run_compose_release-keeps machine tool tool-Confined stack_site 2 blue refl refl stack_here
      blue-Stands

run_compose_release-outcome_example :
    ((run_compose_release machine tool stack_site 2 stack_here).0 ≡ ok tt)
    × (IsDeployed machine stack_site 2 (run_compose_release machine tool stack_site 2 stack_here).1
        ⊎ IsFailed machine stack_site 2
            (run_compose_release machine tool stack_site 2 stack_here).1)
run_compose_release-outcome_example =
    run_compose_release-outcome machine tool stack_site 2 stack_here
