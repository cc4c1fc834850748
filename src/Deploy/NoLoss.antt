-- ===== src/Deploy/NoLoss.antt =====
-- A release that does not become the active one leaves every container that was there.
use willy.Prelude.{ℕ, ◌≡◌, ◌⊎◌, inl, inr, false, Option, none, some, Text, Result, ok, err, Error}
use willy.Deploy.{Deployment, Release, ReleaseStatus, Box, World, Outside, set_state}
use willy.Deploy.Hoare.{
  Triple, Keeps, Ends, bind-Triple, try-Triple, weaken, before, always, if-Triple,
}
use willy.Deploy.Frames.{Framed, Statusless, containers-set_status, make_image-Keeps}
use willy.Deploy.Safety.{Lawful, Stands, launch_and_health_check-Safe}
use willy.Deploy.Activation.{
  IsActive, IsActive-Statusless, set_state-IsActive, cut_over-IsActive, go_scheduled-IsActive,
}
use willy.Deploy.Releases.{set_status, find_release}
use willy.Deploy.Swap.{container_name}
use willy.Deploy.Runner.{attempt, run_release, fail_release, go_live, require, is_cron}

pub require-Keeps :
    {A : Type 0} (P : World → Type 0) (e : Error) (found : Option A) → Keeps P (require e found)
require-Keeps P e none = always (λ w p. p)
require-Keeps P e (some a) = always (λ w p. p)

module _ (o : Outside) (law : Lawful o) (d : Deployment) (release_id : ℕ) (c : Box)
    (unnamed : o.name_matches (container_name o d release_id) c.name ≡ false) where
  abbrev SafeHere : World → Type 0
  SafeHere w = Stands c w.containers

  -- The container stands, or the release is the active one.
  abbrev Either : World → Type 0
  Either w = SafeHere w ⊎ IsActive d.id release_id w

  Safe-Framed : Framed SafeHere
  Safe-Framed = record {
    timeless = λ w n p. p;
    imageless = λ w xs p. p;
    scheduleless = λ w xs p. p;
  }

  Safe-Statusless : (k : ℕ) → Statusless SafeHere k
  unfolding set_status
  Safe-Statusless k status update =
      always {m = set_status k status update}
        (λ w p. rw (containers-set_status k status update w) p)

  go_live-Either :
      (tag : Text) → Triple SafeHere (go_live o d release_id tag) (λ a w. Either w) Either
  unfolding go_live
  go_live-Either tag =
      bind-Triple
        (weaken (Safe-Statusless release_id ReleaseStatus.healthchecking _) (λ a w s. s)
          (λ w s. inl s))
        (λ a.
          bind-Triple
            (weaken (launch_and_health_check-Safe o c law d tag release_id unnamed) (λ i w s. s)
              (λ w s. inl s))
            (λ container_id.
              before (λ w s. tt)
                (weaken (cut_over-IsActive o d release_id tag container_id) (λ b w h. inr h)
                  (λ w h. inr h))))

  attempt-Either : Triple SafeHere (attempt o d release_id) (λ a w. Either w) Either
  unfolding attempt find_release
  attempt-Either =
      bind-Triple {A = Option Release} {Q = λ a w. SafeHere w} {m = find_release release_id}
        (record { ends = λ w s. s })
        (λ found.
          bind-Triple
            (weaken (require-Keeps SafeHere Error.not_found found) (λ a w s. s) (λ w s. inl s))
            (λ release.
              bind-Triple
                (weaken (make_image-Keeps o Safe-Framed d release_id (Safe-Statusless release_id))
                  (λ a w s. s) (λ w s. inl s))
                (λ tag.
                  if-Triple (is_cron d.kind)
                    (before (λ w s. tt)
                      (weaken (go_scheduled-IsActive o d release_id tag) (λ b w h. inr h)
                        (λ w h. inr h)))
                    (go_live-Either tag))))

  fail_release-Safe : (e : Error) → Keeps SafeHere (fail_release o d release_id e)
  unfolding fail_release set_state
  fail_release-Safe e =
      bind-Triple (Safe-Statusless release_id ReleaseStatus.failed _) (λ a. always (λ w s. s))

  pub fail_release-IsActive :
      (e : Error) → Keeps (IsActive d.id release_id) (fail_release o d release_id e)
  unfolding fail_release
  fail_release-IsActive e =
      bind-Triple (IsActive-Statusless d.id release_id release_id ReleaseStatus.failed _)
        (λ a. set_state-IsActive d.id release_id _)

  fail_release-Either : (e : Error) → Keeps Either (fail_release o d release_id e)
  fail_release-Either e = record {
    ends = λ w h. elim h [
      | inl s ↦ (weaken (fail_release-Safe e) (λ a u p. inl p) (λ u p. inl p)).ends w s
      | inr t ↦ (weaken (fail_release-IsActive e) (λ a u p. inr p) (λ u p. inr p)).ends w t
    ];
  }

  ended : (p : Result (Unit {0}) × World) → Ends (λ a w. Either w) Either p → Either p.1
  ended (ok a, w) h = h
  ended (err e, w) h = h

  -- A deploy whose release is not the active one afterwards has removed no container: one that stood
  -- before, and that the new release's name does not find, stands still. Docker gives a new container a
  -- fresh id.
  pub run_release-keeps :
      (w : World)
      → Stands c w.containers
      → Stands c (run_release o d release_id w).1.containers
        ⊎ IsActive d.id release_id (run_release o d release_id w).1
  unfolding run_release
  run_release-keeps w s =
      ended (run_release o d release_id w)
        ((try-Triple attempt-Either fail_release-Either).ends w s)
