-- ===== src/Deploy/BlueGreen.antt =====
-- The blue-green release of a compose stack: until the new release is the active one, only the new
-- release's own project and the base project change.
use willy.Prelude.{
  ℕ, suc, ◌≡◌, Bool, true, false, Option, none, some, List, contains, Text, Result, ok, err, Error,
}
use willy.Domains.Routes.{DomainRoute}
use willy.Deploy.{Box, World, Outside, throw}
use willy.Deploy.Hoare.{Triple, Keeps, Ends, bind-Triple, always, call-Keeps, if-Triple}
use willy.Deploy.Safety.{Stands, remove_each-Safe, unlisted}
use willy.Deploy.ComposeRelease.{
  Stack, in_project, is_one_shot_failure, list_by_project, down_release, up_project,
  remove_failed_release, fail_gate, list_for_project, list_for_release, after_health, after_routes,
}

-- `docker compose up` for a project leaves the containers of other projects alone.
pub record Confined (s : Stack) : Type 0 where
  pub up_keeps :
      (now : ℕ) (project : Text) (boxes : List Box) (c : Box)
      → in_project project c ≡ false
      → Stands c boxes
      → Stands c (s.up now project boxes).1

module _ (o : Outside) (s : Stack) (law : Confined s) (c : Box) where
  abbrev pub SafeNow : World → Type 0
  SafeNow w = Stands c w.containers

  list_by_project-Safe :
      (project : Text)
      → in_project project c ≡ false
      → Triple SafeNow
          (list_by_project o s project)
          (λ xs w. SafeNow w × (contains c.id xs ≡ false))
          SafeNow
  unfolding list_by_project
  list_by_project-Safe project n =
      bind-Triple (call-Keeps o.lists (λ w k p. p))
        (λ a. record { ends = λ w p. (p, unlisted o c (in_project project) w.containers p n) })

  down_release-Safe :
      (project : Text) → in_project project c ≡ false → Keeps SafeNow (down_release o s project)
  unfolding down_release
  down_release-Safe project n = bind-Triple (list_by_project-Safe project n) (λ xs. record {
    ends = λ w p.
        (bind-Triple (remove_each-Safe o c xs p.1)
            (λ a. call-Keeps (λ now. s.removes_network now project) (λ u k q. q))).ends
          w p.0;
  })

  up-Ends :
      (p : Result (Unit {0}) × List Box) (w : World)
      → Stands c p.1
      → Ends (λ a u. SafeNow u) SafeNow (p.0, record w { containers = p.1; clock = suc w.clock })
  up-Ends (ok a, xs) w h = h
  up-Ends (err e, xs) w h = h

  pub up_project-Safe :
      (project : Text) → in_project project c ≡ false → Keeps SafeNow (up_project o s project)
  unfolding up_project
  up_project-Safe project n = record {
    ends = λ w p.
        up-Ends (s.up w.clock project w.containers) w
          (law.up_keeps w.clock project w.containers c n p);
  }

  -- The new release's project, if there is one, is not the container's.
  abbrev pub NotIn : Option Text → Type 0
  NotIn none = Unit
  NotIn (some project) = in_project project c ≡ false

  pub remove_failed_release-Safe :
      (project : Option Text) → NotIn project → Keeps SafeNow (remove_failed_release o s project)
  unfolding remove_failed_release
  remove_failed_release-Safe none n = always (λ w p. p)
  remove_failed_release-Safe (some project) n = down_release-Safe project n

  fail_gate-Safe : (project : Option Text) → NotIn project → Keeps SafeNow (fail_gate o s project)
  unfolding fail_gate
  fail_gate-Safe project n =
      bind-Triple (remove_failed_release-Safe project n)
        (λ a. always {m = throw Error.health_check} (λ w p. p))

  pub list_for_project-Safe :
      (project : Text) → in_project project c ≡ false → Keeps SafeNow (list_for_project o s project)
  unfolding list_for_project
  list_for_project-Safe project n =
      bind-Triple (list_by_project-Safe project n) (λ xs. record { ends = λ w p. p.0 })

  pub list_for_release-Safe :
      (project : Option Text) → NotIn project → Keeps SafeNow (list_for_release o s project)
  list_for_release-Safe none n = always (λ w p. p)
  list_for_release-Safe (some project) n = list_for_project-Safe project n

  pub after_health-Safe :
      (project : Option Text) (verdict : Result Bool)
      → NotIn project
      → Keeps SafeNow (after_health o s project verdict)
  after_health-Safe project (ok true) n = always (λ w p. p)
  after_health-Safe project (ok false) n = fail_gate-Safe project n
  after_health-Safe project (err e) n =
      if-Triple (is_one_shot_failure e) (fail_gate-Safe project n) (always {m = throw e} (λ w p. p))

  pub after_routes-Safe :
      (project : Option Text) (route : Option DomainRoute)
      → NotIn project
      → Keeps SafeNow (after_routes o s project route)
  after_routes-Safe project none n = always (λ w p. p)
  after_routes-Safe project (some route) n = fail_gate-Safe project n
