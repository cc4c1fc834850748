-- ===== src/Domains/Tests.antt =====
-- The domains service on concrete tables, and instances of its theorems.
use willy.Prelude.{
  ◌≡◌, refl, inr, true, false, not, none, some, List, [], ◌∷◌, ◌++◌, find, filter, codes, arith,
}
use willy.Prelude.Counting.{find-elem, find-none}
use willy.Domains.{
  Domain, Limit1, TargetPatch, make, run, remove_domain, update_domain_target, kept_row,
  primary_domain, make_primary,
}
use willy.Domains.Primary.{IsValid, run-IsValid}
use willy.Domains.Handover.{HasPrimary, remove_domain-HasPrimary}
use willy.Domains.Routes.{Binding, expand_domain_routes, expand_domain_routes_groups, all_routes}

-- The database returns the first row that passes.
abbrev first_row : Limit1
first_row = record { pick = find; pick_some = find-elem; pick_none = find-none }

abbrev main_site : Domain
main_site = record {
  id = 1;
  fqdn = codes "a.net";
  deployment_id = 7;
  is_primary = true;
  web_route = true;
  target_service = none;
  target_port = none;
}

abbrev side_site : Domain
side_site = record main_site { id = 2; fqdn = codes "b.net"; is_primary = false }

abbrev port_only : Domain
port_only = record side_site { id = 3; fqdn = codes "c.net"; web_route = false }

abbrev table : List Domain
table = main_site ∷ side_site ∷ port_only ∷ []

table-IsValid : IsValid table
table-IsValid = record {
  one_primary = λ dep. ground arith;
  no_stray = refl;
  unique_ids = λ k. ground arith;
}

run-IsValid_example : IsValid (run first_row (make 7 2) table)
run-IsValid_example = run-IsValid first_row (make 7 2) table table-IsValid refl

made_primary :
    primary_domain first_row 7 (run first_row (make 7 2) table)
    ≡ some (record side_site { is_primary = true })
unfolding run primary_domain make_primary
made_primary = refl

remove_domain-HasPrimary_example : HasPrimary 7 (remove_domain first_row 7 1 table)
remove_domain-HasPrimary_example =
    remove_domain-HasPrimary first_row 7 1 table table-IsValid (inr refl)

abbrev drop_web : TargetPatch
drop_web = record { web_route = some false; target_service = none; target_port = none }

-- Switching the web route of the only domain on makes it no primary.
abbrev web_on : TargetPatch
web_on = record { web_route = some true; target_service = none; target_port = none }

no_primary_after_web_on :
    primary_domain first_row 7
      (kept_row (port_only ∷ []) (update_domain_target first_row 7 3 web_on (port_only ∷ [])))
    ≡ none
unfolding update_domain_target primary_domain
no_primary_after_web_on = refl

abbrev game_port : Binding
game_port = record {
  domain_id = 2;
  host_port = 20001;
  target_service = none;
  target_port = some 25565;
}

expand_domain_routes_groups_example :
    expand_domain_routes (side_site ∷ main_site ∷ []) (game_port ∷ [])
    ≡ filter (λ r. r.is_primary) (all_routes (game_port ∷ []) (side_site ∷ main_site ∷ []))
      ++ filter (λ r. not r.is_primary) (all_routes (game_port ∷ []) (side_site ∷ main_site ∷ []))
expand_domain_routes_groups_example =
    expand_domain_routes_groups (side_site ∷ main_site ∷ []) (game_port ∷ [])
