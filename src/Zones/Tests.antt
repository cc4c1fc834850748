-- ===== src/Zones/Tests.antt =====
-- Two zones of which one is in the other, and an instance of the theorem.
use willy.Prelude.{◌≡◌, refl, some, List, [], ◌∷◌, Elem, Text, codes, text_eq}
use willy.Traefik.{ends_with}
use willy.Zones.{normalise, best_zone, zone_for, sub_domain_of}
use willy.Zones.Longest.{IsBest, zone_for-IsBest}

abbrev same_case : Text → Text
same_case s = s

abbrev two_zones : List Text
two_zones = codes "x.net" ∷ codes "a.x.net." ∷ []

longest : zone_for same_case (codes "w.a.x.net") two_zones ≡ some (codes "a.x.net")
unfolding zone_for best_zone ends_with text_eq
longest = refl

sub_domain : sub_domain_of same_case (codes "w.a.x.net") (codes "a.x.net") ≡ codes "w"
unfolding sub_domain_of text_eq
sub_domain = refl

zone_for-IsBest_example :
    IsBest same_case
      (normalise same_case (codes "w.a.x.net"))
      (λ z. Elem z two_zones)
      (zone_for same_case (codes "w.a.x.net") two_zones)
zone_for-IsBest_example = zone_for-IsBest same_case (codes "w.a.x.net") two_zones
