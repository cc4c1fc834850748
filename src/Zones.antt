-- ===== src/Zones.antt =====
-- backend/src/domains/domain-zone.ts: the DNS zone of a domain. Lower case is a parameter.
pub mod Longest
mod Tests
use willy.Prelude.{
  ℕ, suc, ◌+◌, ◌-◌, Bool, true, false, ◌&&◌, ◌||◌, Option, none, some, List, [], ◌∷◌, ◌==◌, ltb,
  leb, if◌then◌else◌, length, take, Text, text_eq,
}
use willy.Traefik.{ends_with}

-- `replace(/\.$/, "")`
abbrev pub without_dot : Text → Text
without_dot [] = []
without_dot (c ∷ []) = if c == 46 then [] else c ∷ []
without_dot (c ∷ (d ∷ s)) = c ∷ without_dot (d ∷ s)

module _ (lower_case : Text → Text) where
  abbrev pub normalise : Text → Text
  normalise value = without_dot (lower_case value)

  abbrev pub contains_host : Text → Text → Bool
  contains_host candidate host = text_eq host candidate || ends_with host (46 ∷ candidate)

  -- `!best || candidate.length > best.length`
  abbrev pub is_better : Text → Option Text → Bool
  is_better candidate none = true
  is_better candidate (some best) = leb (length best) 0 || ltb (length best) (length candidate)

  abbrev pub keep_best : Text → Text → Option Text → Option Text
  keep_best host candidate best =
      if contains_host candidate host && is_better candidate best then some candidate else best

  unfoldable pub best_zone : Text → List Text → Option Text → Option Text
  unfolding ends_with
  best_zone host [] best = best
  best_zone host (zone ∷ zones) best = best_zone host zones (keep_best host (normalise zone) best)

  unfoldable pub zone_for : Text → List Text → Option Text
  unfolding best_zone
  zone_for fqdn zones = best_zone (normalise fqdn) zones none

  unfoldable pub sub_domain_of : Text → Text → Text
  sub_domain_of fqdn zone =
      let host = normalise fqdn in
      let z = normalise zone in
      if text_eq host z then [] else take (length host - length z - 1) host
