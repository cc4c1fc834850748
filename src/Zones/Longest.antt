-- ===== src/Zones/Longest.antt =====
-- The zone of a domain is the longest that contains it.
use willy.Prelude.{
  ◌≤◌, ◌≡◌, refl, ◌⊎◌, inl, inr, true, false, Option, none, some, List, [], ◌∷◌, if◌then◌else◌,
  length, Elem, Text, Bool-cases, arith,
}
use willy.Zones.{normalise, contains_host, is_better, keep_best, best_zone, zone_for}

module _ (lower_case : Text → Text) (host : Text) where
  -- No zone of a set contains the host, or this is one that does, and none that does is longer.
  abbrev pub IsBest : (Text → Type 0) → Option Text → Type 0
  IsBest In none =
      (z : Text) → In z → contains_host lower_case (normalise lower_case z) host ≡ false
  IsBest In (some best) =
      (contains_host lower_case best host ≡ true)
      × ((z : Text) × In z × (best ≡ normalise lower_case z))
      × ((z : Text)
          → In z
          → contains_host lower_case (normalise lower_case z) host ≡ true
          → length (normalise lower_case z) ≤ length best)

  IsBest-same :
      (In Out : Text → Type 0)
      → ((z : Text) → In z → Out z)
      → ((z : Text) → Out z → In z)
      → (best : Option Text) → IsBest In best
      → IsBest Out best
  IsBest-same In Out to from none v = λ z m. v z (from z m)
  IsBest-same In Out to from (some b) (c, (z, m, e), longest) =
      (c, (z, to z m, e), λ y n h. longest y (from y n) h)

  missed :
      (In : Text → Type 0) (zone : Text) (best : Option Text)
      → contains_host lower_case (normalise lower_case zone) host ≡ false
      → IsBest In best
      → IsBest (λ z. (zone ≡ z) ⊎ In z) best
  missed In zone none no_match v = go
    where
      go :
          (z : Text)
          → (zone ≡ z) ⊎ In z
          → contains_host lower_case (normalise lower_case z) host ≡ false
      go z (inl e) = rw (← e) no_match
      go z (inr m) = v z m
  missed In zone (some b) no_match (c, (z, m, e), longest) = (c, (z, inr m, e), go)
    where
      go :
          (y : Text)
          → (zone ≡ y) ⊎ In y
          → contains_host lower_case (normalise lower_case y) host ≡ true
          → length (normalise lower_case y) ≤ length b
      go y (inl e) h =
          let h' : contains_host lower_case (normalise lower_case zone) host ≡ true = rw e h in
          absurd (cc (h', no_match))
      go y (inr n) h = longest y n h

  matched :
      (In : Text → Type 0) (zone : Text) (best : Option Text)
      → contains_host lower_case (normalise lower_case zone) host ≡ true
      → IsBest In best
      → IsBest
          (λ z. (zone ≡ z) ⊎ In z)
          (if is_better lower_case (normalise lower_case zone) best
            then some (normalise lower_case zone)
            else best)
  matched In zone none match v = (match, (zone, inl refl, refl), go)
    where
      go :
          (y : Text)
          → (zone ≡ y) ⊎ In y
          → contains_host lower_case (normalise lower_case y) host ≡ true
          → length (normalise lower_case y) ≤ length (normalise lower_case zone)
      go y (inl e) h = rw (← e) (omega arith)
      go y (inr n) h = absurd (cc (h, v y n))
  matched In zone (some b) match (c, (z, m, e), longest) =
      elim (Bool-cases (is_better lower_case (normalise lower_case zone) (some b))) [
        | inl y ↦ rw y (match, (zone, inl refl, refl), λ x n h. longer y x n h)
        | inr k ↦ rw k (c, (z, inr m, e), λ x n h. shorter k x n h)
      ]
    where
      longer :
          is_better lower_case (normalise lower_case zone) (some b) ≡ true
          → (y : Text) → (zone ≡ y) ⊎ In y
          → contains_host lower_case (normalise lower_case y) host ≡ true
          → length (normalise lower_case y) ≤ length (normalise lower_case zone)
      longer better y (inl e) h = rw (← e) (omega arith)
      longer better y (inr n) h = let l = longest y n h in ground arith

      shorter :
          is_better lower_case (normalise lower_case zone) (some b) ≡ false
          → (y : Text) → (zone ≡ y) ⊎ In y
          → contains_host lower_case (normalise lower_case y) host ≡ true
          → length (normalise lower_case y) ≤ length b
      shorter not_better y (inl e) h = rw (← e) (ground arith)
      shorter not_better y (inr n) h = longest y n h

  kept :
      (In : Text → Type 0) (zone : Text) (best : Option Text)
      → IsBest In best
      → IsBest (λ z. (zone ≡ z) ⊎ In z) (keep_best lower_case host (normalise lower_case zone) best)
  kept In zone best v =
      elim (Bool-cases (contains_host lower_case (normalise lower_case zone) host)) [
        | inr n ↦ rw n (missed In zone best n v)
        | inl y ↦ rw y (matched In zone best y v)
      ]

  best_zone-IsBest :
      (zones : List Text) (In : Text → Type 0) (best : Option Text)
      → IsBest In best
      → IsBest (λ z. Elem z zones ⊎ In z) (best_zone lower_case host zones best)
  unfolding best_zone
  best_zone-IsBest [] In best v = IsBest-same In (λ z. ⊥ ⊎ In z) (λ z m. inr m) drop_empty best v
    where
      drop_empty : (z : Text) → ⊥ ⊎ In z → In z
      drop_empty z (inl no_way) = absurd no_way
      drop_empty z (inr m) = m
  best_zone-IsBest (zone ∷ zones) In best v =
      IsBest-same (λ z. Elem z zones ⊎ ((zone ≡ z) ⊎ In z))
        (λ z. ((zone ≡ z) ⊎ Elem z zones) ⊎ In z) to from
        (best_zone lower_case host zones
          (keep_best lower_case host (normalise lower_case zone) best))
        (best_zone-IsBest zones (λ z. (zone ≡ z) ⊎ In z)
          (keep_best lower_case host (normalise lower_case zone) best) (kept In zone best v))
    where
      to : (z : Text) → Elem z zones ⊎ ((zone ≡ z) ⊎ In z) → ((zone ≡ z) ⊎ Elem z zones) ⊎ In z
      to z (inl m) = inl (inr m)
      to z (inr (inl e)) = inl (inl e)
      to z (inr (inr m)) = inr m

      from : (z : Text) → ((zone ≡ z) ⊎ Elem z zones) ⊎ In z → Elem z zones ⊎ ((zone ≡ z) ⊎ In z)
      from z (inl (inl e)) = inr (inl e)
      from z (inl (inr m)) = inl m
      from z (inr m) = inr (inr m)

-- A domain is given a zone exactly if one of the zones contains it, and then the longest one that does.
pub zone_for-IsBest :
    (lower_case : Text → Text) (fqdn : Text) (zones : List Text)
    → IsBest lower_case
        (normalise lower_case fqdn)
        (λ z. Elem z zones)
        (zone_for lower_case fqdn zones)
unfolding zone_for
zone_for-IsBest lower_case fqdn zones =
    let host = normalise lower_case fqdn in
    IsBest-same lower_case host (λ z. Elem z zones ⊎ ⊥) (λ z. Elem z zones) drop_empty
      (λ z m. inl m) (best_zone lower_case host zones none)
      (best_zone-IsBest lower_case host zones (λ z. ⊥) none (λ z m. absurd m))
  where
    drop_empty : (z : Text) → Elem z zones ⊎ ⊥ → Elem z zones
    drop_empty z (inl m) = m
    drop_empty z (inr no_way) = absurd no_way
