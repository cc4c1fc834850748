-- ===== src/Compose/Pins.antt =====
-- The code's test of a service decides whether it holds what pins it.
use willy.Prelude.{
  ◌≡◌, ◌≢◌, ◌⊎◌, ◌↔◌, refl, sym, ◌∙◌, inl, inr, Bool, true, false, not, ◌||◌, Option, none, some,
  List, [], ◌∷◌, any, Text, codes, text_eq, text_eq_sound, text_eq_iff, text_eq_refl, text_mem,
  starts_with, split, Bool-cases, if◌then◌else◌,
}
use willy.Compose.Values.{
  Value, Items, Fields, null, bool, num, str, arr, obj, nil, cons, lookup, keys, strings, any_item,
}
use willy.Compose.Classify.{
  is_true, is_text, says_ro, nonempty, short_pins, has_source, mount_pins, uses_custom_network,
  shares_network, has_devices, volumes_pin, service_pins,
}
use willy.Compose.Pinning.{
  HasOther, HasNetwork, WritesParts, Writes, HasWriting, HoldsState, IsPinned,
}

or-decides :
    {a b : Bool} {P Q : Type 0} → (a ≡ true) ↔ P → (b ≡ true) ↔ Q → (a || b ≡ true) ↔ (P ⊎ Q)
or-decides {a = true} {b} (f, g) h = ((λ _. inl (f refl)), λ _. refl)
or-decides {a = false} {b} (f, g) (f', g') =
    ((λ e. inr (f' e)), λ m. elim m [ inl p ↦ absurd (cc (g p)) | inr q ↦ g' q ])

if-decides :
    {a b : Bool} {P Q : Type 0}
    → (a ≡ true) ↔ P
    → (b ≡ true) ↔ Q
    → ((if a then true else b) ≡ true) ↔ (P ⊎ Q)
if-decides {a = true} {b} (f, g) h = ((λ _. inl (f refl)), λ _. refl)
if-decides {a = false} {b} (f, g) (f', g') =
    ((λ e. inr (f' e)), λ m. elim m [ inl p ↦ absurd (cc (g p)) | inr q ↦ g' q ])

and_not-decides :
    {a b : Bool} {P Q : Type 0}
    → (a ≡ true) ↔ P
    → (b ≡ true) ↔ Q
    → ((if a then false else b) ≡ true) ↔ ((¬ P) × Q)
and_not-decides {a = true} {b} (f, g) h = ((λ e. absurd (cc e)), λ (n, _). absurd (n (f refl)))
and_not-decides {a = false} {b} (f, g) (f', g') = ((λ e. ((λ p. cc (g p)), f' e)), λ (_, q). g' q)

is_true-decides : (v : Option Value) → (is_true v ≡ true) ↔ (v ≡ some (bool true))
is_true-decides none = ((λ e. absurd (cc e)), λ e. absurd (cc e))
is_true-decides (some (bool true)) = ((λ e. refl), λ e. refl)
is_true-decides (some (bool false)) = ((λ e. absurd (cc e)), λ e. absurd (cc e))
is_true-decides (some null) = ((λ e. absurd (cc e)), λ e. absurd (cc e))
is_true-decides (some (num n)) = ((λ e. absurd (cc e)), λ e. absurd (cc e))
is_true-decides (some (str s)) = ((λ e. absurd (cc e)), λ e. absurd (cc e))
is_true-decides (some (arr vs)) = ((λ e. absurd (cc e)), λ e. absurd (cc e))
is_true-decides (some (obj fs)) = ((λ e. absurd (cc e)), λ e. absurd (cc e))

is_text-decides : (t : Text) (v : Option Value) → (is_text t v ≡ true) ↔ (v ≡ some (str t))
is_text-decides t none = ((λ e. absurd (cc e)), λ e. absurd (cc e))
is_text-decides t (some (str s)) = (
  (λ e. let same = text_eq_sound s t e in cc same),
  λ e. let same : s ≡ t = cc e in rw same (text_eq_refl t),
)
is_text-decides t (some (bool b)) = ((λ e. absurd (cc e)), λ e. absurd (cc e))
is_text-decides t (some null) = ((λ e. absurd (cc e)), λ e. absurd (cc e))
is_text-decides t (some (num n)) = ((λ e. absurd (cc e)), λ e. absurd (cc e))
is_text-decides t (some (arr vs)) = ((λ e. absurd (cc e)), λ e. absurd (cc e))
is_text-decides t (some (obj fs)) = ((λ e. absurd (cc e)), λ e. absurd (cc e))

says_nonempty : (s : Text) → (nonempty s ≡ true) ↔ (s ≢ [])
says_nonempty [] = ((λ e. absurd (cc e)), λ n. absurd (n refl))
says_nonempty (c ∷ s) = ((λ _ e. cc), λ _. refl)

has_source-decides :
    (v : Option Value) → (has_source v ≡ true) ↔ ((s : Text) × (v ≡ some (str s)) × (s ≢ []))
has_source-decides none = ((λ e. absurd (cc e)), λ (_, e, _). absurd (cc e))
has_source-decides (some (str s)) = (
  λ e. (s, refl, (says_nonempty s).0 e),
  λ (t, e, n). let same : s ≡ t = cc e in (says_nonempty s).1 (λ z. n (sym same ∙ z)),
)
has_source-decides (some (bool b)) = ((λ e. absurd (cc e)), λ (_, e, _). absurd (cc e))
has_source-decides (some null) = ((λ e. absurd (cc e)), λ (_, e, _). absurd (cc e))
has_source-decides (some (num n)) = ((λ e. absurd (cc e)), λ (_, e, _). absurd (cc e))
has_source-decides (some (arr vs)) = ((λ e. absurd (cc e)), λ (_, e, _). absurd (cc e))
has_source-decides (some (obj fs)) = ((λ e. absurd (cc e)), λ (_, e, _). absurd (cc e))

short-decides : (parts : List Text) → (short_pins parts ≡ true) ↔ WritesParts parts
unfolding says_ro split text_eq
short-decides [] = ((λ e. absurd (cc e)), λ m. absurd m)
short-decides (source ∷ []) = ((λ e. absurd (cc e)), λ m. absurd m)
short-decides (source ∷ target ∷ []) = says_nonempty source
short-decides (source ∷ target ∷ options ∷ rest) =
    elim (Bool-cases (text_mem (codes "ro") (split 44 options))) [
      | inl y ↦ rw (y, says_ro) ((λ e. absurd (cc e)), λ (e, _). absurd (cc e))
      | inr n ↦
          rw (n, says_ro)
            (λ e. (refl, (says_nonempty source).0 e), λ (_, m). (says_nonempty source).1 m)
    ]

mount_pins-decides : (v : Value) → (mount_pins v ≡ true) ↔ Writes v
unfolding mount_pins
mount_pins-decides (str entry) = short-decides (split 58 entry)
mount_pins-decides (obj mount) =
    let kind = lookup (codes "type") mount in
    and_not-decides (is_true-decides (lookup (codes "read_only") mount)) (
      and_not-decides
        (or-decides (is_text-decides (codes "tmpfs") kind) (is_text-decides (codes "npipe") kind))
        (if-decides (is_text-decides (codes "bind") kind)
          (has_source-decides (lookup (codes "source") mount))))
mount_pins-decides null = ((λ _. tt), λ _. refl)
mount_pins-decides (bool b) = ((λ _. tt), λ _. refl)
mount_pins-decides (num n) = ((λ _. tt), λ _. refl)
mount_pins-decides (arr vs) = ((λ _. tt), λ _. refl)

writing-decides : (vs : Items) → (any_item mount_pins vs ≡ true) ↔ HasWriting vs
unfolding any_item
writing-decides nil = ((λ e. absurd (cc e)), λ m. absurd m)
writing-decides (cons v vs) = if-decides (mount_pins-decides v) (writing-decides vs)

volumes-decides : (v : Option Value) → (volumes_pin v ≡ true) ↔ HoldsState v
volumes-decides none = ((λ e. absurd (cc e)), λ m. absurd m)
volumes-decides (some (arr vs)) = writing-decides vs
volumes-decides (some null) = ((λ _. tt), λ _. refl)
volumes-decides (some (bool b)) = ((λ _. tt), λ _. refl)
volumes-decides (some (num n)) = ((λ _. tt), λ _. refl)
volumes-decides (some (str s)) = ((λ _. tt), λ _. refl)
volumes-decides (some (obj fs)) = ((λ _. tt), λ _. refl)

other-decides :
    (ns : List Text) → (any (λ n. not (text_eq n (codes "default"))) ns ≡ true) ↔ HasOther ns
other-decides [] = ((λ e. absurd (cc e)), λ m. absurd m)
other-decides (n ∷ ns) = or-decides (differs n) (other-decides ns)
  where
    differs : (n : Text) → (not (text_eq n (codes "default")) ≡ true) ↔ (n ≢ codes "default")
    differs n = elim (Bool-cases (text_eq n (codes "default"))) [
      | inl y ↦ rw y ((λ e. absurd (cc e)), λ m. absurd (m (text_eq_sound n (codes "default") y)))
      | inr z ↦ rw z (
        λ _ e.
            let bad : text_eq (codes "default") (codes "default") ≡ false = rw e at z in
            cc (bad, text_eq_refl (codes "default")),
        λ _. refl,
      )
    ]

-- A value that is in neither form names no network.
neither :
    {v : Option Value} {P : Items → Type 0} {Q : Fields → Type 0} {b : Bool}
    → ((vs : Items) → v ≢ some (arr vs))
    → ((fs : Fields) → v ≢ some (obj fs))
    → b ≡ false
    → (b ≡ true)
      ↔ (((vs : Items) × (v ≡ some (arr vs)) × P vs) ⊎ ((fs : Fields) × (v ≡ some (obj fs)) × Q fs))
neither not_list not_object empty = (
  λ e. absurd (cc (e, empty)),
  λ m. elim m [
    | inl (vs, e, _) ↦ absurd (not_list vs e)
    | inr (fs, e, _) ↦ absurd (not_object fs e)
  ],
)

network-decides :
    (svc : Fields) → (uses_custom_network (lookup (codes "networks") svc) ≡ true) ↔ HasNetwork svc
unfolding uses_custom_network
network-decides svc = by_value (lookup (codes "networks") svc)
  where
    by_value :
        (v : Option Value)
        → (uses_custom_network v ≡ true) ↔ (
            ((vs : Items) × (v ≡ some (arr vs)) × HasOther (strings vs))
            ⊎ ((fs : Fields) × (v ≡ some (obj fs)) × HasOther (keys fs)))
    by_value none = neither (λ vs. λ e. cc e) (λ fs. λ e. cc e) refl
    by_value (some (arr vs)) = (
      λ e. inl (vs, refl, (other-decides (strings vs)).0 e),
      λ m. elim m [
        | inl (ws, e, h) ↦ let same : vs ≡ ws = cc e in (other-decides (strings vs)).1 (rw same h)
        | inr (_, e, _) ↦ absurd (cc e)
      ],
    )
    by_value (some (obj fs)) = (
      λ e. inr (fs, refl, (other-decides (keys fs)).0 e),
      λ m. elim m [
        | inr (gs, e, h) ↦ let same : fs ≡ gs = cc e in (other-decides (keys fs)).1 (rw same h)
        | inl (_, e, _) ↦ absurd (cc e)
      ],
    )
    by_value (some null) = neither (λ vs. λ e. cc e) (λ fs. λ e. cc e) refl
    by_value (some (bool b)) = neither (λ vs. λ e. cc e) (λ fs. λ e. cc e) refl
    by_value (some (num n)) = neither (λ vs. λ e. cc e) (λ fs. λ e. cc e) refl
    by_value (some (str s)) = neither (λ vs. λ e. cc e) (λ fs. λ e. cc e) refl

same_iff : (b : Bool) → (b ≡ true) ↔ (b ≡ true)
same_iff b = ((λ e. e), λ e. e)

shares-decides :
    (v : Option Value)
    → (shares_network v ≡ true) ↔ (
        (mode : Text) × (v ≡ some (str mode))
        × (((mode ≡ codes "host") ⊎ (starts_with mode (codes "container:") ≡ true))
            ⊎ (starts_with mode (codes "service:") ≡ true)))
shares-decides none = ((λ e. absurd (cc e)), λ (_, e, _). absurd (cc e))
shares-decides (some (str mode)) =
    let (f, g) =
      or-decides
        (or-decides (text_eq_iff mode (codes "host"))
          (same_iff (starts_with mode (codes "container:"))))
        (same_iff (starts_with mode (codes "service:"))) in
    (λ e. (mode, refl, f e), λ (m, e, h). let same : mode ≡ m = cc e in g (rw same h))
shares-decides (some (bool b)) = ((λ e. absurd (cc e)), λ (_, e, _). absurd (cc e))
shares-decides (some null) = ((λ e. absurd (cc e)), λ (_, e, _). absurd (cc e))
shares-decides (some (num n)) = ((λ e. absurd (cc e)), λ (_, e, _). absurd (cc e))
shares-decides (some (arr vs)) = ((λ e. absurd (cc e)), λ (_, e, _). absurd (cc e))
shares-decides (some (obj fs)) = ((λ e. absurd (cc e)), λ (_, e, _). absurd (cc e))

devices-decides :
    (v : Option Value)
    → (has_devices v ≡ true) ↔ ((w : Value) × (ws : Items) × (v ≡ some (arr (cons w ws))))
devices-decides none = ((λ e. absurd (cc e)), λ (_, _, e). absurd (cc e))
devices-decides (some (arr nil)) = ((λ e. absurd (cc e)), λ (_, _, e). absurd (cc e))
devices-decides (some (arr (cons w ws))) = ((λ _. (w, ws, refl)), λ _. refl)
devices-decides (some (bool b)) = ((λ e. absurd (cc e)), λ (_, _, e). absurd (cc e))
devices-decides (some null) = ((λ e. absurd (cc e)), λ (_, _, e). absurd (cc e))
devices-decides (some (num n)) = ((λ e. absurd (cc e)), λ (_, _, e). absurd (cc e))
devices-decides (some (str s)) = ((λ e. absurd (cc e)), λ (_, _, e). absurd (cc e))
devices-decides (some (obj fs)) = ((λ e. absurd (cc e)), λ (_, _, e). absurd (cc e))

-- The code's test of a service is whether it holds what pins it.
pub service_pins-decides : (v : Value) → (service_pins v ≡ true) ↔ IsPinned v
unfolding service_pins
service_pins-decides (obj svc) = if-decides (shares-decides (lookup (codes "network_mode") svc)) (
    if-decides
      (or-decides
        (or-decides (is_true-decides (lookup (codes "privileged") svc))
          (is_text-decides (codes "host") (lookup (codes "pid") svc)))
        (is_text-decides (codes "host") (lookup (codes "ipc") svc)))
      (if-decides (devices-decides (lookup (codes "devices") svc))
        (if-decides (network-decides svc) (volumes-decides (lookup (codes "volumes") svc)))))
service_pins-decides null = ((λ _. tt), λ _. refl)
service_pins-decides (bool b) = ((λ _. tt), λ _. refl)
service_pins-decides (num n) = ((λ _. tt), λ _. refl)
service_pins-decides (str s) = ((λ _. tt), λ _. refl)
service_pins-decides (arr vs) = ((λ _. tt), λ _. refl)
