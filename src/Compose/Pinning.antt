-- ===== src/Compose/Pinning.antt =====
-- What pins a service of a stack: it holds what only one copy may have, described without the code's
-- tests.
use willy.Prelude.{
  ◌≡◌, ◌≢◌, ◌⊎◌, true, false, Option, none, some, List, [], ◌∷◌, Text, codes, text_mem, starts_with,
  split,
}
use willy.Compose.Values.{
  Value, Items, Fields, bool, str, arr, obj, nil, cons, lookup, keys, strings,
}

-- The value of a key is that text.
abbrev pub IsText : Text → Text → Fields → Type 0
IsText key t svc = lookup key svc ≡ some (str t)

abbrev pub IsOn : Text → Fields → Type 0
IsOn key svc = lookup key svc ≡ some (bool true)

-- The network of the host, of a container or of another service.
abbrev pub SharesNetwork : Fields → Type 0
SharesNetwork svc =
    (mode : Text) × IsText (codes "network_mode") mode svc
    × (((mode ≡ codes "host") ⊎ (starts_with mode (codes "container:") ≡ true))
        ⊎ (starts_with mode (codes "service:") ≡ true))

abbrev pub IsPrivileged : Fields → Type 0
IsPrivileged svc =
    (IsOn (codes "privileged") svc ⊎ IsText (codes "pid") (codes "host") svc)
    ⊎ IsText (codes "ipc") (codes "host") svc

abbrev pub HasDevices : Fields → Type 0
HasDevices svc =
    (v : Value) × (vs : Items) × (lookup (codes "devices") svc ≡ some (arr (cons v vs)))

-- One of the names is not that of the default network.
abbrev pub HasOther : List Text → Type 0
HasOther [] = ⊥
HasOther (n ∷ ns) = (n ≢ codes "default") ⊎ HasOther ns

-- A network of its own, in either form.
abbrev pub HasNetwork : Fields → Type 0
HasNetwork svc =
    ((vs : Items) × (lookup (codes "networks") svc ≡ some (arr vs)) × HasOther (strings vs))
    ⊎ ((fs : Fields) × (lookup (codes "networks") svc ≡ some (obj fs)) × HasOther (keys fs))

-- A mount that writes: `source:target[:options]` without the option "ro", or the long form.
abbrev pub WritesParts : List Text → Type 0
WritesParts [] = ⊥
WritesParts (source ∷ []) = ⊥
WritesParts (source ∷ target ∷ []) = source ≢ []
WritesParts (source ∷ target ∷ options ∷ rest) =
    (text_mem (codes "ro") (split 44 options) ≡ false) × (source ≢ [])

abbrev pub Writes : Value → Type 0
Writes (str entry) = WritesParts (split 58 entry)
Writes (obj mount) =
    (¬ IsOn (codes "read_only") mount)
    × ((¬ (
          IsText (codes "type") (codes "tmpfs") mount
          ⊎ IsText (codes "type") (codes "npipe") mount))
        × (IsText (codes "type") (codes "bind") mount
            ⊎ ((source : Text) × IsText (codes "source") source mount × (source ≢ []))))
Writes _ = Unit

abbrev pub HasWriting : Items → Type 0
HasWriting nil = ⊥
HasWriting (cons v vs) = Writes v ⊎ HasWriting vs

-- The value of `volumes` holds a mount that writes, or is not a list.
abbrev pub HoldsState : Option Value → Type 0
HoldsState none = ⊥
HoldsState (some (arr vs)) = HasWriting vs
HoldsState (some _) = Unit

abbrev pub IsPinned : Value → Type 0
IsPinned (obj svc) =
    SharesNetwork svc
    ⊎ (IsPrivileged svc
        ⊎ (HasDevices svc ⊎ (HasNetwork svc ⊎ HoldsState (lookup (codes "volumes") svc))))
IsPinned _ = Unit
