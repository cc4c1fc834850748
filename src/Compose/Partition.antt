-- ===== src/Compose/Partition.antt =====
-- The split of a stack: every service is in one part, by what its definition says.
use willy.Prelude.{
  ◌+◌, ◌≡◌, ◌↔◌, refl, ap, sym, ◌∙◌, filter, text_eq_refl, Bool, true, false, not, Option, none,
  some, List, [], ◌∷◌, count, Text, text_eq, text_eq_sound, text_mem, split, Bool-cases, inl, inr,
  is_some, arith,
}
use willy.Compose.Values.{Value, Fields, str, end, field, lookup, keys}
use willy.Compose.Classify.{
  classify, service_pins, mount_pins, restart_of, is_no, cons_if, says_ro, mode_of, nonempty,
  short_pins,
}
use willy.Compose.Pinning.{IsPinned}
use willy.Compose.Pins.{service_pins-decides}
use willy.Compose.Split.{read_only_named_volume, is_path, short_read_only}

-- An object has no key twice.
abbrev pub HasUniqueKeys : Fields → Type 0
HasUniqueKeys end = Unit
HasUniqueKeys (field k v fs) = (text_mem k (keys fs) ≡ false) × HasUniqueKeys fs

-- What the split says of a name, from the service of that name.
abbrev pub says : (Value → Bool) → Option Value → Bool
says p none = false
says p (some v) = p v

missing : (name : Text) (fs : Fields) → text_mem name (keys fs) ≡ false → lookup name fs ≡ none
unfolding keys lookup
missing name end h = refl
missing name (field k v fs) h = elim (Bool-cases (text_eq k name)) [
  | inl y ↦ let h' : true ≡ false = rw y at h in absurd (cc h')
  | inr n ↦ let h' : text_mem name (keys fs) ≡ false = rw n at h in rw n (missing name fs h')
]

-- A list built with `cons_if` on the fields.
listed :
    (p : Value → Bool) (names : Fields → List Text) (k name : Text) (v : Value) (fs : Fields)
    → lookup k fs ≡ none
    → text_mem name (names fs) ≡ says p (lookup name fs)
    → text_mem name (cons_if (p v) k (names fs)) ≡ says p (lookup name (field k v fs))
unfolding lookup
listed p names k name v fs absent ih = elim (Bool-cases (text_eq k name)) [
  | inl y ↦
      let same : k ≡ name = text_eq_sound k name y in
      let none_here : lookup name fs ≡ none = rw same at absent in
      let ih' : text_mem name (names fs) ≡ false = rw none_here at ih in
      elim (Bool-cases (p v)) [ inl a ↦ rw (a, y, a) | inr a ↦ rw (a, y, a) ih' ]
  | inr n ↦ elim (Bool-cases (p v)) [ inl a ↦ rw (a, n) ih | inr a ↦ rw (a, n) ih ]
]

-- Which of the two lists has a name, by the code's test of its service.
classify-tests :
    (fs : Fields) (name : Text)
    → HasUniqueKeys fs
    → (text_mem name (classify fs).eligible ≡ says (λ v. not (service_pins v)) (lookup name fs))
      × (text_mem name (classify fs).pinned ≡ says service_pins (lookup name fs))
unfolding classify lookup
classify-tests end name u = (refl, refl)
classify-tests (field k v fs) name (fresh, u) =
    let (e, p) = classify-tests fs name u in
    let absent = missing k fs fresh in
    (
      listed (λ x. not (service_pins x)) (λ g. (classify g).eligible) k name v fs absent e,
      listed service_pins (λ g. (classify g).pinned) k name v fs absent p,
    )

says_iff :
    (p : Value → Bool) (P : Value → Type 0)
    → ((v : Value) → (p v ≡ true) ↔ P v)
    → (found : Option Value) → (says p found ≡ true) ↔ ((v : Value) × (found ≡ some v) × P v)
says_iff p P h none = ((λ e. absurd (cc e)), λ (_, e, _). absurd (cc e))
says_iff p P h (some v) =
    (λ e. (v, refl, (h v).0 e), λ (w, e, m). let same : v ≡ w = cc e in rw same ((h w).1 m))

not-IsPinned : (v : Value) → (not (service_pins v) ≡ true) ↔ (¬ IsPinned v)
not-IsPinned v = elim (Bool-cases (service_pins v)) [
  | inl y ↦ rw y ((λ e. absurd (cc e)), λ m. absurd (m ((service_pins-decides v).0 y)))
  | inr n ↦ rw n ((λ _ m. cc (n, (service_pins-decides v).1 m)), λ _. refl)
]

-- In a stack without a service twice, the eligible names are those of the services that nothing pins, and
-- the pinned names those of the services that something pins: the network of the host or of another
-- container, privileges, a device, a network of its own, a mount that writes, or a definition that
-- is not understood.
pub classify-says :
    (fs : Fields) (name : Text)
    → HasUniqueKeys fs
    → ((text_mem name (classify fs).eligible ≡ true)
        ↔ ((v : Value) × (lookup name fs ≡ some v) × (¬ IsPinned v)))
      × ((text_mem name (classify fs).pinned ≡ true)
          ↔ ((v : Value) × (lookup name fs ≡ some v) × IsPinned v))
classify-says fs name unique =
    let (e, p) = classify-tests fs name unique in
    (
      rw e (says_iff (λ v. not (service_pins v)) (λ v. ¬ IsPinned v) not-IsPinned (lookup name fs)),
      rw p (says_iff service_pins IsPinned service_pins-decides (lookup name fs)),
    )

lookup-field : (k : Text) (v : Value) (fs : Fields) → lookup k (field k v fs) ≡ some v
unfolding lookup
lookup-field k v fs = rw (text_eq_refl k)

other_key : (k n : Text) → text_eq n k ≡ false → text_eq k n ≡ false
other_key k n h = elim (Bool-cases (text_eq k n)) [
  | inr m ↦ m
  | inl y ↦
      let same : k ≡ n = text_eq_sound k n y in
      let bad : text_eq n n ≡ false = rw same at h in absurd (cc (bad, text_eq_refl n))
]

-- A field is not asked for by the other names.
filter-lookup :
    (p : Value → Bool) (k : Text) (v : Value) (fs : Fields) (names : List Text)
    → text_mem k names ≡ false
    → filter (λ n. says p (lookup n (field k v fs))) names
      ≡ filter (λ n. says p (lookup n fs)) names
unfolding lookup
filter-lookup p k v fs [] h = refl
filter-lookup p k v fs (n ∷ ns) h = elim (Bool-cases (text_eq n k)) [
  | inl y ↦ let h' : true ≡ false = rw y at h in absurd (cc h')
  | inr m ↦
      let h' : text_mem k ns ≡ false = rw m at h in
      let ih = filter-lookup p k v fs ns h' in
      rw (other_key k n m) (elim (Bool-cases (says p (lookup n fs))) [
        | inl y ↦ rw y (ap (λ xs. n ∷ xs) ih)
        | inr z ↦ rw z ih
      ])
]

in_order :
    (p : Value → Bool) (k : Text) (v : Value) (fs : Fields) (names : List Text)
    → text_mem k (keys fs) ≡ false
    → names ≡ filter (λ n. says p (lookup n fs)) (keys fs)
    → cons_if (p v) k names ≡ filter (λ n. says p (lookup n (field k v fs))) (k ∷ keys fs)
in_order p k v fs names fresh ih =
    let more = ih ∙ sym (filter-lookup p k v fs (keys fs) fresh) in
    let here : lookup k (field k v fs) ≡ some v = lookup-field k v fs in
    elim (Bool-cases (p v)) [
      | inl y ↦ rw (here, y) (ap (λ xs. k ∷ xs) more)
      | inr n ↦ rw (here, n) more
    ]

-- Both parts keep the order of the file.
pub classify-in_order :
    (fs : Fields)
    → HasUniqueKeys fs
    → ((classify fs).eligible
        ≡ filter (λ n. says (λ v. not (service_pins v)) (lookup n fs)) (keys fs))
      × ((classify fs).pinned ≡ filter (λ n. says service_pins (lookup n fs)) (keys fs))
unfolding classify keys
classify-in_order end u = (refl, refl)
classify-in_order (field k v fs) (fresh, u) =
    let (e, p) = classify-in_order fs u in
    (
      in_order (λ x. not (service_pins x)) k v fs (classify fs).eligible fresh e,
      in_order service_pins k v fs (classify fs).pinned fresh p,
    )

-- No service is lost or put in both parts, whatever the file.
pub classify-partitions :
    (fs : Fields) (name : Text)
    → count (λ n. text_eq n name) (classify fs).eligible
        + count (λ n. text_eq n name) (classify fs).pinned
      ≡ count (λ n. text_eq n name) (keys fs)
unfolding classify keys
classify-partitions end name = refl
classify-partitions (field k v fs) name =
    let ih = classify-partitions fs name in
    elim (Bool-cases (service_pins v)) [
      | inl y ↦ rw y (elim (Bool-cases (text_eq k name)) [
        | inl a ↦ rw a (omega (arith, ih))
        | inr a ↦ rw a ih
      ])
      | inr n ↦ rw n (elim (Bool-cases (text_eq k name)) [
        | inl a ↦ rw a (omega (arith, ih))
        | inr a ↦ rw a ih
      ])
    ]

no_is_declared : (restart : Option Value) → is_no restart ≡ true → is_some restart ≡ true
no_is_declared none h = absurd (cc h)
no_is_declared (some v) h = refl

-- A one-shot declares its own restart policy, which the override leaves alone.
pub one_shot-declares :
    (fs : Fields) (name : Text)
    → text_mem name (classify fs).one_shot ≡ true
    → text_mem name (classify fs).declares_restart ≡ true
unfolding classify
one_shot-declares end name h = absurd (cc h)
one_shot-declares (field k v fs) name h = elim (Bool-cases (is_no (restart_of v))) [
  | inl y ↦ elim (Bool-cases (text_eq k name)) [
    | inl a ↦ rw (no_is_declared (restart_of v) y, a)
    | inr a ↦
        let h' : text_mem name (classify fs).one_shot ≡ true = rw (y, a) at h in
        rw (no_is_declared (restart_of v) y, a) (one_shot-declares fs name h')
  ]
  | inr n ↦
      let h' : text_mem name (classify fs).one_shot ≡ true = rw n at h in
      let ih = one_shot-declares fs name h' in
      elim (Bool-cases (is_some (restart_of v))) [
        | inl b ↦ elim (Bool-cases (text_eq k name)) [ inl a ↦ rw (b, a) | inr a ↦ rw (b, a) ih ]
        | inr b ↦ rw b ih
      ]
]

-- What a mount in the short form names, and may write: all but an anonymous volume, which has no
-- source, and a mount with the option "ro".
short_kept :
    (parts : List Text) (source : Text)
    → short_pins parts ≡ false
    → is_path source ≡ false
    → nonempty source ≡ true
    → (rest : List Text) (target : Text) → parts ≡ source ∷ target ∷ rest
    → short_read_only parts ≡ some source
unfolding says_ro
short_kept parts source kept path named rest target e =
    let kept' : short_pins (source ∷ target ∷ rest) ≡ false = rw e at kept in
    rw e (elim (Bool-cases (says_ro (mode_of rest))) [
      | inl y ↦ rw (y, named, path)
      | inr n ↦ let bad : nonempty source ≡ false = rw n at kept' in absurd (cc (bad, named))
    ])

-- A mount of an eligible service, in the short form and from a named volume, is read-only: the release
-- file points it at the base project's volume.
pub mount_pins-read_only :
    (entry source target : Text) (rest : List Text)
    → mount_pins (str entry) ≡ false
    → split 58 entry ≡ source ∷ target ∷ rest
    → is_path source ≡ false
    → nonempty source ≡ true
    → read_only_named_volume (str entry) ≡ some source
unfolding mount_pins read_only_named_volume
mount_pins-read_only entry source target rest kept parts path named =
    short_kept (split 58 entry) source kept path named rest target parts
