-- ===== src/Compose/Hardening.antt =====
-- What holds of every service of a sanitized compose file.
use willy.Prelude.{
  ◌≡◌, refl, ap, sym, ◌∙◌, Bool, true, ◌||◌, ◌⊎◌, false, not, filter, Option, none, some, List, [],
  ◌∷◌, ◌++◌, any, Text, codes, text_eq, starts_with, is_space, Bool-cases, inl, inr,
}
use willy.Compose.Values.{
  Value, Fields, null, bool, num, str, arr, obj, end, field, as_record, lookup, put, remove_key,
  str_items, map_fields, lookup-put_same, lookup-put_other, lookup-remove_same, lookup-remove_other,
  lookup-map_fields, remove-missing, put-same, strings-str_items,
}
use willy.Compose.Sanitize.{
  hardened_opt, options_of, is_hardening, with_no_new_privileges, sanitize_fields, sanitize_service,
  services_of, sanitize_doc, sanitize_compose,
}

any-append : {A : Type 0} (p : A → Bool) (xs ys : List A) → any p (xs ++ ys) ≡ any p xs || any p ys
any-append p [] ys = refl
any-append p (x ∷ xs) ys = elim (Bool-cases (p x)) [
  | inl y ↦ rw y
  | inr n ↦ rw n (any-append p xs ys)
]

hardened_opt_hardens : is_hardening hardened_opt ≡ true
unfolding starts_with is_space
hardened_opt_hardens = refl

with_no_new_privileges-hardens :
    (existing : Option Value) → any is_hardening (with_no_new_privileges existing) ≡ true
unfolding with_no_new_privileges
with_no_new_privileges-hardens existing =
    elim (Bool-cases (any is_hardening (options_of existing))) [
      | inl y ↦ rw (y, y)
      | inr n ↦ rw (
        n,
        any-append is_hardening (options_of existing) (hardened_opt ∷ []),
        n,
        hardened_opt_hardens,
      )
    ]

-- Hardening hardened options changes nothing.
again :
    (opts : List Text)
    → any is_hardening opts ≡ true
    → with_no_new_privileges (some (arr (str_items opts))) ≡ opts
unfolding with_no_new_privileges
again opts h = rw (strings-str_items opts, h)

security_of : Fields → List Text
security_of f =
    with_no_new_privileges (lookup (codes "security_opt") (remove_key (codes "container_name") f))

-- The keys that a sanitized service has, and has not.
pub record IsHardened (svc : Fields) : Type 0 where
  pub unnamed : lookup (codes "container_name") svc ≡ none
  pub unpublished : lookup (codes "ports") svc ≡ none
  pub options : List Text
  pub secured : lookup (codes "security_opt") svc ≡ some (arr (str_items options))
  pub hardening : any is_hardening options ≡ true

sanitize_fields-IsHardened : (f : Fields) → IsHardened (sanitize_fields f)
unfolding sanitize_fields security_of text_eq
sanitize_fields-IsHardened f =
    let opts = security_of f in
    let v : Value = arr (str_items opts) in
    let unnamed = remove_key (codes "container_name") f in
    let secured = put (codes "security_opt") v unnamed in
    record {
      unnamed =
          lookup-remove_other (codes "ports") (codes "container_name") secured refl
          ∙ (lookup-put_other (codes "security_opt") (codes "container_name") v unnamed refl
              ∙ lookup-remove_same (codes "container_name") f);
      unpublished = lookup-remove_same (codes "ports") secured;
      options = opts;
      secured =
          lookup-remove_other (codes "ports") (codes "security_opt") secured refl
          ∙ lookup-put_same (codes "security_opt") v unnamed;
      hardening = with_no_new_privileges-hardens (lookup (codes "security_opt") unnamed);
    }

-- A hardened service is sanitized already.
IsHardened-fixed : (g : Fields) → IsHardened g → sanitize_fields g ≡ g
unfolding sanitize_fields
IsHardened-fixed g h =
    let p : remove_key (codes "container_name") g ≡ g =
      remove-missing (codes "container_name") g h.unnamed in
    let q : with_no_new_privileges (lookup (codes "security_opt") g) ≡ h.options =
      rw h.secured (again h.options h.hardening) in
    let r : put (codes "security_opt") (arr (str_items h.options)) g ≡ g =
      put-same (codes "security_opt") (arr (str_items h.options)) g h.secured in
    rw (p, q, r) (remove-missing (codes "ports") g h.unpublished)

sanitize_service_idem : (v : Value) → sanitize_service (sanitize_service v) ≡ sanitize_service v
unfolding sanitize_service
sanitize_service_idem (obj f) =
    ap obj (IsHardened-fixed (sanitize_fields f) (sanitize_fields-IsHardened f))
sanitize_service_idem (arr xs) = refl
sanitize_service_idem (str s) = refl
sanitize_service_idem (num n) = refl
sanitize_service_idem (bool b) = refl
sanitize_service_idem null = refl

map_sanitize_idem :
    (fs : Fields)
    → map_fields sanitize_service (map_fields sanitize_service fs) ≡ map_fields sanitize_service fs
unfolding map_fields
map_sanitize_idem end = refl
map_sanitize_idem (field k v fs) = cc (sanitize_service_idem v, map_sanitize_idem fs)

services-sanitize_doc :
    (p : Fields)
    → services_of (sanitize_doc p)
      ≡ map_fields sanitize_service (services_of (remove_key (codes "version") p))
unfolding sanitize_doc
services-sanitize_doc p =
    let doc = remove_key (codes "version") p in
    ap as_record
      (lookup-put_same (codes "services") (obj (map_fields sanitize_service (services_of doc))) doc)

-- Sanitizing a compose file twice is the same as sanitizing it once.
pub sanitize_doc_idem : (p : Fields) → sanitize_doc (sanitize_doc p) ≡ sanitize_doc p
unfolding sanitize_doc text_eq
sanitize_doc_idem p =
    let doc = remove_key (codes "version") p in
    let done = obj (map_fields sanitize_service (services_of doc)) in
    let out = put (codes "services") done doc in
    let clean : remove_key (codes "version") out ≡ out = remove-missing (codes "version") out (
      lookup-put_other (codes "services") (codes "version") done doc refl
      ∙ lookup-remove_same (codes "version") p) in
    let found : lookup (codes "services") out ≡ some done =
      lookup-put_same (codes "services") done doc in
    rw (clean, found, map_sanitize_idem (services_of doc))
      (put-same (codes "services") done out found)

obj_inj : {f g : Fields} → obj f ≡ obj g → f ≡ g
obj_inj e = cc e

sanitized_from :
    (v : Option Value) (svc : Fields)
    → (elim v [ none ↦ none | some x ↦ some (sanitize_service x) ]) ≡ some (obj svc)
    → (f : Fields) × (v ≡ some (obj f)) × (svc ≡ sanitize_fields f)
unfolding sanitize_service
sanitized_from none svc h = absurd (cc h)
sanitized_from (some (obj f)) svc h = (f, refl, cc h)
sanitized_from (some (arr xs)) svc h = absurd (cc h)
sanitized_from (some (str s)) svc h = absurd (cc h)
sanitized_from (some (num n)) svc h = absurd (cc h)
sanitized_from (some (bool b)) svc h = absurd (cc h)
sanitized_from (some null) svc h = absurd (cc h)

-- `no-new-privileges`, with any value and spacing.
abbrev pub mentions : Text → Bool
mentions o = starts_with (filter (λ c. not (is_space c)) o) (codes "no-new-privileges")

abbrev pub options_in : Fields → List Text
options_in svc = options_of (lookup (codes "security_opt") svc)

-- The options are those of the file, and where none of them is about privileges, one more.
abbrev pub Secures : Fields → Fields → Type 0
Secures before after =
    ((any mentions (options_in before) ≡ true)
      × (lookup (codes "security_opt") after ≡ some (arr (str_items (options_in before)))))
    ⊎ ((any mentions (options_in before) ≡ false)
        × (lookup (codes "security_opt") after
            ≡ some (arr (str_items (options_in before ++ codes "no-new-privileges:true" ∷ [])))))

options-sanitize_fields :
    (f : Fields)
    → lookup (codes "security_opt") (sanitize_fields f)
      ≡ some (arr (str_items (with_no_new_privileges (lookup (codes "security_opt") f))))
unfolding sanitize_fields text_eq
options-sanitize_fields f =
    let unnamed = remove_key (codes "container_name") f in
    let v : Value =
      arr (str_items (with_no_new_privileges (lookup (codes "security_opt") unnamed))) in
    let same : lookup (codes "security_opt") unnamed ≡ lookup (codes "security_opt") f =
      lookup-remove_other (codes "container_name") (codes "security_opt") f refl in
    lookup-remove_other (codes "ports") (codes "security_opt")
      (put (codes "security_opt") v unnamed) refl
    ∙ (lookup-put_same (codes "security_opt") v unnamed
        ∙ ap (λ x. some (arr (str_items (with_no_new_privileges x)))) same)

sanitize_fields-Secures : (f : Fields) → Secures f (sanitize_fields f)
unfolding with_no_new_privileges
sanitize_fields-Secures f = elim (Bool-cases (any mentions (options_in f))) [
  | inl y ↦ inl (y, options-sanitize_fields f ∙ rw y refl)
  | inr n ↦ inr (n, options-sanitize_fields f ∙ rw n refl)
]

-- Every service of a sanitized file that is an object comes from one of the file; it has no fixed
-- container name and no published ports; and its security options are the texts among the file's, with
-- "no-new-privileges:true" after them where none of them begins with "no-new-privileges", white space
-- aside.
pub sanitize_compose-IsHardened :
    (parsed : Value) (name : Text) (svc : Fields)
    → lookup name (services_of (sanitize_compose parsed).doc) ≡ some (obj svc)
    → (lookup (codes "container_name") svc ≡ none)
      × (lookup (codes "ports") svc ≡ none)
      × (before : Fields) × (lookup name (services_of (as_record (some parsed)))
          ≡ some (obj before))
      × Secures before svc
unfolding sanitize_compose text_eq
sanitize_compose-IsHardened parsed name svc h =
    let p = as_record (some parsed) in
    let doc = remove_key (codes "version") p in
    let h' : lookup name (map_fields sanitize_service (services_of doc)) ≡ some (obj svc) =
      rw (← services-sanitize_doc p) h in
    let (f, found, e) =
      sanitized_from (lookup name (services_of doc)) svc
        (sym (lookup-map_fields sanitize_service name (services_of doc)) ∙ h') in
    let kept : services_of doc ≡ services_of p =
      ap as_record (lookup-remove_other (codes "version") (codes "services") p refl) in
    let hard = sanitize_fields-IsHardened f in
    rw e (hard.unnamed, hard.unpublished, f, rw (← kept) found, sanitize_fields-Secures f)
