-- ===== src/Compose/Values.antt =====
-- The values of a parsed YAML document, and the accesses to objects that the source makes. An object
-- is the sequence of its fields in insertion order.
use willy.Prelude.{
  ℕ, ◌≡◌, inl, inr, refl, Bool, true, false, Option, none, some, List, [], ◌∷◌, Text, text_eq,
  text_eq_sound, text_eq_refl, Bool-cases, if◌then◌else◌, ap,
}

mutual
  pub data Value : Type 0 where
    null : Value
    bool : Bool → Value
    num : ℕ → Value
    str : Text → Value
    arr : Items → Value
    obj : Fields → Value

  pub data Items : Type 0 where
    nil : Items
    cons : Value → Items → Items

  pub data Fields : Type 0 where
    end : Fields
    field : Text → Value → Fields → Fields

-- `asRecord`, of a value or of `undefined`.
abbrev pub as_record : Option Value → Fields
as_record (some (obj fs)) = fs
as_record _ = end

-- `o[key]`
unfoldable pub lookup : Text → Fields → Option Value
lookup key end = none
lookup key (field k v fs) = if text_eq k key then some v else lookup key fs

-- `o[key] = v`
unfoldable pub put : Text → Value → Fields → Fields
put key v end = field key v end
put key v (field k w fs) = if text_eq k key then field k v fs else field k w (put key v fs)

-- `delete o[key]`
unfoldable pub remove_key : Text → Fields → Fields
remove_key key end = end
remove_key key (field k v fs) =
    let rest = remove_key key fs in if text_eq k key then rest else field k v rest

-- `Object.keys`
unfoldable pub keys : Fields → List Text
keys end = []
keys (field k v fs) = k ∷ keys fs

unfoldable pub strings : Items → List Text
strings nil = []
strings (cons (str s) xs) = s ∷ strings xs
strings (cons _ xs) = strings xs

unfoldable pub str_items : List Text → Items
str_items [] = nil
str_items (s ∷ ss) = cons (str s) (str_items ss)

unfoldable pub any_item : (Value → Bool) → Items → Bool
any_item p nil = false
any_item p (cons v xs) = if p v then true else any_item p xs

-- `map` on the values of an object.
unfoldable pub map_fields : (Value → Value) → Fields → Fields
map_fields f end = end
map_fields f (field k v fs) = field k (f v) (map_fields f fs)

text_eq-false : (a b c : Text) → text_eq a b ≡ true → text_eq b c ≡ false → text_eq a c ≡ false
text_eq-false a b c h n = rw (text_eq_sound a b h) n

pub lookup-put_same : (k : Text) (v : Value) (fs : Fields) → lookup k (put k v fs) ≡ some v
unfolding lookup put
lookup-put_same k v end = rw (text_eq_refl k)
lookup-put_same k v (field j w fs) = elim (Bool-cases (text_eq j k)) [
  | inl y ↦ rw (y, y)
  | inr n ↦ rw (n, n) (lookup-put_same k v fs)
]

pub lookup-put_other :
    (k j : Text) (v : Value) (fs : Fields)
    → text_eq k j ≡ false
    → lookup j (put k v fs) ≡ lookup j fs
unfolding lookup put
lookup-put_other k j v end h = rw h
lookup-put_other k j v (field i w fs) h = elim (Bool-cases (text_eq i k)) [
  | inl y ↦ rw (y, text_eq-false i k j y h)
  | inr n ↦ elim (Bool-cases (text_eq i j)) [
    | inl y ↦ rw (n, y)
    | inr m ↦ rw (n, m) (lookup-put_other k j v fs h)
  ]
]

pub lookup-remove_same : (k : Text) (fs : Fields) → lookup k (remove_key k fs) ≡ none
unfolding lookup remove_key
lookup-remove_same k end = refl
lookup-remove_same k (field j w fs) = elim (Bool-cases (text_eq j k)) [
  | inl y ↦ rw y (lookup-remove_same k fs)
  | inr n ↦ rw (n, n) (lookup-remove_same k fs)
]

pub lookup-remove_other :
    (k j : Text) (fs : Fields) → text_eq k j ≡ false → lookup j (remove_key k fs) ≡ lookup j fs
unfolding lookup remove_key
lookup-remove_other k j end h = refl
lookup-remove_other k j (field i w fs) h = elim (Bool-cases (text_eq i k)) [
  | inl y ↦ rw (y, text_eq-false i k j y h) (lookup-remove_other k j fs h)
  | inr n ↦ elim (Bool-cases (text_eq i j)) [
    | inl y ↦ rw (n, y)
    | inr m ↦ rw (n, m) (lookup-remove_other k j fs h)
  ]
]

pub lookup-map_fields :
    (f : Value → Value) (k : Text) (fs : Fields)
    → lookup k (map_fields f fs) ≡ elim (lookup k fs) [ none ↦ none | some v ↦ some (f v) ]
unfolding lookup map_fields
lookup-map_fields f k end = refl
lookup-map_fields f k (field j v fs) = elim (Bool-cases (text_eq j k)) [
  | inl y ↦ rw y
  | inr n ↦ rw n (lookup-map_fields f k fs)
]

pub keys-map_fields : (f : Value → Value) (fs : Fields) → keys (map_fields f fs) ≡ keys fs
unfolding keys map_fields
keys-map_fields f end = refl
keys-map_fields f (field k v fs) = cc (keys-map_fields f fs)

-- A missing key is not removed.
pub remove-missing : (k : Text) (fs : Fields) → lookup k fs ≡ none → remove_key k fs ≡ fs
unfolding lookup remove_key
remove-missing k end h = refl
remove-missing k (field j v fs) h = elim (Bool-cases (text_eq j k)) [
  | inl y ↦ let h' : some v ≡ none = rw y at h in absurd (cc h')
  | inr n ↦
      let h' : lookup k fs ≡ none = rw n at h in rw n (ap (field j v) (remove-missing k fs h'))
]

-- A value that is there is not changed by putting it again.
pub put-same : (k : Text) (v : Value) (fs : Fields) → lookup k fs ≡ some v → put k v fs ≡ fs
unfolding lookup put
put-same k v end h = absurd (cc h)
put-same k v (field j w fs) h = elim (Bool-cases (text_eq j k)) [
  | inl y ↦ let h' : some w ≡ some v = rw y at h in rw y (cc h')
  | inr n ↦ let h' : lookup k fs ≡ some v = rw n at h in rw n (ap (field j w) (put-same k v fs h'))
]

pub strings-str_items : (ss : List Text) → strings (str_items ss) ≡ ss
unfolding strings str_items
strings-str_items [] = refl
strings-str_items (s ∷ ss) = cc (strings-str_items ss)
