-- ===== src/Files/Confined.antt =====
-- No path leaves the volume.
use willy.Prelude.{
  ℕ, ◌≡◌, ◌≤◌, refl, inl, inr, true, false, not, List, [], ◌∷◌, ◌++◌, ◌==◌, ltb, filter, contains,
  length, All, Text, codes, text_eq, split, split_cons, ok, err, Error, Bool-cases, and-true, arith,
}
use willy.Files.{
  max_name_length, is_segment, segments_of, check_segments, under_root, container_path,
}

-- A name of one entry: not empty, not "." or "..", and without a slash or a NUL.
pub record IsName (s : Text) : Type 0 where
  pub not_empty : ltb 0 (length s) ≡ true
  pub not_here : text_eq s (codes ".") ≡ false
  pub not_parent : text_eq s (codes "..") ≡ false
  pub no_slash : contains 47 s ≡ false
  pub no_nul : contains 0 s ≡ false
  pub short : length s ≤ max_name_length

abbrev pub Lack : ℕ → List Text → Type 0
Lack c ps = All (λ s. contains c s ≡ false) ps

Lack-cons :
    (c sep : ℕ) (ps : List Text) → c == sep ≡ false → Lack sep ps → Lack sep (split_cons c ps)
unfolding split_cons
Lack-cons c sep [] n h = (ground arith, tt)
Lack-cons c sep (p ∷ ps) n (here, more) = (ground arith, more)

split-lacks_sep : (sep : ℕ) (s : Text) → Lack sep (split sep s)
unfolding split
split-lacks_sep sep [] = (refl, tt)
split-lacks_sep sep (c ∷ s) = elim (Bool-cases (c == sep)) [
  | inl y ↦ rw y (refl, split-lacks_sep sep s)
  | inr n ↦ rw n (Lack-cons c sep (split sep s) n (split-lacks_sep sep s))
]

other_cons : (c k : ℕ) (ps : List Text) → c == k ≡ false → Lack k ps → Lack k (split_cons c ps)
unfolding split_cons
other_cons c k [] n h = (ground arith, tt)
other_cons c k (p ∷ ps) n (here, more) = (ground arith, more)

split-lacks_other : (sep k : ℕ) (s : Text) → contains k s ≡ false → Lack k (split sep s)
unfolding split
split-lacks_other sep k [] h = (refl, tt)
split-lacks_other sep k (c ∷ s) h =
    let differs : c == k ≡ false = ground arith in
    let later : contains k s ≡ false = ground arith in
    elim (Bool-cases (c == sep)) [
      | inl y ↦ rw y (refl, split-lacks_other sep k s later)
      | inr n ↦ rw n (other_cons c k (split sep s) differs (split-lacks_other sep k s later))
    ]

names :
    (parts : List Text)
    → Lack 47 parts
    → Lack 0 parts
    → check_segments (filter is_segment parts) ≡ true
    → All IsName (filter is_segment parts)
unfolding check_segments
names [] slash nul h = tt
names (p ∷ ps) (a, slash) (b, nul) h = elim (Bool-cases (is_segment p)) [
  | inr n ↦
      let h' : check_segments (filter is_segment ps) ≡ true = rw n at h in
      rw n (names ps slash nul h')
  | inl y ↦
      let h' : check_segments (p ∷ filter is_segment ps) ≡ true = rw y at h in
      let (some_text, here) = and-true (ltb 0 (length p)) (not (text_eq p (codes "."))) y in
      elim (Bool-cases (text_eq p (codes ".."))) [
        | inl d ↦ let bad : false ≡ true = rw d at h' in absurd (cc bad)
        | inr d ↦ elim (Bool-cases (ltb max_name_length (length p))) [
          | inl l ↦ let bad : false ≡ true = rw (d, l) at h' in absurd (cc bad)
          | inr l ↦
              let later : check_segments (filter is_segment ps) ≡ true = rw (d, l) at h' in
              rw y (
                record {
                  not_empty = some_text;
                  not_here = ground arith;
                  not_parent = d;
                  no_slash = a;
                  no_nul = b;
                  short = ground arith;
                },
                names ps slash nul later,
              )
        ]
      ]
]

-- The path of a sequence of names from the root.
abbrev pub from_root : Text → List Text → Text
from_root at [] = at
from_root at (s ∷ ss) = from_root (at ++ 47 ∷ s) ss

-- Whatever the user gives, a path that is not refused is the volume's root, or the root followed by names
-- of entries: none is "..", and none has a slash or a NUL.
pub container_path-IsName :
    (user_path path : Text)
    → container_path user_path ≡ ok path
    → (names : List Text) × All IsName names × (path ≡ under_root names)
unfolding container_path segments_of
container_path-IsName user_path path h = elim (Bool-cases (contains 0 user_path)) [
  | inl y ↦ let bad : err Error.file_error ≡ ok path = rw y at h in absurd (cc bad)
  | inr no_nul ↦ elim (Bool-cases (ltb 4096 (length user_path))) [
    | inl y ↦ let bad : err Error.file_error ≡ ok path = rw (no_nul, y) at h in absurd (cc bad)
    | inr fits ↦ elim (Bool-cases (check_segments (segments_of user_path))) [
      | inr n ↦
          let bad : err Error.file_error ≡ ok path = rw (no_nul, fits, n) at h in absurd (cc bad)
      | inl y ↦
          let h' : ok (under_root (segments_of user_path)) ≡ ok path = rw (no_nul, fits, y) at h in
          (
            segments_of user_path,
            names (split 47 user_path) (split-lacks_sep 47 user_path)
                (split-lacks_other 47 0 user_path no_nul) y,
            cc h',
          )
    ]
  ]
]
