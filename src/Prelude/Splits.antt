-- ===== src/Prelude/Splits.antt =====
-- A joined text is split back into its parts, and has no white space to trim.
use Prim.Native.Nat.{ℕ}
use mathlib.Core.Path.{◌≡◌, refl}
use mathlib.Core.Logic.{◌≢◌}
use mathlib.Core.Bool.{Bool, true, false}
use mathlib.Core.List.{List, [], ◌∷◌, ◌++◌, append-nil}
use native.Mathlib.Omega.{arith}
use willy.Prelude.Lists.{All}
use willy.Prelude.Texts.{Text, split, join}
use willy.Prelude.Decimal.{is_space, trim_start, trim_end, trim, split_spaces_from, split_spaces}

abbrev pub Lacks : ℕ → Text → Type 0
Lacks sep = All (λ c. c ≢ sep)

abbrev pub HasNoSpace : Text → Type 0
HasNoSpace = All (λ c. is_space c ≡ false)

-- A part that a split returns and that is not blank.
abbrev pub IsWord : Text → Type 0
IsWord s = (s ≢ []) × HasNoSpace s

split-part : (sep : ℕ) (p : Text) → Lacks sep p → split sep p ≡ p ∷ []
unfolding split
split-part sep [] h = refl
split-part sep (c ∷ p) (h, hs) = ground (arith, split-part sep p hs)

split-part_sep :
    (sep : ℕ) (p rest : Text) → Lacks sep p → split sep (p ++ sep ∷ rest) ≡ p ∷ split sep rest
unfolding split
split-part_sep sep [] rest h = ground arith
split-part_sep sep (c ∷ p) rest (h, hs) = ground (arith, split-part_sep sep p rest hs)

pub split-join :
    (sep : ℕ) (p : Text) (ps : List Text)
    → All (Lacks sep) (p ∷ ps)
    → split sep (join (sep ∷ []) (p ∷ ps)) ≡ p ∷ ps
unfolding join
split-join sep p [] (h, _) = split-part sep p h
split-join sep p (q ∷ ps) (h, hs) = rw (split-part_sep sep p _ h, split-join sep q ps hs)

split_spaces-part : (b : Bool) (p : Text) → p ≢ [] → HasNoSpace p → split_spaces_from b p ≡ p ∷ []
unfolding split_spaces_from
split_spaces-part b [] n h = absurd (n refl)
split_spaces-part b (c ∷ []) n (h, _) = rw h
split_spaces-part b (c ∷ d ∷ p) n (h, hs) = rw (h, split_spaces-part false (d ∷ p) (λ e. cc) hs)

split_spaces-part_space :
    (b : Bool) (p rest : Text)
    → p ≢ []
    → HasNoSpace p
    → split_spaces_from b (p ++ 32 ∷ rest) ≡ p ∷ split_spaces_from true rest
unfolding split_spaces_from is_space
split_spaces-part_space b [] rest n h = absurd (n refl)
split_spaces-part_space b (c ∷ []) rest n (h, _) = rw h
split_spaces-part_space b (c ∷ d ∷ p) rest n (h, hs) =
    rw (h, split_spaces-part_space false (d ∷ p) rest (λ e. cc) hs)

join-word :
    (b : Bool) (p : Text) (ps : List Text)
    → All IsWord (p ∷ ps)
    → split_spaces_from b (join (32 ∷ []) (p ∷ ps)) ≡ p ∷ ps
unfolding join
join-word b p [] ((n, h), _) = split_spaces-part b p n h
join-word b p (q ∷ ps) ((n, h), hs) = rw (split_spaces-part_space b p _ n h, join-word true q ps hs)

pub split_spaces-join :
    (p : Text) (ps : List Text)
    → All IsWord (p ∷ ps)
    → split_spaces (join (32 ∷ []) (p ∷ ps)) ≡ p ∷ ps
unfolding split_spaces
split_spaces-join p ps h = join-word false p ps h

-- A text whose last unit is not white space.
abbrev EndsInk : Text → Type 0
EndsInk [] = ⊥
EndsInk (c ∷ []) = is_space c ≡ false
EndsInk (c ∷ d ∷ s) = EndsInk (d ∷ s)

trim_end-ink : (s : Text) → EndsInk s → trim_end s ≡ s
unfolding trim_end
trim_end-ink [] h = absurd h
trim_end-ink (c ∷ []) h = rw h
trim_end-ink (c ∷ d ∷ s) h = rw (trim_end-ink (d ∷ s) h)

ink-word : (p : Text) → p ≢ [] → HasNoSpace p → EndsInk p
ink-word [] n h = n refl
ink-word (c ∷ []) n (h, _) = h
ink-word (c ∷ d ∷ p) n (h, hs) = ink-word (d ∷ p) (λ e. cc) hs

ink-append : (p s : Text) → EndsInk s → EndsInk (p ++ s)
ink-append [] s h = h
ink-append (c ∷ p) s h = ink-cons c (p ++ s) (ink-append p s h)
  where
    ink-cons : (c : ℕ) (t : Text) → EndsInk t → EndsInk (c ∷ t)
    ink-cons c [] h = absurd h
    ink-cons c (d ∷ t) h = h

ink-join : (p : Text) (ps : List Text) → All IsWord (p ∷ ps) → EndsInk (join (32 ∷ []) (p ∷ ps))
unfolding join
ink-join p [] ((n, h), _) = ink-word p n h
ink-join p (q ∷ ps) (_, hs) =
    ink-append p (32 ∷ join (32 ∷ []) (q ∷ ps))
      (ink-append (32 ∷ []) (join (32 ∷ []) (q ∷ ps)) (ink-join q ps hs))

trim_start-word : (p rest : Text) → p ≢ [] → HasNoSpace p → trim_start (p ++ rest) ≡ p ++ rest
unfolding trim_start
trim_start-word [] rest n h = absurd (n refl)
trim_start-word (c ∷ p) rest n (h, _) = rw h

trim_start-join :
    (p : Text) (ps : List Text)
    → All IsWord (p ∷ ps)
    → trim_start (join (32 ∷ []) (p ∷ ps)) ≡ join (32 ∷ []) (p ∷ ps)
unfolding join
trim_start-join p [] ((n, h), _) = trim_word p n h
  where
    trim_word : (p : Text) → p ≢ [] → HasNoSpace p → trim_start p ≡ p
    trim_word p n h = rw append-nil at (trim_start-word p [] n h)
trim_start-join p (q ∷ ps) ((n, h), _) = trim_start-word p _ n h

pub trim-join :
    (p : Text) (ps : List Text)
    → All IsWord (p ∷ ps)
    → trim (join (32 ∷ []) (p ∷ ps)) ≡ join (32 ∷ []) (p ∷ ps)
unfolding trim
trim-join p ps h = rw (trim_start-join p ps h) (trim_end-ink _ (ink-join p ps h))
