-- ===== src/Prelude/Texts.antt =====
-- Text as the sequence of UTF-16 code units of a JavaScript string, with the string methods that
-- the source calls.
use Prim.Native.Nat.{ℕ}
use Prim.Native.Char.{code}
use Prim.Native.String.{String}
use mathlib.Core.Path.{◌≡◌, refl, ap₂}
use mathlib.Core.Bool.{Bool, true, false, ◌&&◌}
use mathlib.Core.Logic.{◌↔◌}
use mathlib.Core.List.{List, [], ◌∷◌, ◌++◌}
use willy.Prelude.Tests.{◌==◌, if◌then◌else◌, ==_iff, and-true}

abbrev pub Text : Type 0
Text = List ℕ

-- The code units of a literal in the basic plane.
abbrev pub codes : String → Text
codes String.[] = []
codes (String.◌∷◌ c s) = code c ∷ codes s

-- `===` on strings.
unfoldable pub text_eq : Text → Text → Bool
text_eq [] [] = true
text_eq [] (_ ∷ _) = false
text_eq (_ ∷ _) [] = false
text_eq (a ∷ s) (b ∷ t) = a == b && text_eq s t

pub text_eq_sound : (s t : Text) → text_eq s t ≡ true → s ≡ t
unfolding text_eq
text_eq_sound [] [] h = refl
text_eq_sound [] (_ ∷ _) h = cc
text_eq_sound (_ ∷ _) [] h = cc
text_eq_sound (a ∷ s) (b ∷ t) h =
    let (here, later) = and-true (a == b) (text_eq s t) h in
    ap₂ (λ x y. x ∷ y) ((==_iff a b).0 here) (text_eq_sound s t later)

pub text_eq_refl : (s : Text) → text_eq s s ≡ true
unfolding text_eq
text_eq_refl [] = refl
text_eq_refl (a ∷ s) = rw ((==_iff a a).1 refl) (text_eq_refl s)

pub text_eq_iff : (s t : Text) → (text_eq s t ≡ true) ↔ (s ≡ t)
text_eq_iff s t = (text_eq_sound s t, λ e. rw e (text_eq_refl t))

-- `startsWith`
unfoldable pub starts_with : Text → Text → Bool
starts_with s [] = true
starts_with [] (_ ∷ _) = false
starts_with (a ∷ s) (b ∷ p) = a == b && starts_with s p

unfoldable pub split_cons : ℕ → List Text → List Text
split_cons c [] = (c ∷ []) ∷ []
split_cons c (p ∷ ps) = (c ∷ p) ∷ ps

-- `split` at one code unit: always at least one part.
unfoldable pub split : ℕ → Text → List Text
unfolding split_cons
split sep [] = [] ∷ []
split sep (c ∷ s) = if c == sep then [] ∷ split sep s else split_cons c (split sep s)

-- `join` with a separator.
unfoldable pub join : Text → List Text → Text
join sep [] = []
join sep (p ∷ []) = p
join sep (p ∷ q ∷ ps) = p ++ (sep ++ join sep (q ∷ ps))

abbrev pub text_mem : Text → List Text → Bool
text_mem k [] = false
text_mem k (x ∷ xs) = if text_eq x k then true else text_mem k xs
