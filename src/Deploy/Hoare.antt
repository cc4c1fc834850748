-- ===== src/Deploy/Hoare.antt =====
-- Triples for computations that read and write the state and may throw: what holds at the end when a
-- value is returned, and what holds when an exception is thrown.
use willy.Prelude.{ℕ, suc, Bool, true, false, Result, ok, err, Error, if◌then◌else◌}
use willy.Deploy.{World, M, pass_on, handle, try_catch, call, throw_if, ◌>>=◌}

abbrev pub Ends : {A : Type 0} → (A → World → Type 0) → (World → Type 0) → Result A × World → Type 0
Ends Q E (ok a, w) = Q a w
Ends Q E (err e, w) = E w

pub record Triple {A : Type 0} (P : World → Type 0) (m : M A) (Q : A → World → Type 0)
    (E : World → Type 0) : Type 0 where
  pub ends : (w : World) → P w → Ends Q E (m w)

module _ {A : Type 0} {Q R : A → World → Type 0} {E F : World → Type 0} where
  weakened :
      (p : Result A × World)
      → Ends Q E p
      → ((a : A) (w : World) → Q a w → R a w)
      → ((w : World) → E w → F w)
      → Ends R F p
  weakened (ok a, w) h q e = q a w h
  weakened (err x, w) h q e = e w h

  pub weaken :
      {P : World → Type 0} {m : M A}
      → Triple P m Q E
      → ((a : A) (w : World) → Q a w → R a w)
      → ((w : World) → E w → F w)
      → Triple P m R F
  weaken {m = m} t q e = record { ends = λ w p. weakened (m w) (t.ends w p) q e }

module _ {A : Type 0} {Q : A → World → Type 0} {E F : World → Type 0} where
  handled :
      (h : Error → M A) (p : Result A × World)
      → Ends Q E p
      → ((e : Error) → Triple E (h e) Q F)
      → Ends Q F (handle h p)
  handled h (ok a, w) p t = p
  handled h (err e, w) p t = (t e).ends w p

  pub try-Triple :
      {P : World → Type 0} {m : M A} {h : Error → M A}
      → Triple P m Q E
      → ((e : Error) → Triple E (h e) Q F)
      → Triple P (try_catch m h) Q F
  try-Triple {m = m} {h = h} t u = record { ends = λ w p. handled h (m w) (t.ends w p) u }

pub before :
    {A : Type 0} {P P' : World → Type 0} {m : M A} {Q : A → World → Type 0} {E : World → Type 0}
    → ((w : World) → P' w → P w)
    → Triple P m Q E
    → Triple P' m Q E
before f t = record { ends = λ w p. t.ends w (f w p) }

module _ {A B : Type 0} {Q : A → World → Type 0} {R : B → World → Type 0} {E : World → Type 0} where
  passed_on :
      (f : A → M B) (p : Result A × World)
      → Ends Q E p
      → ((a : A) → Triple (Q a) (f a) R E)
      → Ends R E (pass_on f p)
  passed_on f (ok a, w) h t = (t a).ends w h
  passed_on f (err e, w) h t = h

  pub bind-Triple :
      {P : World → Type 0} {m : M A} {f : A → M B}
      → Triple P m Q E
      → ((a : A) → Triple (Q a) (f a) R E)
      → Triple P (m >>= f) R E
  bind-Triple {m = m} {f = f} t u = record { ends = λ w p. passed_on f (m w) (t.ends w p) u }

-- A computation that keeps a property of the state, however it ends.
abbrev pub Keeps : {A : Type 0} → (World → Type 0) → M A → Type 0
Keeps P m = Triple P m (λ a w. P w) P

-- The property does not read the clock.
abbrev pub Timeless : (World → Type 0) → Type 0
Timeless P = (w : World) (n : ℕ) → P w → P (record w { clock = n })

module _ {A : Type 0} where
  called : (P : World → Type 0) (r : Result A) (w : World) → P w → Ends (λ a u. P u) P (r, w)
  called P (ok a) w p = p
  called P (err e) w p = p

module _ {A : Type 0} {P : World → Type 0} where
  pub call-Keeps : (f : ℕ → Result A) → Timeless P → Keeps P (call f)
  call-Keeps f t = record {
    ends = λ w p. called P (f w.clock) (record w { clock = suc w.clock }) (t w (suc w.clock) p);
  }

  pub always : {m : M A} → ((w : World) → P w → Ends (λ a u. P u) P (m w)) → Keeps P m
  always f = record { ends = f }

thrown :
    (P : World → Type 0) (b : Bool) (e : Error) (w : World)
    → P w
    → Ends (λ a u. P u) P (throw_if b e w)
thrown P true e w p = p
thrown P false e w p = p

pub throw_if-Keeps : {P : World → Type 0} (b : Bool) (e : Error) → Keeps P (throw_if b e)
throw_if-Keeps {P = P} b e = record { ends = thrown P b e }

pub if-Triple :
    {A : Type 0} {P : World → Type 0} {Q : A → World → Type 0} {E : World → Type 0} (b : Bool)
    {m n : M A}
    → Triple P m Q E
    → Triple P n Q E
    → Triple P (if b then m else n) Q E
if-Triple true t u = t
if-Triple false t u = u
