-- ===== src/Traefik/Keys.antt =====
-- A group's key tells its service, port and host port.
use willy.Prelude.{
  ℕ, ◌≡◌, refl, sym, ap, ◌∙◌, inl, inr, Bool, true, false, ◌&&◌, Option, none, some, [], ◌∷◌, ◌++◌,
  ◌==◌, or_else, All, Text, text_eq, text_eq_sound, text_eq_refl, to_decimal, decimal,
  decimal-to_decimal, to_decimal-ne-nil, to_decimal-IsDigit, IsDigit, and-true, Bool-cases, arith,
}
use willy.Prelude.Splits.{Lacks}
use willy.Traefik.{key, number_text}

abbrev pub same_port : Option ℕ → Option ℕ → Bool
same_port none none = true
same_port (some p) (some q) = p == q
same_port _ _ = false

digits-Lacks : (s : Text) → All IsDigit s → Lacks 58 s
digits-Lacks [] h = tt
digits-Lacks (c ∷ s) ((low, high), hs) = ((λ e. omega arith), digits-Lacks s hs)

number_text-Lacks : (p : Option ℕ) → Lacks 58 (number_text p)
number_text-Lacks none = tt
number_text-Lacks (some n) = digits-Lacks (to_decimal n) (to_decimal-IsDigit n)

Lacks-middle : (sep : ℕ) (a b : Text) → Lacks sep (a ++ sep ∷ b) → ⊥
Lacks-middle sep [] b (h, _) = h refl
Lacks-middle sep (c ∷ a) b (_, hs) = Lacks-middle sep a b hs

-- The last separator of a text cuts it in one way.
last_cut :
    (sep : ℕ) (a x b y : Text)
    → Lacks sep x
    → Lacks sep y
    → a ++ sep ∷ x ≡ b ++ sep ∷ y
    → (a ≡ b) × (x ≡ y)
last_cut sep [] x [] y hx hy e = (refl, cc e)
last_cut sep [] x (c ∷ b) y hx hy e =
    let same : x ≡ b ++ sep ∷ y = cc e in absurd (Lacks-middle sep b y (rw (← same) hx))
last_cut sep (c ∷ a) x [] y hx hy e =
    let same : a ++ sep ∷ x ≡ y = cc e in absurd (Lacks-middle sep a x (rw same hy))
last_cut sep (c ∷ a) x (d ∷ b) y hx hy e =
    let rest : a ++ sep ∷ x ≡ b ++ sep ∷ y = cc e in
    let (left, right) = last_cut sep a x b y hx hy rest in
    let head : c ≡ d = cc e in (cc (head, left), right)

to_decimal_inj : (m n : ℕ) → to_decimal m ≡ to_decimal n → m ≡ n
to_decimal_inj m n e = sym (decimal-to_decimal m) ∙ (ap decimal e ∙ decimal-to_decimal n)

number_text_inj : (p q : Option ℕ) → number_text p ≡ number_text q → same_port p q ≡ true
number_text_inj none none e = refl
number_text_inj none (some n) e = absurd (to_decimal-ne-nil n (sym e))
number_text_inj (some m) none e = absurd (to_decimal-ne-nil m e)
number_text_inj (some m) (some n) e = let same = to_decimal_inj m n e in ground arith

same_port_sound : (p q : Option ℕ) → same_port p q ≡ true → p ≡ q
same_port_sound none none h = refl
same_port_sound none (some n) h = absurd (cc h)
same_port_sound (some m) none h = absurd (cc h)
same_port_sound (some m) (some n) h = let same : m ≡ n = ground arith in ap some same

abbrev pub same_parts : Option Text → ℕ → Option ℕ → Text → ℕ → Option ℕ → Bool
same_parts s p h service port host_port =
    text_eq (or_else s []) service && (p == port && same_port h host_port)

key_parts :
    (s : Option Text) (p : ℕ) (h : Option ℕ) (service : Text) (port : ℕ) (host_port : Option ℕ)
    → key s p h ≡ key (some service) port host_port
    → same_parts s p h service port host_port ≡ true
key_parts s p h service port host_port e =
    let (left, right) =
      last_cut 58 (or_else s [] ++ 58 ∷ to_decimal p) (number_text h)
        (service ++ 58 ∷ to_decimal port) (number_text host_port) (number_text-Lacks h)
        (number_text-Lacks host_port) e in
    let (name, digits) =
      last_cut 58 (or_else s []) (to_decimal p) service (to_decimal port)
        (digits-Lacks (to_decimal p) (to_decimal-IsDigit p))
        (digits-Lacks (to_decimal port) (to_decimal-IsDigit port)) left in
    let same : p ≡ port = to_decimal_inj p port digits in
    let ports : (p == port) ≡ true = ground arith in
    rw (name, text_eq_refl service, ports, number_text_inj h host_port right) refl

parts_key :
    (s : Option Text) (p : ℕ) (h : Option ℕ) (service : Text) (port : ℕ) (host_port : Option ℕ)
    → same_parts s p h service port host_port ≡ true
    → key s p h ≡ key (some service) port host_port
parts_key s p h service port host_port e =
    let (name, more) = and-true (text_eq (or_else s []) service) _ e in
    let (number, host) = and-true (p == port) (same_port h host_port) more in
    let same : p ≡ port = ground arith in
    rw (text_eq_sound (or_else s []) service name, same, same_port_sound h host_port host) refl

-- Two keys are equal exactly when their parts are.
pub key-parts :
    (s : Option Text) (p : ℕ) (h : Option ℕ) (service : Text) (port : ℕ) (host_port : Option ℕ)
    → text_eq (key s p h) (key (some service) port host_port)
      ≡ same_parts s p h service port host_port
key-parts s p h service port host_port =
    let k = key s p h in
    let k' = key (some service) port host_port in
    elim (Bool-cases (text_eq k k')) [
      | inl y ↦ rw (y, key_parts s p h service port host_port (text_eq_sound k k' y)) refl
      | inr n ↦ elim (Bool-cases (same_parts s p h service port host_port)) [
        | inr m ↦ rw (n, m) refl
        | inl y ↦
            let same : k ≡ k' = parts_key s p h service port host_port y in
            let bad : text_eq k k' ≡ true = rw same (text_eq_refl k') in absurd (cc (bad, n))
      ]
    ]
