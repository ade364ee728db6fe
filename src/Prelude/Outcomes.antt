-- ===== src/Prelude/Outcomes.antt =====
-- What a Rust function returns: a value, an `Err`, or a panic (which no caller turns into a value).
use mathlib.Core.Path.{◌≡◌, refl, ap, ◌∙◌}
use mathlib.Core.Option.{Option, none, some}

pub data Error : Type 0 where
  unbound_variable unknown_function unknown_predicate unknown_aggregate bad_argument : Error
  malformed_plan empty_group truncated length_overflow trailing invalid_utf8 unknown_tag : Error
  bad_command storage not_stratified : Error

pub data Outcome {ℓ} (A : Type ℓ) : Type ℓ where
  ok : A → Outcome A
  err : Error → Outcome A
  panic : Outcome A

-- The `?` operator: a failure or a panic ends the function.
infixl 5 ◌>>=◌
abbrev pub ◌>>=◌ {κ ℓ} :
    {B : Type κ} {A : Type ℓ} (m : Outcome B) (next : B → Outcome A) → Outcome A
panic >>= next = panic
err e >>= next = err e
ok a >>= next = next a

-- `.ok_or(e)?`
abbrev pub ok_or {ℓ} : {A : Type ℓ} → Option A → Error → Outcome A
ok_or none e = err e
ok_or (some a) e = ok a

-- Indexing and `unwrap`.
abbrev pub or_panic {ℓ} : {A : Type ℓ} → Option A → Outcome A
or_panic none = panic
or_panic (some a) = ok a

-- a chain that succeeds succeeds at both steps
pub >>=-eq-ok {κ ℓ} :
    {B : Type κ} {A : Type ℓ} {out : A} (start : Outcome B) (next : B → Outcome A)
    → start >>= next ≡ ok out
    → (mid : B) × (start ≡ ok mid) × (next mid ≡ ok out)
>>=-eq-ok panic next h = cc
>>=-eq-ok (err e) next h = cc
>>=-eq-ok (ok mid) next h = (mid, refl, h)

abbrev ok_part {ℓ} : {A : Type ℓ} → A → Outcome A → A
ok_part d (ok a) = a
ok_part d _ = d

pub ok-injective {ℓ} : {A : Type ℓ} {a b : A} → ok a ≡ ok b → a ≡ b
ok-injective {a = a} p = ap (ok_part a) p

pub or_panic-eq-ok {ℓ} : {A : Type ℓ} (o : Option A) {a : A} → or_panic o ≡ ok a → o ≡ some a
or_panic-eq-ok none h = cc
or_panic-eq-ok (some b) h = ap some (ok-injective h)

pub some-injective {ℓ} : {A : Type ℓ} {a b : A} → some a ≡ some b → a ≡ b
some-injective {a = a} p = ok-injective (ap (λ o. or_panic o) p)

pub bind-ok {κ ℓ} :
    {B : Type κ} {A : Type ℓ} (o : Outcome B) (f : B → Outcome A) {a : B} {out : Outcome A}
    → o ≡ ok a
    → f a ≡ out
    → o >>= f ≡ out
bind-ok o f e h = ap (λ m. m >>= f) e ∙ h
