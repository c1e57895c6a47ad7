-- ===== src/Prelude/Results.antt =====
-- `Result<T, E>` of the language, with the bind that `?` and early returns amount to.
use mathlib.Core.Bool.{Bool, true, false}
use mathlib.Core.Path.{◌≡◌, refl}
use mathlib.Core.Logic.{◌⊎◌, inl, inr}

pub data Result {ℓ} (A E : Type ℓ) : Type ℓ where
  ok : A → Result A E
  err : E → Result A E

infixl 5 ◌>>=◌ ◌>>◌
abbrev pub ◌>>=◌ {ℓ} : {A B E : Type ℓ} → Result A E → (A → Result B E) → Result B E
ok a >>= f = f a
err e >>= f = err e

-- `Result::is_ok`
abbrev pub is_ok {ℓ} : {A E : Type ℓ} → Result A E → Bool
is_ok (ok a) = true
is_ok (err e) = false

abbrev pub ◌>>◌ {ℓ} : {B E : Type ℓ} → Result (Unit {ℓ}) E → Result B E → Result B E
m >> k = m >>= λ _. k

pub >>=-eq-ok {ℓ} :
    {A B E : Type ℓ} (m : Result A E) (f : A → Result B E) {b : B}
    → (m >>= f) ≡ ok b
    → (a : A) × (m ≡ ok a) × (f a ≡ ok b)
>>=-eq-ok (err e) f h = cc
>>=-eq-ok (ok a) f h = (a, refl, h)

pub ok_of_is_ok {ℓ} : {A E : Type ℓ} (r : Result A E) → is_ok r ≡ true → (a : A) × (r ≡ ok a)
ok_of_is_ok (ok a) h = (a, refl)
ok_of_is_ok (err e) h = cc

-- What follows of a second bind on the same result, where the first one is successful.
pub bind_follows {ℓ κ} :
    {A B C E : Type ℓ} (m : Result A E) (f : A → Result B E) (g : A → Result C E)
    (P : Result C E → Type κ) {b : B}
    → ((a : A) → f a ≡ ok b → P (g a))
    → (m >>= f) ≡ ok b
    → P (m >>= g)
bind_follows (ok a) f g P step h = step a h
bind_follows (err e) f g P step h = absurd (cc)

pub Result-cases {ℓ} :
    {A E : Type ℓ} (r : Result A E) → ((e : E) × (r ≡ err e)) ⊎ ((a : A) × (r ≡ ok a))
Result-cases (ok a) = inr (a, refl)
Result-cases (err e) = inl (e, refl)
