-- ===== src/Prelude/Outcomes.antt =====
-- What a C++ call can end in: a value, a thrown exception, or undefined behaviour (a read past the
-- end of a vector through `operator[]` or an iterator), which the model keeps apart.

use mathlib.Core.Logic.{◌⊎◌, inl, inr}
use mathlib.Core.Path.{◌≡◌, refl}

pub data Fault : Type 0 where
  out_of_range invalid_argument logic_error system_error undefined : Fault

pub data Result {ℓ} (A : Type ℓ) : Type ℓ where
  ok : A → Result A
  throws : Fault → Result A

infixl 5 ◌>>=◌
abbrev pub ◌>>=◌ {ℓ κ} : {A : Type ℓ} {C : Type κ} → Result A → (A → Result C) → Result C
throws fault >>= next = throws fault
ok value >>= next = next value

pub ok-inj {ℓ} : {A : Type ℓ} {a b : A} → ok a ≡ ok b → a ≡ b
ok-inj h = cc

-- Inversion of a bind that ends in a value.
pub >>=-eq-ok {ℓ κ} :
    {A : Type ℓ} {C : Type κ} (call : Result A) (next : A → Result C) {c : C}
    → (call >>= next) ≡ ok c
    → (a : A) × (call ≡ ok a) × (next a ≡ ok c)
>>=-eq-ok (throws fault) next h = cc
>>=-eq-ok (ok value) next h = (value, refl, h)

pub Result-cases {ℓ} :
    {A : Type ℓ} (m : Result A) → ((a : A) × (m ≡ ok a)) ⊎ ((e : Fault) × (m ≡ throws e))
Result-cases (ok a) = inl (a, refl)
Result-cases (throws e) = inr (e, refl)
