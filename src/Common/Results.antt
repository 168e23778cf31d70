-- ===== src/Common/Results.antt =====
-- Code that may throw: a value or the error that was thrown.
use mathlib.Core.Path.{◌≡◌, refl}

pub data Result {ℓ κ} (E : Type ℓ) (A : Type κ) : Type (ℓ ⊔ κ) where
  ok : A → Result E A
  err : E → Result E A

-- What comes after a value is run on it; an error skips the rest.
infixl 5 ◌>>=◌ ◌>>◌
abbrev pub ◌>>=◌ {ℓ κ μ} :
    {E : Type ℓ} {A : Type κ} {B : Type μ} → Result E A → (A → Result E B) → Result E B
err thrown >>= next = err thrown
ok value >>= next = next value

abbrev pub ◌>>◌ {ℓ κ μ} :
    {E : Type ℓ} {A : Type κ} {B : Type μ} → Result E A → Result E B → Result E B
err thrown >> after = err thrown
ok value >> after = after

-- Inversion of a successful bind, for proofs where the parts stay shut.
pub >>=-eq-ok {ℓ κ μ} :
    {E : Type ℓ} {A : Type κ} {B : Type μ} (first : Result E A) (next : A → Result E B) {out : B}
    → (first >>= next) ≡ ok out
    → (value : A) × (first ≡ ok value) × (next value ≡ ok out)
>>=-eq-ok (err thrown) next same = cc
>>=-eq-ok (ok value) next same = (value, refl, same)

pub >>-eq-ok {ℓ κ μ} :
    {E : Type ℓ} {A : Type κ} {B : Type μ} (first : Result E A) (after : Result E B) {out : B}
    → (first >> after) ≡ ok out
    → (value : A) × (first ≡ ok value) × (after ≡ ok out)
>>-eq-ok (err thrown) after same = cc
>>-eq-ok (ok value) after same = (value, refl, same)

pub Result-cases {ℓ κ} :
    {E : Type ℓ} {A : Type κ} (r : Result E A)
    → Result ((e : E) × (r ≡ err e)) ((a : A) × (r ≡ ok a))
Result-cases (ok a) = ok (a, refl)
Result-cases (err e) = err (e, refl)
