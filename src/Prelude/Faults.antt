-- ===== src/Prelude/Faults.antt =====
-- What a call does: it returns, or it meets a point at which the program has no defined behaviour or
-- stops (a failed `assert`, an access out of range, an uncaught exception).
use mathlib.Core.Path.{◌≡◌, refl, ap}
use mathlib.Core.Logic.{◌⊎◌, inl, inr}
use mathlib.Core.Bool.{Bool, true, false}

pub data Fault : Type 0 where
  assertion out_of_bounds overlap dangling null_pointer foreign_iterator exception : Fault

pub data Outcome {ℓ} (A : Type ℓ) : Type ℓ where
  ok : A → Outcome A
  fault : Fault → Outcome A

infixl 5 ◌>>=◌
infixl 5 ◌>>◌
abbrev pub ◌>>=◌ {ℓ κ} : {A : Type ℓ} {B : Type κ} → Outcome A → (A → Outcome B) → Outcome B
ok a >>= f = f a
fault e >>= f = fault e

abbrev pub ◌>>◌ {ℓ} : {B : Type ℓ} → Outcome (Unit {0}) → Outcome B → Outcome B
m >> k = m >>= λ _. k

-- The call goes on if the test holds.
abbrev pub require : Bool → Fault → Outcome (Unit {0})
require true e = ok tt
require false e = fault e

-- If a sequence returns, so do its parts.
pub >>=-eq-ok {ℓ κ} :
    {A : Type ℓ} {B : Type κ} (call : Outcome A) (next : A → Outcome B) {result : B}
    → (call >>= next) ≡ ok result
    → (x : A) × (call ≡ ok x) × (next x ≡ ok result)
>>=-eq-ok (ok x) next returns = (x, refl, returns)
>>=-eq-ok (fault e) next returns = cc

pub >>=-of-ok :
    {A B : Type 0} (m : Outcome A) (f : A → Outcome B) {a : A} → m ≡ ok a → (m >>= f) ≡ f a
>>=-of-ok {A = A} m f e = ap (λ (x : Outcome A). x >>= f) e

pub Outcome-cases {ℓ} :
    {A : Type ℓ} (m : Outcome A) → ((a : A) × (m ≡ ok a)) ⊎ ((e : Fault) × (m ≡ fault e))
Outcome-cases (ok a) = inl (a, refl)
Outcome-cases (fault e) = inr (e, refl)

abbrev unwrap {ℓ} : {A : Type ℓ} → A → Outcome A → A
unwrap d (ok a) = a
unwrap d (fault e) = d

pub ok-injective {ℓ} : {A : Type ℓ} {a b : A} → ok a ≡ ok b → a ≡ b
ok-injective {a} e = ap (unwrap a) e
