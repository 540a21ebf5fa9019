-- ===== src/Prelude/Results.antt =====
-- Python's exceptions as values, and the monad that raises them.
use mathlib.Core.Path.{◌≡◌, refl}
use mathlib.Core.Logic.{◌⊎◌, inl, inr}
use mathlib.Core.Bool.{Bool, true, false}

-- One constructor for each class of exception that the source raises. `out_of_fuel` is the
-- model's own: a loop whose bound on the rounds was reached.
pub data Error : Type 0 where
  assertion value_error key_error type_error struct_error user_error invalid_elf : Error
  missing_attribute attribute_error exception zero_division index_error unbound_local : Error
  out_of_fuel : Error

-- The outcome of a call: a value, or the exception that it raises.
pub data Result {ℓ} (A : Type ℓ) : Type ℓ where
  err : (raised : Error) → Result A
  ok : (value : A) → Result A

infixl 5 ◌>>=◌ ◌>>◌
-- The exception of the first call ends the chain.
abbrev pub ◌>>=◌ {ℓ κ} :
    {First : Type ℓ} {Next : Type κ} → Result First → (First → Result Next) → Result Next
err raised >>= next = err raised
ok value >>= next = next value

abbrev pub ◌>>◌ {ℓ} : {Next : Type ℓ} → Result (Unit {0}) → Result Next → Result Next
check >> next = check >>= (λ _. next)

-- `if not b: raise e`
abbrev pub guard : Bool → Error → Result (Unit {0})
guard false raised = err raised
guard true raised = ok tt

-- `if b: raise e`
abbrev pub raise_if : Bool → Error → Result (Unit {0})
raise_if true e = err e
raise_if false e = ok tt

-- The call returns a value that satisfies `P`.
abbrev pub Returns {ℓ} : {A : Type ℓ} → (A → Type 0) → Result A → Type 0
Returns P (ok a) = P a
Returns P (err e) = ⊥

-- Where the call returns, its value satisfies `P`.
abbrev pub Ensures {ℓ} : {A : Type ℓ} → (A → Type 0) → Result A → Type 0
Ensures P (ok a) = P a
Ensures P (err e) = Unit

-- A chain that returns has passed its first call.
pub >>=-eq-ok {ℓ κ} :
    {First : Type ℓ} {Next : Type κ} (first : Result First) (next : First → Result Next)
    {out : Next}
    → (first >>= next) ≡ ok out
    → (value : First) × (first ≡ ok value) × (next value ≡ ok out)
>>=-eq-ok (err raised) next h = cc
>>=-eq-ok (ok value) next h = (value, refl, h)

pub Result-cases {ℓ} :
    {A : Type ℓ} (r : Result A) → ((a : A) × (r ≡ ok a)) ⊎ ((e : Error) × (r ≡ err e))
Result-cases (ok a) = inl (a, refl)
Result-cases (err e) = inr (e, refl)

pub Returns-inv {ℓ} :
    {A : Type ℓ} (P : A → Type 0) (r : Result A) → Returns P r → (a : A) × (r ≡ ok a) × P a
Returns-inv P (ok a) h = (a, refl, h)
Returns-inv P (err e) h = absurd h

-- Inversion of a successful guard.
pub guard-eq-ok {ℓ} :
    {A : Type ℓ} (b : Bool) (e : Error) (m : Result A) {a : A}
    → (guard b e >> m) ≡ ok a
    → (b ≡ true) × (m ≡ ok a)
guard-eq-ok true e m h = (refl, h)
guard-eq-ok false e m h = cc

pub ok_injective {ℓ} : {A : Type ℓ} {a b : A} → ok a ≡ ok b → a ≡ b
ok_injective h = cc
