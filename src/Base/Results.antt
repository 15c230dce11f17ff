-- ===== src/Base/Results.antt =====
-- `Result<A, E>`, and the outcome of code that may also panic.
use mathlib.Core.Path.{◌≡◌, refl}
use mathlib.Core.List.{List, [], ◌∷◌}
use mathlib.Core.Logic.{◌⊎◌, inl, inr}

pub data Result {ℓ κ} (A : Type ℓ) (E : Type κ) : Type (ℓ ⊔ κ) where
  ok : A → Result A E
  err : E → Result A E

infixl 5 ◌>>=◌
abbrev pub ◌>>=◌ {ℓ κ μ} :
    {A : Type ℓ} {B : Type κ} {E : Type μ} → Result A E → (A → Result B E) → Result B E
ok a >>= f = f a
err e >>= f = err e

-- The conversion that `?` makes on the error.
abbrev pub map_err {ℓ κ μ} :
    {A : Type ℓ} {E : Type κ} {F : Type μ} → (E → F) → Result A E → Result A F
map_err f (ok a) = ok a
map_err f (err e) = err (f e)

-- `for x in xs { out.push(f(x)?) }`: the first error ends the loop.
unfoldable pub traverse {ℓ κ μ} :
    {A : Type ℓ} {B : Type κ} {E : Type μ} → (A → Result B E) → List A → Result (List B) E
traverse f [] = ok []
traverse f (x ∷ xs) = let rest = traverse f xs in f x >>= λ y. rest >>= λ ys. ok (y ∷ ys)

-- A computation that returns, fails with an error value, or panics.
pub data Outcome {ℓ κ} (A : Type ℓ) (E : Type κ) : Type (ℓ ⊔ κ) where
  done : A → Outcome A E
  fail : E → Outcome A E
  panic : Outcome A E

abbrev pub lift {ℓ κ} : {A : Type ℓ} {E : Type κ} → Result A E → Outcome A E
lift (ok a) = done a
lift (err e) = fail e

abbrev pub and_then {ℓ κ μ} :
    {A : Type ℓ} {B : Type κ} {E : Type μ} → Outcome A E → (A → Outcome B E) → Outcome B E
and_then (done a) f = f a
and_then (fail e) f = fail e
and_then panic f = panic

-- To split on a computed result and keep the equation.
pub Result-cases {ℓ κ} :
    {A : Type ℓ} {E : Type κ} (r : Result A E) → ((a : A) × (r ≡ ok a)) ⊎ ((e : E) × (r ≡ err e))
Result-cases (ok a) = inl (a, refl)
Result-cases (err e) = inr (e, refl)

-- What a chain that succeeds has gone through.
pub >>=-eq-ok {ℓ κ μ} :
    {A : Type ℓ} {E : Type κ} {B : Type μ} (r : Result A E) (next : A → Result B E) {y : B}
    → (r >>= next) ≡ ok y
    → (x : A) × (r ≡ ok x) × (next x ≡ ok y)
>>=-eq-ok (ok x) next e = (x, refl, e)
>>=-eq-ok (err f) next e = cc

pub Outcome-cases {ℓ κ} :
    {A : Type ℓ} {E : Type κ} (o : Outcome A E)
    → ((a : A) × (o ≡ done a)) ⊎ (((e : E) × (o ≡ fail e)) ⊎ (o ≡ panic))
Outcome-cases (done a) = inl (a, refl)
Outcome-cases (fail e) = inr (inl (e, refl))
Outcome-cases panic = inr (inr refl)
