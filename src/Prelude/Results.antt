-- ===== src/Prelude/Results.antt =====
-- Code that may raise: the value, or the exception with what identifies it.
use mathlib.Core.Path.{◌≡◌, refl}
use mathlib.Core.Logic.{◌⊎◌, inl, inr}
use native.Mathlib.Omega.{arith}
use mathlib.Core.Bool.{Bool, true, false}

-- An exception comes before a value, as the code that raises returns no further.
pub data Result {ℓ} (E A : Type ℓ) : Type ℓ where
  err : E → Result E A
  ok : A → Result E A

-- `if not test: raise e`
abbrev pub require {ℓ} : {E : Type ℓ} → Bool → E → Result E (Unit {ℓ})
require false raised = err raised
require true raised = ok tt

infixl 5 ◌>>=◌ ◌>>◌
abbrev pub ◌>>=◌ {ℓ} : {E A B : Type ℓ} → Result E A → (A → Result E B) → Result E B
err raised >>= next = err raised
ok value >>= next = next value

abbrev pub ◌>>◌ {ℓ} : {E B : Type ℓ} → Result E (Unit {ℓ}) → Result E B → Result E B
first >> next = first >>= λ done. next

pub require-eq-ok {ℓ} :
    {E : Type ℓ} (test : Bool) (raised : E) {u : Unit {ℓ}}
    → require test raised ≡ ok u
    → test ≡ true
require-eq-ok false raised h = cc
require-eq-ok true raised h = refl

-- A chain that succeeds has a first step that does; one that raises has a step that does.
module _ {ℓ} {E A B : Type ℓ} where
  pub >>=-eq-ok :
      (first : Result E A) (next : A → Result E B) {result : B}
      → (first >>= next) ≡ ok result
      → (value : A) × (first ≡ ok value) × (next value ≡ ok result)
  >>=-eq-ok (err raised) next h = cc
  >>=-eq-ok (ok value) next h = (value, refl, h)

  pub >>=-eq-err :
      (first : Result E A) (next : A → Result E B) {raised : E}
      → (first >>= next) ≡ err raised
      → (first ≡ err raised) ⊎ ((value : A) × (first ≡ ok value) × (next value ≡ err raised))
  >>=-eq-err (err other) next h = inl (ground arith)
  >>=-eq-err (ok value) next h = inr (value, refl, h)
