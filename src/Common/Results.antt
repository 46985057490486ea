-- ===== src/Common/Results.antt =====
-- The result of code that may throw: a value, or the error that is thrown.
use mathlib.Core.Bool.{Bool, true, false}
use mathlib.Core.Logic.{◌⊎◌, inl, inr}
use mathlib.Core.Path.{◌≡◌, refl}
use mathlib.Core.Option.{Option, none, some}

pub data Result (E : Type 0) (A : Type 0) : Type 0 where
  ok : A → Result E A
  err : E → Result E A

infixl 5 ◌>>=◌ ◌>>◌
abbrev pub ◌>>=◌ : {E A B : Type 0} → Result E A → (A → Result E B) → Result E B
ok a >>= f = f a
err e >>= f = err e

abbrev pub ◌>>◌ : {E B : Type 0} → Result E (Unit {0}) → Result E B → Result E B
m >> k = m >>= λ _. k

-- `if (test) fail(message)`.
abbrev pub fail_if : {E : Type 0} → Bool → E → Result E (Unit {0})
fail_if true e = err e
fail_if false e = ok tt

pub Result-unit-cases :
    {E : Type 0} (r : Result E (Unit {0})) → (r ≡ ok tt) ⊎ ((e : E) × (r ≡ err e))
Result-unit-cases (ok tt) = inl refl
Result-unit-cases (err e) = inr (e, refl)

pub >>_ok : {E : Type 0} (m k : Result E (Unit {0})) → (m >> k) ≡ ok tt → (m ≡ ok tt) × (k ≡ ok tt)
>>_ok (ok tt) k h = (refl, h)
>>_ok (err e) k h = cc

-- A step that did not throw.
pub fail_if_ok :
    {E A : Type 0} (test : Bool) (e : E) (k : Result E A) {a : A}
    → (fail_if test e >> k) ≡ ok a
    → (test ≡ false) × (k ≡ ok a)
fail_if_ok true e k h = cc
fail_if_ok false e k h = (refl, h)

pub ok-injective : {E A : Type 0} {a b : A} → ◌≡◌ {A = Result E A} (ok a) (ok b) → a ≡ b
ok-injective h = cc

-- A value that is there, or a failure.
abbrev pub or_fail : {E A : Type 0} → Option A → E → Result E A
or_fail none e = err e
or_fail (some a) e = ok a

pub or_fail_ok :
    {E A B : Type 0} (o : Option A) (e : E) (f : A → Result E B) {b : B}
    → (or_fail o e >>= f) ≡ ok b
    → (a : A) × (o ≡ some a) × (f a ≡ ok b)
or_fail_ok none e f h = cc
or_fail_ok (some a) e f h = (a, refl, h)

-- The step before the rest of the code.
pub >>=_ok :
    {E A B : Type 0} (m : Result E A) (k : A → Result E B) {b : B}
    → (m >>= k) ≡ ok b
    → (a : A) × (m ≡ ok a) × (k a ≡ ok b)
>>=_ok (ok a) k h = (a, refl, h)
>>=_ok (err e) k h = cc
