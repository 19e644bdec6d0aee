-- ===== src/Prelude/Fallible.antt =====
-- Go's (value, error) results: a value or an error, with the early return on an error as bind.
use mathlib.Core.Path.{◌≡◌, refl}
use mathlib.Core.Logic.{◌⊎◌, inl, inr}
use mathlib.Core.Bool.{Bool, true, false}
use mathlib.Core.Option.{Option, none, some}
use native.Mathlib.Omega.{arith}

pub data Fallible {ε ℓ} (E : Type ε) (A : Type ℓ) : Type (ε ⊔ ℓ) where
  err : E → Fallible E A
  ok : A → Fallible E A

module _ {ε ℓ} {E : Type ε} {A : Type ℓ} where
  -- The deferred Rollback: after an error the state is the one before the transaction.
  abbrev pub after : A → Fallible E A → A
  after before (err e) = before
  after before (ok now) = now

  abbrev pub or_fail : Option A → E → Fallible E A
  or_fail (some a) e = ok a
  or_fail none e = err e

  infixl 5 ◌>>=◌
  abbrev pub ◌>>=◌ {κ} : {B : Type κ} → Fallible E A → (A → Fallible E B) → Fallible E B
  err e >>= next = err e
  ok a >>= next = next a

  pub Fallible-cases : (r : Fallible E A) → ((a : A) × (r ≡ ok a)) ⊎ ((e : E) × (r ≡ err e))
  Fallible-cases (err e) = inr (e, refl)
  Fallible-cases (ok a) = inl (a, refl)

module _ {ε κ} {E : Type ε} {B : Type κ} where
  infixl 5 ◌>>◌
  abbrev pub ◌>>◌ : Fallible E (Unit {0}) → Fallible E B → Fallible E B
  err e >> rest = err e
  ok _ >> rest = rest

-- if cond { return err }
abbrev pub fail_if {ε} : {E : Type ε} → Bool → E → Fallible E (Unit {0})
fail_if false e = ok tt
fail_if true e = err e

-- What a success says of each part.
module _ {ε ℓ κ} {E : Type ε} {A : Type ℓ} {B : Type κ} where
  pub bind-ok :
      (r : Fallible E A) (next : A → Fallible E B) (b : B)
      → (r >>= next) ≡ ok b
      → (a : A) × (r ≡ ok a) × (next a ≡ ok b)
  bind-ok (err e) next b h = ground arith
  bind-ok (ok a) next b h = (a, refl, h)

pub then-ok {ε κ} :
    {E : Type ε} {B : Type κ} (r : Fallible E (Unit {0})) (rest : Fallible E B) (b : B)
    → (r >> rest) ≡ ok b
    → (r ≡ ok tt) × (rest ≡ ok b)
then-ok (err e) rest b h = ground arith
then-ok (ok tt) rest b h = (refl, h)

pub fail_if-ok {ε} : {E : Type ε} (b : Bool) (e : E) → fail_if b e ≡ ok tt → b ≡ false
fail_if-ok true e h = ground arith
fail_if-ok false e h = refl

pub or_fail-ok {ε ℓ} :
    {E : Type ε} {A : Type ℓ} (o : Option A) (e : E) (a : A) → or_fail o e ≡ ok a → o ≡ some a
or_fail-ok none e a h = ground arith
or_fail-ok (some x) e a h = ground arith
