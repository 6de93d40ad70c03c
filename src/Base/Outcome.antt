-- ===== src/Base/Outcome.antt =====
-- What a member function returns: a value, or the exception that it throws. `undefined` stands for
-- behaviour that C++ leaves open, such as a read through an iterator at the end.

use mathlib.Core.Logic.{◌⊎◌, inl, inr}
use mathlib.Core.Option.{Option, none, some}
use mathlib.Core.Path.{◌≡◌, refl, ap}
use native.Mathlib.Omega.{arith}

pub data Error : Type 0 where
  invalid_argument runtime_error undefined : Error

pub data Result {ℓ} (V : Type ℓ) : Type ℓ where
  err : Error → Result V
  ok : V → Result V

-- The rest of a function runs unless an exception was thrown.
infixl 5 ◌>>=◌
abbrev pub ◌>>=◌ {ℓ κ} : {V : Type ℓ} {W : Type κ} → Result V → (V → Result W) → Result W
err thrown >>= next = err thrown
ok value >>= next = next value

abbrev pub or_fail {ℓ} : {V : Type ℓ} → Option V → Error → Result V
or_fail none thrown = err thrown
or_fail (some value) thrown = ok value

pub Result-cases {ℓ} :
    {V : Type ℓ} (r : Result V) → ((v : V) × (r ≡ ok v)) ⊎ ((e : Error) × (r ≡ err e))
Result-cases (err e) = inr (e, refl)
Result-cases (ok v) = inl (v, refl)

pub ok_inj {ℓ} : {V : Type ℓ} {v w : V} → ok v ≡ ok w → v ≡ w
ok_inj e = cc

pub or_fail-some {ℓ} :
    {V : Type ℓ} (found : Option V) (thrown : Error) {v : V}
    → or_fail found thrown ≡ ok v
    → found ≡ some v
or_fail-some none thrown e = absurd (ground arith)
or_fail-some (some value) thrown e = ap some (ok_inj e)

-- A chain that succeeds has a first step that does, and the rest succeeds from there.
pub >>=-eq-ok {ℓ κ} :
    {V : Type ℓ} {W : Type κ} (first : Result V) (next : V → Result W) {w : W}
    → (first >>= next) ≡ ok w
    → (v : V) × (first ≡ ok v) × (next v ≡ ok w)
>>=-eq-ok (err thrown) next e = absurd (ground arith)
>>=-eq-ok (ok value) next e = (value, refl, e)
