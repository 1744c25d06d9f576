-- ===== src/Prelude/Returns.antt =====
-- Go's (value, error) returns: a value, or an error of type `E`.
use mathlib.Core.Path.{◌≡◌, refl}
use mathlib.Core.Bool.{Bool, true, false}

pub data Result {ℓ} (E A : Type ℓ) : Type ℓ where
  ok : A → Result E A
  err : E → Result E A

infixl 5 ◌>>=◌ ◌>>◌
abbrev pub ◌>>=◌ {ℓ} : {E A B : Type ℓ} → Result E A → (A → Result E B) → Result E B
ok value >>= next = next value
err error >>= next = err error

abbrev pub ◌>>◌ : {E B : Type 0} → Result E (Unit {0}) → Result E B → Result E B
first >> rest = first >>= λ nothing_returned. rest

-- `if test { return err }`
abbrev pub refuse_if : {E : Type 0} → Bool → E → Result E (Unit {0})
refuse_if true e = err e
refuse_if false e = ok tt

pub >>=-eq-ok {ℓ} :
    {E A B : Type ℓ} (first : Result E A) (next : A → Result E B) {b : B}
    → (first >>= next) ≡ ok b
    → (value : A) × (first ≡ ok value) × (next value ≡ ok b)
>>=-eq-ok (ok value) next h = (value, refl, h)
>>=-eq-ok (err error) next h = cc

pub refuse_if-eq-ok :
    {E B : Type 0} (test : Bool) (e : E) (k : Result E B) {b : B}
    → (refuse_if test e >> k) ≡ ok b
    → (test ≡ false) × (k ≡ ok b)
refuse_if-eq-ok true e k h = cc
refuse_if-eq-ok false e k h = (refl, h)

pub ok_inj : {E A : Type 0} (r : Result E A) (x y : A) → r ≡ ok x → r ≡ ok y → x ≡ y
ok_inj r x y d e = cc
