-- ===== src/Base/Results.antt =====
-- What running a piece of C gives: a value, or the reason why it does not go on.
use mathlib.Core.Path.{◌≡◌, refl}
use mathlib.Core.Bool.{Bool, true, false}
use mathlib.Core.Option.{Option, none, some}

-- `assertion` is `exit(1)` from a failed ASSERT; the others are undefined behaviour of the source:
-- an access outside of an array, a use of a null pointer, a remainder by zero, the freeing of memory
-- that does not come from malloc. `out_of_fuel` is the
-- model's own: a loop that the source leaves unbounded has run through the rounds it was given.
pub data Error : Type 0 where
  assertion out_of_bounds null_pointer zero_divisor invalid_free out_of_fuel : Error

pub data Result {ℓ} (A : Type ℓ) : Type ℓ where
  ok : A → Result A
  err : Error → Result A

-- A read of an array, or through a pointer, that may be out of bounds or null.
abbrev pub or_err {ℓ} : {A : Type ℓ} → Option A → Error → Result A
or_err none e = err e
or_err (some a) e = ok a

-- ASSERT(b)
abbrev pub assert : Bool → Result (Unit {0})
assert = elim [ true ↦ ok tt | false ↦ err assertion ]

-- Statement after statement: the first error ends the run.
infixl 5 ◌>>=◌ ◌>>◌
abbrev pub ◌>>=◌ {ℓ κ} : {A : Type ℓ} {B : Type κ} → Result A → (A → Result B) → Result B
(err e) >>= next = err e
(ok a) >>= next = next a

abbrev pub ◌>>◌ {ℓ} : {B : Type ℓ} → Result (Unit {0}) → Result B → Result B
first >> second = first >>= λ (_ : Unit {0}). second

pub or_err-eq-ok {ℓ} :
    {A : Type ℓ} (x : Option A) (e : Error) {a : A} → or_err x e ≡ ok a → x ≡ some a
or_err-eq-ok none e h = cc
or_err-eq-ok (some a) e h = cc

-- Where two statements succeed together, the first gives a value with which the second succeeds.
pub >>=-eq-ok {ℓ κ} :
    {A : Type ℓ} {B : Type κ} (first : Result A) (next : A → Result B) {result : B}
    → (first >>= next) ≡ ok result
    → (value : A) × (first ≡ ok value) × (next value ≡ ok result)
>>=-eq-ok (err e) next h = cc
>>=-eq-ok (ok value) next h = (value, refl, h)
