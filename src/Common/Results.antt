-- ===== src/Common/Results.antt =====
-- C++ exceptions as values, with their constructors' names, and the chain of fallible steps.
use Prim.Native.String.{String}
use mathlib.Core.Path.{◌≡◌, refl}
use mathlib.Core.Bool.{Bool, true, false}

pub data Exception : Type 0 where
  invalid_argument length_error overflow_error runtime_error : String → Exception

pub data Result {ℓ} (A : Type ℓ) : Type ℓ where
  err : Exception → Result A
  ok : A → Result A

-- `if (!valid) throw exception;`
abbrev pub require : Bool → Exception → Result (Unit {0})
require valid exception = elim valid [ false ↦ err exception | true ↦ ok tt ]

-- A call, and the rest of the function: an exception leaves both.
infixl 5 ◌>>=◌
abbrev pub ◌>>=◌ {ℓ κ} : {A : Type ℓ} {B : Type κ} → Result A → (A → Result B) → Result B
call >>= rest = elim call [ err exception ↦ err exception | ok value ↦ rest value ]

infixl 5 ◌>>◌
abbrev pub ◌>>◌ {ℓ} : {B : Type ℓ} → Result (Unit {0}) → Result B → Result B
call >> rest = call >>= λ (_ : Unit {0}). rest

-- What returned went through the call and through the rest.
pub >>=-eq-ok {ℓ κ} :
    {A : Type ℓ} {B : Type κ} (call : Result A) (rest : A → Result B) {result : B}
    → (call >>= rest) ≡ ok result
    → (value : A) × (call ≡ ok value) × (rest value ≡ ok result)
>>=-eq-ok (err exception) rest returned = cc
>>=-eq-ok (ok value) rest returned = (value, refl, returned)
