-- ===== src/Prelude/Result.antt =====
-- Python's exceptions as values, and methods that mutate an object and may raise. What was written
-- before a raise stays written, so the state comes back beside the error too.
use Prim.Native.Nat.{ℕ}
use mathlib.Core.List.{List}
use Prim.Native.String.{String}
use mathlib.Core.Path.{◌≡◌, refl}

-- The classes that the handler of ErrorResponse chooses from.
pub data ErrorClass : Type 0 where
  interface integrity programming : ErrorClass

-- The exception classes that the modelled code raises or lets through. `stuck` is no exception:
-- a loop of the model ran out of fuel.
pub data Exception : Type 0 where
  struct_error key_error index_error type_error value_error attribute_error : Exception
  unicode_error unbound_local_error connection_aborted_error overflow_error : Exception
  interface_error programming_error integrity_error not_supported_error : String → Exception
  array_content_not_supported array_content_not_homogenous : Exception
  array_dimensions_not_consistent malformed_value stop_iteration : Exception
  module_not_found_error client_error version_conflict : Exception
  -- An ErrorResponse, as the dictionary of its fields.
  server_error : ErrorClass → List (List ℕ × List ℕ) → Exception
  stuck : Exception

-- What a function of the driver returns or raises.
pub data Result {ℓ} (A : Type ℓ) : Type ℓ where
  err : Exception → Result A
  ok : A → Result A

-- The statements behind one that raises do not run.
infixl 10 ◌>>=◌ ◌>>◌
abbrev pub ◌>>=◌ {κ ℓ} : {A : Type κ} {B : Type ℓ} → Result A → (A → Result B) → Result B
err raised >>= rest = err raised
ok value >>= rest = rest value

abbrev pub ◌>>◌ {κ ℓ} : {A : Type κ} {B : Type ℓ} → Result A → Result B → Result B
err raised >> after = err raised
ok _ >> after = after

-- What returned, returned in each of its parts.
pub >>=-eq-ok {κ ℓ} :
    {A : Type κ} {B : Type ℓ} (first : Result A) (rest : A → Result B) {result : B}
    → (first >>= rest) ≡ ok result
    → (value : A) × (first ≡ ok value) × (rest value ≡ ok result)
>>=-eq-ok (err raised) rest returned = cc
>>=-eq-ok (ok value) rest returned = (value, refl, returned)

pub ok-injective : {A : Type 0} (a b : A) → ok a ≡ ok b → a ≡ b
ok-injective a b e = cc
