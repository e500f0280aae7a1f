-- ===== src/Prelude/Raising.antt =====
-- What a Python function that may raise returns: a value, or the exception with its message.
use Prim.Native.String.{String}
use mathlib.Core.Path.{◌≡◌, refl}
use mathlib.Core.Bool.{Bool, true, false}

-- `resolution_error` is `TenantDatabaseResolutionError`, a subclass of `PermissionError`;
-- `not_found_error` is `FileNotFoundError`.
pub data Exception : Type 0 where
  permission_error value_error type_error attribute_error runtime_error : String → Exception
  resolution_error missing_secret forbidden_sql execution_error not_found_error : String → Exception

pub data Result {ℓ} (A : Type ℓ) : Type ℓ where
  raise : Exception → Result A
  ok : A → Result A

-- `if b: raise e`
abbrev pub raise_if : Bool → Exception → Result (Unit {0})
raise_if b e = elim b [ true ↦ raise e | false ↦ ok tt ]

module _ {κ} {B : Type κ} where
  -- A statement whose value a later one uses, and one that only may raise.
  infixl 5 ◌>>=◌
  abbrev pub ◌>>=◌ {ℓ} : {A : Type ℓ} → Result A → (A → Result B) → Result B
  raise e >>= rest = raise e
  ok a >>= rest = rest a

  infixl 5 ◌>>◌
  abbrev pub ◌>>◌ : Result (Unit {0}) → Result B → Result B
  raise e >> rest = raise e
  ok done >> rest = rest

-- Behind a value stands a value of what came first.
pub >>=-eq-ok {ℓ κ} :
    {A : Type ℓ} {B : Type κ} (first : Result A) (rest : A → Result B) {value : B}
    → (first >>= rest) ≡ ok value
    → (x : A) × (first ≡ ok x) × (rest x ≡ ok value)
>>=-eq-ok (raise e) rest h = cc
>>=-eq-ok (ok x) rest h = (x, refl, h)
