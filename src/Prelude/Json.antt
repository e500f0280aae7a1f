-- ===== src/Prelude/Json.antt =====
-- JSON documents, as `json.loads`, PyJWT claims and OPA's answers give them to the program.
-- Numbers are natural; a negative or fractional number is no value that the modelled code reads.
use Prim.Native.Nat.{ℕ}
use Prim.Native.String.{String}
use mathlib.Core.Bool.{Bool, true, false}
use mathlib.Core.Option.{Option, none, some}
use mathlib.Core.List.{List, [], ◌∷◌}
use text.Mathlib.Text.{◌==◌}
use secure_db_access_gateway.Prelude.Tests.{if◌then◌else◌}
use secure_db_access_gateway.Prelude.Text.{is_set}

mutual
  pub data Json : Type 0 where
    null : Json
    bool : Bool → Json
    num : ℕ → Json
    str : String → Json
    arr : Items → Json
    obj : Fields → Json

  pub data Items : Type 0 where
    nil : Items
    cons : Json → Items → Items

  pub data Fields : Type 0 where
    end : Fields
    field : String → Json → Fields → Fields

abbrev pub items : Items → List Json
items nil = []
items (cons v vs) = v ∷ items vs

abbrev pub fields : Fields → List (String × Json)
fields end = []
fields (field k v fs) = (k, v) ∷ fields fs

-- Python's truth of a value
abbrev pub truthy : Json → Bool
truthy null = false
truthy (bool b) = b
truthy (num ℕ.zero) = false
truthy (num (ℕ.suc n)) = true
truthy (str s) = is_set s
truthy (arr nil) = false
truthy (arr (cons v vs)) = true
truthy (obj end) = false
truthy (obj (field k v fs)) = true

-- fs.get(k): the value under a key, `null` if the key is missing
unfoldable pub get : String → Fields → Json
get k end = null
get k (field j v fs) = if j == k then v else get k fs

-- k in fs
unfoldable pub has_key : String → Fields → Bool
has_key k end = false
has_key k (field j v fs) = if j == k then true else has_key k fs

-- `a or b` over values
abbrev pub or_else : Json → Json → Json
or_else a b = if truthy a then a else b

-- A value that is a text.
abbrev pub as_text : Json → Option String
as_text (str s) = some s
as_text _ = none
