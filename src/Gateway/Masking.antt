-- ===== src/Gateway/Masking.antt =====
-- `mask_rows` of sql_query_api/services/policy_engine.py: masked columns in the result rows. The
-- alias map of the statement (`_select_alias_map`) is an argument.
use secure_db_access_gateway.Prelude.{
  String, Option, none, some, List, [], ◌∷◌, Bool, true, false, not, ◌≡◌, any, elem, map, is_empty,
  if◌then◌else◌,
}
use secure_db_access_gateway.Prelude.Text.{lower, is_set}
use secure_db_access_gateway.Prelude.Dict.{lookup, string_eq}
use secure_db_access_gateway.Prelude.Json.{Json, null}
use secure_db_access_gateway.Policy.Access.{normalize_identifier}

abbrev pub Row : Type 0
Row = List (String × Json)

abbrev sources : Option (List String) → List String
sources none = []
sources (some s) = s

-- The inner function `should_mask`, for masked columns in lower case.
unfoldable pub should_mask : List (String × List String) → List String → String → Bool
should_mask aliases columns key =
    let normalized = normalize_identifier key in
    if not (is_set normalized)
    then false
    else if elem normalized columns
    then true
    else any (λ source. elem source columns) (sources (lookup normalized aliases))

unfoldable pub mask_row : List (String × List String) → List String → Row → Row
mask_row aliases columns [] = []
mask_row aliases columns ((key, value) ∷ row) =
    (key, if should_mask aliases columns key then null else value) ∷ mask_row aliases columns row

unfoldable pub mask_rows : List (String × List String) → List String → List Row → List Row
mask_rows aliases columns rows =
    if is_empty columns then rows else map (mask_row aliases (map lower columns)) rows

-- The cells of a masked row are those of the row, in order, with `null` for exactly the keys that
-- are masked.
abbrev pub SameButMasked : (String → Bool) → Row → Row → Type 0
SameButMasked hide [] [] = Unit {0}
SameButMasked hide ((k, v) ∷ r) ((j, w) ∷ s) =
    (k ≡ j) × (w ≡ (if hide k then null else v)) × SameButMasked hide r s
SameButMasked hide _ _ = ⊥
