-- ===== src/Auth.antt =====
-- sql_query_api/auth.py: the principal, the bearer header, the mapping of validated claims, and the
-- scope check behind the token decoder. PyJWT and the JWKS client are the parameter `decode`;
-- `render` is Python's `str()` of a value that is not a text.
pub mod Claims
use secure_db_access_gateway.Prelude.{
  String, Option, none, some, List, [], ◌∷◌, Bool, true, false, not, ◌||◌, ◌==◌, map, any, elem,
  filter, Result, ok, raise, Exception, type_error, if◌then◌else◌, ◌>>=◌,
}
use secure_db_access_gateway.Prelude.Text.{
  lower, has_text, is_set, before_first, after_first, words,
}
use secure_db_access_gateway.Prelude.Json.{
  Json, null, str, arr, obj, nil, Fields, end, field, items, fields, truthy, get, or_else,
}

pub record Principal : Type 0 where
  pub user_id : String
  pub email : String
  pub org_id : String
  pub roles : List String
  pub attributes : List (String × Json)

-- Principal.role
unfoldable pub role : Principal → String
role p = if elem "admin" p.roles then "admin" else "viewer"

-- Principal.has_role
unfoldable pub has_role : Principal → String → Bool
has_role p r = elem (lower r) p.roles

-- Principal.has_any_role
unfoldable pub has_any_role : Principal → List String → Bool
has_any_role p rs = any (λ r. elem (lower r) p.roles) rs

-- The value of the `authorization` header, if there is one.
unfoldable pub extract_bearer_token : Option String → Option String
extract_bearer_token none = none
extract_bearer_token (some header) =
    if not (is_set header)
    then none
    else if not (lower (before_first b' ' header) == "bearer")
        || not (is_set (after_first b' ' header))
    then none
    else some (after_first b' ' header)

abbrev pub tenant_id_claim : String
tenant_id_claim = "https://app.secure-db-access-gateway.org/tenant_id"

abbrev pub legacy_roles_claim : String
legacy_roles_claim = "https://app.read-only-database-explorer.org/roles"

abbrev pub reserved_claims : List String
reserved_claims = "sub" ∷ "email" ∷ "preferred_username" ∷ "roles" ∷ tenant_id_claim ∷ []

abbrev keys : List (String × Json) → List Json
keys [] = []
keys ((k, v) ∷ fs) = str k ∷ keys fs

-- `claims.get("roles") or claims.get(...) or []`, a text wrapped in a list, then iterated:
-- an object gives its keys, and a number or `True` cannot be iterated.
unfoldable pub role_values : Fields → Result (List Json)
role_values claims =
    elim (or_else (get "roles" claims) (or_else (get legacy_roles_claim claims) (arr nil))) [
      | str s ↦ ok (str s ∷ [])
      | arr vs ↦ ok (items vs)
      | obj fs ↦ ok (keys (fields fs))
      | _ ↦ raise (type_error "object is not iterable")
    ]

-- A value that is a text with more than spaces.
unfoldable pub nonblank : Json → Option String
nonblank (str s) = if has_text s then some s else none
nonblank _ = none

unfoldable pub other_claims : Fields → List (String × Json)
other_claims claims = filter (λ kv. not (elem kv.0 reserved_claims)) (fields claims)

module _ (render : Json → String) where
  -- str(value)
  abbrev pub text_of : Json → String
  text_of (str s) = s
  text_of v = render v

  unfoldable pub normalized_roles : List Json → List String
  normalized_roles vs = map (λ v. lower (text_of v)) (filter (λ v. has_text (text_of v)) vs)

  unfoldable pub principal_of : Fields → List Json → Option Principal
  unfolding normalized_roles other_claims
  principal_of claims roles = elim (nonblank (get "sub" claims)) [
    | none ↦ none
    | some user_id ↦
        elim (nonblank (
          or_else (get "email" claims)
            (or_else (get "preferred_username" claims) (get "sub" claims)))) [
              | none ↦ none
              | some email ↦ elim (nonblank (get tenant_id_claim claims)) [
                | none ↦ none
                | some org_id ↦ some (record {
                  user_id = user_id;
                  email = email;
                  org_id = org_id;
                  roles = normalized_roles roles;
                  attributes = other_claims claims;
                })
              ]
            ]
  ]

  -- `claims` empty or None gives no principal.
  unfoldable pub build_principal_from_claims : Option Fields → Result (Option Principal)
  unfolding principal_of role_values
  build_principal_from_claims none = ok none
  build_principal_from_claims (some end) = ok none
  build_principal_from_claims (some (field k v fs)) = do
    roles ← role_values (field k v fs)
    ok (principal_of (field k v fs) roles)

-- What decoding a token ends in: claims, an `InvalidTokenError`, `ValueError` or `TypeError`, which
-- the code catches, or another exception, which it does not.
pub data Decoded : Type 0 where
  claims : Fields → Decoded
  invalid : Decoded
  uncaught : Exception → Decoded

abbrev expected_scopes : List String
expected_scopes = "openid" ∷ "profile" ∷ "email" ∷ []

-- The check of `scope` or `scp`, once the signature is verified.
unfoldable pub scope_accepted : Json → Bool
scope_accepted null = true
scope_accepted (str s) = if is_set s then any (λ w. elem w expected_scopes) (words s) else true
scope_accepted _ = false

pub record AuthConfig : Type 0 where
  pub domain : String
  pub audience : String

module _ (config : AuthConfig) (decode : String → Decoded) where
  check_decoded : Decoded → Result (Option Fields)
  unfolding scope_accepted
  check_decoded (claims fs) =
      if scope_accepted (if truthy (get "scope" fs) then get "scope" fs else get "scp" fs)
      then ok (some fs)
      else ok none
  check_decoded invalid = ok none
  check_decoded (uncaught e) = raise e

  unfoldable pub validate_access_token : Option String → Result (Option Fields)
  unfolding check_decoded
  validate_access_token none = ok none
  validate_access_token (some token) =
      if not (is_set token) || not (is_set config.domain) || not (is_set config.audience)
      then ok none
      else check_decoded (decode token)
