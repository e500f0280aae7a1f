-- ===== src/Rbac/Tests.antt =====
-- Tests of `RBACMiddleware` (sql_query_api/middlewares/rbac_middleware.py) with a decoder that knows
-- one token.
use secure_db_access_gateway.Prelude.{
  String, some, List, [], ◌∷◌, ◌≡◌, refl, ◌==◌, if◌then◌else◌, elem,
}
use secure_db_access_gateway.Prelude.Text.{
  lower, strip, lstrip, rstrip, has_text, before_first, after_first, split_on,
}
use secure_db_access_gateway.Prelude.Dict.{lookup, string_eq}
use secure_db_access_gateway.Prelude.Json.{Json, str, Fields, end, field, get}
use secure_db_access_gateway.Auth.{
  Principal, AuthConfig, Decoded, claims, invalid, extract_bearer_token, validate_access_token,
  build_principal_from_claims, role_values, nonblank, other_claims, principal_of, normalized_roles,
  scope_accepted,
}
use secure_db_access_gateway.Auth.Claims.{IsOf}
use secure_db_access_gateway.Rbac.{
  Scope, forward, reject, strip_spoofable_headers, is_spoofable, authenticate, call,
}
use secure_db_access_gateway.Rbac.Trust.{Unspoofed, graphql_principal}
use native.Mathlib.Decide.{dec_le}

abbrev render : Json → String
render v = "?"

abbrev config : AuthConfig
config = record { domain = "tenant.auth0.test"; audience = "gateway" }

abbrev carol_claims : Fields
carol_claims = field "sub" (str "auth0|carol") (
    field "roles" (str "Viewer") (
      field "https://app.secure-db-access-gateway.org/tenant_id" (str "acme")
        (field "region" (str "emea") end)))

abbrev decode : String → Decoded
decode token = if token == "good" then claims carol_claims else invalid

abbrev scope : List (String × String) → Scope
scope hs = record { kind = "http"; path = "/graphql"; headers = hs }

abbrev signed : Scope
signed = scope (("x-org-id", "globex") ∷ ("authorization", "Bearer good") ∷ [])

abbrev carol : Principal
carol = record {
  user_id = "auth0|carol";
  email = "auth0|carol";
  org_id = "acme";
  roles = "viewer" ∷ [];
  attributes = ("region", str "emea") ∷ [];
}

signed_forwarded :
    call render config decode signed
    ≡ forward (scope (("authorization", "Bearer good") ∷ [])) (some carol)
unfolding call authenticate strip_spoofable_headers is_spoofable lower dec_le lookup
    extract_bearer_token validate_access_token before_first after_first scope_accepted get
    build_principal_from_claims principal_of role_values nonblank normalized_roles other_claims
    strip lstrip rstrip has_text split_on elem
signed_forwarded = refl

unsigned_refused : call render config decode (scope (("X-User-Id", "root") ∷ [])) ≡ reject 401
unfolding call authenticate strip_spoofable_headers is_spoofable lower dec_le lookup
    extract_bearer_token validate_access_token
unsigned_refused = refl

graphql_principal_example :
    (token : String) × (fs : Fields) × (p : Principal) × (decode token ≡ claims fs)
    × (some carol ≡ some p)
    × IsOf render fs p
    × (scope (("authorization", "Bearer good") ∷ []) ≡ strip_spoofable_headers signed)
    × Unspoofed signed (scope (("authorization", "Bearer good") ∷ []))
graphql_principal_example =
    graphql_principal render config decode signed (scope (("authorization", "Bearer good") ∷ []))
      (some carol) refl refl signed_forwarded
