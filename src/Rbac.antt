-- ===== src/Rbac.antt =====
-- sql_query_api/middlewares/rbac_middleware.py: the authentication layer in front of GraphQL.
-- A scope carries what the middleware reads; the headers are a list of name and value, with the
-- lower-case names that ASGI gives. The application behind it is the outcome `forward`.
pub mod Trust
mod Tests
use secure_db_access_gateway.Prelude.{
  ℕ, String, Option, none, some, List, [], ◌∷◌, Bool, not, ◌==◌, any, filter, starts_with, Result,
  ok, raise, Exception, if◌then◌else◌,
}
use secure_db_access_gateway.Prelude.Text.{lower}
use secure_db_access_gateway.Prelude.Dict.{lookup, string_eq}
use secure_db_access_gateway.Prelude.Json.{Json, Fields}
use secure_db_access_gateway.Auth.{
  Principal, AuthConfig, Decoded, extract_bearer_token, validate_access_token,
  build_principal_from_claims,
}

pub record Scope : Type 0 where
  pub kind : String
  pub path : String
  pub headers : List (String × String)

abbrev spoofable_header_prefixes : List String
spoofable_header_prefixes = "x-user-" ∷ "x-org-" ∷ "x-tenant-" ∷ []

unfoldable pub is_spoofable : String × String → Bool
is_spoofable h = any (λ prefix. starts_with (lower h.0) prefix) spoofable_header_prefixes

unfoldable pub strip_spoofable_headers : Scope → Scope
unfolding is_spoofable
strip_spoofable_headers s = record s { headers = filter (λ h. not (is_spoofable h)) s.headers }

pub data Outcome : Type 0 where
  forward : Scope → Option Principal → Outcome
  reject : ℕ → Outcome
  crash : Exception → Outcome

module _ (render : Json → String) (config : AuthConfig) (decode : String → Decoded) where
  -- `request.state.principal` from the principal that the claims give
  admit : Scope → Result (Option Principal) → Outcome
  admit s (ok (some p)) = forward s (some p)
  admit s (ok none) = reject 401
  admit s (raise e) = crash e

  from_claims : Scope → Result (Option Fields) → Outcome
  unfolding admit
  from_claims s (ok (some fs)) = admit s (build_principal_from_claims render (some fs))
  from_claims s (ok none) = reject 401
  from_claims s (raise e) = crash e

  unfoldable pub authenticate : Scope → Outcome
  unfolding from_claims
  authenticate s = from_claims s (
      validate_access_token config decode (extract_bearer_token (lookup "authorization" s.headers)))

  -- RBACMiddleware.__call__
  unfoldable pub call : Scope → Outcome
  unfolding authenticate strip_spoofable_headers
  call s =
      if not (s.kind == "http")
      then forward s none
      else if starts_with s.path "/graphql"
      then authenticate (strip_spoofable_headers s)
      else forward (strip_spoofable_headers s) none
