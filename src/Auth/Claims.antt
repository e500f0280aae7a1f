-- ===== src/Auth/Claims.antt =====
-- What a token must carry for sql_query_api/auth.py to make a principal of it.
use secure_db_access_gateway.Prelude.{
  String, Option, none, some, List, true, ◌≡◌, ok, arith, refl, >>=-eq-ok,
}
use secure_db_access_gateway.Prelude.Text.{has_text}
use secure_db_access_gateway.Prelude.Json.{Json, null, str, Fields, end, field, get, or_else}
use secure_db_access_gateway.Auth.{
  Principal, AuthConfig, Decoded, claims, validate_access_token, build_principal_from_claims,
  principal_of, role_values, other_claims, tenant_id_claim, nonblank,
}

nonblank-eq-some : (v : Json) (s : String) → nonblank v ≡ some s → (v ≡ str s) × (has_text s ≡ true)
unfolding nonblank
nonblank-eq-some (str t) s h = ground arith
nonblank-eq-some null s h = cc
nonblank-eq-some _ s h = cc

module _ (render : Json → String) where
  -- The identity of a principal is that of the claims it is built from.
  pub record IsOf (fs : Fields) (p : Principal) : Type 0 where
    pub subject : get "sub" fs ≡ str p.user_id
    pub tenant : get tenant_id_claim fs ≡ str p.org_id
    pub user_text : has_text p.user_id ≡ true
    pub org_text : has_text p.org_id ≡ true
    pub email_text : has_text p.email ≡ true
    pub others : p.attributes ≡ other_claims fs

  principal_of-IsOf :
      (fs : Fields) (vs : List Json) (p : Principal)
      → principal_of render fs vs ≡ some p
      → IsOf fs p
  unfolding principal_of
  principal_of-IsOf fs vs p h = ground (
    arith,
    nonblank-eq-some (get "sub" fs) p.user_id,
    nonblank-eq-some (get tenant_id_claim fs) p.org_id,
    nonblank-eq-some
        (or_else (get "email" fs) (or_else (get "preferred_username" fs) (get "sub" fs))) p.email,
  )

  pub build-IsOf :
      (fs : Fields) (p : Principal)
      → build_principal_from_claims render (some fs) ≡ ok (some p)
      → IsOf fs p
  unfolding build_principal_from_claims
  build-IsOf end p h = cc
  build-IsOf (field k v fs) p h =
      let (vs, e, q) = >>=-eq-ok (role_values (field k v fs)) _ h in
      principal_of-IsOf (field k v fs) vs p (ground arith)

module _ (config : AuthConfig) (decode : String → Decoded) where
  pub validate-eq-some :
      (t : Option String) (fs : Fields)
      → validate_access_token config decode t ≡ ok (some fs)
      → (token : String) × (t ≡ some token) × (decode token ≡ claims fs)
  unfolding validate_access_token
  validate-eq-some none fs h = cc
  validate-eq-some (some token) fs h = (token, refl, ground arith)
