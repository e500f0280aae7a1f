-- ===== src/Rbac/Trust.antt =====
-- What a request that reaches the application behind `RBACMiddleware` is worth.
use secure_db_access_gateway.Prelude.{
  String, Option, none, some, List, [], ◌∷◌, Bool, true, ◌≡◌, filter, starts_with, Result, ok,
  raise, arith, Bool-cases, inl, inr, eq_iff, refl, ap, not, false, In, subst, sym,
}
use secure_db_access_gateway.Prelude.Member.{filter-In}
use secure_db_access_gateway.Prelude.Text.{lower}
use secure_db_access_gateway.Prelude.Dict.{lookup, string_eq}
use secure_db_access_gateway.Prelude.Json.{Json, Fields}
use secure_db_access_gateway.Auth.{
  Principal, AuthConfig, Decoded, claims, extract_bearer_token, validate_access_token,
  build_principal_from_claims,
}
use secure_db_access_gateway.Auth.Claims.{IsOf, build-IsOf, validate-eq-some}
use secure_db_access_gateway.Rbac.{
  Scope, forward, strip_spoofable_headers, admit, from_claims, authenticate, call, is_spoofable,
}

filter-filter :
    (p : String × String → Bool) (hs : List (String × String))
    → filter p (filter p hs) ≡ filter p hs
filter-filter p [] = refl
filter-filter p (h ∷ hs) = elim (Bool-cases (p h)) [
  | inl e ↦ rw (e, e) (ap (λ t. h ∷ t) (filter-filter p hs))
  | inr e ↦ rw e (filter-filter p hs)
]

-- The headers of the second are headers of the first, and none has, in lower case, a name with one of
-- the prefixes that only the gateway may set.
abbrev pub Unspoofed : Scope → Scope → Type 0
Unspoofed s s' =
    (h : String × String)
    → In h s'.headers
    → In h s.headers
      × (starts_with (lower h.0) "x-user-" ≡ false)
      × (starts_with (lower h.0) "x-org-" ≡ false)
      × (starts_with (lower h.0) "x-tenant-" ≡ false)

strip-Unspoofed : (s : Scope) → Unspoofed s (strip_spoofable_headers s)
unfolding strip_spoofable_headers is_spoofable
strip-Unspoofed s h i =
    let (j, clean) = filter-In (λ (x : String × String). not (is_spoofable x)) s.headers i in
    (j, ground arith, ground arith, ground arith)

module _ (render : Json → String) (config : AuthConfig) (decode : String → Decoded) where
  -- Whatever spoofable headers a caller adds to or drops from an HTTP request, the outcome is that
  -- of the request without them: two HTTP requests to one path that agree after stripping end alike.
  pub call_ignores_spoofable :
      (s t : Scope)
      → s.kind ≡ "http"
      → t.kind ≡ "http"
      → strip_spoofable_headers s ≡ strip_spoofable_headers t
      → call render config decode s ≡ call render config decode t
  unfolding call
  call_ignores_spoofable s t hs ht e = grind (arith, eq_iff)

  admit-forward :
      (s s' : Scope) (r : Result (Option Principal)) (q : Option Principal)
      → admit render config decode s r ≡ forward s' q
      → (p : Principal) × (r ≡ ok (some p)) × (q ≡ some p) × (s' ≡ s)
  unfolding admit
  admit-forward s s' (ok (some p)) q h = (p, refl, ground arith, ground arith)
  admit-forward s s' (ok none) q h = cc
  admit-forward s s' (raise e) q h = cc

  from_claims-forward :
      (s s' : Scope) (r : Result (Option Fields)) (q : Option Principal)
      → from_claims render config decode s r ≡ forward s' q
      → (fs : Fields) × (p : Principal) × (r ≡ ok (some fs))
        × (q ≡ some p)
        × IsOf render fs p
        × (s' ≡ s)
  unfolding from_claims
  from_claims-forward s s' (ok (some fs)) q h =
      let (p, e, eq, es) = admit-forward s s' (build_principal_from_claims render (some fs)) q h in
      (fs, p, refl, eq, build-IsOf render fs p e, es)
  from_claims-forward s s' (ok none) q h = cc
  from_claims-forward s s' (raise e) q h = cc

  -- An HTTP request to a path that starts with `/graphql` reaches the application only with a
  -- principal whose user, organisation and attributes are the claims of a token that the decoder
  -- verified, and only without its spoofable headers: none that is left has, in lower case, a name
  -- with one of the prefixes `x-user-`, `x-org-` and `x-tenant-`.
  pub graphql_principal :
      (s s' : Scope) (q : Option Principal)
      → s.kind ≡ "http"
      → starts_with s.path "/graphql" ≡ true
      → call render config decode s ≡ forward s' q
      → (token : String) × (fs : Fields) × (p : Principal) × (decode token ≡ claims fs)
        × (q ≡ some p)
        × IsOf render fs p
        × (s' ≡ strip_spoofable_headers s)
        × Unspoofed s s'
  unfolding call authenticate
  graphql_principal s s' q http path h =
      let t = extract_bearer_token (lookup "authorization" (strip_spoofable_headers s).headers) in
      let (fs, p, e, eq, is, es) =
        from_claims-forward (strip_spoofable_headers s) s' (validate_access_token config decode t) q
          (ground (arith, eq_iff s.kind "http")) in
      let (token, et, ed) = validate-eq-some config decode t fs e in
      (token, fs, p, ed, eq, is, es, subst (Unspoofed s) (sym es) (strip-Unspoofed s))
