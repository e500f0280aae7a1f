-- ===== src/Csrf/Layers.antt =====
-- What a request that passes `csrf_failure_reason` of auth0_api/app/security/csrf.py has shown.
use secure_db_access_gateway.Prelude.{
  ℕ, String, Option, none, some, true, ◌≡◌, ◌↔◌, ◌≢◌, arith, eq_iff, refl, ap, sym, ◌∙◌, subst,
}
use secure_db_access_gateway.Prelude.Text.{is_set}
use secure_db_access_gateway.Prelude.Json.{Json, null, bool, num, str, arr, obj, Fields, get}
use secure_db_access_gateway.Auth.{text_of}
use secure_db_access_gateway.Csrf.{
  Url, Settings, Request, given, session_token, request_origin_is_allowed, same_site, cookie_token,
  token_mismatch, csrf_failure_reason, Cookie, set_csrf_cookie,
}
use secure_db_access_gateway.Csrf.Shown.{
  given-some, SameSite, same_site_iff, InCookie, cookie_token_iff,
}
use secure_db_access_gateway.Csrf.Origins.{FromTrusted, request_origin_iff}

module _ (urlparse : String → Option Url) (decimal : ℕ → String) where
  module _ (render : Json → String) where
    token_mismatch-eq-none :
        (cookie : String) (v : Json)
        → (token_mismatch urlparse decimal render cookie v ≡ none)
          ↔ ((v ≢ null) × (cookie ≡ text_of render v))
    unfolding token_mismatch
    token_mismatch-eq-none cookie null = ground arith
    token_mismatch-eq-none cookie (bool b) = ground (arith, eq_iff cookie (text_of render (bool b)))
    token_mismatch-eq-none cookie (num n) = ground (arith, eq_iff cookie (text_of render (num n)))
    token_mismatch-eq-none cookie (str s) = ground (arith, eq_iff cookie (text_of render (str s)))
    token_mismatch-eq-none cookie (arr vs) = ground (arith, eq_iff cookie (text_of render (arr vs)))
    token_mismatch-eq-none cookie (obj fs) = ground (arith, eq_iff cookie (text_of render (obj fs)))

    layers_pass :
        (s : Settings) (r : Request) (session : Option Fields)
        → (csrf_failure_reason urlparse decimal render s r session ≡ none) ↔ (
            (given (r.header "x-requested-with") ≡ "XMLHttpRequest")
            × (request_origin_is_allowed urlparse decimal s r ≡ true)
            × (same_site urlparse decimal (r.header "sec-fetch-site") ≡ true)
            × (is_set (cookie_token urlparse decimal s r) ≡ true)
            × (cookie_token urlparse decimal s r ≡ given (r.header "X-CSRF-Token"))
            × (session_token session ≢ null)
            × (cookie_token urlparse decimal s r ≡ text_of render (session_token session)))
    unfolding csrf_failure_reason
    layers_pass s r session = ground (
      arith,
      eq_iff (given (r.header "x-requested-with")) "XMLHttpRequest",
      eq_iff (cookie_token urlparse decimal s r) (given (r.header "X-CSRF-Token")),
      token_mismatch-eq-none (cookie_token urlparse decimal s r) (session_token session),
    )

    -- What a request shows that is no forgery: it is marked, it comes from a trusted origin, its fetch
    -- is not cross-site, and it knows the token of the session, in the cookie and in the header.
    pub record Shows (s : Settings) (r : Request) (session : Option Fields) : Type 0 where
      pub marked : r.header "x-requested-with" ≡ some "XMLHttpRequest"
      pub origin : FromTrusted urlparse decimal s r
      pub site : SameSite urlparse decimal (r.header "sec-fetch-site")
      pub token : String
      pub token_set : is_set token ≡ true
      pub in_cookie : InCookie urlparse decimal s r token
      pub in_header : r.header "X-CSRF-Token" ≡ some token
      pub in_session :
          (fields : Fields) × (session ≡ some fields)
          × (get "csrf_token" fields ≢ null)
          × (token ≡ text_of render (get "csrf_token" fields))

    session_token-fields :
        (session : Option Fields) (token : String)
        → session_token session ≢ null
        → token ≡ text_of render (session_token session)
        → (fields : Fields) × (session ≡ some fields)
          × (get "csrf_token" fields ≢ null)
          × (token ≡ text_of render (get "csrf_token" fields))
    unfolding session_token
    session_token-fields none token n e = absurd (n refl)
    session_token-fields (some fields) token n e = (fields, refl, n, e)

    fields-session_token :
        (session : Option Fields) (token : String)
        → (fields : Fields) × (session ≡ some fields)
          × (get "csrf_token" fields ≢ null)
          × (token ≡ text_of render (get "csrf_token" fields))
        → (session_token session ≢ null) × (token ≡ text_of render (session_token session))
    unfolding session_token
    fields-session_token none token (fields, same, n, e) = cc
    fields-session_token (some given_fields) token (fields, same, n, e) =
        let its : fields ≡ given_fields = cc in
        subst (λ f. (get "csrf_token" f ≢ null) × (token ≡ text_of render (get "csrf_token" f))) its
          (n, e)

    -- A request passes exactly when it has the marker header, an origin of a configured URL in its
    -- `Origin` header (or, if that has none, in its `Referer`), no `sec-fetch-site` header other than
    -- an empty one, `same-origin` or `same-site`, and one token, not empty, in the cookie of the
    -- current name (or, if that is missing or empty, in `csrf_token`), in the header and in the session.
    pub csrf_safe_iff :
        (s : Settings) (r : Request) (session : Option Fields)
        → (csrf_failure_reason urlparse decimal render s r session ≡ none) ↔ Shows s r session
    csrf_safe_iff s r session =
        let layers = layers_pass s r session in
        let token = cookie_token urlparse decimal s r in
        (
          λ h.
              let (mark, origin, site, set, header, n, e) = layers.0 h in
              record {
                marked =
                    given-some urlparse decimal (r.header "x-requested-with") "XMLHttpRequest" refl
                      mark;
                origin = (request_origin_iff urlparse decimal s r).0 origin;
                site = (same_site_iff urlparse decimal (r.header "sec-fetch-site")).0 site;
                token = token;
                token_set = set;
                in_cookie = (cookie_token_iff urlparse decimal s r token set).0 refl;
                in_header =
                    given-some urlparse decimal (r.header "X-CSRF-Token") token set (sym header);
                in_session = session_token-fields session token n e;
              },
          λ h.
              let cookie =
                (cookie_token_iff urlparse decimal s r h.token h.token_set).1 h.in_cookie in
              let (n, e) = fields-session_token session h.token h.in_session in
              layers.1 (
                ap given h.marked,
                (request_origin_iff urlparse decimal s r).1 h.origin,
                (same_site_iff urlparse decimal (r.header "sec-fetch-site")).1 h.site,
                rw cookie h.token_set,
                cookie ∙ sym (ap given h.in_header),
                n,
                cookie ∙ e,
              ),
        )

    -- The cookie that the server sets opens the door that `csrf_failure_reason` guards: a same-site
    -- request from a trusted origin that sends the cookie back and echoes its value passes, if the
    -- session's token is a text.
    pub set_cookie_accepted :
        (s : Settings) (r : Request) (session : Option Fields) (token : String)
        (c : Cookie urlparse decimal render)
        → session_token session ≡ str token
        → set_csrf_cookie urlparse decimal render s session ≡ some c
        → given (r.header "x-requested-with") ≡ "XMLHttpRequest"
        → request_origin_is_allowed urlparse decimal s r ≡ true
        → same_site urlparse decimal (r.header "sec-fetch-site") ≡ true
        → r.cookie c.key ≡ some c.value
        → r.header "X-CSRF-Token" ≡ some c.value
        → csrf_failure_reason urlparse decimal render s r session ≡ none
    unfolding set_csrf_cookie cookie_token
    set_cookie_accepted s r session token c t set marked trusted site cookie header = ground (
      arith,
      eq_iff (given (r.header "x-requested-with")) "XMLHttpRequest",
      layers_pass s r session,
    )
