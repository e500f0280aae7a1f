-- ===== src/Csrf.antt =====
-- auth0_api/app/security/csrf.py: the defenses of a state-changing browser request, with
-- `normalize_origin` of auth0_api/app/utils/helpers.py. `urlparse` is a parameter, `none` where
-- parsing or reading its port raises; `decimal` writes a port, and `render` is Python's `str()` of a
-- value that is not a text. Header and cookie lookups are functions of the name.
pub mod Origins
pub mod Shown
pub mod Layers
mod Tests
use secure_db_access_gateway.Prelude.{
  ℕ, zero, suc, String, Option, none, some, List, [], ◌∷◌, ◌++◌, Bool, true, false, not, ◌&&◌, ◌||◌,
  ◌==◌, elem, if◌then◌else◌,
}
use secure_db_access_gateway.Prelude.Text
use secure_db_access_gateway.Prelude.Text.{lower, strip, is_set}
use secure_db_access_gateway.Prelude.Json.{
  Json, null, bool, num, str, arr, obj, Fields, end, field, get, truthy,
}
use secure_db_access_gateway.Auth.{text_of}

-- What the code reads of a parsed URL; a port that is not given is 0, which the code treats alike.
pub record Url : Type 0 where
  pub scheme : String
  pub hostname : String
  pub port : ℕ

pub record Settings : Type 0 where
  pub allowed_origins : List String
  pub react_app_url : String
  pub frontend_url : String
  pub session_cookie_secure : Bool
  pub session_max_age : ℕ

pub record Request : Type 0 where
  pub header : String → Option String
  pub cookie : String → Option String

abbrev pub given : Option String → String
given none = ""
given (some s) = s

abbrev pub csrf_failure_detail : String
csrf_failure_detail = "CSRF protection failed"

-- _csrf_cookie_name
unfoldable pub csrf_cookie_name : Settings → String
csrf_cookie_name s = if s.session_cookie_secure then "__Host-csrf_token" else "csrf_token"

-- (session or {}).get("csrf_token")
unfoldable pub session_token : Option Fields → Json
session_token none = null
session_token (some session) = get "csrf_token" session

module _ (urlparse : String → Option Url) (decimal : ℕ → String) where
  port_text : ℕ → String
  port_text zero = ""
  port_text (suc n) = Text.concat ":" (decimal (suc n))

  origin_of : Option Url → Option String
  unfolding port_text
  origin_of none = none
  origin_of (some u) =
      if is_set u.scheme && is_set u.hostname
      then some
          (Text.concat u.scheme (Text.concat "://" (Text.concat u.hostname (port_text u.port))))
      else none

  -- normalize_origin
  unfoldable pub normalize_origin : String → Option String
  unfolding origin_of
  normalize_origin url = origin_of (urlparse url)

  add_new : Option String → List String → List String
  add_new none allowed = allowed
  add_new (some origin) allowed =
      if is_set origin && not (elem origin allowed) then allowed ++ origin ∷ [] else allowed

  -- The two loops have one body: an empty entry is skipped.
  unfoldable pub add_origin : String → List String → List String
  unfolding add_new
  add_origin url allowed =
      if is_set url then add_new (normalize_origin (strip url)) allowed else allowed

  unfoldable pub add_origins : List String → List String → List String
  add_origins [] allowed = allowed
  add_origins (url ∷ urls) allowed = add_origins urls (add_origin url allowed)

  -- get_allowed_origins
  unfoldable pub get_allowed_origins : Settings → List String
  get_allowed_origins s =
      add_origins (s.react_app_url ∷ s.frontend_url ∷ []) (add_origins s.allowed_origins [])

  -- _origin_from_header
  unfoldable pub origin_from_header : Option String → Option String
  origin_from_header value =
      let trimmed = strip (given value) in
      if not (is_set trimmed) || (lower trimmed == "null") then none else normalize_origin trimmed

  is_among : Option String → List String → Bool
  is_among none allowed = false
  is_among (some origin) allowed = elem origin allowed

  or_referer : Option String → Option String → List String → Bool
  unfolding is_among
  or_referer (some origin) referer allowed = elem origin allowed
  or_referer none referer allowed = is_among referer allowed

  -- request_origin_is_allowed
  unfoldable pub request_origin_is_allowed : Settings → Request → Bool
  unfolding or_referer
  request_origin_is_allowed s r =
      or_referer (origin_from_header (r.header "Origin")) (origin_from_header (r.header "Referer"))
        (get_allowed_origins s)

  abbrev pub same_site : Option String → Bool
  same_site site =
      not (is_set (given site)) || elem (lower (given site)) ("same-origin" ∷ "same-site" ∷ [])

  -- The cookie of the current name, or else the plain one.
  unfoldable pub cookie_token : Settings → Request → String
  cookie_token s r =
      let named = given (r.cookie (csrf_cookie_name s)) in
      if is_set named then named else given (r.cookie "csrf_token")

  module _ (render : Json → String) where
    -- The last check: the session has a token and it is the cookie's.
    unfoldable pub token_mismatch : String → Json → Option String
    token_mismatch cookie null = some csrf_failure_detail
    token_mismatch cookie v = if cookie == text_of render v then none else some csrf_failure_detail

    -- csrf_failure_reason
    unfoldable pub csrf_failure_reason : Settings → Request → Option Fields → Option String
    csrf_failure_reason s r session =
        if not (given (r.header "x-requested-with") == "XMLHttpRequest")
        then some csrf_failure_detail
        else if not (request_origin_is_allowed s r)
        then some csrf_failure_detail
        else if not (same_site (r.header "sec-fetch-site"))
        then some csrf_failure_detail
        else let cookie = cookie_token s r in
          let header = given (r.header "X-CSRF-Token") in
          if not (is_set cookie) || not (is_set header)
          then some csrf_failure_detail
          else if not (cookie == header)
          then some csrf_failure_detail
          else token_mismatch cookie (session_token session)

    pub record Cookie : Type 0 where
      pub key : String
      pub value : String
      pub max_age : ℕ
      pub secure : Bool
      pub httponly : Bool
      pub samesite : String

    -- set_csrf_cookie, with what it sets
    unfoldable pub set_csrf_cookie : Settings → Option Fields → Option Cookie
    set_csrf_cookie s session =
        let token = session_token session in
        if truthy token
        then some (record {
          key = csrf_cookie_name s;
          value = text_of render token;
          max_age = s.session_max_age;
          secure = s.session_cookie_secure;
          httponly = false;
          samesite = "lax";
        })
        else none
